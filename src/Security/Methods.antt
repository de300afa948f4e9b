-- ===== src/Security/Methods.antt =====
-- The verification methods of a document by their relationship (`find_relationship_method`).
use oan_protocol_common.Base.{
  String, Bool, true, ◌&&◌, Option, none, some, List, find, ◌==◌, string_eq, ◌≡◌, Result, ok, ok_or,
  find-eq-some, arith, eq_iff,
}
use oan_protocol_common.Core.Document.{DidDocument, VerificationMethod}
use oan_protocol_common.Core.Validate.{lists}
use oan_protocol_common.Security.Error.{SecurityError, missing_verification_method}

pub data VerificationRelationship : Type 0 where
  assertion_method authentication capability_invocation : VerificationRelationship

unfoldable pub as_str : VerificationRelationship → String
as_str assertion_method = "assertionMethod"
as_str authentication = "authentication"
as_str capability_invocation = "capabilityInvocation"

abbrev pub ids_of : DidDocument → VerificationRelationship → List String
ids_of document assertion_method = document.assertion_method
ids_of document authentication = document.authentication
ids_of document capability_invocation = document.capability_invocation

abbrev is_expected : Option String → String → Bool
is_expected none id = true
is_expected (some value) id = value == id

unfoldable pub find_relationship_method :
    DidDocument → VerificationRelationship → Option String → Result SecurityError VerificationMethod
find_relationship_method document relationship expected_method =
    ok_or
      (find (λ m. lists (ids_of document relationship) m.id && is_expected expected_method m.id)
        document.verification_method)
      missing_verification_method

ok_or_inv : {A : Type 0} (o : Option A) (e : SecurityError) (a : A) → ok_or o e ≡ ok a → o ≡ some a
ok_or_inv none e a h = cc
ok_or_inv (some b) e a h = cc

-- A method that is found is listed for the relationship, and has the identifier asked for.
pub find_relationship_method_sound :
    (document : DidDocument) (relationship : VerificationRelationship) (expected : String)
    (method : VerificationMethod)
    → find_relationship_method document relationship (some expected) ≡ ok method
    → (lists (ids_of document relationship) method.id ≡ true) × (method.id ≡ expected)
unfolding find_relationship_method
find_relationship_method_sound document relationship expected method h =
    let passes =
      find-eq-some
        (λ m. lists (ids_of document relationship) m.id && is_expected (some expected) m.id)
        document.verification_method method (ok_or_inv _ _ method h) in
    ground (arith, eq_iff expected method.id)
