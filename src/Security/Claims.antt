-- ===== src/Security/Claims.antt =====
-- The claims that bind a registration to its proof, and the tokens of administrators
-- (`build_registration_binding_claims`, `verify_registration_binding_claims`, `verify_admin_token`).
pub mod Binding
use oan_protocol_common.Base.{
  String, Bool, not, Option, none, some, List, any, is_some, ◌==◌, ◌!=◌, string_eq, option_eq,
  if◌then◌else◌, Result, ok, err, ◌>>=◌, ◌>>◌, fail_if, ok_or,
}
use oan_protocol_common.Base.Int.{ℤ}
use oan_protocol_common.Text.{strip_prefix, trim}
use oan_protocol_common.Chrono.{Time}
use oan_protocol_common.Json.{Value, string, object, no_fields, field, get, as_str}
use oan_protocol_common.Core.Document.{DidDocument}
use oan_protocol_common.Protocol.{DidControlChallenge, SubjectControlProofBundle, registration_flow}
use oan_protocol_common.Security.Error.{
  SecurityError, registration_binding_invalid, admin_auth_required, admin_auth_invalid,
}

-- `Utc`'s text of a time
module _ (rfc3339 : Time → String) where
  unfoldable pub build_registration_binding_claims :
      String → DidControlChallenge → String → Time → Value
  build_registration_binding_claims did_document_hash challenge proof_hash verified_at = object (
      field "didDocumentHash" (string did_document_hash) (
        field "registrationBinding"
          (object (
            field "challengeId" (string challenge.challenge_id) (
              field "draftId" (string challenge.draft_id) (
                field "flow" (string registration_flow) (
                  field "proofHash" (string proof_hash) (
                    field "purpose" (string challenge.purpose) (
                      field "registrarDid" (string challenge.registrar_did) (
                        field "subjectDid" (string challenge.subject_did) (
                          field "verificationMethod" (string challenge.verification_method)
                            (field "verifiedAt" (string (rfc3339 verified_at)) no_fields))))))))))
          no_fields))

-- the text of a binding's member is the expected one
abbrev pub check_member : Value → String → String → Result SecurityError (Unit {0})
check_member binding key expected =
    fail_if (as_str (get binding key) != some expected) registration_binding_invalid

abbrev pub check_hash : Value → Option String → Result SecurityError (Unit {0})
check_hash binding none = ok tt
check_hash binding (some expected) = check_member binding "proofHash" expected

-- the checks of the binding itself
unfoldable pub check_binding :
    Value → String → String → String → SubjectControlProofBundle → Result SecurityError (Unit {0})
check_binding binding subject_did registrar_did expected_purpose bundle = do
  check_member binding "subjectDid" subject_did
  check_member binding "challengeId" bundle.challenge.challenge_id
  check_member binding "draftId" bundle.challenge.draft_id
  check_member binding "verificationMethod" bundle.challenge.verification_method
  check_member binding "registrarDid" registrar_did
  check_member binding "purpose" expected_purpose
  fail_if (not (is_some (get binding "verifiedAt"))) registration_binding_invalid
  check_hash binding bundle.proof_hash

unfoldable pub verify_registration_binding_claims :
    Value
    → String
    → String
    → String
    → String
    → SubjectControlProofBundle
    → Result SecurityError (Unit {0})
unfolding check_binding
verify_registration_binding_claims claims subject_did did_document_hash registrar_did
      expected_purpose bundle =
    do
      claim_hash ← ok_or (as_str (get claims "didDocumentHash")) registration_binding_invalid
      fail_if (claim_hash != did_document_hash) registration_binding_invalid
      binding ← ok_or (get claims "registrationBinding") registration_binding_invalid
      check_binding binding subject_did registrar_did expected_purpose bundle

-- The fields of the other mode are not read.
pub data AdminAuthMode : Type 0 where
  static_token : List String → AdminAuthMode
  signed_did : List DidDocument → ℤ → ℤ → String → String → AdminAuthMode

pub record AdminPrincipal : Type 0 where
  pub subject : String
  pub verification_method : String

unfoldable verify_admin_token : Option String → AdminAuthMode → Result SecurityError AdminPrincipal
verify_admin_token provided_token (static_token tokens) = do
  token ← ok_or provided_token admin_auth_required
  if any (λ v. v == token) tokens
      then ok (record { subject = "static-admin"; verification_method = "static-token" })
      else err admin_auth_invalid
verify_admin_token provided_token (signed_did _ _ _ _ _) = err admin_auth_required

abbrev trimmed : Option String → Option String
trimmed none = none
trimmed (some token) = some (trim token)

unfoldable bearer_token_from_header : Option String → Option String
bearer_token_from_header none = none
bearer_token_from_header (some header) = trimmed (strip_prefix "Bearer " header)
