-- ===== src/Security/Claims/Binding.antt =====
-- What claims are accepted for a registration.
use oan_protocol_common.Base.{
  String, ◌≡◌, ◌↔◌, refl, ap, ◌∙◌, Bool, true, false, not, Option, none, some, is_some, ◌!=◌,
  string_eq, option_eq, option_beq_iff, arith, eq_iff, Result, ok, ◌>>◌, fail_if-eq-ok,
  fail_if-last, ok_or-eq-ok,
}
use oan_protocol_common.Chrono.{Time}
use oan_protocol_common.Json.{Value, get, as_str}
use oan_protocol_common.Protocol.{SubjectControlProofBundle}
use oan_protocol_common.Security.Error.{SecurityError, registration_binding_invalid}
use oan_protocol_common.Security.Claims.{
  build_registration_binding_claims, verify_registration_binding_claims, check_binding, check_hash,
  check_member,
}

-- The member of an object is a text.
abbrev pub Has : Value → String → String → Type 0
Has v key s = as_str (get v key) ≡ some s

-- The hash of the proof, where the bundle has one.
abbrev HasHash : Value → Option String → Type 0
HasHash binding none = Unit
HasHash binding (some expected) = Has binding "proofHash" expected

-- What the binding has to say.
abbrev pub Binds : Value → String → String → String → SubjectControlProofBundle → Type 0
Binds binding subject_did registrar_did purpose bundle =
    Has binding "subjectDid" subject_did
    × Has binding "challengeId" bundle.challenge.challenge_id
    × Has binding "draftId" bundle.challenge.draft_id
    × Has binding "verificationMethod" bundle.challenge.verification_method
    × Has binding "registrarDid" registrar_did
    × Has binding "purpose" purpose
    × (is_some (get binding "verifiedAt") ≡ true)
    × HasHash binding bundle.proof_hash

ne_iff : (o : Option String) (s : String) → ((o != some s) ≡ false) ↔ (o ≡ some s)
ne_iff o s = ground (arith, option_beq_iff o (some s))

str_iff : (s t : String) → ((s != t) ≡ false) ↔ (s ≡ t)
str_iff s t = ground (arith, eq_iff s t)

not_iff : (b : Bool) → (not b ≡ false) ↔ (b ≡ true)
not_iff b = ground arith

member_iff :
    (v : Value) (key s : String) (rest : Result SecurityError (Unit {0}))
    → ((check_member v key s >> rest) ≡ ok tt) ↔ (Has v key s × (rest ≡ ok tt))
member_iff v key s rest = (
  λ h.
      let (a, k) = (fail_if-eq-ok _ registration_binding_invalid rest tt).0 h in
      ((ne_iff (as_str (get v key)) s).0 a, k),
  λ h.
      (fail_if-eq-ok _ registration_binding_invalid rest tt).1
        ((ne_iff (as_str (get v key)) s).1 h.0, h.1),
)

hash_iff : (v : Value) (o : Option String) → (check_hash v o ≡ ok tt) ↔ HasHash v o
hash_iff v none = ((λ h. tt), (λ h. refl))
hash_iff v (some s) = (
  λ h. (ne_iff _ s).0 ((fail_if-last _ registration_binding_invalid).0 h),
  λ h. (fail_if-last _ registration_binding_invalid).1 ((ne_iff _ s).1 h),
)

check_binding_iff :
    (binding : Value) (subject registrar purpose : String) (bundle : SubjectControlProofBundle)
    → (check_binding binding subject registrar purpose bundle ≡ ok tt)
      ↔ Binds binding subject registrar purpose bundle
unfolding check_binding
check_binding_iff binding subject registrar purpose bundle = (
  λ h.
      let (a, h1) = (member_iff binding "subjectDid" subject _).0 h in
      let (b, h2) = (member_iff binding "challengeId" bundle.challenge.challenge_id _).0 h1 in
      let (c, h3) = (member_iff binding "draftId" bundle.challenge.draft_id _).0 h2 in
      let (d, h4) =
        (member_iff binding "verificationMethod" bundle.challenge.verification_method _).0 h3 in
      let (e, h5) = (member_iff binding "registrarDid" registrar _).0 h4 in
      let (f, h6) = (member_iff binding "purpose" purpose _).0 h5 in
      let (g, h7) = (fail_if-eq-ok _ registration_binding_invalid _ tt).0 h6 in
      (a, b, c, d, e, f, (not_iff _).0 g, (hash_iff binding bundle.proof_hash).0 h7),
  λ h.
      let (a, b, c, d, e, f, g, k) = h in
      (member_iff binding "subjectDid" subject _).1 (
        a,
        (member_iff binding "challengeId" bundle.challenge.challenge_id _).1 (
          b,
          (member_iff binding "draftId" bundle.challenge.draft_id _).1 (
            c,
            (member_iff binding "verificationMethod" bundle.challenge.verification_method _).1 (
              d,
              (member_iff binding "registrarDid" registrar _).1 (
                e,
                (member_iff binding "purpose" purpose _).1 (
                  f,
                  (fail_if-eq-ok _ registration_binding_invalid _ tt).1
                      ((not_iff _).1 g, (hash_iff binding bundle.proof_hash).1 k),
                ),
              ),
            ),
          ),
        ),
      ),
)

-- Claims are accepted exactly when they have the hash of the document, and a binding with the
-- subject, registrar, purpose, and the challenge's identifiers and method, some time of
-- verification, and the hash of the proof where the bundle has one.
pub verify_registration_binding_claims_iff :
    (claims : Value) (subject hash registrar purpose : String) (bundle : SubjectControlProofBundle)
    → (verify_registration_binding_claims claims subject hash registrar purpose bundle ≡ ok tt) ↔ (
        Has claims "didDocumentHash" hash
        × ((binding : Value) × (get claims "registrationBinding" ≡ some binding)
            × Binds binding subject registrar purpose bundle))
unfolding verify_registration_binding_claims
verify_registration_binding_claims_iff claims subject hash registrar purpose bundle = (
  λ h.
      let (said, found, h1) = (ok_or-eq-ok _ registration_binding_invalid _ tt).0 h in
      let (same, h2) = (fail_if-eq-ok _ registration_binding_invalid _ tt).0 h1 in
      let (binding, bound, h3) =
        (ok_or-eq-ok (get claims "registrationBinding") registration_binding_invalid
            (λ b. check_binding b subject registrar purpose bundle) tt).0
          h2 in
      (
        found ∙ ap some ((str_iff said hash).0 same),
        (binding, bound, (check_binding_iff binding subject registrar purpose bundle).0 h3),
      ),
  λ h.
      let (found, (binding, bound, binds)) = h in
      (ok_or-eq-ok _ registration_binding_invalid _ tt).1 (
        hash,
        found,
        (fail_if-eq-ok _ registration_binding_invalid _ tt).1 (
          (str_iff hash hash).1 refl,
          (ok_or-eq-ok _ registration_binding_invalid
                (λ b. check_binding b subject registrar purpose bundle) tt).1
              (
                binding,
                bound,
                (check_binding_iff binding subject registrar purpose bundle).1 binds,
              ),
        ),
      ),
)

module _ (rfc3339 : Time → String) where
  -- Claims that are built from a challenge are accepted for it.
  verify-build :
      (hash : String) (proof_hash : String) (verified_at : Time)
      (bundle : SubjectControlProofBundle)
      → bundle.proof_hash ≡ some proof_hash
      → verify_registration_binding_claims
          (build_registration_binding_claims rfc3339 hash bundle.challenge proof_hash verified_at)
          bundle.challenge.subject_did
          hash
          bundle.challenge.registrar_did
          bundle.challenge.purpose
          bundle
        ≡ ok tt
  unfolding build_registration_binding_claims get
  verify-build hash proof_hash verified_at bundle same =
      (verify_registration_binding_claims_iff
          (build_registration_binding_claims rfc3339 hash bundle.challenge proof_hash verified_at)
          bundle.challenge.subject_did hash bundle.challenge.registrar_did bundle.challenge.purpose
          bundle).1
        (refl, (_, refl, (refl, refl, refl, refl, refl, refl, refl, rw same refl)))
