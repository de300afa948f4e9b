-- ===== src/Security/Control/Subject.antt =====
-- A subject that answers its challenge is accepted until the challenge expires.
use oan_protocol_common.Base.{
  String, ◌≡◌, ◌↔◌, refl, false, none, some, ◌!=◌, string_eq, arith, eq_iff, ok, fail_if,
  fail_if-eq-ok,
}
use oan_protocol_common.Base.Int.{ℤ, ltb_ℤ, ◌≤ℤ◌}
use oan_protocol_common.Chrono.{Time}
use oan_protocol_common.Core.Document.{DidDocument, VerificationMethod, DataIntegrityProof}
use oan_protocol_common.Crypto.Primitives.{Primitives}
use oan_protocol_common.Crypto.Keys.{SigningKey, verifying_key, verifying_key_from_method}
use oan_protocol_common.Crypto.Signatures.{build_data_integrity_proof}
use oan_protocol_common.Crypto.Signatures.Verify.{
  Signs, built, built_verifies, build_data_integrity_proof_lem,
}
use oan_protocol_common.Protocol.{DidControlChallenge, SubjectControlProofBundle}
use oan_protocol_common.Protocol.Encode.{control_value}
use oan_protocol_common.Security.Error.{subject_control_challenge_expired}
use oan_protocol_common.Security.Methods.{find_relationship_method, assertion_method}
use oan_protocol_common.Security.Control.{
  DidControlVerificationContext, check_control, check_control_signature,
  verify_subject_control_proof,
}

same : (s : String) → (s != s) ≡ false
same s = ground (arith, eq_iff s s)

not_after : (a b : ℤ) → (ltb_ℤ b a ≡ false) ↔ (a ≤ℤ b)
not_after a b = ground arith

-- What the registrar expects of the answer to a challenge.
abbrev pub expecting : DidControlChallenge → Time → DidControlVerificationContext
expecting challenge now = record {
  expected_subject_did = challenge.subject_did;
  expected_did_document_hash = challenge.did_document_hash;
  expected_registrar_did = challenge.registrar_did;
  expected_purpose = challenge.purpose;
  now = now;
}

abbrev pub answer : DidControlChallenge → DataIntegrityProof → SubjectControlProofBundle
answer challenge proof = record {
  challenge = challenge;
  proof = proof;
  verified_at = none;
  verified_verification_method = none;
  proof_hash = none;
}

check_control-expecting :
    (challenge : DidControlChallenge) (now : Time)
    → check_control challenge (expecting challenge now)
      ≡ fail_if (ltb_ℤ challenge.expires_at now) subject_control_challenge_expired
unfolding check_control
check_control-expecting challenge now = rw (same challenge.subject_did) (
    rw (same challenge.did_document_hash)
      (rw (same challenge.registrar_did) (rw (same challenge.purpose) refl)))

module _ (primitives : Primitives) (rfc3339 : Time → String) (signs : Signs primitives) where
  check_control_signature-answer :
      (challenge : DidControlChallenge) (created : Time) (creator : String) (key : SigningKey)
      (method : VerificationMethod)
      → verifying_key_from_method primitives method ≡ ok (verifying_key primitives key)
      → check_control_signature primitives rfc3339
          (answer challenge (
            built primitives signs created
              (control_value rfc3339 challenge)
              creator
              challenge.verification_method
              key))
          method
        ≡ ok method.id
  unfolding check_control_signature
  check_control_signature-answer challenge created creator key method held = rw held (
      rw
        (built_verifies primitives signs created (control_value rfc3339 challenge) creator
          challenge.verification_method key)
        (rw (same challenge.verification_method) refl))

  -- A challenge that is signed with the key of the method it names, which the document lists for
  -- assertion, is accepted by a verifier that expects it exactly until the challenge expires.
  pub answer_in_time :
      (challenge : DidControlChallenge) (created now : Time) (creator : String) (key : SigningKey)
      (document : DidDocument) (method : VerificationMethod)
      → find_relationship_method document assertion_method (some challenge.verification_method)
        ≡ ok method
      → verifying_key_from_method primitives method ≡ ok (verifying_key primitives key)
      → (proof : DataIntegrityProof) × (build_data_integrity_proof primitives created
            (control_value rfc3339 challenge)
            creator
            challenge.verification_method
            key
          ≡ ok proof)
        × ((verify_subject_control_proof primitives rfc3339
                (answer challenge proof)
                document
                (expecting challenge now)
              ≡ ok method.id)
            ↔ (now ≤ℤ challenge.expires_at))
  unfolding verify_subject_control_proof
  answer_in_time challenge created now creator key document method found held =
      let signature = check_control_signature-answer challenge created creator key method held in
      (
        built primitives signs created (control_value rfc3339 challenge) creator
            challenge.verification_method key,
        build_data_integrity_proof_lem primitives signs created (control_value rfc3339 challenge)
            creator challenge.verification_method key,
        rw (check_control-expecting challenge now) (
            rw found (
              rw signature (
                λ h.
                    (not_after now challenge.expires_at).0
                      ((fail_if-eq-ok _ _ (ok method.id) method.id).0 h).0,
                λ h.
                    (fail_if-eq-ok _ _ (ok method.id) method.id).1
                      ((not_after now challenge.expires_at).1 h, refl),
              ))),
      )
