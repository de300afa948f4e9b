-- ===== src/Security/Control.antt =====
-- Proofs of control: the subject's, and the controller's authorization
-- (`verify_subject_control_proof`, `verify_controller_authorization_proof`).
pub mod Challenges
pub mod Secrets
pub mod Authorization
pub mod Subject
use oan_protocol_common.Base.{
  String, Bool, true, false, not, ◌&&◌, ◌||◌, Option, none, some, ◌!=◌, ◌==◌, string_eq, option_eq,
  Result, ok, err, ◌>>=◌, ◌>>◌, fail_if, map_err,
}
use oan_protocol_common.Base.Int.{ℤ, ◌+ℤ◌, ltb_ℤ}
use oan_protocol_common.Text.{is_blank}
use oan_protocol_common.Chrono.{Time, seconds}
use oan_protocol_common.Json.{
  Value, array, object, Values, no_values, value, Fields, no_fields, field,
}
use oan_protocol_common.Core.Document.{DidDocument, DataIntegrityProof, VerificationMethod}
use oan_protocol_common.Crypto.Primitives.{Primitives}
use oan_protocol_common.Crypto.Keys.{verifying_key_from_method}
use oan_protocol_common.Crypto.Signatures.{verify_payload_with_proof}
use oan_protocol_common.Protocol.{
  DidControlChallenge, SubjectControlProofBundle, ControllerAuthorizationChallenge,
  ControllerAuthorizationProofBundle, purpose_controller_authorization_registration,
}
use oan_protocol_common.Protocol.Encode.{control_value, authorization_value}
use oan_protocol_common.Security.Error.{
  SecurityError, controller_authorization_resource_mismatch,
  controller_authorization_controller_mismatch, controller_authorization_publisher_mismatch,
  controller_authorization_did_document_hash_mismatch,
  controller_authorization_metadata_hash_mismatch, controller_authorization_registrar_mismatch,
  controller_authorization_purpose_mismatch, controller_authorization_nonce_missing,
  controller_authorization_time_window_invalid, controller_authorization_challenge_not_yet_valid,
  controller_authorization_challenge_expired, controller_authorization_did_document_id_mismatch,
  controller_authorization_private_key_material,
  controller_authorization_method_controller_mismatch, controller_authorization_proof_invalid,
  controller_authorization_proof_purpose_mismatch, controller_authorization_proof_creator_mismatch,
  controller_authorization_verification_method_mismatch, subject_control_subject_mismatch,
  subject_control_did_document_hash_mismatch, subject_control_registrar_mismatch,
  subject_control_purpose_mismatch, subject_control_challenge_expired,
  subject_control_proof_invalid, subject_control_verification_method_mismatch,
}
use oan_protocol_common.Security.Methods.{
  find_relationship_method, assertion_method, capability_invocation,
}

pub record DidControlVerificationContext : Type 0 where
  pub expected_subject_did : String
  pub expected_did_document_hash : String
  pub expected_registrar_did : String
  pub expected_purpose : String
  pub now : Time

pub record AuthorizationContext : Type 0 where
  pub expected_resource_did : String
  pub expected_controller_did : String
  pub expected_publisher_did : Option String
  pub expected_did_document_hash : String
  pub expected_metadata_hash : String
  pub expected_registrar_did : String
  pub expected_purpose : String
  pub max_clock_skew_seconds : ℤ
  pub now : Time

-- the keys of a JSON object that hold secrets
abbrev pub is_secret : String → Bool
is_secret key =
    key == "privateKeyJwk"
    || (key == "privateKeyMultibase"
        || (key == "privateKeyBase58" || (key == "privateKeyHex" || key == "d")))

unfoldable mutual
  pub contains_private_key_material : Value → Bool
  contains_private_key_material (object map) = any_field map
  contains_private_key_material (array values) = any_value values
  contains_private_key_material _ = false

  pub any_value : Values → Bool
  any_value no_values = false
  any_value (value v vs) = contains_private_key_material v || any_value vs

  pub any_field : Fields → Bool
  any_field no_fields = false
  any_field (field key v map) = (is_secret key || contains_private_key_material v) || any_field map

-- the proof's method, where it names one, is the challenge's
unfoldable pub check_named_method :
    Option String → String → SecurityError → Result SecurityError (Unit {0})
check_named_method none expected e = ok tt
check_named_method (some named) expected e = fail_if (named != expected) e

-- `a.or_else(|_| b)`
abbrev pub or_try {ℓ} :
    {A : Type ℓ} → Result SecurityError A → Result SecurityError A → Result SecurityError A
or_try (ok a) b = ok a
or_try (err e) b = b

-- the fields of a subject's challenge, and its time
unfoldable pub check_control :
    DidControlChallenge → DidControlVerificationContext → Result SecurityError (Unit {0})
check_control challenge context = do
  fail_if (challenge.subject_did != context.expected_subject_did) subject_control_subject_mismatch
  fail_if (challenge.did_document_hash != context.expected_did_document_hash)
      subject_control_did_document_hash_mismatch
  fail_if (challenge.registrar_did != context.expected_registrar_did)
      subject_control_registrar_mismatch
  fail_if (challenge.purpose != context.expected_purpose) subject_control_purpose_mismatch
  fail_if (ltb_ℤ challenge.expires_at context.now) subject_control_challenge_expired

-- the fields of a controller's challenge
unfoldable pub check_authorization_fields :
    ControllerAuthorizationChallenge → AuthorizationContext → Result SecurityError (Unit {0})
check_authorization_fields challenge context = do
  fail_if (challenge.resource_did != context.expected_resource_did)
      controller_authorization_resource_mismatch
  fail_if (challenge.controller_did != context.expected_controller_did)
      controller_authorization_controller_mismatch
  fail_if (challenge.publisher_did != context.expected_publisher_did)
      controller_authorization_publisher_mismatch
  fail_if (challenge.did_document_hash != context.expected_did_document_hash)
      controller_authorization_did_document_hash_mismatch
  fail_if (challenge.metadata_hash != context.expected_metadata_hash)
      controller_authorization_metadata_hash_mismatch
  fail_if (challenge.registrar_did != context.expected_registrar_did)
      controller_authorization_registrar_mismatch
  fail_if (challenge.purpose != context.expected_purpose) controller_authorization_purpose_mismatch

-- its nonce and its times
unfoldable pub check_authorization_times :
    ControllerAuthorizationChallenge → AuthorizationContext → Result SecurityError (Unit {0})
check_authorization_times challenge context = do
  fail_if (is_blank challenge.nonce) controller_authorization_nonce_missing
  fail_if (ltb_ℤ challenge.expires_at challenge.issued_at)
      controller_authorization_time_window_invalid
  fail_if (ltb_ℤ (context.now +ℤ seconds context.max_clock_skew_seconds) challenge.issued_at)
      controller_authorization_challenge_not_yet_valid
  fail_if (ltb_ℤ challenge.expires_at context.now) controller_authorization_challenge_expired

-- `document_value` is serde's encoding of a document.
module _ (document_value : DidDocument → Value) where
  unfoldable reject_private_key_material : DidDocument → Result SecurityError (Unit {0})
  unfolding contains_private_key_material
  reject_private_key_material document =
      fail_if (contains_private_key_material (document_value document))
        controller_authorization_private_key_material

-- the method, for an invocation of a capability or for an assertion
abbrev pub authorizing_method :
    ControllerAuthorizationProofBundle → Result SecurityError VerificationMethod
authorizing_method bundle =
    or_try
      (find_relationship_method bundle.controller_did_document capability_invocation
        (some bundle.challenge.verification_method))
      (find_relationship_method bundle.controller_did_document assertion_method
        (some bundle.challenge.verification_method))

module _ (primitives : Primitives) (rfc3339 : Time → String) where
  -- the checks by a method of the subject
  unfoldable pub check_control_signature :
      SubjectControlProofBundle → VerificationMethod → Result SecurityError String
  unfolding check_named_method
  check_control_signature bundle method = do
    key ← map_err (verifying_key_from_method primitives method) subject_control_proof_invalid
    map_err
        (verify_payload_with_proof primitives (control_value rfc3339 bundle.challenge) bundle.proof
          key)
        subject_control_proof_invalid
    check_named_method bundle.proof.verification_method bundle.challenge.verification_method
        subject_control_verification_method_mismatch
    ok method.id

  unfoldable pub verify_subject_control_proof :
      SubjectControlProofBundle
      → DidDocument
      → DidControlVerificationContext
      → Result SecurityError String
  unfolding check_control check_control_signature
  verify_subject_control_proof bundle document context =
      check_control bundle.challenge context
      >> (find_relationship_method document assertion_method
            (some bundle.challenge.verification_method)
          >>= check_control_signature bundle)

  -- the checks by a method of the controller
  unfoldable pub check_authorization_signature :
      ControllerAuthorizationProofBundle → VerificationMethod → Result SecurityError String
  unfolding check_named_method
  check_authorization_signature bundle method = do
    fail_if (method.controller != bundle.challenge.controller_did)
        controller_authorization_method_controller_mismatch
    key ←
        map_err (verifying_key_from_method primitives method) controller_authorization_proof_invalid
    fail_if
        ((bundle.proof.proof_purpose != "capabilityInvocation")
          && (bundle.proof.proof_purpose != "assertionMethod"))
        controller_authorization_proof_purpose_mismatch
    fail_if
        ((bundle.proof.creator != bundle.challenge.controller_did)
          && (bundle.proof.creator != bundle.challenge.verification_method))
        controller_authorization_proof_creator_mismatch
    map_err
        (verify_payload_with_proof primitives (authorization_value rfc3339 bundle.challenge)
          bundle.proof key)
        controller_authorization_proof_invalid
    check_named_method bundle.proof.verification_method bundle.challenge.verification_method
        controller_authorization_verification_method_mismatch
    ok method.id

module _ (primitives : Primitives) (rfc3339 : Time → String)
    (document_value : DidDocument → Value) where
  unfoldable pub verify_controller_authorization_proof :
      ControllerAuthorizationProofBundle → AuthorizationContext → Result SecurityError String
  unfolding check_authorization_fields check_authorization_times reject_private_key_material
      check_authorization_signature
  verify_controller_authorization_proof bundle context = do
    check_authorization_fields bundle.challenge context
    check_authorization_times bundle.challenge context
    fail_if (bundle.controller_did_document.id != bundle.challenge.controller_did)
        controller_authorization_did_document_id_mismatch
    reject_private_key_material document_value bundle.controller_did_document
    authorizing_method bundle >>= check_authorization_signature primitives rfc3339 bundle
