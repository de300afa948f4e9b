-- ===== src/Credentials/Identity.antt =====
-- OAN identities: a DID document with the keys of one of its methods.
pub mod Forged
pub mod Sound
use oan_protocol_common.Base.{
  ℕ, String, Bool, true, false, not, ◌&&◌, ◌||◌, Option, none, some, List, any, find, length,
  nat_beq, ◌==◌, ◌!=◌, string_eq, option_eq, if◌then◌else◌, Result, ok, err, ◌>>=◌, ◌>>◌, fail_if,
  ok_or, map_err, is_ok,
}
use oan_protocol_common.Text.{starts_with, strip_prefix}
use oan_protocol_common.Json.{Value}
use oan_protocol_common.Json.Equality.{value_eq}
use oan_protocol_common.Core.Suite.{ed25519_sha256}
use oan_protocol_common.Core.Kinds.{SubjectType, ResourceType, subject_eq, resource_eq}
use oan_protocol_common.Core.Document.{
  DidDocument, DidController, OanMetadata, VerificationMethod, DataIntegrityProof, controls,
}
use oan_protocol_common.Core.Validate.{validate_mvp, lists}
use oan_protocol_common.Core.Profile.Types.{OanProof}
use oan_protocol_common.Crypto.Primitives.{Primitives}
use oan_protocol_common.Crypto.Keys.{
  CryptoError, verifying_key, public_key_jwk, signing_key_from_private_key_jwk,
  verifying_key_from_method,
}
use oan_protocol_common.Crypto.Signatures.{verify_oan_payload}
use oan_protocol_common.Crypto.DocumentProof.{verify_did_document_proof}
use oan_protocol_common.Crypto.DocumentProof.Standard.{
  Ssi, verify_oan_data_integrity, verify_did_document_proof_standard_value,
}
use oan_protocol_common.Credentials.{CredentialError, invalid_signature, invalid_subject, Check}

pub record OanIdentity : Type 0 where
  pub id : String
  pub created_at : String
  pub did : String
  pub verification_method_id : String
  pub did_document : DidDocument
  pub public_key_jwk : Value
  pub private_key_jwk : Value

-- `is_some_and(|controller| controller.contains(did))`
abbrev is_controlled : Option DidController → String → Bool
is_controlled none did = false
is_controlled (some controller) did = controls controller did

abbrev is_controller : Option OanMetadata → Bool
is_controller none = false
is_controller (some metadata) =
    metadata.subject_type == SubjectType.controller
    && metadata.resource_type == ResourceType.controller

abbrev pub find_method : OanIdentity → Option VerificationMethod
find_method self =
    find (λ m. m.id == self.verification_method_id) self.did_document.verification_method

-- the outcome of a call that may panic
pub data Failure : Type 0 where
  error : CredentialError → Failure
  panic : Failure

abbrev pub failing {ℓ} : {A : Type ℓ} → Result CredentialError A → Result Failure A
failing (ok a) = ok a
failing (err e) = err (error e)

module _ (primitives : Primitives) where
  -- the checks of the method that is found
  unfoldable pub check_bound : OanIdentity → VerificationMethod → Check
  check_bound self method = do
    fail_if
        (not (is_controlled self.did_document.controller method.controller)
          || (not (lists self.did_document.authentication self.verification_method_id)
              || not (lists self.did_document.assertion_method self.verification_method_id)))
        invalid_subject
    fail_if
        (is_controller self.did_document.oan_metadata
          && not (is_controlled self.did_document.controller self.did))
        invalid_subject
    fail_if (method.public_key_jwk != some self.public_key_jwk) invalid_subject
    signing_key ←
        map_err (signing_key_from_private_key_jwk primitives ed25519_sha256 self.private_key_jwk)
          invalid_subject
    fail_if
        (public_key_jwk primitives (verifying_key primitives signing_key) != self.public_key_jwk)
        invalid_subject

  unfoldable pub validate_identity_bindings : OanIdentity → Check
  unfolding check_bound
  validate_identity_bindings self = do
    fail_if (self.did != self.did_document.id) invalid_subject
    fail_if
        (self.verification_method_id == ""
          || not (
              any (λ m. m.id == self.verification_method_id) self.did_document.verification_method))
        invalid_subject
    method ← ok_or (find_method self) invalid_subject
    check_bound self method

  -- the checks of the proof where the verifications fail
  unfoldable pub check_shape : String → DataIntegrityProof → Check
  check_shape verification_method_id proof = do
    fail_if
        ((proof.proof_type != "Ed25519Signature2020")
          || ((proof.proof_purpose != "assertionMethod")
              || ((proof.verification_method != some verification_method_id)
                  || not (starts_with "z" proof.proof_value))))
        invalid_signature
    encoded ← ok_or (strip_prefix "z" proof.proof_value) invalid_signature
    signature ← ok_or (primitives.bs58_decode encoded) invalid_signature
    fail_if (not (nat_beq (length signature) 64)) invalid_signature

  module _ (document_value : DidDocument → Value) where
    -- the proof of a document as one of a credential, which has a method
    abbrev pub credential_proof : DataIntegrityProof → String → OanProof
    credential_proof proof verification_method = record {
      proof_type = proof.proof_type;
      created = proof.created;
      proof_purpose = proof.proof_purpose;
      proof_value = proof.proof_value;
      verification_method = verification_method;
    }

    abbrev pub unsigned_value : OanIdentity → Value
    unsigned_value self = document_value (record self.did_document { proof = none })

    -- `unwrap` of the proof's method panics where the proof has none.
    unfoldable pub validate : OanIdentity → Result Failure (Unit {0})
    unfolding validate_identity_bindings
    validate self = do
      failing (validate_identity_bindings self)
      failing (map_err (validate_mvp self.did_document) invalid_subject)
      method ← failing (ok_or (find_method self) invalid_subject)
      key ← failing (map_err (verifying_key_from_method primitives method) invalid_subject)
      proof ← failing (ok_or self.did_document.proof invalid_subject)
      verification_method ← ok_or proof.verification_method panic
      failing (
          map_err
            (verify_oan_payload primitives (unsigned_value self)
              (credential_proof proof verification_method) key)
            invalid_signature)

    module _ (ssi : Ssi) where
      -- whether one of the verifications accepts the identity's document
      unfoldable is_verified : OanIdentity → Bool
      is_verified self =
          is_ok (
            verify_did_document_proof primitives document_value
              (verify_did_document_proof_standard_value primitives ssi) self.did_document)
          || is_ok (
              verify_oan_data_integrity primitives ssi (document_value self.did_document)
                self.public_key_jwk)

      -- The check of the proof's shape is made where no verification accepts.
      abbrev pub or_shape : OanIdentity → Bool → Check
      or_shape self true = ok tt
      or_shape self false = ok_or self.did_document.proof invalid_signature >>= λ proof.
          check_shape self.verification_method_id proof

      unfoldable pub validate_data_integrity : OanIdentity → Check
      unfolding is_verified validate_identity_bindings check_shape
      validate_data_integrity self = do
        validate_identity_bindings self
        map_err (validate_mvp self.did_document) invalid_subject
        or_shape self (is_verified self)
