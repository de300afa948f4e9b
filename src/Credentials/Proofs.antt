-- ===== src/Credentials/Proofs.antt =====
-- The proofs of credentials: signing and verification. A credential is the JSON value that serde makes
-- of it.
pub mod Verify
use Prim.Native.String.{◌++◌ as ◌+s+◌}
use oan_protocol_common.Base.{
  String, Bool, true, false, not, ◌||◌, Option, none, some, ◌==◌, ◌!=◌, string_eq, list_eq, Result,
  ok, err, ◌>>=◌, ◌>>◌, fail_if, ok_or, map_err,
}
use oan_protocol_common.Text.{starts_with, strip_suffix}
use oan_protocol_common.Chrono.{Time}
use oan_protocol_common.Json.{Value, string, object, no_fields, field, get, as_str, remove_field}
use oan_protocol_common.Core.Suite.{CryptoSuite, ed25519_sha256}
use oan_protocol_common.Core.Validate.{key_1}
use oan_protocol_common.Core.Profile.Types.{OanProof}
use oan_protocol_common.Crypto.Primitives.{Primitives}
use oan_protocol_common.Crypto.Canonical.{canonical_json_value}
use oan_protocol_common.Crypto.Keys.{CryptoError, SigningKey, VerifyingKey, private_key_jwk}
use oan_protocol_common.Crypto.Signatures.{
  hash_json_with_suite, signature_input, verify_oan_payload,
}
use oan_protocol_common.Crypto.DocumentProof.Standard.{Ssi, member, verify_oan_data_integrity}
use oan_protocol_common.Crypto.DocumentProof.Sign.{SsiSigner, sign_oan_data_integrity}
use oan_protocol_common.Credentials.{
  CredentialError, crypto, missing_proof, invalid_signature, invalid_subject, serialization,
  OanVerifiableCredential, oan_vc_contexts, Check,
}

-- `?` on a result of oan-crypto
abbrev pub lift {ℓ} : {A : Type ℓ} → Result CryptoError A → Result CredentialError A
lift (ok a) = ok a
lift (err error) = err (crypto error)

-- a value without a member, if it is an object
abbrev pub without : String → Value → Value
without key (object map) = object (remove_field key map)
without key v = v

-- `as_object_mut` and `remove`, where no object is an error
abbrev pub remove_proof : Value → Result CredentialError Value
remove_proof (object map) = ok (object (remove_field "proof" map))
remove_proof v = err invalid_subject

-- `map_err(CredentialError::Serialization)`
abbrev parsed : Result String OanProof → Result CredentialError OanProof
parsed (ok proof) = ok proof
parsed (err text) = err (serialization text)

module _ (primitives : Primitives) where
  unfoldable proof_payload_hash : CryptoSuite → Value → String
  proof_payload_hash suite credential = hash_json_with_suite primitives suite credential

  -- `now` is the clock's time.
  unfoldable pub sign_credential :
      Time → Value → String → String → SigningKey → Result CredentialError OanProof
  sign_credential now credential_without_proof creator verification_method
        (SigningKey.ed25519 suite key) =
      ok (record {
        proof_type = "Ed25519Signature2020";
        created = now;
        proof_purpose = "assertionMethod";
        proof_value =
            "z"
            +s+ primitives.bs58_encode (
                primitives.ed25519_sign key
                  (signature_input primitives ed25519_sha256 credential_without_proof));
        verification_method = verification_method;
      })
  sign_credential now credential_without_proof creator verification_method
        (SigningKey.sm2 suite key) =
      err invalid_signature

  unfoldable pub verify_signed_payload : Value → Option OanProof → VerifyingKey → Check
  verify_signed_payload payload_without_proof optional verifying_key = do
    proof ← ok_or optional missing_proof
    map_err (verify_oan_payload primitives payload_without_proof proof verifying_key)
        invalid_signature

  -- The signature's input is the canonical text in UTF-8, so `from_utf8_lossy` is that text.
  unfoldable proof_matches_payload : Value → Option OanProof → Result CredentialError String
  proof_matches_payload payload_without_proof optional = do
    proof ← ok_or optional missing_proof
    ok (
        hash_json_with_suite primitives ed25519_sha256 (
          object (
            field "payloadInput" (string (canonical_json_value primitives payload_without_proof))
              (field "proofValue" (string proof.proof_value) no_fields))))

  -- `value` is serde's encoding of credentials.
  unfoldable pub verify_oan_credential :
      {T : Type 0}
      → (OanVerifiableCredential T → Value)
      → OanVerifiableCredential T
      → VerifyingKey
      → Check
  unfolding verify_signed_payload
  verify_oan_credential value credential issuer_verifying_key = do
    fail_if (credential.context != oan_vc_contexts) invalid_subject
    fail_if
        ((credential.proof.proof_type != "Ed25519Signature2020")
          || ((credential.proof.proof_purpose != "assertionMethod")
              || (not (starts_with (credential.issuer +s+ "#") credential.proof.verification_method)
                  || not (starts_with "z" credential.proof.proof_value))))
        invalid_signature
    unsigned ← remove_proof (value credential)
    verify_signed_payload unsigned (some credential.proof) issuer_verifying_key

  module _ (ssi : Ssi) where
    unfoldable verify_credential_data_integrity : Value → Value → Check
    verify_credential_data_integrity value issuer_public_key_jwk = do
      issuer ← ok_or (as_str (get value "issuer")) invalid_subject
      verification_method ←
          ok_or (as_str (member (get value "proof") "verificationMethod")) invalid_signature
      fail_if (verification_method != key_1 issuer) invalid_signature
      lift (verify_oan_data_integrity primitives ssi value issuer_public_key_jwk)

    -- `parse_proof` is serde's reading of a proof, whose failure has a text.
    unfoldable sign_credential_data_integrity :
        SsiSigner
        → (Value → Result String OanProof)
        → Value
        → String
        → SigningKey
        → Result CredentialError OanProof
    sign_credential_data_integrity signer parse_proof credential verification_method signing_key =
        do
          did ← ok_or (strip_suffix "#key-1" verification_method) invalid_signature
          signed ← lift (
              sign_oan_data_integrity primitives ssi signer (without "proof" credential) did
                (private_key_jwk primitives signing_key))
          proof ← ok_or (get signed "proof") missing_proof
          parsed (parse_proof (without "@context" proof))
