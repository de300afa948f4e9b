-- ===== src/Crypto/Signatures.antt =====
-- Hashes, signatures and proofs over the canonical text of a payload. A payload is the JSON value
-- that `serde_json::to_value` makes of it.
pub mod Verify
pub mod Collisions
use Prim.Native.String.{◌++◌ as ◌+s+◌}
use oan_protocol_common.Base.{
  ℕ, String, ◌||◌, not, none, some, List, length, nat_beq, ◌==◌, ◌!=◌, string_eq, if◌then◌else◌,
  Result, ok, err, ◌>>=◌, ◌>>◌, fail_if, ok_or,
}
use oan_protocol_common.Text.{strip_prefix, starts_with}
use oan_protocol_common.Text.Utf8.{as_bytes}
use oan_protocol_common.Chrono.{Time}
use oan_protocol_common.Json.{Value}
use oan_protocol_common.Core.Suite.{
  CryptoSuite, ed25519_sha256_legacy, ed25519_sha256, sm2_sm3, suite_eq, proof_type,
  canonical_hash_algorithm,
}
use oan_protocol_common.Core.Document.{DataIntegrityProof}
use oan_protocol_common.Core.Profile.Types.{OanProof}
use oan_protocol_common.Crypto.Primitives.{Primitives}
use oan_protocol_common.Crypto.Canonical.{canonical_json_value}
use oan_protocol_common.Crypto.Keys.{
  CryptoError, unsupported_crypto_suite, invalid_signature, invalid_proof, verification_failed,
  SigningKey, VerifyingKey, suite_of_signing_key, suite_of_verifying_key, crypto_suite_from_proof,
}

module _ (primitives : Primitives) where
  unfoldable pub hash_hex : CryptoSuite → List ℕ → String
  hash_hex sm2_sm3 payload = primitives.sm3_hex payload
  hash_hex _ payload = primitives.sha256_hex payload

  unfoldable pub hash_json_with_suite : CryptoSuite → Value → String
  unfolding hash_hex
  hash_json_with_suite suite value =
      hash_hex suite (as_bytes (canonical_json_value primitives value))

  unfoldable hash_json : Value → String
  unfolding hash_json_with_suite
  hash_json value = hash_json_with_suite ed25519_sha256_legacy value

  -- The legacy suite signs the hash of the canonical text, the others the text.
  unfoldable pub signature_input : CryptoSuite → Value → List ℕ
  unfolding hash_hex
  signature_input ed25519_sha256_legacy value =
      as_bytes (hash_hex ed25519_sha256_legacy (as_bytes (canonical_json_value primitives value)))
  signature_input _ value = as_bytes (canonical_json_value primitives value)

  unfoldable pub sign_bytes : SigningKey → List ℕ → String
  sign_bytes (SigningKey.ed25519 suite key) payload =
      primitives.base64_encode (primitives.ed25519_sign key payload)
  sign_bytes (SigningKey.sm2 suite key) payload =
      primitives.base64_encode (primitives.sm2_sign key payload)

  unfoldable pub sign_bytes_multibase : SigningKey → List ℕ → Result CryptoError String
  unfolding sign_bytes
  sign_bytes_multibase signing_key payload = do
    signature ← ok_or (primitives.base64_decode (sign_bytes signing_key payload)) invalid_signature
    ok ("z" +s+ primitives.bs58_encode signature)

  -- the check of a signature's bytes by a key
  unfoldable pub verify_signature_bytes :
      VerifyingKey → List ℕ → List ℕ → Result CryptoError (Unit {0})
  verify_signature_bytes (VerifyingKey.ed25519 suite key) payload signature = do
    fail_if (not (nat_beq (length signature) 64)) invalid_signature
    fail_if (not (primitives.ed25519_verify key payload signature)) verification_failed
  verify_signature_bytes (VerifyingKey.sm2 suite key) payload signature = do
    fail_if (not (primitives.sm2_signature signature)) invalid_signature
    fail_if (not (primitives.sm2_verify key payload signature)) verification_failed

  unfoldable pub verify_bytes_multibase :
      VerifyingKey → List ℕ → String → Result CryptoError (Unit {0})
  unfolding verify_signature_bytes
  verify_bytes_multibase verifying_key payload signature_multibase = do
    encoded ← ok_or (strip_prefix "z" signature_multibase) invalid_signature
    signature ← ok_or (primitives.bs58_decode encoded) invalid_signature
    fail_if (not (nat_beq (length signature) 64)) invalid_signature
    verify_signature_bytes verifying_key payload signature

  unfoldable pub verify_bytes : VerifyingKey → List ℕ → String → Result CryptoError (Unit {0})
  unfolding verify_signature_bytes
  verify_bytes verifying_key payload signature_base64url = do
    signature ← ok_or (primitives.base64_decode signature_base64url) invalid_signature
    verify_signature_bytes verifying_key payload signature

  unfoldable pub verify_payload_with_proof :
      Value → DataIntegrityProof → VerifyingKey → Result CryptoError (Unit {0})
  unfolding crypto_suite_from_proof suite_of_verifying_key verify_bytes_multibase
  verify_payload_with_proof payload proof verifying_key = do
    suite ← crypto_suite_from_proof proof
    fail_if (suite != suite_of_verifying_key verifying_key) verification_failed
    verify_bytes_multibase verifying_key (signature_input suite payload) proof.proof_value

  abbrev verify_ed25519_only : VerifyingKey → List ℕ → List ℕ → Result CryptoError (Unit {0})
  verify_ed25519_only (VerifyingKey.ed25519 suite key) input signature =
      fail_if (not (primitives.ed25519_verify key input signature)) verification_failed
  verify_ed25519_only (VerifyingKey.sm2 suite key) input signature = err unsupported_crypto_suite

  unfoldable pub verify_oan_payload :
      Value → OanProof → VerifyingKey → Result CryptoError (Unit {0})
  unfolding signature_input
  verify_oan_payload payload proof verifying_key = do
    fail_if
        ((proof.proof_type != "Ed25519Signature2020")
          || ((proof.proof_purpose != "assertionMethod")
              || not (starts_with "z" proof.proof_value)))
        invalid_proof
    encoded ← ok_or (strip_prefix "z" proof.proof_value) invalid_proof
    signature ← ok_or (primitives.bs58_decode encoded) invalid_signature
    fail_if (not (nat_beq (length signature) 64)) invalid_signature
    verify_ed25519_only verifying_key (signature_input ed25519_sha256 payload) signature

  -- `now` is the clock's time.
  unfoldable pub build_data_integrity_proof :
      Time → Value → String → String → SigningKey → Result CryptoError DataIntegrityProof
  unfolding suite_of_signing_key sign_bytes_multibase proof_type canonical_hash_algorithm
  build_data_integrity_proof now payload creator verification_method signing_key = do
    proof_value ←
        sign_bytes_multibase signing_key
          (signature_input (suite_of_signing_key signing_key) payload)
    ok (record {
      context = none;
      proof_type = proof_type (suite_of_signing_key signing_key);
      creator = creator;
      created = now;
      proof_purpose = "assertionMethod";
      proof_value = proof_value;
      crypto_suite = some (suite_of_signing_key signing_key);
      hash_algorithm = some (canonical_hash_algorithm (suite_of_signing_key signing_key));
      verification_method = some verification_method;
    })
