-- ===== src/Crypto/Signatures/Verify.antt =====
-- What a key signs its verifying key accepts, and what a check of a proof accepts.
use Prim.Native.String.{◌++◌ as ◌+s+◌}
use oan_protocol_common.Base.{
  none, ◌!=◌, ℕ, String, ◌≡◌, refl, true, false, some, List, length, arith, ok,
}
use oan_protocol_common.Text.Laws.{strip_prefix-append}
use oan_protocol_common.Chrono.{Time}
use oan_protocol_common.Json.{Value}
use oan_protocol_common.Core.Suite.{CryptoSuite, suite_eq, proof_type, canonical_hash_algorithm}
use oan_protocol_common.Core.Document.{DataIntegrityProof, suite_of_proof}
use oan_protocol_common.Crypto.Primitives.{Primitives}
use oan_protocol_common.Crypto.Keys.{
  SigningKey, verifying_key, suite_of_signing_key, suite_of_verifying_key,
}
use oan_protocol_common.Crypto.Signatures.{
  sign_bytes, sign_bytes_multibase, signature_input, verify_signature_bytes, verify_bytes_multibase,
  verify_bytes, verify_payload_with_proof, build_data_integrity_proof,
}

-- What is asked of the encodings and of the signatures: decoding undoes encoding, a signature has 64
-- bytes, and a key's own signature is valid.
pub record Signs (primitives : Primitives) : Type 0 where
  pub bs58_back : (b : List ℕ) → primitives.bs58_decode (primitives.bs58_encode b) ≡ some b
  pub base64_back : (b : List ℕ) → primitives.base64_decode (primitives.base64_encode b) ≡ some b
  pub ed25519_length : (key payload : List ℕ) → length (primitives.ed25519_sign key payload) ≡ 64
  pub sm2_length : (key payload : List ℕ) → length (primitives.sm2_sign key payload) ≡ 64
  pub ed25519_valid :
      (key payload : List ℕ)
      → primitives.ed25519_verify
          (primitives.ed25519_public key)
          payload
          (primitives.ed25519_sign key payload)
        ≡ true
  pub sm2_form :
      (key payload : List ℕ) → primitives.sm2_signature (primitives.sm2_sign key payload) ≡ true
  pub sm2_valid :
      (key payload : List ℕ)
      → primitives.sm2_verify (primitives.sm2_public key) payload (primitives.sm2_sign key payload)
        ≡ true

neq_self : (suite : CryptoSuite) → (suite != suite) ≡ false
neq_self suite = ground (arith, suite_eq.test_iff suite suite)

module _ (primitives : Primitives) (signs : Signs primitives) where
  -- the bytes of a key's signature
  abbrev signature_of : SigningKey → List ℕ → List ℕ
  signature_of (SigningKey.ed25519 suite key) payload = primitives.ed25519_sign key payload
  signature_of (SigningKey.sm2 suite key) payload = primitives.sm2_sign key payload

  length-signature_of :
      (key : SigningKey) (payload : List ℕ) → length (signature_of key payload) ≡ 64
  length-signature_of (SigningKey.ed25519 suite key) payload = signs.ed25519_length key payload
  length-signature_of (SigningKey.sm2 suite key) payload = signs.sm2_length key payload

  sign_bytes_lem :
      (key : SigningKey) (payload : List ℕ)
      → primitives.base64_decode (sign_bytes primitives key payload)
        ≡ some (signature_of key payload)
  unfolding sign_bytes
  sign_bytes_lem (SigningKey.ed25519 suite key) payload = signs.base64_back _
  sign_bytes_lem (SigningKey.sm2 suite key) payload = signs.base64_back _

  verify_signature_bytes-sign :
      (key : SigningKey) (payload : List ℕ)
      → verify_signature_bytes primitives
          (verifying_key primitives key)
          payload
          (signature_of key payload)
        ≡ ok tt
  unfolding verify_signature_bytes verifying_key
  verify_signature_bytes-sign (SigningKey.ed25519 suite key) payload =
      rw (signs.ed25519_length key payload) (rw (signs.ed25519_valid key payload) refl)
  verify_signature_bytes-sign (SigningKey.sm2 suite key) payload =
      rw (signs.sm2_form key payload) (rw (signs.sm2_valid key payload) refl)

  -- A signature in base64 is accepted by the verifying key of the key that made it.
  verify_bytes-sign_bytes :
      (key : SigningKey) (payload : List ℕ)
      → verify_bytes primitives
          (verifying_key primitives key)
          payload
          (sign_bytes primitives key payload)
        ≡ ok tt
  unfolding verify_bytes
  verify_bytes-sign_bytes key payload =
      rw (sign_bytes_lem key payload) (verify_signature_bytes-sign key payload)

  abbrev multibase_of : SigningKey → List ℕ → String
  multibase_of key payload = "z" +s+ primitives.bs58_encode (signature_of key payload)

  sign_bytes_multibase_lem :
      (key : SigningKey) (payload : List ℕ)
      → sign_bytes_multibase primitives key payload ≡ ok (multibase_of key payload)
  unfolding sign_bytes_multibase
  sign_bytes_multibase_lem key payload = rw (sign_bytes_lem key payload) refl

  verify_bytes_multibase-sign :
      (key : SigningKey) (payload : List ℕ)
      → verify_bytes_multibase primitives
          (verifying_key primitives key)
          payload
          (multibase_of key payload)
        ≡ ok tt
  unfolding verify_bytes_multibase
  verify_bytes_multibase-sign key payload =
      rw (strip_prefix-append "z" (primitives.bs58_encode (signature_of key payload))) (
        rw (signs.bs58_back (signature_of key payload))
          (rw (length-signature_of key payload) (verify_signature_bytes-sign key payload)))

  suite_of_verifying_key_lem :
      (key : SigningKey)
      → suite_of_verifying_key (verifying_key primitives key) ≡ suite_of_signing_key key
  unfolding suite_of_verifying_key verifying_key suite_of_signing_key
  suite_of_verifying_key_lem (SigningKey.ed25519 suite key) = refl
  suite_of_verifying_key_lem (SigningKey.sm2 suite key) = refl

  abbrev pub built : Time → Value → String → String → SigningKey → DataIntegrityProof
  built now payload creator method key = record {
    context = none;
    proof_type = proof_type (suite_of_signing_key key);
    creator = creator;
    created = now;
    proof_purpose = "assertionMethod";
    proof_value = multibase_of key (signature_input primitives (suite_of_signing_key key) payload);
    crypto_suite = some (suite_of_signing_key key);
    hash_algorithm = some (canonical_hash_algorithm (suite_of_signing_key key));
    verification_method = some method;
  }

  pub build_data_integrity_proof_lem :
      (now : Time) (payload : Value) (creator method : String) (key : SigningKey)
      → build_data_integrity_proof primitives now payload creator method key
        ≡ ok (built now payload creator method key)
  unfolding build_data_integrity_proof
  build_data_integrity_proof_lem now payload creator method key =
      rw
        (sign_bytes_multibase_lem key
          (signature_input primitives (suite_of_signing_key key) payload))
        refl

  pub built_verifies :
      (now : Time) (payload : Value) (creator method : String) (key : SigningKey)
      → verify_payload_with_proof primitives payload
          (built now payload creator method key)
          (verifying_key primitives key)
        ≡ ok tt
  unfolding verify_payload_with_proof suite_of_proof
  built_verifies now payload creator method key =
      rw (suite_of_verifying_key_lem key)
        (rw (neq_self (suite_of_signing_key key)) (verify_bytes_multibase-sign key _))

  -- A proof is built for each payload with each signing key, and accepted for the payload by the
  -- key's verifying key, where decoding undoes encoding and a key accepts its own signatures of 64
  -- bytes.
  pub verify_payload_with_proof-build :
      (now : Time) (payload : Value) (creator method : String) (key : SigningKey)
      → (proof : DataIntegrityProof) × (build_data_integrity_proof primitives now payload creator
            method key
          ≡ ok proof)
        × (verify_payload_with_proof primitives payload proof (verifying_key primitives key)
            ≡ ok tt)
  verify_payload_with_proof-build now payload creator method key = (
    built now payload creator method key,
    build_data_integrity_proof_lem now payload creator method key,
    built_verifies now payload creator method key,
  )
