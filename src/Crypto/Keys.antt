-- ===== src/Crypto/Keys.antt =====
-- Keys: their construction from bytes, multibase texts, JWKs and verification methods.
pub mod Back
use Prim.Native.String.{◌++◌ as ◌+s+◌}
use oan_protocol_common.Base.{
  ℕ, zero, suc, String, ◌&&◌, ◌||◌, not, Option, none, some, List, [], ◌∷◌, ◌++◌, length, take,
  drop, nat_beq, if◌then◌else◌, Result, ok, err, ◌>>=◌, ◌>>◌, fail_if, ok_or,
}
use oan_protocol_common.Text.{strip_prefix}
use oan_protocol_common.Json.{Value, string, object, no_fields, field, get, as_str}
use oan_protocol_common.Core.Suite.{CryptoSuite, ed25519_sha256_legacy, ed25519_sha256, sm2_sm3}
use oan_protocol_common.Core.Document.{
  VerificationMethod, DataIntegrityProof, suite_of_method, suite_of_proof,
}
use oan_protocol_common.Crypto.Primitives.{Primitives}

pub data CryptoError : Type 0 where
  unsupported_crypto_suite invalid_signing_key invalid_verifying_key invalid_public_key_encoding
        invalid_signature invalid_proof verification_failed missing_key_material :
      CryptoError
  serialization standard_data_integrity : String → CryptoError

-- A signing key is its secret bytes, a verifying key its public bytes, those of SM2 uncompressed.
pub data SigningKey : Type 0 where
  ed25519 sm2 : CryptoSuite → List ℕ → SigningKey

pub data VerifyingKey : Type 0 where
  ed25519 sm2 : CryptoSuite → List ℕ → VerifyingKey

pub record KeypairMaterial : Type 0 where
  pub crypto_suite : CryptoSuite
  pub signing_key : SigningKey
  pub verifying_key : VerifyingKey

-- `SigningKey::crypto_suite` and `VerifyingKey::crypto_suite`
unfoldable pub suite_of_signing_key : SigningKey → CryptoSuite
suite_of_signing_key (SigningKey.ed25519 suite key) = suite
suite_of_signing_key (SigningKey.sm2 suite key) = suite

unfoldable pub suite_of_verifying_key : VerifyingKey → CryptoSuite
suite_of_verifying_key (VerifyingKey.ed25519 suite key) = suite
suite_of_verifying_key (VerifyingKey.sm2 suite key) = suite

-- the bytes behind the multicodec prefix of an Ed25519 key of 32 bytes, or all
unfoldable pub without_multicodec : List ℕ → List ℕ
without_multicodec (a ∷ b ∷ rest) =
    if nat_beq a 0xed && (nat_beq b 0x01 && nat_beq (length rest) 32) then rest else a ∷ b ∷ rest
without_multicodec bytes = bytes

unfoldable key_bytes : CryptoSuite → List ℕ → List ℕ
unfolding without_multicodec
key_bytes sm2_sm3 bytes = bytes
key_bytes _ bytes = without_multicodec bytes

unfoldable pub crypto_suite_from_verification_method :
    VerificationMethod → Result CryptoError CryptoSuite
crypto_suite_from_verification_method method =
    ok_or (suite_of_method method) unsupported_crypto_suite

unfoldable pub crypto_suite_from_proof : DataIntegrityProof → Result CryptoError CryptoSuite
crypto_suite_from_proof proof = ok_or (suite_of_proof proof) unsupported_crypto_suite

module _ (primitives : Primitives) where
  -- `SigningKey::verifying_key`
  unfoldable pub verifying_key : SigningKey → VerifyingKey
  verifying_key (SigningKey.ed25519 suite key) =
      VerifyingKey.ed25519 suite (primitives.ed25519_public key)
  verifying_key (SigningKey.sm2 suite key) = VerifyingKey.sm2 suite (primitives.sm2_public key)

  abbrev ed25519_signing_key : CryptoSuite → List ℕ → Result CryptoError SigningKey
  ed25519_signing_key suite bytes =
      if nat_beq (length bytes) 32
      then ok (SigningKey.ed25519 suite bytes)
      else err invalid_signing_key

  unfoldable signing_key_from_bytes : CryptoSuite → List ℕ → Result CryptoError SigningKey
  signing_key_from_bytes sm2_sm3 bytes =
      if primitives.sm2_secret bytes
      then ok (SigningKey.sm2 sm2_sm3 bytes)
      else err invalid_signing_key
  signing_key_from_bytes suite bytes = ed25519_signing_key suite bytes

  unfoldable pub signing_key_from_private_key_jwk :
      CryptoSuite → Value → Result CryptoError SigningKey
  unfolding signing_key_from_bytes
  signing_key_from_private_key_jwk suite private_key_jwk = do
    d ← ok_or (as_str (get private_key_jwk "d")) invalid_signing_key
    bytes ← ok_or (primitives.base64_decode d) invalid_signing_key
    signing_key_from_bytes suite bytes

  abbrev ed25519_verifying_key : CryptoSuite → List ℕ → Result CryptoError VerifyingKey
  ed25519_verifying_key suite bytes =
      if nat_beq (length bytes) 32 && primitives.ed25519_point bytes
      then ok (VerifyingKey.ed25519 suite bytes)
      else err invalid_verifying_key

  unfoldable verifying_key_from_bytes : CryptoSuite → List ℕ → Result CryptoError VerifyingKey
  verifying_key_from_bytes sm2_sm3 bytes = do
    key ← ok_or (primitives.sm2_point bytes) invalid_verifying_key
    ok (VerifyingKey.sm2 sm2_sm3 key)
  verifying_key_from_bytes suite bytes = ed25519_verifying_key suite bytes

  unfoldable pub verifying_key_from_public_key_multibase :
      CryptoSuite → String → Result CryptoError VerifyingKey
  unfolding verifying_key_from_bytes key_bytes
  verifying_key_from_public_key_multibase suite public_key_multibase = do
    encoded ← ok_or (strip_prefix "z" public_key_multibase) invalid_public_key_encoding
    bytes ← ok_or (primitives.bs58_decode encoded) invalid_public_key_encoding
    verifying_key_from_bytes suite (key_bytes suite bytes)

  abbrev ed25519_from_jwk : CryptoSuite → Value → Result CryptoError VerifyingKey
  ed25519_from_jwk suite public_key_jwk = do
    x ← ok_or (as_str (get public_key_jwk "x")) invalid_public_key_encoding
    bytes ← ok_or (primitives.base64_decode x) invalid_public_key_encoding
    verifying_key_from_bytes suite bytes

  unfoldable pub verifying_key_from_public_key_jwk :
      CryptoSuite → Value → Result CryptoError VerifyingKey
  unfolding verifying_key_from_bytes
  verifying_key_from_public_key_jwk sm2_sm3 public_key_jwk = do
    x_text ← ok_or (as_str (get public_key_jwk "x")) invalid_public_key_encoding
    y_text ← ok_or (as_str (get public_key_jwk "y")) invalid_public_key_encoding
    x ← ok_or (primitives.base64_decode x_text) invalid_public_key_encoding
    y ← ok_or (primitives.base64_decode y_text) invalid_public_key_encoding
    fail_if (not (nat_beq (length x) 32) || not (nat_beq (length y) 32)) invalid_public_key_encoding
    verifying_key_from_bytes sm2_sm3 (0x04 ∷ (x ++ y))
  verifying_key_from_public_key_jwk suite public_key_jwk = ed25519_from_jwk suite public_key_jwk

  unfoldable pub public_key_multibase : VerifyingKey → String
  public_key_multibase (VerifyingKey.ed25519 suite key) = "z" +s+ primitives.bs58_encode key
  public_key_multibase (VerifyingKey.sm2 suite key) = "z" +s+ primitives.bs58_encode key

  -- The keys of `json!` in their order.
  unfoldable pub public_key_jwk : VerifyingKey → Value
  public_key_jwk (VerifyingKey.ed25519 suite key) = object (
      field "crv" (string "Ed25519")
        (field "kty" (string "OKP") (field "x" (string (primitives.base64_encode key)) no_fields)))
  public_key_jwk (VerifyingKey.sm2 suite key) = object (
      field "crv" (string "SM2") (
        field "kty" (string "EC") (
          field "x" (string (primitives.base64_encode (take 32 (drop 1 key))))
            (field "y" (string (primitives.base64_encode (take 32 (drop 33 key)))) no_fields))))

  unfoldable pub private_key_jwk : SigningKey → Value
  private_key_jwk (SigningKey.ed25519 suite key) = object (
      field "crv" (string "Ed25519") (
        field "d" (string (primitives.base64_encode key)) (
          field "kty" (string "OKP") (
            field "x" (string (primitives.base64_encode (primitives.ed25519_public key)))
              no_fields))))
  private_key_jwk (SigningKey.sm2 suite key) = object (
      field "crv" (string "SM2")
        (field "d" (string (primitives.base64_encode key)) (field "kty" (string "EC") no_fields)))

  abbrev key_of_method :
      CryptoSuite → Option String → Option Value → Result CryptoError VerifyingKey
  key_of_method suite (some multibase) jwk = verifying_key_from_public_key_multibase suite multibase
  key_of_method suite none (some jwk) = verifying_key_from_public_key_jwk suite jwk
  key_of_method suite none none = err missing_key_material

  unfoldable pub verifying_key_from_method : VerificationMethod → Result CryptoError VerifyingKey
  unfolding crypto_suite_from_verification_method
  verifying_key_from_method method = do
    suite ← crypto_suite_from_verification_method method
    key_of_method suite method.public_key_multibase method.public_key_jwk

  -- the rounds of `generate_sm2_keypair`, each with the bytes that the system's generator fills
  unfoldable sm2_rounds : ℕ → (ℕ → List ℕ) → ℕ → Result CryptoError (List ℕ)
  sm2_rounds zero fill n = err invalid_signing_key
  sm2_rounds (suc rounds) fill n =
      let later = sm2_rounds rounds fill (suc n) in
      if primitives.sm2_secret (fill n) then ok (fill n) else later

  unfoldable generate_sm2_keypair : (ℕ → List ℕ) → Result CryptoError (List ℕ)
  unfolding sm2_rounds
  generate_sm2_keypair fill = sm2_rounds 32 fill 0

  abbrev material : CryptoSuite → SigningKey → KeypairMaterial
  material suite key = record {
    crypto_suite = suite;
    signing_key = key;
    verifying_key = verifying_key key;
  }

  -- `generate_keypair`, with what the system's generator fills the bytes with
  unfoldable generate_keypair : (ℕ → List ℕ) → CryptoSuite → Result CryptoError KeypairMaterial
  unfolding generate_sm2_keypair verifying_key
  generate_keypair fill sm2_sm3 = do
    key ← generate_sm2_keypair fill
    ok (material sm2_sm3 (SigningKey.sm2 sm2_sm3 key))
  generate_keypair fill suite = ok (material suite (SigningKey.ed25519 suite (fill 0)))
