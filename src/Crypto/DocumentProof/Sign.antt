-- ===== src/Crypto/DocumentProof/Sign.antt =====
-- The standard signing of a document (`sign_oan_data_integrity`). The JSON-LD proof itself is made by the
-- ssi crates.
use Prim.Native.String.{◌++◌ as ◌+s+◌}
use oan_protocol_common.Base.{
  ℕ, String, not, ◌||◌, some, List, length, nat_beq, ◌==◌, ◌!=◌, string_eq, option_eq, list_eq,
  nat_eq, Result, ok, ◌>>=◌, ◌>>◌, fail_if, ok_or,
}
use oan_protocol_common.Json.{Value, get, as_str}
use oan_protocol_common.Crypto.Primitives.{Primitives}
use oan_protocol_common.Crypto.Keys.{
  CryptoError, invalid_signing_key, invalid_public_key_encoding, missing_key_material,
}
use oan_protocol_common.Crypto.DocumentProof.Standard.{Ssi, standard_error, is_object}

-- What ssi does besides: the JSON of a JWK, and a document with its proof by a JWK under a method's
-- identifier. An error is its text.
pub record SsiSigner : Type 0 where
  pub jwk : Value → Result String Value
  pub sign : Value → Value → String → Result String Value

-- the check of an Ed25519 JWK of an accepted form
abbrev check_signing_jwk : Value → Result CryptoError (Unit {0})
check_signing_jwk key = do
  fail_if (not (is_object key)) invalid_signing_key
  fail_if
      ((as_str (get key "kty") != some "OKP")
        || ((as_str (get key "crv") != some "Ed25519") || as_str (get key "alg") == some "Ed25519"))
      invalid_signing_key

module _ (primitives : Primitives) (ssi : Ssi) (signer : SsiSigner) where
  -- the secret bytes, whose public key is the one that is declared
  unfoldable private_key_bytes : Value → Result CryptoError (List ℕ)
  private_key_bytes key = do
    check_signing_jwk key
    d ← ok_or (as_str (get key "d")) missing_key_material
    bytes ← ok_or (primitives.base64_decode d) invalid_signing_key
    fail_if (not (nat_beq (length bytes) 32)) invalid_signing_key
    x ← ok_or (as_str (get key "x")) invalid_signing_key
    declared_public ← ok_or (primitives.base64_decode x) invalid_signing_key
    fail_if (declared_public != primitives.ed25519_public bytes) invalid_signing_key
    ok bytes

  -- the key of the method that the document is signed under
  unfoldable method_key : String → Value → Result CryptoError (List ℕ)
  method_key did public_key_jwk = do
    fail_if (not (ssi.is_uri did)) invalid_public_key_encoding
    x ← ok_or (as_str (get public_key_jwk "x")) invalid_public_key_encoding
    bytes ← ok_or (primitives.base64_decode x) invalid_public_key_encoding
    fail_if (not (nat_beq (length bytes) 32)) invalid_public_key_encoding
    fail_if (not (primitives.ed25519_point bytes)) invalid_public_key_encoding
    ok bytes

  unfoldable pub sign_oan_data_integrity : Value → String → Value → Result CryptoError Value
  unfolding private_key_bytes method_key
  sign_oan_data_integrity document did private_key_jwk = do
    key ← standard_error (signer.jwk private_key_jwk)
    _ ← private_key_bytes key
    standard_error (ssi.iri (did +s+ "#key-1"))
    public_key_jwk ← standard_error (ssi.public_jwk private_key_jwk)
    _ ← method_key did public_key_jwk
    standard_error (signer.sign document private_key_jwk (did +s+ "#key-1"))
