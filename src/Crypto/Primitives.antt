-- ===== src/Crypto/Primitives.antt =====
-- The functions of other crates that oan-crypto calls: bs58, base64, sha2, sm3, ed25519_dalek, sm2 and
-- serde_json. Bytes are numbers, a key is its bytes, and a failure is `none` or `false`.
use oan_protocol_common.Base.{ℕ, String, Bool, Option, List}

-- `base64_encode` and `base64_decode` are those of URL_SAFE_NO_PAD, a digest is in hexadecimal, and
-- `json_string` is `serde_json::to_string` of a text. The SM2 functions take the distinguished
-- identifier that the source gives them.
pub record Primitives : Type 0 where
  pub bs58_encode : List ℕ → String
  pub bs58_decode : String → Option (List ℕ)
  pub base64_encode : List ℕ → String
  pub base64_decode : String → Option (List ℕ)
  pub json_string : String → String
  pub sha256_hex : List ℕ → String
  pub sm3_hex : List ℕ → String
  pub ed25519_public : List ℕ → List ℕ
  pub ed25519_point : List ℕ → Bool
  pub ed25519_sign : List ℕ → List ℕ → List ℕ
  pub ed25519_verify : List ℕ → List ℕ → List ℕ → Bool
  pub sm2_secret : List ℕ → Bool
  pub sm2_public : List ℕ → List ℕ
  pub sm2_point : List ℕ → Option (List ℕ)
  pub sm2_signature : List ℕ → Bool
  pub sm2_sign : List ℕ → List ℕ → List ℕ
  pub sm2_verify : List ℕ → List ℕ → List ℕ → Bool
