-- ===== src/Core/Codecs.antt =====
-- The functions of other crates that the core calls: bs58, base64, url, serde_json, ed25519_dalek.
use oan_protocol_common.Base.{ℕ, String, Option, List}
use oan_protocol_common.Core.Document.{ExternalIdentifier}

-- what the core asks of a parsed URL
pub record Url : Type 0 where
  pub scheme : String
  pub username : String
  pub password : Option String

-- A failure is `none`. `serialized_len` is the length of the JSON text, and `verifying_key` the 32
-- bytes of the public key for a secret key.
pub record Codecs : Type 0 where
  pub bs58_decode : String → Option (List ℕ)
  pub bs58_encode : List ℕ → String
  pub base64_decode : String → Option (List ℕ)
  pub parse_url : String → Option Url
  pub serialized_len : List ExternalIdentifier → Option ℕ
  pub verifying_key : List ℕ → List ℕ
