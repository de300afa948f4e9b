-- ===== src/Crypto/Signatures/Collisions.antt =====
-- What a hash says of the value that is hashed (crates/oan-crypto/src/lib.rs).
use oan_protocol_common.Base.{
  ℕ, String, ◌≡◌, ◌≢◌, Option, ◌⊎◌, inl, inr, List, arith, Bool-cases, list_beq, list_beq_iff,
  nat_eq,
}
use oan_protocol_common.Text.Utf8.Injective.{as_bytes_injective}
use oan_protocol_common.Json.{Value}
use oan_protocol_common.Core.Suite.{CryptoSuite}
use oan_protocol_common.Crypto.Primitives.{Primitives}
use oan_protocol_common.Crypto.Canonical.Head.{Quotes, IsJson}
use oan_protocol_common.Crypto.Canonical.Injective.{canonical_json_value_injective}
use oan_protocol_common.Crypto.Signatures.{hash_hex, hash_json_with_suite}

-- Two byte sequences with one hash.
abbrev pub Collision : Primitives → Type 0
Collision primitives =
    (s : CryptoSuite) × (t : CryptoSuite) × (b : List ℕ) × (c : List ℕ) × (hash_hex primitives s b
      ≡ hash_hex primitives t c)
    × (b ≢ c)

module _ (primitives : Primitives) (read : String → Option (String × String))
    (quotes : Quotes primitives.json_string read) where
  bytes_inj :
      (s t : CryptoSuite) (b c : List ℕ)
      → hash_hex primitives s b ≡ hash_hex primitives t c
      → (b ≡ c) ⊎ Collision primitives
  bytes_inj s t b c p = elim (Bool-cases (list_beq b c)) [
    | inl same ↦ inl ((list_beq_iff b c).0 same)
    | inr other ↦ inr (s, t, b, c, p, λ same. ground (arith, list_beq_iff b c))
  ]

  pub hash_inj :
      (s t : CryptoSuite) (v w : Value)
      → IsJson v
      → IsJson w
      → hash_json_with_suite primitives s v ≡ hash_json_with_suite primitives t w
      → (v ≡ w) ⊎ Collision primitives
  unfolding hash_json_with_suite
  hash_inj s t v w j k p = elim (bytes_inj s t _ _ p) [
    | inl same ↦ inl (
        canonical_json_value_injective primitives read quotes v w j k (as_bytes_injective _ _ same))
    | inr collision ↦ inr collision
  ]
