-- ===== src/Did.antt =====
-- Parsing and generation of did:oan identifiers (crates/oan-did-oan/src/lib.rs).
pub mod Codes
pub mod Parse
pub mod Generate
use Prim.Native.String.{◌++◌ as ◌+s+◌, len}
use oan_protocol_common.Base.{
  ℕ, ◌+◌, ◌/◌, ◌%◌, ◌^◌, String, Bool, true, false, not, Option, none, some, List, [], ◌∷◌, ◌++◌,
  nat_beq, if◌then◌else◌, Result, ok, err, ◌>>=◌, ◌>>◌, fail_if,
}
use oan_protocol_common.Text.{strip_prefix, starts_with, split, trim_start_matches}
use oan_protocol_common.Base58.{
  DidOanError, invalid_prefix, invalid_part_count, invalid_syntax, validate_routing_code,
  validate_suffix_code, class_run, base58_suffix,
}

abbrev pub did_prefix : String
did_prefix = "did:oan:"

pub record DidOan : Type 0 where
  pub value : String
  pub routing_code : String
  pub suffix_code : String

abbrev at_end : String → Bool
at_end s = nat_beq (len s) 0

abbrev and_then : Option String → (String → Bool) → Bool
and_then none k = false
and_then (some s) k = k s

-- `did_regex().is_match`: the prefix, 5 characters of the class, a colon, 32 characters, the end
unfoldable pub is_match : String → Bool
is_match value = and_then (strip_prefix did_prefix value) λ s.
    and_then (class_run 5 s)
      λ t. and_then (strip_prefix ":" t) λ u. and_then (class_run 32 u) at_end

-- `DidOan::parse` behind its split, with the parts of the split
unfoldable pub parse_parts : String → List String → Result DidOanError DidOan
parse_parts value (did ∷ method ∷ routing_code ∷ suffix_code ∷ []) = do
  validate_routing_code routing_code
  validate_suffix_code suffix_code
  fail_if (not (is_match value)) invalid_syntax
  ok (record { value = value; routing_code = routing_code; suffix_code = suffix_code })
parse_parts value _ = err invalid_part_count

unfoldable pub parse : String → Result DidOanError DidOan
parse value = do
  fail_if (not (starts_with did_prefix value)) invalid_prefix
  parse_parts value (split 58 value)

-- `format!("{DID_PREFIX}{routing_code}:{suffix}")`
unfoldable pub format_did : String → String → String
format_did routing_code suffix = did_prefix +s+ (routing_code +s+ (":" +s+ suffix))

abbrev with_suffix : String → Option String → Option (Result DidOanError DidOan)
with_suffix routing_code none = none
with_suffix routing_code (some suffix) = some (parse (format_did routing_code suffix))

abbrev after :
    Result DidOanError (Unit {0})
    → Option (Result DidOanError DidOan)
    → Option (Result DidOanError DidOan)
after (err e) rest = some (err e)
after (ok _) rest = rest

-- `DidOan::generate`: `fill` is what the system's generator gives, `none` that the fuel ran out
unfoldable pub generate : (ℕ → List ℕ) → ℕ → String → Option (Result DidOanError DidOan)
unfolding format_did
generate fill fuel routing_code =
    after (validate_routing_code routing_code) (with_suffix routing_code (base58_suffix fill fuel))

-- `counter.to_be_bytes()` of a `u64`
abbrev to_be_bytes : ℕ → List ℕ
to_be_bytes n =
    n / 2 ^ 56 % 256
    ∷ n / 2 ^ 48 % 256
    ∷ n / 2 ^ 40 % 256
    ∷ n / 2 ^ 32 % 256
    ∷ n / 2 ^ 24 % 256
    ∷ n / 2 ^ 16 % 256
    ∷ n / 2 ^ 8 % 256
    ∷ n % 256
    ∷ []

-- The SHA-256 digest is a parameter. `bytes` gives the UTF-8 bytes of a text.
module _ (sha256 : List ℕ → List ℕ) (bytes : String → List ℕ) where
  -- the digest at a counter, of all that the hasher was updated with
  abbrev pub digest_at : String → List ℕ → List ℕ → ℕ → List ℕ
  digest_at routing_code controller_material nonce counter = sha256 (
      bytes "OAN-DID-SUFFIX-v2"
      ++ (bytes routing_code ++ (controller_material ++ (nonce ++ to_be_bytes counter))))

  -- `DidOan::derive`
  unfoldable pub derive : ℕ → String → List ℕ → List ℕ → Option (Result DidOanError DidOan)
  unfolding format_did
  derive fuel routing_code controller_material nonce = after (validate_routing_code routing_code) (
      with_suffix routing_code
        (base58_suffix (digest_at routing_code controller_material nonce) fuel))

-- `key_id`
unfoldable pub key_id : DidOan → String → String
key_id did fragment = did.value +s+ ("#" +s+ trim_start_matches 35 fragment)
