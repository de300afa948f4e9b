-- ===== src/Tests/Dids.antt =====
-- An identifier from crates/oan-did-oan/src/lib.rs, parsed, generated and derived.
use Prim.Native.String.{len}
use oan_protocol_common.Base.{
  ℕ, suc, ◌≤◌, String, ◌≡◌, refl, none, some, List, [], ◌∷◌, ok, err, leb→le,
}
use oan_protocol_common.Text.{strip_prefix, starts_with, split, all_chars, contains}
use oan_protocol_common.Base58.{
  in_class, class_run, validate_routing_code, validate_suffix_code, alphabet_at, base58_suffix,
  invalid_routing_code,
}
use oan_protocol_common.Base58.Prefix.{accepted, stream, prefix}
use oan_protocol_common.Base58.Suffix.{base58_suffix_lem}
use oan_protocol_common.Did.{
  DidOan, parse, parse_parts, format_did, is_match, generate, derive, key_id,
}
use oan_protocol_common.Did.Codes.{IsCode, validate_routing_code_iff, validate_suffix_code_iff}
use oan_protocol_common.Did.Parse.{parse_sound, parse_complete}
use oan_protocol_common.Did.Generate.{did_of, derive_regroup, key_id-hash}

abbrev sample_text : String
sample_text = "did:oan:aB3dE:7YpQm9Kx2VnRb6Ts3WfHa4Cd5Ej8LgNz"

abbrev sample_did : DidOan
sample_did = record {
  value = sample_text;
  routing_code = "aB3dE";
  suffix_code = "7YpQm9Kx2VnRb6Ts3WfHa4Cd5Ej8LgNz";
}

sample_parses : parse sample_text ≡ ok sample_did
unfolding parse parse_parts starts_with strip_prefix split validate_routing_code
    validate_suffix_code all_chars contains is_match class_run in_class
sample_parses = refl

routing_IsCode : IsCode 5 "aB3dE"
unfolding validate_routing_code all_chars contains
routing_IsCode = (validate_routing_code_iff "aB3dE").0 refl

suffix_IsCode : IsCode 32 "7YpQm9Kx2VnRb6Ts3WfHa4Cd5Ej8LgNz"
unfolding validate_suffix_code all_chars contains
suffix_IsCode = (validate_suffix_code_iff "7YpQm9Kx2VnRb6Ts3WfHa4Cd5Ej8LgNz").0 refl

parse_sound_example :
    (sample_text ≡ sample_text)
    × (sample_text ≡ format_did "aB3dE" "7YpQm9Kx2VnRb6Ts3WfHa4Cd5Ej8LgNz")
    × IsCode 5 "aB3dE"
    × IsCode 32 "7YpQm9Kx2VnRb6Ts3WfHa4Cd5Ej8LgNz"
parse_sound_example = parse_sound sample_text sample_did sample_parses

parse_complete_example :
    parse (format_did "aB3dE" "7YpQm9Kx2VnRb6Ts3WfHa4Cd5Ej8LgNz")
    ≡ ok (did_of "aB3dE" "7YpQm9Kx2VnRb6Ts3WfHa4Cd5Ej8LgNz")
parse_complete_example =
    parse_complete "aB3dE" "7YpQm9Kx2VnRb6Ts3WfHa4Cd5Ej8LgNz" routing_IsCode suffix_IsCode

-- 32 bytes below the rejection zone
abbrev block_of : ℕ → List ℕ
block_of k =
    0 ∷ 1 ∷ 2 ∷ 3 ∷ 4 ∷ 5 ∷ 6 ∷ 7 ∷ 8 ∷ 9 ∷ 10 ∷ 11 ∷ 12 ∷ 13 ∷ 14 ∷ 15 ∷ 16 ∷ 17 ∷ 18 ∷ 19 ∷ 20
    ∷ 21 ∷ 22 ∷ 23 ∷ 240 ∷ 24 ∷ 25 ∷ 26 ∷ 27 ∷ 28 ∷ 29 ∷ 30 ∷ 31 ∷ []

enough_bytes : 32 ≤ len (stream block_of 0 1)
unfolding stream accepted alphabet_at
enough_bytes = leb→le 32 _ refl

base58_suffix_lem_example :
    (32 ≤ len (stream block_of 0 1)
      → base58_suffix block_of 2 ≡ some (prefix 32 (stream block_of 0 1)))
    × ((suc (len (stream block_of 0 1)) ≤ 32) → base58_suffix block_of 2 ≡ none)
base58_suffix_lem_example = base58_suffix_lem block_of 1

generate_refuses : generate block_of 2 "aB3d0" ≡ some (err invalid_routing_code)
unfolding generate validate_routing_code all_chars contains
generate_refuses = refl

-- a digest that gives the sample block for every message
abbrev digest_of : List ℕ → List ℕ
digest_of message = block_of 0

abbrev bytes_of : String → List ℕ
bytes_of s = []

derive_regroup_example :
    derive digest_of bytes_of 2 "aB3dE" (1 ∷ 2 ∷ []) (3 ∷ [])
    ≡ derive digest_of bytes_of 2 "aB3dE" (1 ∷ []) (2 ∷ 3 ∷ [])
derive_regroup_example = derive_regroup digest_of bytes_of 2 "aB3dE" (1 ∷ []) (2 ∷ []) (3 ∷ [])

key_id-hash_example : key_id sample_did "#key-1" ≡ key_id sample_did "key-1"
key_id-hash_example = key_id-hash sample_did "key-1"
