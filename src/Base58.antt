-- ===== src/Base58.antt =====
-- The codes of a did:oan identifier (crates/oan-did-oan/src/lib.rs): their alphabet, their
-- validators, the character class of the syntax, and the generation of suffixes.
pub mod Alphabet
pub mod Prefix
pub mod Suffix
pub mod Bias
use Prim.Native.String.{[], ◌∷◌, len, slice}
use Prim.Native.String
use Prim.Native.Char.{nul}
use oan_protocol_common.Base.{
  ℕ, zero, suc, ◌+◌, ◌-◌, ◌%◌, Char, code, String, Bool, true, false, not, ◌&&◌, ◌||◌, Option, none,
  some, List, [], ◌∷◌, ◌++◌, leb, ltb, nat_beq, Result, ok, err, ◌>>=◌, ◌>>◌, fail_if,
  if◌then◌else◌, length, take,
}
use oan_protocol_common.Text.{all_chars, contains, starts_with}

pub data DidOanError : Type 0 where
  invalid_prefix invalid_part_count invalid_routing_code invalid_suffix_code invalid_syntax :
      DidOanError

abbrev pub routing_code_len : ℕ
routing_code_len = 5

abbrev pub suffix_code_len : ℕ
suffix_code_len = 32

abbrev pub did_len : ℕ
did_len = 46

abbrev pub base58_alphabet : String
base58_alphabet = "123456789ABCDEFGHJKLMNPQRSTUVWXYZabcdefghijkmnopqrstuvwxyz"

-- `BASE58_ALPHABET.contains(ch)`
abbrev pub is_base58 : Char → Bool
is_base58 ch = contains base58_alphabet (code ch)

unfoldable pub validate_routing_code : String → Result DidOanError (Unit {0})
validate_routing_code value =
    fail_if (not (nat_beq (len value) routing_code_len && all_chars is_base58 value))
      invalid_routing_code

unfoldable pub validate_suffix_code : String → Result DidOanError (Unit {0})
validate_suffix_code value =
    fail_if (not (nat_beq (len value) suffix_code_len && all_chars is_base58 value))
      invalid_suffix_code

-- `[1-9A-HJ-NP-Za-km-z]` of the expression in `did_regex`, on a character's code
unfoldable pub in_class : ℕ → Bool
in_class c =
    leb b'1' c && leb c b'9'
    || leb b'A' c && leb c b'H'
    || leb b'J' c && leb c b'N'
    || leb b'P' c && leb c b'Z'
    || leb b'a' c && leb c b'k'
    || leb b'm' c && leb c b'z'

-- `{n}` characters of the class; the rest of the text
unfoldable pub class_run : ℕ → String → Option String
class_run zero s = some s
class_run (suc n) [] = none
class_run (suc n) (c ∷ s) = if in_class (code c) then class_run n s else none

-- `255 - 255 % 58`
abbrev pub rejection_zone : ℕ
rejection_zone = 255 - 255 % 58

-- the character at an index of a text, by characters
abbrev pub nth : String → ℕ → Char
nth [] i = nul
nth (c ∷ s) zero = c
nth (c ∷ s) (suc i) = nth s i

-- `alphabet[(*byte as usize) % alphabet.len()] as char`
unfoldable pub alphabet_at : ℕ → Char
alphabet_at byte = nth base58_alphabet (byte % 58)

-- `push`
abbrev pub push : String → Char → String
push s c = String.◌++◌ s (c ∷ [])

unfoldable pub push_unbiased_base58_chars : String → List ℕ → String
push_unbiased_base58_chars output [] = output
push_unbiased_base58_chars output (byte ∷ bytes) =
    let pushed = push_unbiased_base58_chars (push output (alphabet_at byte)) bytes in
    let skipped = push_unbiased_base58_chars output bytes in
    if ltb byte rejection_zone
    then (if nat_beq (len (push output (alphabet_at byte))) suffix_code_len
        then push output (alphabet_at byte)
        else pushed)
    else skipped

-- `truncate`, by bytes
abbrev pub truncate : String → ℕ → String
truncate s n = slice s 0 n

-- The loop of `random_base58_suffix` and of `derived_base58_suffix`. The blocks of bytes come from
-- outside: `block k` is the k-th fill of the system's generator, or the digest at counter k.
-- `none` says that the fuel ran out.
module _ (block : ℕ → List ℕ) where
  unfoldable pub suffix_from : ℕ → ℕ → String → Option String
  suffix_from zero counter suffix = none
  suffix_from (suc fuel) counter suffix =
      let rest =
        suffix_from fuel (counter + 1) (push_unbiased_base58_chars suffix (block counter)) in
      if ltb (len suffix) suffix_code_len then rest else some (truncate suffix suffix_code_len)

  unfoldable pub base58_suffix : ℕ → Option String
  unfolding suffix_from
  base58_suffix fuel = suffix_from fuel 0 ""
