-- ===== src/Text.antt =====
-- What the program uses of Rust's `str`: a text is its code points, and `len` counts bytes.
pub mod Laws
pub mod Split
pub mod Order
pub mod Utf8
use Prim.Native.String.{[], ◌∷◌, ◌++◌}
use oan_protocol_common.Base.{
  ℕ, Char, code, String, Bool, true, false, ◌&&◌, ◌||◌, Option, none, some, List, [], ◌∷◌, leb,
  nat_beq, ◌==◌, string_eq, if◌then◌else◌,
}

-- `strip_prefix`
unfoldable pub strip_prefix : String → String → Option String
strip_prefix [] s = some s
strip_prefix (c ∷ p) [] = none
strip_prefix (c ∷ p) (d ∷ s) = if nat_beq (code c) (code d) then strip_prefix p s else none

-- `starts_with`
unfoldable pub starts_with : String → String → Bool
unfolding strip_prefix
starts_with p s = elim (strip_prefix p s) [ none ↦ false | some r ↦ true ]

abbrev cons_text : Char → Option String → Option String
cons_text c none = none
cons_text c (some s) = some (c ∷ s)

-- `strip_suffix`
unfoldable pub strip_suffix : String → String → Option String
strip_suffix suffix [] = if suffix == "" then some "" else none
strip_suffix suffix (c ∷ s) =
    let later = strip_suffix suffix s in if (c ∷ s) == suffix then some "" else cons_text c later

-- `ends_with`
unfoldable pub ends_with : String → String → Bool
ends_with suffix [] = suffix == ""
ends_with suffix (c ∷ s) = (c ∷ s) == suffix || ends_with suffix s

abbrev pub cons_head : Char → List String → List String
cons_head c [] = []
cons_head c (p ∷ ps) = (c ∷ p) ∷ ps

-- `split` at a character, given by its code
unfoldable pub split : ℕ → String → List String
split sep [] = "" ∷ []
split sep (c ∷ s) =
    let rest = split sep s in if nat_beq (code c) sep then "" ∷ rest else cons_head c rest

-- `chars().all`
unfoldable pub all_chars : (Char → Bool) → String → Bool
all_chars p [] = true
all_chars p (c ∷ s) = p c && all_chars p s

-- `contains` of a character, given by its code
unfoldable pub contains : String → ℕ → Bool
contains [] ch = false
contains (c ∷ s) ch = nat_beq (code c) ch || contains s ch

-- `trim_start_matches` of a character, given by its code
unfoldable pub trim_start_matches : ℕ → String → String
trim_start_matches sep [] = ""
trim_start_matches sep (c ∷ s) =
    let rest = trim_start_matches sep s in if nat_beq (code c) sep then rest else c ∷ s

-- `char::is_whitespace`: the Unicode property White_Space
abbrev is_whitespace : Char → Bool
is_whitespace c =
    leb 9 (code c) && leb (code c) 13
    || nat_beq (code c) 32
    || nat_beq (code c) 0x85
    || nat_beq (code c) 0xA0
    || nat_beq (code c) 0x1680
    || leb 0x2000 (code c) && leb (code c) 0x200A
    || nat_beq (code c) 0x2028
    || nat_beq (code c) 0x2029
    || nat_beq (code c) 0x202F
    || nat_beq (code c) 0x205F
    || nat_beq (code c) 0x3000

-- `trim().is_empty()`
unfoldable pub is_blank : String → Bool
unfolding all_chars
is_blank s = all_chars is_whitespace s

-- `char::is_ascii_alphanumeric`
abbrev pub is_ascii_alphanumeric : Char → Bool
is_ascii_alphanumeric c =
    leb b'0' (code c) && leb (code c) b'9'
    || leb b'A' (code c) && leb (code c) b'Z'
    || leb b'a' (code c) && leb (code c) b'z'

-- `trim`
unfoldable trim_start : String → String
trim_start [] = ""
trim_start (c ∷ s) = let rest = trim_start s in if is_whitespace c then rest else c ∷ s

unfoldable trim_end : String → String
trim_end [] = ""
trim_end (c ∷ s) = let rest = trim_end s in if is_whitespace c && rest == "" then "" else c ∷ rest

unfoldable pub trim : String → String
unfolding trim_start trim_end
trim s = trim_end (trim_start s)

-- `replace` of a character, given by its code, by a text
unfoldable pub replace : ℕ → String → String → String
replace sep by [] = ""
replace sep by (c ∷ s) =
    let rest = replace sep by s in if nat_beq (code c) sep then by ++ rest else c ∷ rest
