-- ===== src/Text/Utf8.antt =====
-- The bytes of a text: its code points in UTF-8.
pub mod Injective
use oan_protocol_common.Base.{
  ℕ, ◌+◌, ◌/◌, ◌%◌, code, String, List, [], ◌∷◌, ◌++◌, ltb, if◌then◌else◌,
}

abbrev pub utf8 : ℕ → List ℕ
utf8 n =
    if ltb n 0x80
    then n ∷ []
    else (if ltb n 0x800
        then (0xC0 + n / 0x40) ∷ (0x80 + n % 0x40) ∷ []
        else (if ltb n 0x10000
            then (0xE0 + n / 0x1000) ∷ (0x80 + n / 0x40 % 0x40) ∷ (0x80 + n % 0x40) ∷ []
            else (0xF0 + n / 0x40000)
              ∷ (0x80 + n / 0x1000 % 0x40)
              ∷ (0x80 + n / 0x40 % 0x40)
              ∷ (0x80 + n % 0x40)
              ∷ []))

-- `as_bytes` and `into_bytes`
unfoldable pub as_bytes : String → List ℕ
as_bytes String.[] = []
as_bytes (String.◌∷◌ c s) = utf8 (code c) ++ as_bytes s
