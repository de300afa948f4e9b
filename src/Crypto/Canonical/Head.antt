-- ===== src/Crypto/Canonical/Head.antt =====
-- The first character of a value's canonical text tells what kind of value it is.
use Prim.Native.String.{[], ◌∷◌, ◌++◌}
use text.Mathlib.TextLemmas.{cons-append, append_assoc}
use oan_protocol_common.Base.{
  ℕ, Char, code, String, ◌≡◌, ◌≢◌, refl, Bool, true, false, ◌||◌, ◌&&◌, Option, some, leb, nat_beq,
  if◌then◌else◌,
}
use oan_protocol_common.Text.Laws.{AllChars}
use oan_protocol_common.Json.{
  Value, null, boolean, number, string, array, object, Values, no_values, value, Fields, no_fields,
  field,
}
use oan_protocol_common.Crypto.Primitives.{Primitives}
use oan_protocol_common.Crypto.Canonical.{canonical_json_value}

-- the characters of a JSON number
abbrev pub in_number : Char → Bool
in_number c =
    leb b'0' (code c) && leb (code c) b'9'
    || (nat_beq (code c) b'-'
        || (nat_beq (code c) b'+'
            || (nat_beq (code c) b'.' || (nat_beq (code c) b'e' || nat_beq (code c) b'E'))))

-- What the first character says: nothing, a number, or the character's code.
abbrev pub head : String → ℕ
head [] = 0
head (c ∷ s) = if in_number c then 1 else code c

abbrev pub kind : Value → ℕ
kind null = b'n'
kind (boolean true) = b't'
kind (boolean false) = b'f'
kind (number n) = 1
kind (string s) = 34
kind (array vs) = b'['
kind (object fs) = b'{'

-- A text of one or more characters of a number.
abbrev IsNumber : String → Type 0
IsNumber n = AllChars in_number n × (n ≢ [])

-- Every number of a value is a text that a number can be.
abbrev mutual
  pub IsJson : Value → Type 0
  IsJson null = Unit
  IsJson (boolean b) = Unit
  IsJson (number n) = IsNumber n
  IsJson (string s) = Unit
  IsJson (array vs) = AreJson vs
  IsJson (object fs) = HasJson fs

  pub AreJson : Values → Type 0
  AreJson no_values = Unit
  AreJson (value v vs) = IsJson v × AreJson vs

  pub HasJson : Fields → Type 0
  HasJson no_fields = Unit
  HasJson (field k v fs) = IsJson v × HasJson fs

-- What is asked of the text of a string: that it starts with a quotation mark, and that a reader
-- finds the string and what stands behind it.
pub record Quotes (quote : String → String) (read : String → Option (String × String))
    : Type 0 where
  pub opens : (s r : String) → head (quote s ++ r) ≡ 34
  pub reads : (s r : String) → read (quote s ++ r) ≡ some (s, r)

-- The first character of a text of several parts.
head-number : (n r : String) → IsNumber n → head (n ++ r) ≡ 1
head-number [] r (h, k) = absurd (k refl)
head-number (c ∷ n) r ((q, h), k) = rw cons-append (rw q refl)

module _ (primitives : Primitives) (read : String → Option (String × String))
    (quotes : Quotes primitives.json_string read) where
  pub head-canonical :
      (v : Value) (r : String) → IsJson v → head (canonical_json_value primitives v ++ r) ≡ kind v
  unfolding canonical_json_value
  head-canonical null r j = rw cons-append refl
  head-canonical (boolean true) r j = rw cons-append refl
  head-canonical (boolean false) r j = rw cons-append refl
  head-canonical (number n) r j = head-number n r j
  head-canonical (string s) r j = quotes.opens s r
  head-canonical (array vs) r j = rw (append_assoc "[") (rw cons-append refl)
  head-canonical (object fs) r j = rw (append_assoc "{") (rw cons-append refl)
