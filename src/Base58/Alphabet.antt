-- ===== src/Base58/Alphabet.antt =====
-- The alphabet of the validators and the character class of the syntax are the same, so texts
-- that the validators accept are runs of the class, of one byte for each character.
use Prim.Native.Nat.{compare}
use Prim.Native.Char.{len_utf8, len_utf8_def, width}
use Prim.Native.String.{[], ◌∷◌, ◌++◌, len}
use Prim.Native.String.len as len_clauses
use text.Mathlib.TextLemmas.{nil-append, cons-append}
use oan_protocol_common.Base.{
  ℕ, suc, ◌+◌, ◌<◌, Char, code, String, ◌≡◌, refl, sym, ◌∙◌, Bool, true, false, not, some, arith,
  holds_below, holds_below_sound, leb, ltb, nat_beq, Bool-cases, inl, inr,
}
use oan_protocol_common.Text.{all_chars, contains}
use oan_protocol_common.Text.Laws.{AllChars, contains_above, all_chars_iff_to}
use oan_protocol_common.Base58.{is_base58, base58_alphabet, in_class, class_run}

abbrev same : Bool → Bool → Bool
same true b = b
same false b = not b

class_table : holds_below 128 (λ n. same (contains base58_alphabet n) (in_class n)) ≡ true
unfolding holds_below contains in_class
class_table = refl

same_eq : (a b : Bool) → same a b ≡ true → a ≡ b
same_eq a b h = ground arith

in_class_above : (n : ℕ) → leb 128 n ≡ true → in_class n ≡ false
unfolding in_class
in_class_above n h = ground arith

alphabet-ascii : all_chars (λ c. ltb (code c) 128) base58_alphabet ≡ true
unfolding all_chars
alphabet-ascii = refl

-- A code is in the alphabet exactly when it is in the class of the syntax.
pub contains-in_class : (n : ℕ) → contains base58_alphabet n ≡ in_class n
contains-in_class n = elim (Bool-cases (leb 128 n)) [
  | inl high ↦
      contains_above base58_alphabet 128 n (all_chars_iff_to _ _ alphabet-ascii) high
      ∙ sym (in_class_above n high)
  | inr low ↦ same_eq _ _ (holds_below_sound 128 _ n class_table (ground arith))
]

in_class-ascii : (n : ℕ) → in_class n ≡ true → n < 128
unfolding in_class
in_class-ascii n h = ground arith

in_class-other : (n : ℕ) → in_class n ≡ true → not (nat_beq n 58) ≡ true
unfolding in_class
in_class-other n h = ground arith

width-ascii : (n : ℕ) → n < 128 → width (compare n 128) (compare n 2048) (compare n 65536) ≡ 1
width-ascii n h = ground arith

len_utf8-ascii : (c : Char) → code c < 128 → len_utf8 c ≡ 1
len_utf8-ascii c h = (λ i. len_utf8_def c i) ∙ width-ascii (code c) h

pub len-base58 : (c : Char) (s : String) → is_base58 c ≡ true → len (c ∷ s) ≡ suc (len s)
len-base58 c s q =
    let ascii = in_class-ascii (code c) (sym (contains-in_class (code c)) ∙ q) in
    let clause : len (c ∷ s) ≡ len_utf8 c + len s = λ i. len_clauses.cons c s i in
    omega (arith, clause, len_utf8-ascii c ascii)

-- A text of Base58 characters has as many bytes as characters, and is a run of the class.
pub class_run-append : (s t : String) → AllChars is_base58 s → class_run (len s) (s ++ t) ≡ some t
unfolding class_run
class_run-append [] t h = rw nil-append
class_run-append (c ∷ s) t (q, h) =
    rw (len-base58 c s q, cons-append)
      (rw (sym (contains-in_class (code c)) ∙ q) (class_run-append s t h))

-- No character of the alphabet is the separator of the parts.
pub is_base58-other : (c : Char) → is_base58 c ≡ true → not (nat_beq (code c) 58) ≡ true
is_base58-other c q = in_class-other (code c) (sym (contains-in_class (code c)) ∙ q)
