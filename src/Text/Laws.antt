-- ===== src/Text/Laws.antt =====
-- Laws of the text operations.
use Prim.Native.String.{[], ◌∷◌, ◌++◌}
use text.Mathlib.TextEquality.{Char-path}
use text.Mathlib.TextLemmas.{nil-append, cons-append}
use oan_protocol_common.Base.{
  ℕ, Char, code, String, ◌≡◌, refl, ap, Bool, true, false, some, arith, nat_beq, nat_beq_iff,
  Bool-cases, inl, inr, ltb, leb,
}
use oan_protocol_common.Text.{strip_prefix, starts_with, all_chars, contains}

-- What `strip_prefix` leaves is what stands behind the prefix.
pub strip_prefix-eq-some : (p s r : String) → strip_prefix p s ≡ some r → s ≡ p ++ r
unfolding strip_prefix
strip_prefix-eq-some [] s r h = ground (arith, nil-append r)
strip_prefix-eq-some (c ∷ p) [] r h = cc
strip_prefix-eq-some (c ∷ p) (d ∷ s) r h = elim (Bool-cases (nat_beq (code c) (code d))) [
  | inl same ↦
      let e = Char-path c d ((nat_beq_iff (code c) (code d)).0 same) in
      rw (cons-append) (rw (← e) (ap (λ t. c ∷ t) (strip_prefix-eq-some p s r (rw same at h))))
  | inr other ↦ cc (rw other at h)
]

pub strip_prefix-append : (p r : String) → strip_prefix p (p ++ r) ≡ some r
unfolding strip_prefix
strip_prefix-append [] r = rw nil-append
strip_prefix-append (c ∷ p) r =
    rw cons-append (rw ((nat_beq_iff (code c) (code c)).1 refl) (strip_prefix-append p r))

pub starts_with-append : (p r : String) → starts_with p (p ++ r) ≡ true
unfolding starts_with
starts_with-append p r = rw (starts_with, strip_prefix-append p r) refl

-- A text whose characters all pass `p`.
abbrev pub AllChars : (Char → Bool) → String → Type 0
AllChars p [] = Unit
AllChars p (c ∷ s) = (p c ≡ true) × AllChars p s

pub all_chars_iff_to : (p : Char → Bool) (s : String) → all_chars p s ≡ true → AllChars p s
unfolding all_chars
all_chars_iff_to p [] h = tt
all_chars_iff_to p (c ∷ s) h = (ground arith, all_chars_iff_to p s (ground arith))

pub all_chars_of : (p : Char → Bool) (s : String) → AllChars p s → all_chars p s ≡ true
unfolding all_chars
all_chars_of p [] h = refl
all_chars_of p (c ∷ s) (q, h) = rw (q, all_chars_of p s h)

pub AllChars-append :
    (p : Char → Bool) (s t : String) → AllChars p s → AllChars p t → AllChars p (s ++ t)
AllChars-append p [] t h k = rw nil-append k
AllChars-append p (c ∷ s) t (q, h) k = rw cons-append (q, AllChars-append p s t h k)

pub AllChars-mono :
    (p q : Char → Bool) (s : String)
    → ((c : Char) → p c ≡ true → q c ≡ true)
    → AllChars p s
    → AllChars q s
AllChars-mono p q [] f h = tt
AllChars-mono p q (c ∷ s) f (x, h) = (f c x, AllChars-mono p q s f h)

-- A character that `contains` finds is one of the text's.
pub contains_above :
    (s : String) (k n : ℕ)
    → AllChars (λ c. ltb (code c) k) s
    → leb k n ≡ true
    → contains s n ≡ false
unfolding contains
contains_above [] k n h g = refl
contains_above (c ∷ s) k n (q, h) g = ground (arith, contains_above s k n h g)
