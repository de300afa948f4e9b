-- ===== src/Text/Utf8/Injective.antt =====
-- Two texts with the same bytes are the same text.
use Prim.Native.String.{[], ◌∷◌}
use text.Mathlib.TextEquality.{Char-path}
use oan_protocol_common.Base.{
  ℕ, ◌≢◌, ◌+◌, ◌/◌, ◌%◌, ◌<◌, code, String, List, ◌++◌, ◌≡◌, refl, ◌⊎◌, inl, inr, arith, ◌∙◌, sym,
}
use oan_protocol_common.Text.Utf8.{utf8, as_bytes}

-- the bytes of a code point, by their number
abbrev one : ℕ → List ℕ → List ℕ
one n r = List.◌∷◌ n r

abbrev two : ℕ → List ℕ → List ℕ
two n r = List.◌∷◌ (0xC0 + n / 0x40) (List.◌∷◌ (0x80 + n % 0x40) r)

abbrev three : ℕ → List ℕ → List ℕ
three n r =
    List.◌∷◌ (0xE0 + n / 0x1000) (List.◌∷◌ (0x80 + n / 0x40 % 0x40) (List.◌∷◌ (0x80 + n % 0x40) r))

abbrev four : ℕ → List ℕ → List ℕ
four n r = List.◌∷◌ (0xF0 + n / 0x40000) (
    List.◌∷◌ (0x80 + n / 0x1000 % 0x40)
      (List.◌∷◌ (0x80 + n / 0x40 % 0x40) (List.◌∷◌ (0x80 + n % 0x40) r)))

utf8-cases :
    (n : ℕ) (r : List ℕ)
    → ((n < 0x80) × (utf8 n ++ r ≡ one n r))
      ⊎ (((n < 0x800) × (utf8 n ++ r ≡ two n r))
          ⊎ (((n < 0x10000) × (utf8 n ++ r ≡ three n r)) ⊎ (utf8 n ++ r ≡ four n r)))
utf8-cases n r = ground arith

cons_parts : {a b : ℕ} {r s : List ℕ} → List.◌∷◌ a r ≡ List.◌∷◌ b s → (a ≡ b) × (r ≡ s)
cons_parts h = (cc, cc)

one-inj : (n m : ℕ) (r s : List ℕ) → one n r ≡ one m s → (n ≡ m) × (r ≡ s)
one-inj n m r s p = cons_parts p

two-inj : (n m : ℕ) (r s : List ℕ) → two n r ≡ two m s → (n ≡ m) × (r ≡ s)
two-inj n m r s p0 =
    let (h0, p1) = cons_parts p0 in let (h1, p2) = cons_parts p1 in (omega arith, p2)

three-inj : (n m : ℕ) (r s : List ℕ) → three n r ≡ three m s → (n ≡ m) × (r ≡ s)
three-inj n m r s p0 =
    let (h0, p1) = cons_parts p0 in
    let (h1, p2) = cons_parts p1 in let (h2, p3) = cons_parts p2 in (omega arith, p3)

four-inj : (n m : ℕ) (r s : List ℕ) → four n r ≡ four m s → (n ≡ m) × (r ≡ s)
four-inj n m r s p0 =
    let (h0, p1) = cons_parts p0 in
    let (h1, p2) = cons_parts p1 in
    let (h2, p3) = cons_parts p2 in let (h3, p4) = cons_parts p3 in (omega arith, p4)

from_one : (n m : ℕ) (r s : List ℕ) → n < 0x80 → one n r ≡ utf8 m ++ s → (n ≡ m) × (r ≡ s)
from_one n m r s l p = elim (utf8-cases m s) [
  | inl (k, e) ↦ one-inj n m r s (p ∙ e)
  | inr (inl (k, e)) ↦ let (h, q) = cons_parts (p ∙ e) in absurd (omega arith)
  | inr (inr (inl (k, e))) ↦ let (h, q) = cons_parts (p ∙ e) in absurd (omega arith)
  | inr (inr (inr (e))) ↦ let (h, q) = cons_parts (p ∙ e) in absurd (omega arith)
]

from_two : (n m : ℕ) (r s : List ℕ) → n < 0x800 → two n r ≡ utf8 m ++ s → (n ≡ m) × (r ≡ s)
from_two n m r s l p = elim (utf8-cases m s) [
  | inl (k, e) ↦ let (h, q) = cons_parts (p ∙ e) in absurd (omega arith)
  | inr (inl (k, e)) ↦ two-inj n m r s (p ∙ e)
  | inr (inr (inl (k, e))) ↦ let (h, q) = cons_parts (p ∙ e) in absurd (omega arith)
  | inr (inr (inr (e))) ↦ let (h, q) = cons_parts (p ∙ e) in absurd (omega arith)
]

from_three : (n m : ℕ) (r s : List ℕ) → n < 0x10000 → three n r ≡ utf8 m ++ s → (n ≡ m) × (r ≡ s)
from_three n m r s l p = elim (utf8-cases m s) [
  | inl (k, e) ↦ let (h, q) = cons_parts (p ∙ e) in absurd (omega arith)
  | inr (inl (k, e)) ↦ let (h, q) = cons_parts (p ∙ e) in absurd (omega arith)
  | inr (inr (inl (k, e))) ↦ three-inj n m r s (p ∙ e)
  | inr (inr (inr (e))) ↦ let (h, q) = cons_parts (p ∙ e) in absurd (omega arith)
]

from_four : (n m : ℕ) (r s : List ℕ) → four n r ≡ utf8 m ++ s → (n ≡ m) × (r ≡ s)
from_four n m r s p = elim (utf8-cases m s) [
  | inl (k, e) ↦ let (h, q) = cons_parts (p ∙ e) in absurd (omega arith)
  | inr (inl (k, e)) ↦ let (h, q) = cons_parts (p ∙ e) in absurd (omega arith)
  | inr (inr (inl (k, e))) ↦ let (h, q) = cons_parts (p ∙ e) in absurd (omega arith)
  | inr (inr (inr (e))) ↦ four-inj n m r s (p ∙ e)
]

utf8_inj : (n m : ℕ) (r s : List ℕ) → utf8 n ++ r ≡ utf8 m ++ s → (n ≡ m) × (r ≡ s)
utf8_inj n m r s p = elim (utf8-cases n r) [
  | inl (l, e) ↦ from_one n m r s l (sym e ∙ p)
  | inr (inl (l, e)) ↦ from_two n m r s l (sym e ∙ p)
  | inr (inr (inl (l, e))) ↦ from_three n m r s l (sym e ∙ p)
  | inr (inr (inr e)) ↦ from_four n m r s (sym e ∙ p)
]

utf8-cons : (n : ℕ) (r : List ℕ) → utf8 n ++ r ≢ List.[]
utf8-cons n r p = elim (utf8-cases n r) [
  | inl (l, e) ↦ cc
  | inr (inl (l, e)) ↦ cc
  | inr (inr (inl (l, e))) ↦ cc
  | inr (inr (inr e)) ↦ cc
]

pub as_bytes_injective : (s t : String) → as_bytes s ≡ as_bytes t → s ≡ t
unfolding as_bytes
as_bytes_injective [] [] p = refl
as_bytes_injective [] (d ∷ t) p = absurd (utf8-cons (code d) (as_bytes t) (sym p))
as_bytes_injective (c ∷ s) [] p = absurd (utf8-cons (code c) (as_bytes s) p)
as_bytes_injective (c ∷ s) (d ∷ t) p =
    let (h, q) = utf8_inj (code c) (code d) (as_bytes s) (as_bytes t) p in
    let same = as_bytes_injective s t q in λ i. Char-path c d h i ∷ same i
