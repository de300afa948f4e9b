-- ===== src/Storage/Files/Names.antt =====
-- The names that `storage_safe_name` makes (crates/oan-storage/src/lib.rs).
use Prim.Native.Char.{char}
use Prim.Native.String.{[], ◌∷◌, ◌++◌}
use text.Mathlib.TextEquality.{Char-path}
use text.Mathlib.TextLemmas.{cons-append, nil-append, head-eq_of_cons-eq, tail-eq_of_cons-eq}
use oan_protocol_common.Base.{
  ◌<◌, Char, code, String, ◌≡◌, ◌↔◌, ◌⊎◌, inl, inr, refl, sym, ap, ◌∙◌, true, false, arith,
  if◌then◌else◌, Bool-cases,
}
use oan_protocol_common.Storage.Files.{is_kept, storage_safe_name}

-- The character is none that a name keeps, or is the underscore: it is before the hyphen, the slash,
-- between the digits and the capitals, between the capitals and the small letters, or behind these.
abbrev pub Underscored : Char → Type 0
Underscored c =
    (code c < 45)
    ⊎ ((code c ≡ 47)
        ⊎ (((57 < code c) × (code c < 65)) ⊎ (((90 < code c) × (code c < 97)) ⊎ (122 < code c))))

-- The texts are of one length, and where they have different characters, both are underscored.
abbrev pub Alike : String → String → Type 0
Alike [] [] = Unit
Alike [] (d ∷ t) = ⊥
Alike (c ∷ s) [] = ⊥
Alike (c ∷ s) (d ∷ t) = ((c ≡ d) ⊎ (Underscored c × Underscored d)) × Alike s t

abbrev underscore : Char
underscore = char 95 tt

abbrev pub marked : Char → Char
marked c = if is_kept c then c else underscore

pub storage_safe_name-cons :
    (c : Char) (s : String) → storage_safe_name (c ∷ s) ≡ marked c ∷ storage_safe_name s
unfolding storage_safe_name
storage_safe_name-cons c s = elim (Bool-cases (is_kept c)) [
  | inl kept ↦ rw kept (cons-append c "" (storage_safe_name s) ∙ ap (λ r. c ∷ r) (nil-append _))
  | inr other ↦
      rw other
        (cons-append underscore "" (storage_safe_name s) ∙ ap (λ r. underscore ∷ r) (nil-append _))
]

marked-Underscored : (c : Char) → Underscored c → marked c ≡ underscore
marked-Underscored c h = elim (Bool-cases (is_kept c)) [
  | inl kept ↦ rw kept (Char-path c underscore (ground (arith, h)))
  | inr other ↦ rw other refl
]

other-Underscored : (c : Char) → is_kept c ≡ false → Underscored c
other-Underscored c h = ground arith

same_mark : (c d : Char) → ((c ≡ d) ⊎ (Underscored c × Underscored d)) → marked c ≡ marked d
same_mark c d (inl same) = ap marked same
same_mark c d (inr (p, q)) = marked-Underscored c p ∙ sym (marked-Underscored d q)

underscore-Underscored : (c : Char) → c ≡ underscore → Underscored c
underscore-Underscored c p = ground (arith, ap code p)

kept_mark : (c : Char) → is_kept c ≡ true → marked c ≡ c
kept_mark c h = rw h refl

other_mark : (c : Char) → is_kept c ≡ false → marked c ≡ underscore
other_mark c h = rw h refl

alike_mark : (c d : Char) → marked c ≡ marked d → (c ≡ d) ⊎ (Underscored c × Underscored d)
alike_mark c d p = elim (Bool-cases (is_kept c)) [
  | inl kept ↦ elim (Bool-cases (is_kept d)) [
    | inl kept' ↦ inl (sym (kept_mark c kept) ∙ p ∙ kept_mark d kept')
    | inr other ↦
        let e = sym (kept_mark c kept) ∙ p ∙ other_mark d other in
        inr (underscore-Underscored c e, other-Underscored d other)
  ]
  | inr other ↦ elim (Bool-cases (is_kept d)) [
    | inl kept ↦
        let e = sym (kept_mark d kept) ∙ sym p ∙ other_mark c other in
        inr (other-Underscored c other, underscore-Underscored d e)
    | inr other' ↦ inr (other-Underscored c other, other-Underscored d other')
  ]
]

-- Two names are made the same exactly when they are alike.
pub storage_safe_name_iff : (s t : String) → (storage_safe_name s ≡ storage_safe_name t) ↔ Alike s t
unfolding storage_safe_name
storage_safe_name_iff [] [] = (λ p. tt, λ h. refl)
storage_safe_name_iff [] (d ∷ t) = (λ p. cc (storage_safe_name-cons d t, p), λ h. absurd h)
storage_safe_name_iff (c ∷ s) [] = (λ p. cc (storage_safe_name-cons c s, p), λ h. absurd h)
storage_safe_name_iff (c ∷ s) (d ∷ t) = (
  λ p.
      let q : marked c ∷ storage_safe_name s ≡ marked d ∷ storage_safe_name t =
        sym (storage_safe_name-cons c s) ∙ p ∙ storage_safe_name-cons d t in
      (alike_mark c d (head-eq_of_cons-eq q), (storage_safe_name_iff s t).0 (tail-eq_of_cons-eq q)),
  λ (m, h).
      storage_safe_name-cons c s
      ∙ (λ i. same_mark c d m i ∷ (storage_safe_name_iff s t).1 h i)
      ∙ sym (storage_safe_name-cons d t),
)

-- Making a name safe twice is making it safe once.
storage_safe_name_idempotent :
    (s : String) → storage_safe_name (storage_safe_name s) ≡ storage_safe_name s
unfolding storage_safe_name
storage_safe_name_idempotent [] = refl
storage_safe_name_idempotent (c ∷ s) = elim (Bool-cases (is_kept c)) [
  | inl kept ↦ rw kept (
      rw (cons-append c "" (storage_safe_name s)) (
        rw (nil-append (storage_safe_name s)) (
          rw kept (
            ap (λ r. (c ∷ "") ++ r) (storage_safe_name_idempotent s)
            ∙ cons-append c "" (storage_safe_name s)
            ∙ ap (λ r. c ∷ r) (nil-append (storage_safe_name s))))))
  | inr other ↦ rw other (
      rw (cons-append, nil-append)
        (ap (λ r. "_" ++ r) (storage_safe_name_idempotent s) ∙ rw (cons-append, nil-append) refl))
]
