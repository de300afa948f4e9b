-- ===== src/Package/Hashes.antt =====
-- What a written hash says of the hash.
use Prim.Native.String.{[], ◌∷◌, ◌++◌}
use text.Mathlib.TextLemmas.{cons-append, nil-append, tail-eq_of_cons-eq}
use oan_protocol_common.Base.{
  Char, String, ◌≡◌, refl, sym, ◌∙◌, true, false, ◌⊎◌, inl, inr, arith, Bool-cases, nat_eq, eq_iff,
  ◌==◌, string_eq,
}
use oan_protocol_common.Text.{contains}
use oan_protocol_common.Crypto.Canonical.Parts.{cancel}
use oan_protocol_common.Package.{hash_matches}

-- The text has no colon.
abbrev pub NoColon : String → Type 0
NoColon s = contains s b':' ≡ false

colon_behind : (a h : String) → contains (a ++ (":" ++ h)) b':' ≡ true
unfolding contains
colon_behind [] h = rw (nil-append, cons-append) refl
colon_behind (c ∷ a) h = rw (cons-append c a) (ground (arith, colon_behind a h))

-- A text without a colon is not one with a colon.
clash : (a h k : String) → NoColon h → h ≡ a ++ (":" ++ k) → ⊥
clash a h k n p = cc (colon_behind a k)

drop_colon : (h : String) → "" ++ (":" ++ h) ≡ ":" ++ h
drop_colon h = nil-append (":" ++ h)

colon_tail : (d : Char) (b h : String) → ":" ++ h ≡ d ∷ b → h ≡ b
colon_tail d b h p = cancel _ d h b (p ∙ sym (rw (cons-append, nil-append) refl))

after_colon : (a b h k : String) → NoColon h → NoColon k → a ++ (":" ++ h) ≡ b ++ (":" ++ k) → h ≡ k
after_colon [] [] h k n m p = cancel _ _ h k (sym (drop_colon h) ∙ p ∙ drop_colon k)
after_colon [] (d ∷ b) h k n m p =
    absurd (clash b h k n (colon_tail d _ h (sym (drop_colon h) ∙ p ∙ cons-append d b _)))
after_colon (c ∷ a) [] h k n m p =
    absurd (clash a k h m (colon_tail c _ k (sym (drop_colon k) ∙ sym p ∙ cons-append c a _)))
after_colon (c ∷ a) (d ∷ b) h k n m p =
    after_colon a b h k n m (tail-eq_of_cons-eq (sym (cons-append c a _) ∙ p ∙ cons-append d b _))

-- A written hash is the hash, alone or behind a colon.
hash_matches-cases : (e a h : String) → hash_matches e a h ≡ true → (e ≡ h) ⊎ (e ≡ a ++ (":" ++ h))
unfolding hash_matches
hash_matches-cases e a h p = elim (Bool-cases (e == h)) [
  | inl same ↦ inl ((eq_iff e h).0 same)
  | inr other ↦ inr ((eq_iff e (a ++ (":" ++ h))).0 (ground arith))
]

-- One text that is written for two hashes is written for one hash.
pub hash_matches_inj :
    (e a b h k : String)
    → hash_matches e a h ≡ true
    → hash_matches e b k ≡ true
    → NoColon h
    → NoColon k
    → h ≡ k
hash_matches_inj e a b h k p q n m = elim (hash_matches-cases e a h p) [
  | inl x ↦ elim (hash_matches-cases e b k q) [
    | inl y ↦ sym x ∙ y
    | inr y ↦ absurd (clash b h k n (sym x ∙ y))
  ]
  | inr x ↦ elim (hash_matches-cases e b k q) [
    | inl y ↦ absurd (clash a k h m (sym y ∙ x))
    | inr y ↦ after_colon a b h k n m (sym x ∙ y)
  ]
]
