-- ===== src/Text/Split.antt =====
-- What `split` returns, and on which texts it returns it.
use Prim.Native.String.{[], ◌∷◌, ◌++◌}
use text.Mathlib.TextEquality.{Char-path}
use text.Mathlib.TextLemmas.{nil-append, cons-append}
use oan_protocol_common.Base.{
  Char, code, String, ◌≡◌, ◌≢◌, refl, ap, Bool, not, List, [], ◌∷◌, arith, nat_beq, nat_beq_iff,
  Bool-cases, inl, inr,
}
use oan_protocol_common.Text.{cons_head, split}
use oan_protocol_common.Text.Laws.{AllChars}

module _ (sep : Char) where
  abbrev pub is_other : Char → Bool
  is_other c = not (nat_beq (code c) (code sep))

  cons_head-ne-nil : (c : Char) (l : List String) → l ≢ [] → cons_head c l ≢ []
  cons_head-ne-nil c [] k h = k refl
  cons_head-ne-nil c (a ∷ l) k h = cc

  cons_head-eq_one :
      (c : Char) (l : List String) (b : String)
      → cons_head c l ≡ b ∷ []
      → (a : String) × (l ≡ a ∷ []) × (b ≡ c ∷ a)
  cons_head-eq_one c [] b h = cc
  cons_head-eq_one c (a ∷ []) b h = (a, refl, cc)
  cons_head-eq_one c (a ∷ x ∷ l) b h = cc

  cons_head-eq_two :
      (c : Char) (l : List String) (b t : String)
      → cons_head c l ≡ b ∷ t ∷ []
      → (a : String) × (l ≡ a ∷ t ∷ []) × (b ≡ c ∷ a)
  cons_head-eq_two c [] b t h = cc
  cons_head-eq_two c (a ∷ l) b t h = (a, cc, cc)

  split-ne-nil : (s : String) → split (code sep) s ≢ []
  unfolding split
  split-ne-nil [] h = cc
  split-ne-nil (c ∷ s) h = elim (Bool-cases (nat_beq (code c) (code sep))) [
    | inl same ↦ cc (rw same at h)
    | inr other ↦ cons_head-ne-nil c (split (code sep) s) (split-ne-nil s) (rw other at h)
  ]

  -- One part: the text itself.
  split-eq_one : (s b : String) → split (code sep) s ≡ b ∷ [] → s ≡ b
  unfolding split
  split-eq_one [] b h = cc
  split-eq_one (c ∷ s) b h = elim (Bool-cases (nat_beq (code c) (code sep))) [
    | inl same ↦ absurd (split-ne-nil s (cc (rw same at h)))
    | inr other ↦
        let (a, tail, head) = cons_head-eq_one c _ b (rw other at h) in
        rw head (ap (λ t. c ∷ t) (split-eq_one s a tail))
  ]

  -- Two parts: the text is the two with the separator between.
  pub split-eq_two : (s a b : String) → split (code sep) s ≡ a ∷ b ∷ [] → s ≡ a ++ (sep ∷ b)
  unfolding split
  split-eq_two [] a b h = cc
  split-eq_two (c ∷ s) a b h = elim (Bool-cases (nat_beq (code c) (code sep))) [
    | inl same ↦
        let e = Char-path c sep ((nat_beq_iff (code c) (code sep)).0 same) in
        let q : ◌≡◌ {A = List String} ("" ∷ split (code sep) s) (a ∷ b ∷ []) = rw same at h in
        let empty : a ≡ "" = cc in
        let tail : split (code sep) s ≡ b ∷ [] = cc in
        rw empty (rw nil-append (rw e (ap (λ t. sep ∷ t) (split-eq_one s b tail))))
    | inr other ↦
        let (t, tail, head) = cons_head-eq_two c _ a b (rw other at h) in
        rw head (rw cons-append (ap (λ t. c ∷ t) (split-eq_two s t b tail)))
  ]

  -- A text without the separator is one part.
  pub split_of_AllChars : (s : String) → AllChars is_other s → split (code sep) s ≡ s ∷ []
  unfolding split
  split_of_AllChars [] h = refl
  split_of_AllChars (c ∷ s) (q, h) = ground (arith, split_of_AllChars s h)

  pub split-append :
      (s t : String)
      → AllChars is_other s
      → split (code sep) (s ++ (sep ∷ t)) ≡ s ∷ split (code sep) t
  unfolding split
  split-append [] t h = rw nil-append (ground arith)
  split-append (c ∷ s) t (q, h) = rw cons-append (ground (arith, split-append s t h))
