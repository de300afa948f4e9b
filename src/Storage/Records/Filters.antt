-- ===== src/Storage/Records/Filters.antt =====
-- Laws of `retain`, `take` and `++` for the pages of records.
use oan_protocol_common.Base.{
  ℕ, zero, suc, ◌≡◌, refl, ap, Bool, true, false, List, [], ◌∷◌, ◌++◌, All, any, retain, length,
  take, Bool-cases, inl, inr, arith,
}

module _ {A : Type 0} where
  pub retain_every : (p : A → Bool) (l : List A) → All (λ x. p x ≡ true) l → retain p l ≡ l
  retain_every p [] h = refl
  retain_every p (x ∷ l) (q, h) = rw q (ap (λ m. x ∷ m) (retain_every p l h))

  pub retain_no : (p : A → Bool) (l : List A) → any p l ≡ false → retain p l ≡ []
  retain_no p [] h = refl
  retain_no p (x ∷ l) h = ground (arith, retain_no p l)

  pub retain-retain :
      (p q : A → Bool) (l : List A)
      → ((x : A) → q x ≡ true → p x ≡ true)
      → retain q (retain p l) ≡ retain q l
  retain-retain p q [] f = refl
  retain-retain p q (x ∷ l) f = elim (Bool-cases (q x)) [
    | inl kept ↦ rw (f x kept) (rw kept (ap (λ m. x ∷ m) (retain-retain p q l f)))
    | inr left ↦ ground (arith, left, retain-retain p q l f)
  ]

  pub All-keep : (P : A → Type 0) (p : A → Bool) (l : List A) → All P l → All P (retain p l)
  All-keep P p [] h = tt
  All-keep P p (x ∷ l) (q, h) = elim (Bool-cases (p x)) [
    | inl kept ↦ rw kept (q, All-keep P p l h)
    | inr left ↦ rw left (All-keep P p l h)
  ]

  pub All-at : (P : A → Type 0) (xs ys : List A) (c : A) → All P (xs ++ c ∷ ys) → P c
  All-at P [] ys c h = h.0
  All-at P (x ∷ xs) ys c h = All-at P xs ys c h.1

  pub retain-holds : (p : A → Bool) (l : List A) → All (λ x. p x ≡ true) (retain p l)
  retain-holds p [] = tt
  retain-holds p (x ∷ l) = elim (Bool-cases (p x)) [
    | inl kept ↦ rw kept (kept, retain-holds p l)
    | inr left ↦ rw left (retain-holds p l)
  ]

  pub take-length : (n : ℕ) (l : List A) → take (length (take n l)) l ≡ take n l
  take-length zero l = refl
  take-length (suc n) [] = refl
  take-length (suc n) (x ∷ l) = ap (λ m. x ∷ m) (take-length n l)

pub append_nil {ℓ} : {A : Type ℓ} (l : List A) → l ++ [] ≡ l
append_nil [] = refl
append_nil (x ∷ l) = ap (λ m. x ∷ m) (append_nil l)

pub append_assoc {ℓ} : {A : Type ℓ} (l m n : List A) → (l ++ m) ++ n ≡ l ++ (m ++ n)
append_assoc [] m n = refl
append_assoc (x ∷ l) m n = ap (λ k. x ∷ k) (append_assoc l m n)
