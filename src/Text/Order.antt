-- ===== src/Text/Order.antt =====
-- The order of texts by their bytes, which is the order of Rust's `str`, of a `BTreeMap`'s keys and
-- of SQL's binary collation. `compare` is the native comparison of texts.
use Prim.Native.Nat.{Ordering, compare as compare_nat}
use Prim.Native.String.{[], ◌∷◌, compare, then}
use Prim.Native.String.compare as clauses
use oan_protocol_common.Base.{
  ℕ, code, String, ◌≡◌, refl, sym, ◌∙◌, Bool, true, false, arith, inl, inr, ◌⊎◌,
}

-- `<` and `<=`
abbrev str_lt : String → String → Bool
str_lt s t = elim (compare s t) [ Ordering.lt ↦ true | _ ↦ false ]

abbrev str_le : String → String → Bool
str_le s t = elim (compare s t) [ Ordering.gt ↦ false | _ ↦ true ]

compare_nat_trans :
    (c d e : ℕ)
    → compare_nat c d ≡ Ordering.lt
    → compare_nat d e ≡ Ordering.lt
    → compare_nat c e ≡ Ordering.lt
compare_nat_trans c d e p q = ground arith

then_trans :
    (c d e : ℕ) (st tu su : Ordering)
    → (st ≡ Ordering.lt → tu ≡ Ordering.lt → su ≡ Ordering.lt)
    → then (compare_nat c d) st ≡ Ordering.lt
    → then (compare_nat d e) tu ≡ Ordering.lt
    → then (compare_nat c e) su ≡ Ordering.lt
then_trans c d e st tu su ih p q = ground arith

pub compare_trans :
    (s t u : String)
    → compare s t ≡ Ordering.lt
    → compare t u ≡ Ordering.lt
    → compare s u ≡ Ordering.lt
compare_trans [] [] u p q = cc
compare_trans [] (d ∷ t) [] p q = cc (clauses.cons-nil d t)
compare_trans [] (d ∷ t) (e ∷ u) p q = clauses.nil-cons e u
compare_trans (c ∷ s) [] u p q = cc (clauses.cons-nil c s)
compare_trans (c ∷ s) (d ∷ t) [] p q = cc (clauses.cons-nil d t)
compare_trans (c ∷ s) (d ∷ t) (e ∷ u) p q =
    clauses.cons-cons c e s u
    ∙ then_trans (code c) (code d) (code e) (compare s t) (compare t u) (compare s u)
        (compare_trans s t u) (sym (clauses.cons-cons c d s t) ∙ p)
        (sym (clauses.cons-cons d e t u) ∙ q)

then_flip :
    (c d : ℕ) (st ts : Ordering)
    → (st ≡ Ordering.gt → ts ≡ Ordering.lt)
    → then (compare_nat c d) st ≡ Ordering.gt
    → then (compare_nat d c) ts ≡ Ordering.lt
then_flip c d st ts ih p = ground arith

pub compare_flip : (s t : String) → compare s t ≡ Ordering.gt → compare t s ≡ Ordering.lt
compare_flip [] [] p = cc clauses.nil-nil
compare_flip [] (d ∷ t) p = cc (clauses.nil-cons d t)
compare_flip (c ∷ s) [] p = clauses.nil-cons c s
compare_flip (c ∷ s) (d ∷ t) p =
    clauses.cons-cons d c t s
    ∙ then_flip (code c) (code d) (compare s t) (compare t s) (compare_flip s t)
        (sym (clauses.cons-cons c d s t) ∙ p)

pub Ordering-cases : (o : Ordering) → (o ≡ Ordering.lt) ⊎ ((o ≡ Ordering.eq) ⊎ (o ≡ Ordering.gt))
Ordering-cases Ordering.lt = inl refl
Ordering-cases Ordering.eq = inr (inl refl)
Ordering-cases Ordering.gt = inr (inr refl)
