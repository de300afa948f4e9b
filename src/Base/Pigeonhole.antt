-- ===== src/Base/Pigeonhole.antt =====
-- A list without repetition that takes its elements from another is no longer than it.
use Prim.Native.Nat.{suc, ◌≤◌}
use mathlib.Core.Path.{◌≡◌, refl, ap, sym, ◌∙◌}
use mathlib.Core.Logic.{◌≢◌}
use mathlib.Core.List.{List, [], ◌∷◌}
use native.Mathlib.Omega.{arith}
use oan_protocol_common.Base.Lists.{length, All, All-zip}

-- an element of the list
pub data Among {ℓ} {A : Type ℓ} (a : A) : List A → Type ℓ where
  here : {x : A} {xs : List A} → x ≡ a → Among a (x ∷ xs)
  there : {x : A} {xs : List A} → Among a xs → Among a (x ∷ xs)

module _ {ℓ} {A : Type ℓ} where
  -- the list without the element at a place
  abbrev without : (a : A) (xs : List A) → Among a xs → List A
  without a [] m = elim m [ ]
  without a (x ∷ xs) (here e) = xs
  without a (x ∷ xs) (there m) = x ∷ without a xs m

  length-without :
      (a : A) (xs : List A) (m : Among a xs) → suc (length (without a xs m)) ≡ length xs
  length-without a [] m = elim m [ ]
  length-without a (x ∷ xs) (here e) = refl
  length-without a (x ∷ xs) (there m) = ap suc (length-without a xs m)

  Among-without :
      (a b : A) (xs : List A) (m : Among a xs) → a ≢ b → Among b xs → Among b (without a xs m)
  Among-without a b [] m other k = elim m [ ]
  Among-without a b (x ∷ xs) (here e) other (here f) = absurd (other (sym e ∙ f))
  Among-without a b (x ∷ xs) (here e) other (there k) = k
  Among-without a b (x ∷ xs) (there m) other (here f) = here f
  Among-without a b (x ∷ xs) (there m) other (there k) = there (Among-without a b xs m other k)

  abbrev pub IsDistinct : List A → Type ℓ
  IsDistinct [] = Unit
  IsDistinct (x ∷ xs) = All (λ y. x ≢ y) xs × IsDistinct xs

  pub length-distinct :
      (xs ys : List A) → IsDistinct xs → All (λ x. Among x ys) xs → length xs ≤ length ys
  length-distinct [] ys d m = omega arith
  length-distinct (x ∷ xs) ys (new, d) (m, ms) = omega (
    arith,
    length-without x ys m,
    length-distinct xs (without x ys m) d (
        All-zip (λ y. x ≢ y) (λ y. Among y ys) (λ y. Among y (without x ys m)) xs
          (λ y other k. Among-without x y ys m other k) new ms),
  )
