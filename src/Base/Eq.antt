-- ===== src/Base/Eq.antt =====
-- One `==` for every type of the program that derives `PartialEq`.
use Prim.Native.Nat.{ℕ, zero, suc}
use Prim.Native.String.{String}
use mathlib.Core.Path.{◌≡◌, ap, sym, ◌∙◌}
use mathlib.Core.Logic.{◌↔◌}
use mathlib.Core.Bool.{Bool, true, false, ◌&&◌}
use mathlib.Core.List.{List, [], ◌∷◌}
use mathlib.Core.Option.{Option, none, some}
use native.Mathlib.Omega.{arith}
use text.Mathlib.Text.{◌==◌ as str_eq}
use text.Mathlib.TextEquality.{eq_iff}
use oan_protocol_common.Base.Tests.{nat_beq, nat_beq_iff}

-- The derived test, and that it decides equality.
pub record PartialEq {ℓ} (T : Type ℓ) : Type ℓ where
  pub test : T → T → Bool
  pub test_iff : (x y : T) → (test x y ≡ true) ↔ (x ≡ y)

instance abbrev pub string_eq : PartialEq String
string_eq = record { test = str_eq; test_iff = eq_iff }

instance abbrev pub nat_eq : PartialEq ℕ
nat_eq = record { test = nat_beq; test_iff = nat_beq_iff }

abbrev negate : Bool → Bool
negate true = false
negate false = true

abbrev pub ◌==◌ {ℓ} : {T : Type ℓ} ⦃derived : PartialEq T⦄ → T → T → Bool
◌==◌ ⦃derived⦄ x y = derived.test x y

abbrev pub ◌!=◌ {ℓ} : {T : Type ℓ} ⦃derived : PartialEq T⦄ → T → T → Bool
◌!=◌ ⦃derived⦄ x y = negate (derived.test x y)

infix 50 ◌==◌ ◌!=◌
module _ {ℓ} {A : Type ℓ} ⦃e : PartialEq A⦄ where
  abbrev option_beq : Option A → Option A → Bool
  option_beq none none = true
  option_beq none (some b) = false
  option_beq (some a) none = false
  option_beq (some a) (some b) = e.test a b

  pub option_beq_iff : (a b : Option A) → (option_beq a b ≡ true) ↔ (a ≡ b)
  option_beq_iff none none = ground arith
  option_beq_iff none (some b) = ground arith
  option_beq_iff (some a) none = ground arith
  option_beq_iff (some a) (some b) = ground (arith, e.test_iff a b)

instance abbrev pub option_eq {ℓ} : {A : Type ℓ} ⦃e : PartialEq A⦄ → PartialEq (Option A)
option_eq = record { test = option_beq; test_iff = option_beq_iff }

-- the member of a list at an index, and the default behind its end
abbrev pub nth_or {ℓ} : {T : Type ℓ} → T → List T → ℕ → T
nth_or d [] n = d
nth_or d (x ∷ xs) zero = x
nth_or d (x ∷ xs) (suc n) = nth_or d xs n

-- An enumeration is compared by its discriminants: a number for each constructor, and back.
abbrev pub enum_eq {ℓ} :
    {T : Type ℓ} (discriminant : T → ℕ) (of_discriminant : ℕ → T)
    → ((x : T) → of_discriminant (discriminant x) ≡ x)
    → PartialEq T
enum_eq discriminant of_discriminant back = record {
  test = λ x y. nat_beq (discriminant x) (discriminant y);
  test_iff = λ x y. (
    λ h.
        sym (back x)
        ∙ ap of_discriminant ((nat_beq_iff (discriminant x) (discriminant y)).0 h)
        ∙ back y,
    λ e. (nat_beq_iff (discriminant x) (discriminant y)).1 (ap discriminant e),
  );
}

module _ {ℓ} {T : Type ℓ} ⦃element : PartialEq T⦄ where
  abbrev pub list_beq : List T → List T → Bool
  list_beq [] [] = true
  list_beq [] (y ∷ ys) = false
  list_beq (x ∷ xs) [] = false
  list_beq (x ∷ xs) (y ∷ ys) = element.test x y && list_beq xs ys

  pub list_beq_iff : (xs ys : List T) → (list_beq xs ys ≡ true) ↔ (xs ≡ ys)
  list_beq_iff [] [] = ground arith
  list_beq_iff [] (y ∷ ys) = ground arith
  list_beq_iff (x ∷ xs) [] = ground arith
  list_beq_iff (x ∷ xs) (y ∷ ys) = ground (arith, element.test_iff x y, list_beq_iff xs ys)

instance abbrev pub list_eq {ℓ} : {T : Type ℓ} ⦃element : PartialEq T⦄ → PartialEq (List T)
list_eq = record { test = list_beq; test_iff = list_beq_iff }
