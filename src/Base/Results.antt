-- ===== src/Base/Results.antt =====
-- `Result<A, E>`, with `?` as the bind of a `do` block.
use mathlib.Core.Path.{◌≡◌, refl, subst}
use mathlib.Core.Logic.{◌⊎◌, inl, inr, ◌↔◌}
use mathlib.Core.Bool.{Bool, true, false}
use mathlib.Core.Option.{Option, none, some}

pub data Result {ℓ κ} (E : Type ℓ) (A : Type κ) : Type (ℓ ⊔ κ) where
  ok : A → Result E A
  err : E → Result E A

-- `?`
infixl 5 ◌>>=◌ ◌>>◌
abbrev pub ◌>>=◌ {ℓ κ μ} :
    {E : Type ℓ} {A : Type κ} {B : Type μ} → Result E A → (A → Result E B) → Result E B
ok value >>= next = next value
err error >>= next = err error

abbrev pub ◌>>◌ {ℓ κ} : {E : Type ℓ} {B : Type κ} → Result E (Unit {0}) → Result E B → Result E B
m >> k = m >>= λ _. k

-- `if test { return Err(e) }`
abbrev pub fail_if {ℓ} : {E : Type ℓ} → Bool → E → Result E (Unit {0})
fail_if true e = err e
fail_if false e = ok tt

-- `ok_or`
abbrev pub ok_or {ℓ κ} : {E : Type ℓ} {A : Type κ} → Option A → E → Result E A
ok_or none e = err e
ok_or (some a) e = ok a

-- `map_err(|_| e)`
abbrev pub map_err {ℓ κ μ} : {E : Type ℓ} {F : Type κ} {A : Type μ} → Result E A → F → Result F A
map_err (ok a) e = ok a
map_err (err _) e = err e

abbrev pub is_ok {ℓ κ} : {E : Type ℓ} {A : Type κ} → Result E A → Bool
is_ok (ok a) = true
is_ok (err e) = false

-- To split on a computed result and keep the equation.
pub Result-cases {ℓ κ} :
    {E : Type ℓ} {A : Type κ} (m : Result E A) → ((e : E) × (m ≡ err e)) ⊎ ((a : A) × (m ≡ ok a))
Result-cases (ok a) = inr (a, refl)
Result-cases (err e) = inl (e, refl)

-- A chain that succeeds: what its first part gives, and that the rest succeeds with it.
pub >>=-eq-ok {ℓ κ μ} :
    {E : Type ℓ} {A : Type κ} {B : Type μ} (first : Result E A) (next : A → Result E B) {b : B}
    → (first >>= next) ≡ ok b
    → (value : A) × (first ≡ ok value) × (next value ≡ ok b)
>>=-eq-ok (ok value) next succeeds = (value, refl, succeeds)
>>=-eq-ok (err error) next succeeds = cc

-- Chains as equivalences: each guard passes and the rest succeeds.
pub fail_if-eq-ok {ℓ κ} :
    {E : Type ℓ} {A : Type κ} (test : Bool) (error : E) (rest : Result E A) (a : A)
    → ((fail_if test error >> rest) ≡ ok a) ↔ ((test ≡ false) × (rest ≡ ok a))
fail_if-eq-ok true error rest a = (λ h. cc, λ h. cc)
fail_if-eq-ok false error rest a = (λ h. (refl, h), λ h. h.1)

pub fail_if-last {ℓ} :
    {E : Type ℓ} (test : Bool) (error : E) → (fail_if test error ≡ ok tt) ↔ (test ≡ false)
fail_if-last true error = (λ h. cc, λ h. cc)
fail_if-last false error = (λ h. refl, λ h. refl)

pub ok_or-eq-ok {ℓ κ μ} :
    {E : Type ℓ} {A : Type κ} {B : Type μ} (o : Option A) (error : E) (next : A → Result E B)
    (b : B)
    → ((ok_or o error >>= next) ≡ ok b) ↔ ((a : A) × (o ≡ some a) × (next a ≡ ok b))
ok_or-eq-ok none error next b = (λ h. cc, λ h. let (x, e, k) = h in cc)
ok_or-eq-ok (some a) error next b = (
  λ h. (a, refl, h),
  λ h. let (x, e, k) = h in let same : x ≡ a = cc in subst (λ y. next y ≡ ok b) same k,
)

pub ok_inj {ℓ κ} : {E : Type ℓ} {A : Type κ} {a b : A} → ◌≡◌ {A = Result E A} (ok a) (ok b) → a ≡ b
ok_inj h = cc
