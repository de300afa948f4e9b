-- ===== src/Security/Control/Secrets.antt =====
-- `contains_private_key_material` finds a secret's key at every depth.
use oan_protocol_common.Base.{◌≡◌, ◌↔◌, refl, Bool, false, ◌||◌, arith}
use oan_protocol_common.Json.{
  Value, null, boolean, number, string, array, object, Values, no_values, value, Fields, no_fields,
  field,
}
use oan_protocol_common.Security.Control.{
  is_secret, contains_private_key_material, any_value, any_field,
}

-- A value in which no object, at any depth, has a key for a secret.
abbrev mutual
  pub IsClean : Value → Type 0
  IsClean (array vs) = AreClean vs
  IsClean (object fs) = HasClean fs
  IsClean _ = Unit

  pub AreClean : Values → Type 0
  AreClean no_values = Unit
  AreClean (value v vs) = IsClean v × AreClean vs

  pub HasClean : Fields → Type 0
  HasClean no_fields = Unit
  HasClean (field key v fs) = (is_secret key ≡ false) × IsClean v × HasClean fs

or_false : (a b : Bool) → ((a || b) ≡ false) ↔ ((a ≡ false) × (b ≡ false))
or_false a b = ground arith

mutual
  unfolding contains_private_key_material

  IsClean-iff : (v : Value) → (contains_private_key_material v ≡ false) ↔ IsClean v
  IsClean-iff null = ((λ h. tt), (λ h. refl))
  IsClean-iff (boolean b) = ((λ h. tt), (λ h. refl))
  IsClean-iff (number n) = ((λ h. tt), (λ h. refl))
  IsClean-iff (string s) = ((λ h. tt), (λ h. refl))
  IsClean-iff (array vs) = AreClean-iff vs
  IsClean-iff (object fs) = HasClean-iff fs

  AreClean-iff : (vs : Values) → (any_value vs ≡ false) ↔ AreClean vs
  AreClean-iff no_values = ((λ h. tt), (λ h. refl))
  AreClean-iff (value v vs) = (
    λ h. let (a, b) = (or_false _ _).0 h in ((IsClean-iff v).0 a, (AreClean-iff vs).0 b),
    λ h. (or_false _ _).1 ((IsClean-iff v).1 h.0, (AreClean-iff vs).1 h.1),
  )

  HasClean-iff : (fs : Fields) → (any_field fs ≡ false) ↔ HasClean fs
  HasClean-iff no_fields = ((λ h. tt), (λ h. refl))
  HasClean-iff (field key v fs) = (
    λ h.
        let (a, b) = (or_false _ _).0 h in
        let (c, d) = (or_false (is_secret key) _).0 a in
        (c, (IsClean-iff v).0 d, (HasClean-iff fs).0 b),
    λ h.
        (or_false _ _).1
          ((or_false (is_secret key) _).1 (h.0, (IsClean-iff v).1 h.1), (HasClean-iff fs).1 h.2),
  )

-- Nothing is found in a value exactly when it has no such key at any depth.
pub contains_private_key_material_iff :
    (v : Value) → (contains_private_key_material v ≡ false) ↔ IsClean v
contains_private_key_material_iff v = IsClean-iff v
