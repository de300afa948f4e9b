-- ===== src/Json/Equality.antt =====
-- `==` of two JSON values. A `serde_json::Map` keeps its fields in the order of their keys, so equal maps
-- have equal fields in one order.
use mathlib.Core.Logic.{◌↔◌}
use oan_protocol_common.Base.{
  String, ◌≡◌, refl, Bool, true, false, ◌&&◌, ◌==◌, PartialEq, string_eq, eq_iff, arith,
}
use oan_protocol_common.Json.{
  Value, null, boolean, number, string, array, object, Values, no_values, value, Fields, no_fields,
  field,
}

abbrev bool_beq : Bool → Bool → Bool
bool_beq true true = true
bool_beq false false = true
bool_beq _ _ = false

abbrev mutual
  pub value_beq : Value → Value → Bool
  value_beq null null = true
  value_beq (boolean b) (boolean c) = bool_beq b c
  value_beq (number s) (number t) = s == t
  value_beq (string s) (string t) = s == t
  value_beq (array vs) (array ws) = values_beq vs ws
  value_beq (object fs) (object gs) = fields_beq fs gs
  value_beq _ _ = false

  values_beq : Values → Values → Bool
  values_beq no_values no_values = true
  values_beq (value v vs) (value w ws) = value_beq v w && values_beq vs ws
  values_beq _ _ = false

  fields_beq : Fields → Fields → Bool
  fields_beq no_fields no_fields = true
  fields_beq (field k v fs) (field l w gs) = k == l && (value_beq v w && fields_beq fs gs)
  fields_beq _ _ = false

bool_beq_iff : (b c : Bool) → (bool_beq b c ≡ true) ↔ (b ≡ c)
bool_beq_iff true true = ground arith
bool_beq_iff true false = ground arith
bool_beq_iff false true = ground arith
bool_beq_iff false false = ground arith

-- A conjunction of tests decides what its parts decide together.
both :
    {P Q R : Type 0} (a b : Bool)
    → (a ≡ true) ↔ P
    → (b ≡ true) ↔ Q
    → (P → Q → R)
    → (R → P × Q)
    → ((a && b) ≡ true) ↔ R
both true b f g join split = (λ h. join (f.0 refl) (g.0 h), λ r. g.1 (split r).1)
both false b f g join split = (λ h. cc, λ r. f.1 (split r).0)

value-eq : {v w : Value} {vs ws : Values} → v ≡ w → vs ≡ ws → value v vs ≡ value w ws
value-eq h k = cc

value_parts : {v w : Value} {vs ws : Values} → value v vs ≡ value w ws → (v ≡ w) × (vs ≡ ws)
value_parts h = (cc, cc)

field-eq :
    {k l : String} {v w : Value} {fs gs : Fields}
    → k ≡ l
    → (v ≡ w) × (fs ≡ gs)
    → field k v fs ≡ field l w gs
field-eq h (p, q) = cc

field_parts :
    {k l : String} {v w : Value} {fs gs : Fields}
    → field k v fs ≡ field l w gs
    → (k ≡ l) × ((v ≡ w) × (fs ≡ gs))
field_parts h = (cc, (cc, cc))

mutual
  pub value_beq_iff : (v w : Value) → (value_beq v w ≡ true) ↔ (v ≡ w)
  value_beq_iff null null = ground arith
  value_beq_iff null (boolean c) = ground arith
  value_beq_iff null (number t) = ground arith
  value_beq_iff null (string t) = ground arith
  value_beq_iff null (array ws) = ground arith
  value_beq_iff null (object gs) = ground arith
  value_beq_iff (boolean b) null = ground arith
  value_beq_iff (boolean b) (boolean c) = ground (arith, bool_beq_iff b c)
  value_beq_iff (boolean b) (number t) = ground arith
  value_beq_iff (boolean b) (string t) = ground arith
  value_beq_iff (boolean b) (array ws) = ground arith
  value_beq_iff (boolean b) (object gs) = ground arith
  value_beq_iff (number s) null = ground arith
  value_beq_iff (number s) (boolean c) = ground arith
  value_beq_iff (number s) (number t) = ground (arith, eq_iff s t)
  value_beq_iff (number s) (string t) = ground arith
  value_beq_iff (number s) (array ws) = ground arith
  value_beq_iff (number s) (object gs) = ground arith
  value_beq_iff (string s) null = ground arith
  value_beq_iff (string s) (boolean c) = ground arith
  value_beq_iff (string s) (number t) = ground arith
  value_beq_iff (string s) (string t) = ground (arith, eq_iff s t)
  value_beq_iff (string s) (array ws) = ground arith
  value_beq_iff (string s) (object gs) = ground arith
  value_beq_iff (array vs) null = ground arith
  value_beq_iff (array vs) (boolean c) = ground arith
  value_beq_iff (array vs) (number t) = ground arith
  value_beq_iff (array vs) (string t) = ground arith
  value_beq_iff (array vs) (array ws) = ground (arith, values_beq_iff vs ws)
  value_beq_iff (array vs) (object gs) = ground arith
  value_beq_iff (object fs) null = ground arith
  value_beq_iff (object fs) (boolean c) = ground arith
  value_beq_iff (object fs) (number t) = ground arith
  value_beq_iff (object fs) (string t) = ground arith
  value_beq_iff (object fs) (array ws) = ground arith
  value_beq_iff (object fs) (object gs) = ground (arith, fields_beq_iff fs gs)

  values_beq_iff : (vs ws : Values) → (values_beq vs ws ≡ true) ↔ (vs ≡ ws)
  values_beq_iff no_values no_values = ground arith
  values_beq_iff no_values (value w ws) = ground arith
  values_beq_iff (value v vs) no_values = ground arith
  values_beq_iff (value v vs) (value w ws) =
      both (value_beq v w) (values_beq vs ws) (value_beq_iff v w) (values_beq_iff vs ws) value-eq
        value_parts

  fields_beq_iff : (fs gs : Fields) → (fields_beq fs gs ≡ true) ↔ (fs ≡ gs)
  fields_beq_iff no_fields no_fields = ground arith
  fields_beq_iff no_fields (field l w gs) = ground arith
  fields_beq_iff (field k v fs) no_fields = ground arith
  fields_beq_iff (field k v fs) (field l w gs) =
      both (k == l) (value_beq v w && fields_beq fs gs) (eq_iff k l)
        (both (value_beq v w) (fields_beq fs gs) (value_beq_iff v w) (fields_beq_iff fs gs)
          (λ h k. (h, k)) (λ h. h))
        field-eq field_parts

instance abbrev pub value_eq : PartialEq Value
value_eq = record { test = value_beq; test_iff = value_beq_iff }
