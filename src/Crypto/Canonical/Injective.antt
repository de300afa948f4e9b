-- ===== src/Crypto/Canonical/Injective.antt =====
-- Two values with one canonical text are the same value: a signature or a hash is over the value.
use Prim.Native.String.{◌++◌}
use text.Mathlib.TextLemmas.{append_cancel_left}
use oan_protocol_common.Base.{String, ◌≡◌, ◌≢◌, refl, sym, ap, ◌∙◌, true, false, Option, arith}
use oan_protocol_common.Json.{
  Value, null, boolean, number, string, array, object, Values, no_values, value, Fields, no_fields,
  field,
}
use oan_protocol_common.Crypto.Primitives.{Primitives}
use oan_protocol_common.Crypto.Canonical.{canonical_json_value, items, entries}
use oan_protocol_common.Crypto.Canonical.Head.{
  head, kind, IsJson, AreJson, HasJson, Quotes, head-canonical,
}
use oan_protocol_common.Crypto.Canonical.Parts.{
  Ends, number_inj, pair_inj, cancel, canon, more, more_of, canon-array, canon-object, items-nil,
  items-cons, more-nil, more-cons, entries-nil, entries-cons, more_of-nil, more_of-cons,
  canon-number, canon-string, more-Ends, more_of-Ends, head_one, comma_clash, brace_clash,
}

module _ (primitives : Primitives) (read : String → Option (String × String))
    (quotes : Quotes primitives.json_string read) where
  string_inj :
      (s t r r' : String)
      → primitives.json_string s ++ r ≡ primitives.json_string t ++ r'
      → (s ≡ t) × (r ≡ r')
  string_inj s t r r' p = pair_inj s t r r' (sym (quotes.reads s r) ∙ ap read p ∙ quotes.reads t r')

  kind_eq :
      (v w : Value) (r r' : String)
      → IsJson v
      → IsJson w
      → canon primitives v ++ r ≡ canon primitives w ++ r'
      → kind v ≡ kind w
  kind_eq v w r r' j k p =
      sym (head-canonical primitives read quotes v r j)
      ∙ ap head p
      ∙ head-canonical primitives read quotes w r' k

  kind-ne-bracket : (w : Value) → kind w ≢ b']'
  kind-ne-bracket (boolean true) h = omega arith
  kind-ne-bracket (boolean false) h = omega arith
  kind-ne-bracket w h = omega arith

  bracket_clash : (w : Value) (r r' : String) → IsJson w → "]" ++ r ≢ canon primitives w ++ r'
  bracket_clash w r r' k p =
      kind-ne-bracket w
        (sym (head-canonical primitives read quotes w r' k) ∙ sym (ap head p) ∙ head_one _ r)

  quote_clash : (k r r' : String) → "}" ++ r ≢ primitives.json_string k ++ r'
  quote_clash k r r' p =
      let e : head ("}" ++ r) ≡ 34 = ap head p ∙ quotes.opens k r' in
      let f : head ("}" ++ r) ≡ b'}' = head_one _ r in omega arith

  mutual
    value_inj :
        (v w : Value) (r r' : String)
        → IsJson v
        → IsJson w
        → Ends r
        → Ends r'
        → canon primitives v ++ r ≡ canon primitives w ++ r'
        → (v ≡ w) × (r ≡ r')
    value_inj null null r r' j k e e' p = (refl, append_cancel_left _ r r' p)
    value_inj (boolean true) (boolean true) r r' j k e e' p = (refl, append_cancel_left _ r r' p)
    value_inj (boolean false) (boolean false) r r' j k e e' p = (refl, append_cancel_left _ r r' p)
    value_inj (number n) (number m) r r' j k e e' p =
        let (same, rest) =
          number_inj n m r r' j.0 k.0 e e'
            (sym (canon-number primitives n r) ∙ p ∙ canon-number primitives m r') in
        (ap number same, rest)
    value_inj (string s) (string t) r r' j k e e' p =
        let (same, rest) =
          string_inj s t r r'
            (sym (canon-string primitives s r) ∙ p ∙ canon-string primitives t r') in
        (ap string same, rest)
    value_inj (array vs) (array ws) r r' j k e e' p =
        let (same, rest) =
          items_inj vs ws r r' j k (
            cancel _ _ _ _
              (sym (canon-array primitives vs r) ∙ p ∙ canon-array primitives ws r')) in
        (ap array same, rest)
    value_inj (object fs) (object gs) r r' j k e e' p =
        let (same, rest) = entries_inj fs gs r r' j k (
          cancel _ _ _ _
            (sym (canon-object primitives fs r) ∙ p ∙ canon-object primitives gs r')) in
        (ap object same, rest)
    value_inj v w r r' j k e e' p = absurd (grind (arith, kind_eq v w r r' j k p))

    items_inj :
        (vs ws : Values) (r r' : String)
        → AreJson vs
        → AreJson ws
        → items primitives vs ++ ("]" ++ r) ≡ items primitives ws ++ ("]" ++ r')
        → (vs ≡ ws) × (r ≡ r')
    items_inj no_values no_values r r' j k p =
        (refl, cancel _ _ r r' (sym (items-nil primitives r) ∙ p ∙ items-nil primitives r'))
    items_inj no_values (value w ws) r r' j k p = absurd (
        bracket_clash w r (more primitives ws r') k.0
          (sym (items-nil primitives r) ∙ p ∙ items-cons primitives w ws r'))
    items_inj (value v vs) no_values r r' j k p = absurd (
        bracket_clash v r' (more primitives vs r) j.0
          (sym (items-nil primitives r') ∙ sym p ∙ items-cons primitives v vs r))
    items_inj (value v vs) (value w ws) r r' j k p =
        let (same, rest) =
          value_inj v w (more primitives vs r) (more primitives ws r') j.0 k.0
            (more-Ends primitives vs r) (more-Ends primitives ws r')
            (sym (items-cons primitives v vs r) ∙ p ∙ items-cons primitives w ws r') in
        let (later, end) = more_inj vs ws r r' j.1 k.1 rest in (λ i. value (same i) (later i), end)

    more_inj :
        (vs ws : Values) (r r' : String)
        → AreJson vs
        → AreJson ws
        → more primitives vs r ≡ more primitives ws r'
        → (vs ≡ ws) × (r ≡ r')
    more_inj no_values no_values r r' j k p =
        (refl, cancel _ _ r r' (sym (more-nil primitives r) ∙ p ∙ more-nil primitives r'))
    more_inj no_values (value w ws) r r' j k p =
        absurd (comma_clash _ _ (sym (more-nil primitives r) ∙ p ∙ more-cons primitives w ws r'))
    more_inj (value v vs) no_values r r' j k p =
        absurd
          (comma_clash _ _ (sym (more-nil primitives r') ∙ sym p ∙ more-cons primitives v vs r))
    more_inj (value v vs) (value w ws) r r' j k p =
        let (same, rest) =
          value_inj v w (more primitives vs r) (more primitives ws r') j.0 k.0
            (more-Ends primitives vs r) (more-Ends primitives ws r')
            (cancel _ _ _ _
              (sym (more-cons primitives v vs r) ∙ p ∙ more-cons primitives w ws r')) in
        let (later, end) = more_inj vs ws r r' j.1 k.1 rest in (λ i. value (same i) (later i), end)

    entries_inj :
        (fs gs : Fields) (r r' : String)
        → HasJson fs
        → HasJson gs
        → entries primitives fs ++ ("}" ++ r) ≡ entries primitives gs ++ ("}" ++ r')
        → (fs ≡ gs) × (r ≡ r')
    entries_inj no_fields no_fields r r' j k p =
        (refl, cancel _ _ r r' (sym (entries-nil primitives r) ∙ p ∙ entries-nil primitives r'))
    entries_inj no_fields (field l w gs) r r' j k p =
        absurd (
          quote_clash l r _
            (sym (entries-nil primitives r) ∙ p ∙ entries-cons primitives l w gs r'))
    entries_inj (field l v fs) no_fields r r' j k p = absurd (
        quote_clash l r' _
          (sym (entries-nil primitives r') ∙ sym p ∙ entries-cons primitives l v fs r))
    entries_inj (field l v fs) (field m w gs) r r' j k p =
        let (key, after) =
          string_inj l m _ _
            (sym (entries-cons primitives l v fs r) ∙ p ∙ entries-cons primitives m w gs r') in
        let (same, rest) =
          value_inj v w (more_of primitives fs r) (more_of primitives gs r') j.0 k.0
            (more_of-Ends primitives fs r) (more_of-Ends primitives gs r') (cancel _ _ _ _ after) in
        let (later, end) = more_of_inj fs gs r r' j.1 k.1 rest in
        (λ i. field (key i) (same i) (later i), end)

    more_of_inj :
        (fs gs : Fields) (r r' : String)
        → HasJson fs
        → HasJson gs
        → more_of primitives fs r ≡ more_of primitives gs r'
        → (fs ≡ gs) × (r ≡ r')
    more_of_inj no_fields no_fields r r' j k p =
        (refl, cancel _ _ r r' (sym (more_of-nil primitives r) ∙ p ∙ more_of-nil primitives r'))
    more_of_inj no_fields (field l w gs) r r' j k p =
        absurd
          (brace_clash _ _ (sym (more_of-nil primitives r) ∙ p ∙ more_of-cons primitives l w gs r'))
    more_of_inj (field l v fs) no_fields r r' j k p = absurd (
        brace_clash _ _
          (sym (more_of-nil primitives r') ∙ sym p ∙ more_of-cons primitives l v fs r))
    more_of_inj (field l v fs) (field m w gs) r r' j k p =
        let (key, after) = string_inj l m _ _ (
          cancel _ _ _ _
            (sym (more_of-cons primitives l v fs r) ∙ p ∙ more_of-cons primitives m w gs r')) in
        let (same, rest) =
          value_inj v w (more_of primitives fs r) (more_of primitives gs r') j.0 k.0
            (more_of-Ends primitives fs r) (more_of-Ends primitives gs r') (cancel _ _ _ _ after) in
        let (later, end) = more_of_inj fs gs r r' j.1 k.1 rest in
        (λ i. field (key i) (same i) (later i), end)

  -- Two JSON values with one canonical text are equal, where the text of a string starts with a
  -- quotation mark and can be read off the front of a longer text, and each number is one or more
  -- of the characters of JSON numbers.
  pub canonical_json_value_injective :
      (v w : Value)
      → IsJson v
      → IsJson w
      → canonical_json_value primitives v ≡ canonical_json_value primitives w
      → v ≡ w
  canonical_json_value_injective v w j k p =
      (value_inj v w "" "" j k (λ h. omega arith) (λ h. omega arith) (ap (λ x. x ++ "") p)).0
