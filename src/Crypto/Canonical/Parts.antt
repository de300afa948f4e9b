-- ===== src/Crypto/Canonical/Parts.antt =====
-- The canonical text of a value with what stands behind it, part by part.
use Prim.Native.String.{[], ◌∷◌, ◌++◌}
use text.Mathlib.TextLemmas.{
  nil-append, cons-append, head-eq_of_cons-eq, tail-eq_of_cons-eq, append_assoc,
}
use oan_protocol_common.Base.{ℕ, Char, String, ◌≡◌, ◌≢◌, refl, sym, ap, ◌∙◌, Option, some, arith}
use oan_protocol_common.Text.Laws.{AllChars}
use oan_protocol_common.Json.{
  Value, number, string, array, object, Values, no_values, value, Fields, no_fields, field,
}
use oan_protocol_common.Crypto.Primitives.{Primitives}
use oan_protocol_common.Crypto.Canonical.{
  canonical_json_value, items, more_items, entries, more_entries,
}
use oan_protocol_common.Crypto.Canonical.Head.{in_number, head}

-- A text that no number goes on in.
abbrev pub Ends : String → Type 0
Ends r = head r ≢ 1

pub number_inj :
    (n m r r' : String)
    → AllChars in_number n
    → AllChars in_number m
    → Ends r
    → Ends r'
    → n ++ r ≡ m ++ r'
    → (n ≡ m) × (r ≡ r')
number_inj [] [] r r' h k e e' p = (refl, sym (nil-append r) ∙ p ∙ nil-append r')
number_inj [] (d ∷ m) r r' h (q, k) e e' p =
    absurd (e (ap head (sym (nil-append r) ∙ p ∙ cons-append d m r') ∙ rw q refl))
number_inj (c ∷ n) [] r r' (q, h) k e e' p =
    absurd (e' (ap head (sym (nil-append r') ∙ sym p ∙ cons-append c n r) ∙ rw q refl))
number_inj (c ∷ n) (d ∷ m) r r' (q, h) (q', k) e e' p =
    let same = sym (cons-append c n r) ∙ p ∙ cons-append d m r' in
    let (tail, rest) = number_inj n m r r' h k e e' (tail-eq_of_cons-eq same) in
    (λ i. head-eq_of_cons-eq same i ∷ tail i, rest)

pub pair_inj :
    (s t r r' : String)
    → ◌≡◌ {A = Option (String × String)} (some (s, r)) (some (t, r'))
    → (s ≡ t) × (r ≡ r')
pair_inj s t r r' h = (cc, cc)

pub cancel : (c d : Char) (s t : String) → (c ∷ "") ++ s ≡ (d ∷ "") ++ t → s ≡ t
cancel c d s t p =
    sym (nil-append s)
    ∙ tail-eq_of_cons-eq (sym (cons-append c "" s) ∙ p ∙ cons-append d "" t)
    ∙ nil-append t

module _ (primitives : Primitives) where
  abbrev pub canon : Value → String
  canon = canonical_json_value primitives

  abbrev pub more : Values → String → String
  more vs r = more_items primitives vs ++ ("]" ++ r)

  abbrev pub more_of : Fields → String → String
  more_of fs r = more_entries primitives fs ++ ("}" ++ r)

  -- a field, and what stands behind it
  abbrev entry : String → Value → String → String
  entry k v r = primitives.json_string k ++ (":" ++ (canon v ++ r))

  regroup : (s t u r : String) → (s ++ (t ++ u)) ++ r ≡ s ++ (t ++ (u ++ r))
  regroup s t u r = append_assoc s (t ++ u) r ∙ ap (λ x. s ++ x) (append_assoc t u r)

  pub canon-array :
      (vs : Values) (r : String)
      → canon (array vs) ++ r ≡ "[" ++ (items primitives vs ++ ("]" ++ r))
  unfolding canonical_json_value
  canon-array vs r = regroup "[" _ "]" r

  pub canon-object :
      (fs : Fields) (r : String)
      → canon (object fs) ++ r ≡ "{" ++ (entries primitives fs ++ ("}" ++ r))
  unfolding canonical_json_value
  canon-object fs r = regroup "{" _ "}" r

  pub items-nil : (r : String) → items primitives no_values ++ ("]" ++ r) ≡ "]" ++ r
  unfolding canonical_json_value
  items-nil r = nil-append _

  pub items-cons :
      (v : Value) (vs : Values) (r : String)
      → items primitives (value v vs) ++ ("]" ++ r) ≡ canon v ++ more vs r
  unfolding canonical_json_value
  items-cons v vs r = append_assoc _ _ _

  pub more-nil : (r : String) → more no_values r ≡ "]" ++ r
  unfolding canonical_json_value
  more-nil r = nil-append _

  pub more-cons :
      (v : Value) (vs : Values) (r : String) → more (value v vs) r ≡ "," ++ (canon v ++ more vs r)
  unfolding canonical_json_value
  more-cons v vs r = regroup "," _ _ _

  pub entries-nil : (r : String) → entries primitives no_fields ++ ("}" ++ r) ≡ "}" ++ r
  unfolding canonical_json_value
  entries-nil r = nil-append _

  pub entries-cons :
      (k : String) (v : Value) (fs : Fields) (r : String)
      → entries primitives (field k v fs) ++ ("}" ++ r) ≡ entry k v (more_of fs r)
  unfolding canonical_json_value
  entries-cons k v fs r =
      append_assoc _ _ _ ∙ ap (λ x. primitives.json_string k ++ x) (regroup ":" _ _ _)

  pub more_of-nil : (r : String) → more_of no_fields r ≡ "}" ++ r
  unfolding canonical_json_value
  more_of-nil r = nil-append _

  pub more_of-cons :
      (k : String) (v : Value) (fs : Fields) (r : String)
      → more_of (field k v fs) r ≡ "," ++ entry k v (more_of fs r)
  unfolding canonical_json_value
  more_of-cons k v fs r =
      append_assoc _ _ _
      ∙ ap (λ x. "," ++ x)
          (append_assoc _ _ _ ∙ ap (λ x. primitives.json_string k ++ x) (regroup ":" _ _ _))

  pub canon-number : (n r : String) → canon (number n) ++ r ≡ n ++ r
  unfolding canonical_json_value
  canon-number n r = refl

  pub canon-string : (s r : String) → canon (string s) ++ r ≡ primitives.json_string s ++ r
  unfolding canonical_json_value
  canon-string s r = refl

  -- No number goes on in what stands behind an item or a field.
  pub more-Ends : (vs : Values) (r : String) → Ends (more vs r)
  more-Ends no_values r = rw (more-nil, cons-append) (λ h. omega arith)
  more-Ends (value v vs) r = rw (more-cons, cons-append) (λ h. omega arith)

  pub more_of-Ends : (fs : Fields) (r : String) → Ends (more_of fs r)
  more_of-Ends no_fields r = rw (more_of-nil, cons-append) (λ h. omega arith)
  more_of-Ends (field k v fs) r = rw (more_of-cons, cons-append) (λ h. omega arith)

pub head_one : (c : Char) (s : String) → head ((c ∷ "") ++ s) ≡ head (c ∷ "")
head_one c s = rw cons-append refl

pub comma_clash : (r r' : String) → "]" ++ r ≢ "," ++ r'
comma_clash r r' p =
    let e : ◌≡◌ {A = ℕ} b']' b',' = sym (head_one _ r) ∙ ap head p ∙ head_one _ r' in omega arith

pub brace_clash : (r r' : String) → "}" ++ r ≢ "," ++ r'
brace_clash r r' p =
    let e : ◌≡◌ {A = ℕ} b'}' b',' = sym (head_one _ r) ∙ ap head p ∙ head_one _ r' in omega arith
