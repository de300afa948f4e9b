-- ===== src/Core/Validate/External.antt =====
-- The external identifiers of a document: which lists `validate_external_identifiers` accepts.
use Prim.Native.String.{len}
use oan_protocol_common.Base.{
  ℕ, ◌≤◌, String, ◌≡◌, ◌≢◌, ◌↔◌, refl, ap, true, false, ◌&&◌, Option, none, some, List, [], ◌∷◌,
  arith, eq_iff, ltb, length, ◌==◌, string_eq, All, All-map, All-zip, ok, fail_if-eq-ok,
  fail_if-last, ok_or-eq-ok, >>=-eq-ok,
}
use oan_protocol_common.Core.Document.{ExternalIdentifier}
use oan_protocol_common.Core.Codecs.{Codecs, Url}
use oan_protocol_common.Core.Validate.{
  is_unsafe, is_bad_id, is_seen, key_of, validate_endpoint, check_identifiers,
  validate_external_identifiers,
}

ltb-false_iff : (a b : ℕ) → (ltb a b ≡ false) ↔ (b ≤ a)
ltb-false_iff a b = ground arith

pair_iff : (k key : String × String) → ((k.0 == key.0 && k.1 == key.1) ≡ true) ↔ (k ≡ key)
pair_iff (a, b) (c, d) = (
  λ h. ground (arith, eq_iff a c, eq_iff b d),
  λ e. ground (
    arith,
    eq_iff a c,
    eq_iff b d,
    ap (λ (p : String × String). p.0) e,
    ap (λ (p : String × String). p.1) e,
  ),
)

module _ (codecs : Codecs) where
  -- Every key differs from the given one.
  abbrev IsNew : List (String × String) → String × String → Type 0
  IsNew ids key = All (λ k. k ≢ key) ids

  is_seen_iff :
      (ids : List (String × String)) (key : String × String)
      → (is_seen codecs ids key ≡ false) ↔ IsNew ids key
  is_seen_iff [] key = (λ h. tt, λ h. refl)
  is_seen_iff (k ∷ ids) key = ground (arith, pair_iff k key, is_seen_iff ids key)

  -- An endpoint is a URL of at most 1024 bytes, of no unsafe scheme and without credentials.
  abbrev IsSafe : Option String → Type 0
  IsSafe none = Unit
  IsSafe (some endpoint) =
      (len endpoint ≤ 1024)
      × ((url : Url) × (codecs.parse_url endpoint ≡ some url) × (is_unsafe codecs url ≡ false))

  abbrev pub IsGood : ExternalIdentifier → Type 0
  IsGood value = (is_bad_id codecs value.id ≡ false) × IsSafe value.resolution_service_endpoint

  -- The pairs of an endpoint and an identifier differ.
  abbrev pub AreDistinct : List ExternalIdentifier → Type 0
  AreDistinct [] = Unit
  AreDistinct (v ∷ vs) = All (λ w. key_of codecs v ≢ key_of codecs w) vs × AreDistinct vs

  abbrev AreNew : List (String × String) → List ExternalIdentifier → Type 0
  AreNew ids vs = All (λ v. IsNew ids (key_of codecs v)) vs

  validate_endpoint_iff : (o : Option String) → (validate_endpoint codecs o ≡ ok tt) ↔ IsSafe o
  unfolding validate_endpoint
  validate_endpoint_iff none = (λ h. tt, λ h. refl)
  validate_endpoint_iff (some endpoint) = (
    λ h.
        let (short, h1) = (fail_if-eq-ok _ _ _ tt).0 h in
        let (url, parsed, h2) = (ok_or-eq-ok _ _ _ tt).0 h1 in
        ((ltb-false_iff _ _).0 short, (url, parsed, (fail_if-last _ _).0 h2)),
    λ h.
        let (short, (url, parsed, safe)) = h in
        (fail_if-eq-ok _ _ _ tt).1 (
          (ltb-false_iff _ _).1 short,
          (ok_or-eq-ok _ _ _ tt).1 (url, parsed, (fail_if-last _ _).1 safe),
        ),
  )

  -- the checks of one identifier, with the keys seen before
  abbrev IsAccepted : List (String × String) → List ExternalIdentifier → Type 0
  IsAccepted ids vs = All IsGood vs × AreNew ids vs × AreDistinct vs

  check_sound :
      (ids : List (String × String)) (vs : List ExternalIdentifier)
      → check_identifiers codecs ids vs ≡ ok tt
      → IsAccepted ids vs
  unfolding check_identifiers
  check_sound ids [] h = (tt, tt, tt)
  check_sound ids (v ∷ vs) h =
      let (good, h1) = (fail_if-eq-ok _ _ _ tt).0 h in
      let (new, h2) = (fail_if-eq-ok _ _ _ tt).0 h1 in
      let (_, safe, h3) =
        >>=-eq-ok (validate_endpoint codecs v.resolution_service_endpoint) _ {b = tt} h2 in
      let (all_good, all_new, distinct) = check_sound (key_of codecs v ∷ ids) vs h3 in
      (
        ((good, (validate_endpoint_iff v.resolution_service_endpoint).0 safe), all_good),
        ((is_seen_iff ids (key_of codecs v)).0 new, All-map _ _ vs (λ w k. k.1) all_new),
        (All-map _ _ vs (λ w k. k.0) all_new, distinct),
      )

  check_complete :
      (ids : List (String × String)) (vs : List ExternalIdentifier)
      → IsAccepted ids vs
      → check_identifiers codecs ids vs ≡ ok tt
  unfolding check_identifiers
  check_complete ids [] h = refl
  check_complete ids (v ∷ vs) (((good, safe), all_good), (new, all_new), (apart, distinct)) =
      (fail_if-eq-ok _ _ _ tt).1 (
        good,
        (fail_if-eq-ok _ _ _ tt).1 (
          (is_seen_iff ids (key_of codecs v)).1 new,
          rw ((validate_endpoint_iff v.resolution_service_endpoint).1 safe) (
              check_complete (key_of codecs v ∷ ids) vs
                (all_good, All-zip _ _ _ vs (λ w p q. (p, q)) apart all_new, distinct)),
        ),
      )

  -- What the JSON text of the identifiers must be: no longer than 8192 bytes.
  abbrev pub IsShort : List ExternalIdentifier → Type 0
  IsShort vs = (n : ℕ) × (codecs.serialized_len vs ≡ some n) × (n ≤ 8192)

  AreNew-nil : (vs : List ExternalIdentifier) → AreNew [] vs
  AreNew-nil [] = tt
  AreNew-nil (v ∷ vs) = (tt, AreNew-nil vs)

  -- A list of external identifiers is accepted exactly when it has at most eight, each with a good
  -- identifier and a safe endpoint, no two have both the same endpoint and the same identifier,
  -- and their JSON text has at most 8192 bytes.
  pub validate_external_identifiers_iff :
      (vs : List ExternalIdentifier)
      → (validate_external_identifiers codecs vs ≡ ok tt)
        ↔ ((length vs ≤ 8) × All IsGood vs × AreDistinct vs × IsShort vs)
  unfolding validate_external_identifiers
  validate_external_identifiers_iff vs = (
    λ h.
        let (few, h1) = (fail_if-eq-ok _ _ _ tt).0 h in
        let (_, checked, h2) = >>=-eq-ok (check_identifiers codecs [] vs) _ {b = tt} h1 in
        let (n, serialized, h3) = (ok_or-eq-ok _ _ _ tt).0 h2 in
        let (good, _, distinct) = check_sound [] vs checked in
        (
          (ltb-false_iff _ _).0 few,
          good,
          distinct,
          (n, serialized, (ltb-false_iff _ _).0 ((fail_if-last _ _).0 h3)),
        ),
    λ h.
        let (few, good, distinct, (n, serialized, short)) = h in
        (fail_if-eq-ok _ _ _ tt).1 (
          (ltb-false_iff _ _).1 few,
          rw (check_complete [] vs (good, AreNew-nil vs, distinct)) (
              (ok_or-eq-ok _ _ _ tt).1
                (n, serialized, (fail_if-last _ _).1 ((ltb-false_iff _ _).1 short))),
        ),
  )
