-- ===== src/Core/Taxonomy/Domains/Validation.antt =====
-- Which lists `validate_authorized_domains` accepts, and that they cover themselves.
use Prim.Native.Nat.{Ordering}
use Prim.Native.String.{len, compare}
use oan_protocol_common.Base.{
  String, ◌≡◌, ◌↔◌, ◌⊎◌, inl, inr, refl, ap, sym, ◌∙◌, Bool, Bool-cases, true, false, some, List,
  [], ◌∷◌, arith, eq_iff, any, length, nat_beq, ltb, ◌==◌, ◌!=◌, string_eq, if◌then◌else◌, All, ok,
  err, fail_if-eq-ok, ok_or-eq-ok, >>=-eq-ok,
}
use oan_protocol_common.Core.Taxonomy.{
  AuthorizedDomain, wildcard_mixed, duplicate_or_unsorted, empty_domain, non_canonical_domain,
  unknown_domain, Taxonomy, normalize_domain,
}
use oan_protocol_common.Core.Taxonomy.Domains.{
  dots, check_domain, check_domains, any_out_of_order, validate_concrete,
  validate_authorized_domains,
}

module _ (domains : List AuthorizedDomain) where
  -- A domain that is written by its own identifier, with one dot at most.
  abbrev pub IsCanonical : String → Type 0
  IsCanonical d =
      (nat_beq (len d) 0 ≡ false) × (normalize_domain domains d ≡ some d) × (ltb 1 (dots d) ≡ false)

  same_text : (a b : String) → (a != b) ≡ false → a ≡ b
  same_text a b h = ground (arith, eq_iff a b)

  not_other : (a : String) → (a != a) ≡ false
  not_other a = ground (arith, eq_iff a a)

  check_domain_sound :
      (d out : String) → check_domain domains d ≡ ok out → (out ≡ d) × IsCanonical d
  check_domain_sound d out h =
      let (some_text, h1) = (fail_if-eq-ok _ empty_domain _ out).0 h in
      let (canonical, found, h2) = (ok_or-eq-ok _ unknown_domain _ out).0 h1 in
      let (same, h3) = (fail_if-eq-ok _ non_canonical_domain _ out).0 h2 in
      let (few, h4) = (fail_if-eq-ok _ non_canonical_domain _ out).0 h3 in
      let e : canonical ≡ d = same_text canonical d same in
      let result : canonical ≡ out = cc in
      (sym result ∙ e, (some_text, found ∙ ap some e, sym (ap (λ s. ltb 1 (dots s)) e) ∙ few))

  check_domain_complete : (d : String) → IsCanonical d → check_domain domains d ≡ ok d
  check_domain_complete d (some_text, found, few) = simp (some_text, found, not_other d, few)

  check_domains_sound :
      (l out : List String) → check_domains domains l ≡ ok out → (out ≡ l) × All IsCanonical l
  unfolding check_domains
  check_domains_sound [] out h = (cc, tt)
  check_domains_sound (d ∷ l) out h =
      let (c, checked, h1) = >>=-eq-ok (check_domain domains d) _ {b = out} h in
      let (rest, others, h2) = >>=-eq-ok (check_domains domains l) _ {b = out} h1 in
      let (same, canonical) = check_domain_sound d c checked in
      let (same_rest, all_canonical) = check_domains_sound l rest others in
      let result : c ∷ rest ≡ out = cc in
      (sym result ∙ ap (λ x. x ∷ rest) same ∙ ap (λ r. d ∷ r) same_rest, (canonical, all_canonical))

  check_domains_complete : (l : List String) → All IsCanonical l → check_domains domains l ≡ ok l
  unfolding check_domains
  check_domains_complete [] h = refl
  check_domains_complete (d ∷ l) (canonical, all_canonical) =
      rw (check_domain_complete d canonical, check_domains_complete l all_canonical)

-- Each text is below the next.
abbrev IsIncreasing : List String → Type 0
IsIncreasing [] = Unit
IsIncreasing (a ∷ []) = Unit
IsIncreasing (a ∷ b ∷ l) = (compare a b ≡ Ordering.lt) × IsIncreasing (b ∷ l)

order_iff : (l : List String) → (any_out_of_order l ≡ false) ↔ IsIncreasing l
unfolding any_out_of_order
order_iff [] = (λ h. tt, λ h. refl)
order_iff (a ∷ []) = (λ h. tt, λ h. refl)
order_iff (a ∷ b ∷ l) = ground (arith, order_iff (b ∷ l))

abbrev pub has_wildcard : List String → Bool
has_wildcard l = any (λ domain. domain == "*") l

-- What the checks ask of a list of domains: nothing of the empty list, the wildcard alone, or
-- canonical domains in increasing order.
abbrev pub AreAuthorized : List AuthorizedDomain → List String → Type 0
AreAuthorized domains l =
    (l ≡ [])
    ⊎ ((l ≡ "*" ∷ []) ⊎ ((has_wildcard l ≡ false) × All (IsCanonical domains) l × IsIncreasing l))

validate_concrete_iff :
    (domains : List AuthorizedDomain) (l out : List String)
    → (validate_concrete domains l ≡ ok out)
      ↔ ((out ≡ l) × All (IsCanonical domains) l × IsIncreasing l)
unfolding validate_concrete
validate_concrete_iff domains l out = (
  λ h.
      let (normalized, checked, h1) = >>=-eq-ok (check_domains domains l) _ {b = out} h in
      let (order, h2) = (fail_if-eq-ok _ duplicate_or_unsorted (ok normalized) out).0 h1 in
      let (same, canonical) = check_domains_sound domains l normalized checked in
      let result : normalized ≡ out = cc in
      (sym result ∙ same, canonical, (order_iff l).0 (sym (ap any_out_of_order same) ∙ order)),
  λ h.
      let (same, canonical, order) = h in
      rw (check_domains_complete domains l canonical, (order_iff l).1 order) (ap ok (sym same)),
)

module _ (taxonomy : Taxonomy) (d : String) (l : List String) where
  run_wild :
      has_wildcard (d ∷ l) ≡ true
      → validate_authorized_domains taxonomy (d ∷ l)
        ≡ (if nat_beq (length l) 0 then ok ("*" ∷ []) else err wildcard_mixed)
  unfolding validate_authorized_domains
  run_wild wild = rw wild (ground arith)

  run_tame :
      has_wildcard (d ∷ l) ≡ false
      → validate_authorized_domains taxonomy (d ∷ l) ≡ validate_concrete taxonomy.domains (d ∷ l)
  unfolding validate_authorized_domains
  run_tame tame = rw tame

abbrev Accepts : Taxonomy → List String → List String → Type 0
Accepts taxonomy l out =
    (validate_authorized_domains taxonomy l ≡ ok out)
    ↔ ((out ≡ l) × AreAuthorized taxonomy.domains l)

Accepts-wild :
    (taxonomy : Taxonomy) (d : String) (l out : List String)
    → has_wildcard (d ∷ l) ≡ true
    → Accepts taxonomy (d ∷ l) out
Accepts-wild taxonomy d [] out wild =
    let star : d ≡ "*" = ground (arith, eq_iff d "*") in
    let run = run_wild taxonomy d [] wild in
    (
      λ h.
          let result : "*" ∷ [] ≡ out = cc in
          (sym result ∙ ap (λ x. x ∷ []) (sym star), inr (inl (ap (λ x. x ∷ []) star))),
      λ h. run ∙ ap ok (ap (λ x. x ∷ []) (sym star) ∙ sym h.0),
    )
Accepts-wild taxonomy d (e ∷ l) out wild =
    let run : validate_authorized_domains taxonomy (d ∷ e ∷ l) ≡ err wildcard_mixed =
      run_wild taxonomy d (e ∷ l) wild ∙ ground arith in
    (
      λ h. absurd (let clash : err wildcard_mixed ≡ ok out = sym run ∙ h in cc),
      λ h. elim h.1 [
        | inl p ↦ absurd (cc)
        | inr (inl p) ↦ absurd (cc)
        | inr (inr (tame, _, _)) ↦ absurd (cc)
      ],
    )

Accepts-tame :
    (taxonomy : Taxonomy) (d : String) (l out : List String)
    → has_wildcard (d ∷ l) ≡ false
    → Accepts taxonomy (d ∷ l) out
Accepts-tame taxonomy d l out tame =
    let run = run_tame taxonomy d l tame in
    let concrete = validate_concrete_iff taxonomy.domains (d ∷ l) out in
    (
      λ h.
          let (same, canonical, order) = concrete.0 (sym run ∙ h) in
          (same, inr (inr (tame, canonical, order))),
      λ h. elim h.1 [
        | inl p ↦ absurd (cc)
        | inr (inl p) ↦ absurd (let wild : has_wildcard (d ∷ l) ≡ true = ap has_wildcard p in cc)
        | inr (inr (_, canonical, order)) ↦ run ∙ concrete.1 (h.0, canonical, order)
      ],
    )

-- `validate_authorized_domains` accepts exactly the empty list, the wildcard alone, and lists of
-- canonical domains in strictly increasing order, and returns them unchanged.
pub validate_authorized_domains_iff :
    (taxonomy : Taxonomy) (l out : List String)
    → (validate_authorized_domains taxonomy l ≡ ok out)
      ↔ ((out ≡ l) × AreAuthorized taxonomy.domains l)
validate_authorized_domains_iff taxonomy [] out =
    unfold validate_authorized_domains in (λ h. (cc, inl refl), λ h. ap ok (sym h.0))
validate_authorized_domains_iff taxonomy (d ∷ l) out = elim (Bool-cases (has_wildcard (d ∷ l))) [
  | inl wild ↦ Accepts-wild taxonomy d l out wild
  | inr tame ↦ Accepts-tame taxonomy d l out tame
]
