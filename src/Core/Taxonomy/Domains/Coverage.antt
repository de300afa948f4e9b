-- ===== src/Core/Taxonomy/Domains/Coverage.antt =====
-- `covers_authorized_domains`: a list that is accepted covers itself.
use oan_protocol_common.Base.{
  String, ◌≡◌, inl, inr, refl, ap, ◌∙◌, Bool, true, ◌||◌, some, List, [], ◌∷◌, arith, any, all,
  string_eq, All, All-map, Among, here, there, ok,
}
use oan_protocol_common.Core.Taxonomy.{
  AuthorizedDomain, Taxonomy, normalize_domain, is_descendant_or_same,
}
use oan_protocol_common.Core.Taxonomy.Ancestors.{is_descendant_or_same_lem}
use oan_protocol_common.Core.Taxonomy.Domains.{
  covered_by, descends, is_true, validate_authorized_domains, covers_authorized_domains,
}
use oan_protocol_common.Core.Taxonomy.Domains.Validation.{
  IsCanonical, has_wildcard, validate_authorized_domains_iff,
}

-- A test that some member passes is passed by one of the list.
any_of_Among :
    (p : String → Bool) (x : String) (xs : List String) → Among x xs → p x ≡ true → any p xs ≡ true
any_of_Among p x [] m h = elim m [ ]
any_of_Among p x (y ∷ xs) (here e) h = let q : p y ≡ true = ap p e ∙ h in rw q
any_of_Among p x (y ∷ xs) (there m) h = let rest = any_of_Among p x xs m h in ground arith

module _ (domains : List AuthorizedDomain) where
  covered_itself :
      (d : String) (l : List String)
      → Among d l
      → normalize_domain domains d ≡ some d
      → covered_by domains l (normalize_domain domains d) ≡ true
  covered_itself d l m found =
      let own : is_descendant_or_same domains d d ≡ some true =
        (is_descendant_or_same_lem domains d d).1.1 (inr (inl refl)) in
      ap (covered_by domains l) found
      ∙ any_of_Among (λ g. descends domains d (normalize_domain domains g)) d l m
          (ap (descends domains d) found ∙ ap is_true own)

  all_covered :
      (l granted : List String)
      → All (IsCanonical domains) l
      → All (λ d. Among d granted) l
      → all (λ r. covered_by domains granted (normalize_domain domains r)) l ≡ true
  all_covered [] granted c m = refl
  all_covered (d ∷ l) granted ((_, found, _), c) (m, ms) =
      rw (covered_itself d granted m found) (all_covered l granted c ms)

All-Among_self : (l : List String) → All (λ d. Among d l) l
All-Among_self [] = tt
All-Among_self (d ∷ l) = (
  here refl,
  All-map (λ x. Among x l) (λ x. Among x (d ∷ l)) l (λ x m. there m) (All-Among_self l),
)

or-true : (a b : Bool) → b ≡ true → (a || b) ≡ true
or-true a b h = ground arith

covers_concrete :
    (taxonomy : Taxonomy) (l : List String)
    → All (IsCanonical taxonomy.domains) l
    → covers_authorized_domains taxonomy l l ≡ true
unfolding covers_authorized_domains
covers_concrete taxonomy [] c = refl
covers_concrete taxonomy (d ∷ l) c =
    let covered = all_covered taxonomy.domains (d ∷ l) (d ∷ l) c (All-Among_self (d ∷ l)) in
    or-true (has_wildcard (d ∷ l)) _ covered

-- A list of domains that `validate_authorized_domains` accepts covers itself.
covers_itself :
    (taxonomy : Taxonomy) (l out : List String)
    → validate_authorized_domains taxonomy l ≡ ok out
    → covers_authorized_domains taxonomy l l ≡ true
covers_itself taxonomy l out h = elim ((validate_authorized_domains_iff taxonomy l out).0 h).1 [
  | inl empty ↦ rw empty (unfold covers_authorized_domains in refl)
  | inr (inl wild) ↦ rw wild (unfold covers_authorized_domains in refl)
  | inr (inr (_, canonical, _)) ↦ covers_concrete taxonomy l canonical
]
