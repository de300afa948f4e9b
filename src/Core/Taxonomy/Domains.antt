-- ===== src/Core/Taxonomy/Domains.antt =====
-- The checks of authorized domains (crates/oan-core/src/lib.rs, `AuthorizedDomainTaxonomy` and
-- `CapabilityTagTree`).
pub mod Validation
pub mod Coverage
use Prim.Native.String.{[], ◌∷◌, len, compare}
use Prim.Native.Nat.{Ordering}
use oan_protocol_common.Base.{
  ℕ, zero, suc, ◌+◌, ltb, code, String, Bool, true, false, not, ◌&&◌, ◌||◌, Option, none, some,
  List, [], ◌∷◌, ◌++◌, any, all, is_empty, is_some, nat_beq, length, ◌==◌, ◌!=◌, string_eq,
  if◌then◌else◌, Result, ok, err, ◌>>=◌, ◌>>◌, fail_if, ok_or, map,
}
use oan_protocol_common.BTreeMap.{BTreeMap, get, insert}
use oan_protocol_common.Core.Taxonomy.{
  AuthorizedDomain, AuthorizedDomainError, wildcard_mixed, duplicate_or_unsorted, empty_domain,
  non_canonical_domain, unknown_domain, Taxonomy, TreeNode, node, Nodes, no_nodes, nodes,
  normalize_domain, is_descendant_or_same,
}

-- `matches('.').count()`
unfoldable pub dots : String → ℕ
dots [] = 0
dots (c ∷ s) = let rest = dots s in if nat_beq (code c) 46 then suc rest else rest

abbrev pub check_domain : List AuthorizedDomain → String → Result AuthorizedDomainError String
check_domain domains domain = do
  fail_if (nat_beq (len domain) 0) empty_domain
  canonical ← ok_or (normalize_domain domains domain) unknown_domain
  fail_if (canonical != domain) non_canonical_domain
  fail_if (ltb 1 (dots canonical)) non_canonical_domain
  ok canonical

-- the loop over the domains, with the vector built
unfoldable pub check_domains :
    List AuthorizedDomain → List String → Result AuthorizedDomainError (List String)
check_domains domains [] = ok []
check_domains domains (domain ∷ rest) =
    let others = check_domains domains rest in
    do canonical ← check_domain domains domain; normalized ← others; ok (canonical ∷ normalized)

-- `pair[0] >= pair[1]`
abbrev str_geb : String → String → Bool
str_geb a b = elim (compare a b) [ Ordering.lt ↦ false | _ ↦ true ]

-- `windows(2).any(|pair| pair[0] >= pair[1])`
unfoldable pub any_out_of_order : List String → Bool
any_out_of_order [] = false
any_out_of_order (a ∷ []) = false
any_out_of_order (a ∷ b ∷ l) = str_geb a b || any_out_of_order (b ∷ l)

-- `validate_authorized_domains` of a list that has no wildcard
unfoldable pub validate_concrete :
    List AuthorizedDomain → List String → Result AuthorizedDomainError (List String)
validate_concrete domains requested = do
  normalized ← check_domains domains requested
  fail_if (any_out_of_order normalized) duplicate_or_unsorted
  ok normalized

unfoldable pub validate_authorized_domains :
    Taxonomy → List String → Result AuthorizedDomainError (List String)
validate_authorized_domains taxonomy requested =
    if is_empty requested
    then ok []
    else (if any (λ domain. domain == "*") requested
        then (if nat_beq (length requested) 1 then ok ("*" ∷ []) else err wildcard_mixed)
        else validate_concrete taxonomy.domains requested)

abbrev pub is_true : Option Bool → Bool
is_true (some true) = true
is_true _ = false

-- a test of the domain in the second place, where its argument is there
abbrev pub descends : List AuthorizedDomain → String → Option String → Bool
descends domains requested none = false
descends domains requested (some granted) =
    is_true (is_descendant_or_same domains requested granted)

abbrev pub covered_by : List AuthorizedDomain → List String → Option String → Bool
covered_by domains granted none = false
covered_by domains granted (some requested) =
    any (λ g. descends domains requested (normalize_domain domains g)) granted

unfoldable pub covers_authorized_domains : Taxonomy → List String → List String → Bool
covers_authorized_domains taxonomy requested granted =
    is_empty requested
    || any (λ domain. domain == "*") granted
    || not (is_empty granted)
      && all (λ r. covered_by taxonomy.domains granted (normalize_domain taxonomy.domains r))
          requested

abbrev or_else_text : Option String → String → String
or_else_text none s = s
or_else_text (some t) s = t

-- `CapabilityTagTree::matches_authorized_domains`
unfoldable matches_authorized_domains : Taxonomy → List String → List String → Bool
matches_authorized_domains tree capability_tags authorized_domains =
    any (λ domain. domain == "*") authorized_domains
    || any
        (λ capability.
          any
            (λ domain. is_true (
              is_descendant_or_same tree.domains
                (or_else_text (normalize_domain tree.domains capability) capability)
                (or_else_text (normalize_domain tree.domains domain) domain)))
            authorized_domains)
        capability_tags
