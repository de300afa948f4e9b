-- ===== src/Tests/Domains.antt =====
-- A small taxonomy: a field with two domains below it, one of them given as its own ancestor.
use oan_protocol_common.Base.{
  String, ◌≡◌, ◌↔◌, ◌⊎◌, refl, Bool, true, false, none, some, List, [], ◌∷◌, ok,
}
use oan_protocol_common.BTreeMap.{get, insert}
use oan_protocol_common.Core.Taxonomy.{
  AuthorizedDomain, Taxonomy, node, no_nodes, nodes, normalize_domain, collect, climb,
  is_descendant_or_same, parent_of,
}
use oan_protocol_common.Core.Taxonomy.Ancestors.{IsAbove, is_descendant_or_same_lem}
use oan_protocol_common.Core.Taxonomy.Domains.{
  dots, check_domains, any_out_of_order, validate_concrete, validate_authorized_domains,
}
use oan_protocol_common.Core.Taxonomy.Domains.Validation.{
  AreAuthorized, validate_authorized_domains_iff,
}

abbrev law : String
law = "law"

abbrev loop : String
loop = "loop"

abbrev wanted : List String
wanted = "law" ∷ "law.tax" ∷ []

abbrev domain_of : String → AuthorizedDomain
domain_of id = record { id = id; label = id; parent = none; aliases = [] }

abbrev sample_domains : List AuthorizedDomain
sample_domains =
    domain_of "law"
    ∷ record { id = "law.tax"; label = "Tax"; parent = some "law"; aliases = "tax" ∷ [] }
    ∷ record { id = "loop"; label = "Loop"; parent = some "loop"; aliases = [] }
    ∷ []

abbrev sample_taxonomy : Taxonomy
sample_taxonomy = record {
  version = 1;
  snapshot_hash = none;
  domains = sample_domains;
  tree = no_nodes;
}

abbrev tree_taxonomy : Taxonomy
tree_taxonomy = record {
  version = 1;
  snapshot_hash = none;
  domains = [];
  tree = nodes (node "law" "Law" (nodes (node "law.tax" "Tax" no_nodes) no_nodes)) no_nodes;
}

below : is_descendant_or_same sample_domains "law.tax" "law" ≡ some true
unfolding is_descendant_or_same climb collect insert get
below = refl

looping : is_descendant_or_same sample_domains "loop" "law" ≡ some false
unfolding is_descendant_or_same climb collect insert get
looping = refl

is_descendant_or_same_lem_example :
    ((b : Bool) × (is_descendant_or_same sample_domains "loop" law ≡ some b))
    × ((is_descendant_or_same sample_domains "loop" law ≡ some true) ↔ (
        (law ≡ "*")
        ⊎ ((loop ≡ "law") ⊎ IsAbove (parent_of (collect [] sample_domains)) "law" "loop")))
is_descendant_or_same_lem_example = is_descendant_or_same_lem sample_domains "loop" "law"

listed : validate_authorized_domains sample_taxonomy wanted ≡ ok wanted
unfolding validate_authorized_domains validate_concrete check_domains normalize_domain dots
    any_out_of_order
listed = refl

validate_authorized_domains_iff_example :
    (validate_authorized_domains sample_taxonomy wanted ≡ ok wanted)
    ↔ ((wanted ≡ wanted) × AreAuthorized sample_domains wanted)
validate_authorized_domains_iff_example =
    validate_authorized_domains_iff sample_taxonomy wanted wanted
