-- ===== src/Core/Taxonomy.antt =====
-- The taxonomy of authorized domains and the tree of capability tags (crates/oan-core/src/lib.rs,
-- `AuthorizedDomainTaxonomy` and `CapabilityTagTree`, which have the same structure and lookups).
pub mod Ancestors
pub mod Domains
pub mod Tree
use Prim.Native.String.{[], ◌∷◌, len, compare}
use Prim.Native.Nat.{Ordering}
use oan_protocol_common.Base.{
  ℕ, zero, suc, ◌+◌, ltb, code, String, Bool, true, false, not, ◌&&◌, ◌||◌, Option, none, some,
  List, [], ◌∷◌, ◌++◌, any, all, is_empty, is_some, nat_beq, length, ◌==◌, ◌!=◌, string_eq,
  if◌then◌else◌, Result, ok, err, ◌>>=◌, ◌>>◌, fail_if, ok_or, map,
}
use oan_protocol_common.BTreeMap.{BTreeMap, get, insert}

-- `AuthorizedDomain`, and `CapabilityTag`, which has the same fields
pub record AuthorizedDomain : Type 0 where
  pub id : String
  pub label : String
  pub parent : Option String
  pub aliases : List String

-- `AuthorizedDomainTreeNode`, and `CapabilityTreeNode`; a node holds a list of nodes
mutual
  pub data TreeNode : Type 0 where
    node : String → String → Nodes → TreeNode

  pub data Nodes : Type 0 where
    no_nodes : Nodes
    nodes : TreeNode → Nodes → Nodes

-- `AuthorizedDomainTaxonomy`, and `CapabilityTagTree`, whose domains are called tags
pub record Taxonomy : Type 0 where
  pub version : ℕ
  pub snapshot_hash : Option String
  pub domains : List AuthorizedDomain
  pub tree : Nodes

pub data AuthorizedDomainError : Type 0 where
  wildcard_mixed duplicate_or_unsorted empty_domain non_canonical_domain unknown_domain :
      AuthorizedDomainError

-- `normalize_domain`, and `normalize_tag`
unfoldable pub normalize_domain : List AuthorizedDomain → String → Option String
normalize_domain [] value = none
normalize_domain (domain ∷ domains) value =
    if domain.id == value || any (λ alias. alias == value) domain.aliases
    then some domain.id
    else normalize_domain domains value

-- `collect` into a map by identifier: of domains with one identifier the last counts
unfoldable pub collect :
    BTreeMap AuthorizedDomain → List AuthorizedDomain → BTreeMap AuthorizedDomain
collect m [] = m
collect m (domain ∷ domains) = collect (insert domain.id domain m) domains

-- `and_then(|domain| domain.parent.as_deref())`
abbrev pub parent_in : Option AuthorizedDomain → Option String
parent_in none = none
parent_in (some domain) = domain.parent

abbrev pub parent_of : BTreeMap AuthorizedDomain → String → Option String
parent_of by_id id = parent_in (get id by_id)

-- The loop of `is_descendant_or_same`, from the current parent and the set of those seen; `none`
-- says that the fuel ran out.
unfoldable pub climb :
    BTreeMap AuthorizedDomain → String → ℕ → List String → Option String → Option Bool
climb by_id granted zero seen current = none
climb by_id granted (suc fuel) seen none = some false
climb by_id granted (suc fuel) seen (some parent) =
    let rest = climb by_id granted fuel (parent ∷ seen) (parent_of by_id parent) in
    if parent == granted
    then some true
    else (if any (λ s. s == parent) seen then some false else rest)

-- `is_descendant_or_same`, with two rounds more than there are domains
unfoldable pub is_descendant_or_same : List AuthorizedDomain → String → String → Option Bool
is_descendant_or_same domains domain_id granted_domain_id =
    if granted_domain_id == "*" || domain_id == granted_domain_id
    then some true
    else climb (collect [] domains) granted_domain_id (length domains + 2) []
        (parent_of (collect [] domains) domain_id)
