-- ===== src/Core/Taxonomy/Tree.antt =====
-- A taxonomy given as a tree (crates/oan-core/src/lib.rs, `flatten_tree`).
use Prim.Native.String.{[], ◌∷◌}
use mathlib.Core.Path.{subst}
use oan_protocol_common.Base.{
  ◌≡◌, ◌⊎◌, inl, inr, refl, sym, ap, ◌∙◌, All, All-append, Among, here, there, Bool-cases, String,
  Bool, true, false, not, ◌||◌, Option, none, some, List, [], ◌∷◌, ◌++◌, is_empty, string_eq,
  if◌then◌else◌,
}
use oan_protocol_common.Core.Taxonomy.{
  AuthorizedDomain, Taxonomy, TreeNode, node, Nodes, no_nodes, nodes,
}

-- `walk` of `flatten_tree`: what it pushes for a node, and for the nodes of a list
unfoldable mutual
  pub walk : TreeNode → Option String → List AuthorizedDomain
  walk (node id label children) above =
      record { id = id; label = label; parent = above; aliases = [] } ∷ walk_all children (some id)

  pub walk_all : Nodes → Option String → List AuthorizedDomain
  walk_all no_nodes above = []
  walk_all (nodes n rest) above = walk n above ++ walk_all rest above

abbrev has_no_nodes : Nodes → Bool
has_no_nodes no_nodes = true
has_no_nodes (nodes n rest) = false

unfoldable flatten_tree : Taxonomy → Taxonomy
flatten_tree taxonomy =
    if not (is_empty taxonomy.domains) || has_no_nodes taxonomy.tree then taxonomy else record {
      version = taxonomy.version;
      snapshot_hash = taxonomy.snapshot_hash;
      domains = walk_all taxonomy.tree none;
      tree = taxonomy.tree;
    }

-- the identifiers of entries
unfoldable pub ids_of : List AuthorizedDomain → List String
ids_of [] = []
ids_of (d ∷ l) = d.id ∷ ids_of l

-- A parent is none or stands among the identifiers.
abbrev IsKnown : List String → Option String → Type 0
IsKnown ids none = Unit
IsKnown ids (some above) = Among above ids

Among-left :
    (x : String) (k l : List AuthorizedDomain) → Among x (ids_of k) → Among x (ids_of (k ++ l))
unfolding ids_of
Among-left x [] l m = elim m [ ]
Among-left x (d ∷ k) l (here e) = here e
Among-left x (d ∷ k) l (there m) = there (Among-left x k l m)

Among-right :
    (x : String) (k l : List AuthorizedDomain) → Among x (ids_of l) → Among x (ids_of (k ++ l))
unfolding ids_of
Among-right x [] l m = m
Among-right x (d ∷ k) l m = there (Among-right x k l m)

mutual
  unfolding walk ids_of

  walk-IsKnown :
      (ids : List String) (n : TreeNode) (above : Option String)
      → IsKnown ids above
      → ((x : String) → Among x (ids_of (walk n above)) → Among x ids)
      → All (λ d. IsKnown ids d.parent) (walk n above)
  walk-IsKnown ids (node id label children) above known within = (
    known,
    walk_all-IsKnown ids children (some id) (within id (here refl)) (λ x m. within x (there m)),
  )

  walk_all-IsKnown :
      (ids : List String) (ns : Nodes) (above : Option String)
      → IsKnown ids above
      → ((x : String) → Among x (ids_of (walk_all ns above)) → Among x ids)
      → All (λ d. IsKnown ids d.parent) (walk_all ns above)
  walk_all-IsKnown ids no_nodes above known within = tt
  walk_all-IsKnown ids (nodes n rest) above known within =
      All-append (λ d. IsKnown ids d.parent) (walk n above) (walk_all rest above)
        (walk-IsKnown ids n above known
          (λ x m. within x (Among-left x (walk n above) (walk_all rest above) m)))
        (walk_all-IsKnown ids rest above known
          (λ x m. within x (Among-right x (walk n above) (walk_all rest above) m)))

kept : (taxonomy : Taxonomy) → is_empty taxonomy.domains ≡ false → flatten_tree taxonomy ≡ taxonomy
unfolding flatten_tree
kept taxonomy h = rw h

-- the taxonomy with the entries of its tree
abbrev flattened : Taxonomy → Taxonomy
flattened taxonomy = record {
  version = taxonomy.version;
  snapshot_hash = taxonomy.snapshot_hash;
  domains = walk_all taxonomy.tree none;
  tree = taxonomy.tree;
}

walk_all_filled : (ns : Nodes) → has_no_nodes ns ≡ false → is_empty (walk_all ns none) ≡ false
unfolding walk walk_all
walk_all_filled no_nodes h = cc
walk_all_filled (nodes (node id label children) rest) h = refl

flatten_cases :
    (taxonomy : Taxonomy)
    → (flatten_tree taxonomy ≡ taxonomy)
      ⊎ ((flatten_tree taxonomy ≡ flattened taxonomy)
          × (is_empty (flattened taxonomy).domains ≡ false))
unfolding flatten_tree
flatten_cases taxonomy = elim (Bool-cases (is_empty taxonomy.domains)) [
  | inr filled ↦ inl (rw filled)
  | inl empty ↦ elim (Bool-cases (has_no_nodes taxonomy.tree)) [
    | inl bare ↦ inl (rw (empty, bare))
    | inr grown ↦ inr (rw (empty, grown), walk_all_filled taxonomy.tree grown)
  ]
]

-- Flattening a flattened taxonomy changes nothing.
flatten_tree_idempotent :
    (taxonomy : Taxonomy) → flatten_tree (flatten_tree taxonomy) ≡ flatten_tree taxonomy
flatten_tree_idempotent taxonomy = elim (flatten_cases taxonomy) [
  | inl same ↦ ap flatten_tree same
  | inr (flat, filled) ↦ ap flatten_tree flat ∙ kept (flattened taxonomy) filled ∙ sym flat
]

no_entries :
    (l : List AuthorizedDomain)
    → is_empty l ≡ true
    → (ids : List String) → All (λ d. IsKnown ids d.parent) l
no_entries [] h ids = tt
no_entries (d ∷ l) h ids = cc

-- Where a taxonomy has no domains, every domain that its tree is flattened to has no parent, or
-- one that stands among the domains.
flatten_tree_closed :
    (taxonomy : Taxonomy)
    → is_empty taxonomy.domains ≡ true
    → All
        (λ d. IsKnown (ids_of (flatten_tree taxonomy).domains) d.parent)
        (flatten_tree taxonomy).domains
flatten_tree_closed taxonomy empty = elim (flatten_cases taxonomy) [
  | inl same ↦
      subst (λ t. All (λ d. IsKnown (ids_of t.domains) d.parent) t.domains) (sym same)
        (no_entries taxonomy.domains empty (ids_of taxonomy.domains))
  | inr (flat, _) ↦
      subst (λ t. All (λ d. IsKnown (ids_of t.domains) d.parent) t.domains) (sym flat)
        (walk_all-IsKnown (ids_of (walk_all taxonomy.tree none)) taxonomy.tree none tt (λ x m. m))
]
