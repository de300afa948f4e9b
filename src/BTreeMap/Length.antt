-- ===== src/BTreeMap/Length.antt =====
-- How insertion and removal change the number of entries.
use Prim.Native.Nat.{Ordering}
use Prim.Native.String.{compare}
use mathlib.Core.Path.{subst}
use oan_protocol_common.Base.{
  ◌≤◌, suc, String, ◌≡◌, ◌≢◌, refl, ap, not, none, some, List, [], ◌∷◌, arith, eq_iff, ◌==◌,
  string_eq, All, All-map, All-zip, length, inl, inr,
}
use oan_protocol_common.Text.Order.{Ordering-cases}
use oan_protocol_common.BTreeMap.{BTreeMap, get, insert, remove, IsBelow, IsSorted}
use oan_protocol_common.BTreeMap.Laws.{
  compare_lt-ne, insert_lt, insert_eq, insert_gt, retain-IsSorted,
}
use text.Mathlib.TextEquality.{path_by_compare}

module _ {ℓ} {V : Type ℓ} where
  pub length-insert_new :
      (k : String) (v : V) (m : BTreeMap V)
      → get k m ≡ none
      → length (insert k v m) ≡ suc (length m)
  unfolding get
  length-insert_new k v [] h = unfold insert in refl
  length-insert_new k v ((i, w) ∷ m) h = elim (Ordering-cases (compare k i)) [
    | inl below ↦ rw (insert_lt k i v w m below)
    | inr (inl same) ↦ absurd (ground (arith, eq_iff i k, path_by_compare k i same))
    | inr (inr above) ↦
        rw (insert_gt k i v w m above) (ap suc (length-insert_new k v m (ground arith)))
  ]

  remove_below : (k : String) (m : BTreeMap V) → IsBelow k m → remove k m ≡ m
  unfolding remove
  remove_below k [] b = refl
  remove_below k ((i, w) ∷ m) (q, b) =
      ground (arith, remove_below k m b, eq_iff i k, compare_lt-ne k i q)

  remove_head : (k i : String) (m : BTreeMap V) → i ≡ k → IsBelow i m → remove k m ≡ m
  remove_head k i m e b = subst (λ t. remove t m ≡ m) e (remove_below i m b)

  -- To remove a key that is there takes one entry away.
  pub length-remove :
      (k : String) (v : V) (m : BTreeMap V)
      → IsSorted m
      → get k m ≡ some v
      → suc (length (remove k m)) ≡ length m
  unfolding get remove
  length-remove k v [] s h = cc
  length-remove k v ((i, w) ∷ m) (b, s) h =
      ground (arith, length-remove k v m s, eq_iff i k, remove_head k i m)

  pub remove-IsSorted : (k : String) (m : BTreeMap V) → IsSorted m → IsSorted (remove k m)
  unfolding remove
  remove-IsSorted k m s = retain-IsSorted (λ e. not (e.0 == k)) m s

  -- The keys of a list of entries differ.
  abbrev pub HasDistinctKeys : List (String × V) → Type 0
  HasDistinctKeys [] = Unit
  HasDistinctKeys (e ∷ l) = All (λ f. e.0 ≢ f.0) l × HasDistinctKeys l

  pub IsSorted-distinct : (m : BTreeMap V) → IsSorted m → HasDistinctKeys m
  IsSorted-distinct [] s = tt
  IsSorted-distinct ((k, v) ∷ m) (b, s) = (
    All-map (λ f. compare k f.0 ≡ Ordering.lt) (λ f. k ≢ f.0) m (λ f h. compare_lt-ne k f.0 h) b,
    IsSorted-distinct m s,
  )

  -- Every entry of the list is an entry of the map.
  abbrev pub AllFound : BTreeMap V → List (String × V) → Type ℓ
  AllFound m l = All (λ e. get e.0 m ≡ some e.1) l

  get_tail :
      (k : String) (v : V) (m : BTreeMap V) (e : String × V)
      → k ≢ e.0
      → get e.0 m ≡ some e.1
      → get e.0 ((k, v) ∷ m) ≡ some e.1
  unfolding get
  get_tail k v m e d h = ground (arith, eq_iff k e.0)

  get_head : (k : String) (v : V) (m : BTreeMap V) → get k ((k, v) ∷ m) ≡ some v
  unfolding get
  get_head k v m = ground (arith, eq_iff k k)

  pub IsSorted-found : (m : BTreeMap V) → IsSorted m → AllFound m m
  IsSorted-found [] s = tt
  IsSorted-found ((k, v) ∷ m) (b, s) = (
    get_head k v m,
    All-zip (λ f. compare k f.0 ≡ Ordering.lt) (λ f. get f.0 m ≡ some f.1)
        (λ f. get f.0 ((k, v) ∷ m) ≡ some f.1) m (λ f h. get_tail k v m f (compare_lt-ne k f.0 h)) b
        (IsSorted-found m s),
  )

  pub length-insert-le :
      (k : String) (v : V) (m : BTreeMap V) → length (insert k v m) ≤ suc (length m)
  length-insert-le k v [] = unfold insert in omega arith
  length-insert-le k v ((i, w) ∷ m) = elim (Ordering-cases (compare k i)) [
    | inl below ↦ rw (insert_lt k i v w m below) (omega arith)
    | inr (inl same) ↦ rw (insert_eq k i v w m same) (omega arith)
    | inr (inr above) ↦ rw (insert_gt k i v w m above) (omega (arith, length-insert-le k v m))
  ]
