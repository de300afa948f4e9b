-- ===== src/BTreeMap/Laws.antt =====
-- Lookup laws, and the order of the keys.
use Prim.Native.Nat.{Ordering}
use Prim.Native.String.{compare}
use text.Mathlib.TextEquality.{path_by_compare}
use text.Mathlib.TextPositions.{compare_refl}
use mathlib.Core.Path.{subst}
use oan_protocol_common.Base.{
  String, ◌≡◌, ◌≢◌, refl, sym, ap, Bool, Option, none, some, [], ◌∷◌, arith, eq_iff, ◌==◌,
  string_eq, if◌then◌else◌, retain, Bool-cases, inl, inr,
}
use oan_protocol_common.Text.Order.{compare_trans, compare_flip, Ordering-cases}
use oan_protocol_common.BTreeMap.{BTreeMap, get, insert, remove, IsBelow, IsSorted}

pub compare_lt-ne : (k j : String) → compare k j ≡ Ordering.lt → k ≢ j
compare_lt-ne k j h e = cc (ap (compare k) e, compare_refl k, h)

compare_gt-ne : (k j : String) → compare k j ≡ Ordering.gt → k ≢ j
compare_gt-ne k j h e = cc (ap (compare k) e, compare_refl k, h)

module _ {ℓ} {V : Type ℓ} where
  pub insert_lt :
      (k j : String) (v w : V) (m : BTreeMap V)
      → compare k j ≡ Ordering.lt
      → insert k v ((j, w) ∷ m) ≡ (k, v) ∷ (j, w) ∷ m
  unfolding insert
  insert_lt k j v w m e = rw (e, insert)

  pub insert_eq :
      (k j : String) (v w : V) (m : BTreeMap V)
      → compare k j ≡ Ordering.eq
      → insert k v ((j, w) ∷ m) ≡ (k, v) ∷ m
  unfolding insert
  insert_eq k j v w m e = rw (e, insert)

  pub insert_gt :
      (k j : String) (v w : V) (m : BTreeMap V)
      → compare k j ≡ Ordering.gt
      → insert k v ((j, w) ∷ m) ≡ (j, w) ∷ insert k v m
  unfolding insert
  insert_gt k j v w m e = rw (e, insert)

  pub get-insert :
      (k j : String) (v : V) (m : BTreeMap V)
      → get j (insert k v m) ≡ (if k == j then some v else get j m)
  unfolding get
  get-insert k j v [] = unfold insert in refl
  get-insert k j v ((i, w) ∷ m) = elim (Ordering-cases (compare k i)) [
    | inl below ↦ rw (insert_lt k i v w m below)
    | inr (inl same) ↦
        rw (insert_eq k i v w m same)
          (ground (arith, eq_iff k j, eq_iff i j, path_by_compare k i same))
    | inr (inr above) ↦
        rw (insert_gt k i v w m above)
          (ground (arith, get-insert k j v m, eq_iff k j, eq_iff i j, compare_gt-ne k i above))
  ]

  IsBelow-trans :
      (k j : String) (m : BTreeMap V) → compare k j ≡ Ordering.lt → IsBelow j m → IsBelow k m
  IsBelow-trans k j [] h b = tt
  IsBelow-trans k j ((i, w) ∷ m) h (q, b) = (compare_trans k j i h q, IsBelow-trans k j m h b)

  IsBelow-insert :
      (k j : String) (v : V) (m : BTreeMap V)
      → compare j k ≡ Ordering.lt
      → IsBelow j m
      → IsBelow j (insert k v m)
  IsBelow-insert k j v [] h b = unfold insert in (h, tt)
  IsBelow-insert k j v ((i, w) ∷ m) h (q, b) = elim (Ordering-cases (compare k i)) [
    | inl below ↦ rw (insert_lt k i v w m below) (h, (q, b))
    | inr (inl same) ↦ rw (insert_eq k i v w m same) (h, b)
    | inr (inr above) ↦ rw (insert_gt k i v w m above) (q, IsBelow-insert k j v m h b)
  ]

  pub insert-IsSorted : (k : String) (v : V) (m : BTreeMap V) → IsSorted m → IsSorted (insert k v m)
  insert-IsSorted k v [] s = unfold insert in (tt, tt)
  insert-IsSorted k v ((i, w) ∷ m) (b, s) = elim (Ordering-cases (compare k i)) [
    | inl below ↦ rw (insert_lt k i v w m below) ((below, IsBelow-trans k i m below b), (b, s))
    | inr (inl same) ↦
        rw (insert_eq k i v w m same)
          (subst (λ t. IsBelow t m) (sym (path_by_compare k i same)) b, s)
    | inr (inr above) ↦
        rw (insert_gt k i v w m above)
          (IsBelow-insert k i v m (compare_flip k i above) b, insert-IsSorted k v m s)
  ]

  IsBelow-retain :
      (p : String × V → Bool) (k : String) (m : BTreeMap V) → IsBelow k m → IsBelow k (retain p m)
  IsBelow-retain p k [] b = tt
  IsBelow-retain p k (e ∷ m) (q, b) = elim (Bool-cases (p e)) [
    | inl kept ↦ rw kept (q, IsBelow-retain p k m b)
    | inr dropped ↦ rw dropped (IsBelow-retain p k m b)
  ]

  pub retain-IsSorted :
      (p : String × V → Bool) (m : BTreeMap V) → IsSorted m → IsSorted (retain p m)
  retain-IsSorted p [] s = tt
  retain-IsSorted p ((k, v) ∷ m) (b, s) = elim (Bool-cases (p (k, v))) [
    | inl kept ↦ rw kept (IsBelow-retain p k m b, retain-IsSorted p m s)
    | inr dropped ↦ rw dropped (retain-IsSorted p m s)
  ]

  -- A key below all keys of the map is not in it.
  get_below : (k : String) (m : BTreeMap V) → IsBelow k m → get k m ≡ none
  unfolding get
  get_below k [] b = refl
  get_below k ((i, w) ∷ m) (q, b) = ground (arith, get_below k m b, eq_iff i k, compare_lt-ne k i q)

  get-below_of_eq : (i k : String) (m : BTreeMap V) → IsBelow i m → i ≡ k → get k m ≡ none
  get-below_of_eq i k m b e = subst (λ t. get t m ≡ none) e (get_below i m b)

  abbrev pub keep_if : (V → Bool) → Option V → Option V
  keep_if p none = none
  keep_if p (some v) = if p v then some v else none

  -- `retain` by a test of the value keeps the entries whose value passes it.
  pub get-retain :
      (p : V → Bool) (k : String) (m : BTreeMap V)
      → IsSorted m
      → get k (retain (λ e. p e.1) m) ≡ keep_if p (get k m)
  unfolding get
  get-retain p k [] s = refl
  get-retain p k ((i, w) ∷ m) (b, s) =
      ground (arith, get-retain p k m s, get-below_of_eq i k m b, eq_iff i k)

  pub get-remove :
      (k j : String) (m : BTreeMap V) → get j (remove k m) ≡ (if k == j then none else get j m)
  unfolding get remove
  get-remove k j [] = ground arith
  get-remove k j ((i, w) ∷ m) = ground (arith, get-remove k j m, eq_iff i k, eq_iff i j, eq_iff k j)
