-- ===== src/BTreeMap.antt =====
-- What the program uses of Rust's `BTreeMap<String, V>`: the entries in the order of their keys.
pub mod Laws
pub mod Length
use Prim.Native.Nat.{Ordering}
use Prim.Native.String.{compare}
use oan_protocol_common.Base.{
  String, Bool, true, false, not, Option, none, some, List, [], ◌∷◌, ◌≡◌, ◌==◌, string_eq,
  if◌then◌else◌, All, retain, is_some,
}

abbrev pub BTreeMap {ℓ} : Type ℓ → Type ℓ
BTreeMap V = List (String × V)

module _ {ℓ} {V : Type ℓ} where
  unfoldable pub get : String → BTreeMap V → Option V
  get k [] = none
  get k ((j, v) ∷ m) = if j == k then some v else get k m

  abbrev pub contains_key : String → BTreeMap V → Bool
  contains_key k m = is_some (get k m)

  unfoldable pub insert : String → V → BTreeMap V → BTreeMap V
  insert k v [] = (k, v) ∷ []
  insert k v ((j, w) ∷ m) =
      let later = insert k v m in
      elim (compare k j) [
        | Ordering.lt ↦ (k, v) ∷ (j, w) ∷ m
        | Ordering.eq ↦ (k, v) ∷ m
        | Ordering.gt ↦ (j, w) ∷ later
      ]

  unfoldable pub remove : String → BTreeMap V → BTreeMap V
  remove k m = retain (λ e. not (e.0 == k)) m

  -- Every key of the map is above k.
  abbrev pub IsBelow : String → BTreeMap V → Type 0
  IsBelow k m = All (λ e. compare k e.0 ≡ Ordering.lt) m

  -- The keys are strictly increasing: the representation's invariant.
  abbrev pub IsSorted : BTreeMap V → Type 0
  IsSorted [] = Unit
  IsSorted ((k, v) ∷ m) = IsBelow k m × IsSorted m
