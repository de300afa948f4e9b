-- ===== src/Security/Nonce/Prune.antt =====
-- `prune_nonce_store`: how many entries it leaves, and which.
use oan_protocol_common.Base.{
  ℕ, zero, suc, ◌+◌, ◌-◌, ◌≤◌, ◌<◌, String, ◌≡◌, ◌≢◌, refl, sym, ap, ◌∙◌, true, false, Option, none,
  some, List, [], ◌∷◌, arith, eq_iff, string_eq, All, All-zip, length, take, leb, Bool-cases, inl,
  inr,
}
use oan_protocol_common.Base.Int.{◌≤ℤ◌}
use oan_protocol_common.BTreeMap.{BTreeMap, get, remove, IsSorted}
use oan_protocol_common.BTreeMap.Laws.{get-remove}
use oan_protocol_common.BTreeMap.Length.{
  HasDistinctKeys, AllFound, IsSorted-distinct, IsSorted-found, length-remove, remove-IsSorted,
}
use oan_protocol_common.Chrono.{Time}
use oan_protocol_common.Security.Nonce.{sort_by_time, remove_each, evict}
use oan_protocol_common.Security.Nonce.Sorted.{
  All-sort_by_time, length-sort_by_time, sort_by_time-distinct, get-sort_by_time,
  sort_by_time-IsTimeSorted, take-le,
}

remove_each-IsSorted :
    (l : List (String × Time)) (m : BTreeMap Time) → IsSorted m → IsSorted (remove_each l m)
unfolding remove_each
remove_each-IsSorted [] m s = s
remove_each-IsSorted (e ∷ l) m s = remove_each-IsSorted l (remove e.0 m) (remove-IsSorted e.0 m s)

abbrev unless_listed : Option Time → Option Time → Option Time
unless_listed none o = o
unless_listed (some _) o = none

get-remove_each :
    (l : List (String × Time)) (m : BTreeMap Time) (j : String)
    → get j (remove_each l m) ≡ unless_listed (get j l) (get j m)
unfolding remove_each get
get-remove_each [] m j = refl
get-remove_each (e ∷ l) m j = ground (arith, get-remove_each l (remove e.0 m) j, get-remove e.0 j m)

unless_listed-eq-some : (a b : Option Time) (t : Time) → unless_listed a b ≡ some t → b ≡ some t
unless_listed-eq-some a b t h = ground arith

unless_listed-eq-some_left : (a b : Option Time) (t : Time) → unless_listed a b ≡ some t → a ≡ none
unless_listed-eq-some_left a b t h = ground arith

over_lt : (a n : ℕ) → leb a n ≡ false → n < a
over_lt a n h = ground arith

unless_listed-eq-none :
    (a b : Option Time) (t : Time)
    → b ≡ some t
    → unless_listed a b ≡ none
    → (v : Time) × (a ≡ some v)
unless_listed-eq-none none b t g h = cc
unless_listed-eq-none (some v) b t g h = (v, refl)

get-take :
    (n : ℕ) (l : List (String × Time)) (k : String) (t : Time)
    → get k (take n l) ≡ some t
    → get k l ≡ some t
unfolding get
get-take zero l k t h = cc
get-take (suc n) [] k t h = cc
get-take (suc n) (e ∷ l) k t h = ground (arith, get-take n l k t)

found_after :
    (k : String) (m : BTreeMap Time) (e : String × Time)
    → k ≢ e.0
    → get e.0 m ≡ some e.1
    → get e.0 (remove k m) ≡ some e.1
found_after k m e d h = rw get-remove (ground (arith, eq_iff k e.0))

length-remove_each :
    (l : List (String × Time)) (m : BTreeMap Time)
    → IsSorted m
    → HasDistinctKeys l
    → AllFound m l
    → length (remove_each l m) + length l ≡ length m
unfolding remove_each
length-remove_each [] m s d f = omega arith
length-remove_each (e ∷ l) m s (h, d) (p, f) = omega (
  arith,
  length-remove e.0 e.1 m s p,
  length-remove_each l (remove e.0 m) (remove-IsSorted e.0 m s) d (
      All-zip (λ g. e.0 ≢ g.0) (λ g. get g.0 m ≡ some g.1) (λ g. get g.0 (remove e.0 m) ≡ some g.1)
        l (λ g. found_after e.0 m g) h f),
)

All-take {ℓ} :
    (P : String × Time → Type ℓ) (n : ℕ) (l : List (String × Time)) → All P l → All P (take n l)
All-take P zero l h = tt
All-take P (suc n) [] h = tt
All-take P (suc n) (e ∷ l) (p, h) = (p, All-take P n l h)

take-distinct : (n : ℕ) (l : List (String × Time)) → HasDistinctKeys l → HasDistinctKeys (take n l)
take-distinct zero l d = tt
take-distinct (suc n) [] d = tt
take-distinct (suc n) (e ∷ l) (h, d) = (All-take (λ f. e.0 ≢ f.0) n l h, take-distinct n l d)

length-take : (n : ℕ) (l : List (String × Time)) → n ≤ length l → length (take n l) ≡ n
length-take zero l h = refl
length-take (suc n) [] h = absurd (omega arith)
length-take (suc n) (e ∷ l) h = ap suc (length-take n l (omega arith))

evict_over :
    (n : ℕ) (m : BTreeMap Time)
    → leb (length m) n ≡ false
    → evict n m ≡ remove_each (take (length m - n) (sort_by_time m)) m
unfolding evict
evict_over n m h = rw h

evict_room : (n : ℕ) (m : BTreeMap Time) → leb (length m) n ≡ true → evict n m ≡ m
unfolding evict
evict_room n m h = rw h

pub evict-IsSorted : (n : ℕ) (m : BTreeMap Time) → IsSorted m → IsSorted (evict n m)
evict-IsSorted n m s = elim (Bool-cases (leb (length m) n)) [
  | inl room ↦ rw (evict_room n m room) s
  | inr over ↦ rw (evict_over n m over) (remove_each-IsSorted _ m s)
]

-- After an eviction a sorted store has at most the given number of entries, and exactly that
-- number where it had as many or more.
pub length-evict :
    (n : ℕ) (m : BTreeMap Time)
    → IsSorted m
    → (length (evict n m) ≤ n) × (n ≤ length m → length (evict n m) ≡ n)
length-evict n m s = elim (Bool-cases (leb (length m) n)) [
  | inl room ↦ rw (evict_room n m room) (ground arith)
  | inr over ↦
      let sorted = sort_by_time m in
      let fits : length m - n ≤ length sorted = omega (arith, length-sort_by_time m) in
      let count =
        length-remove_each (take (length m - n) sorted) m s
          (take-distinct _ sorted (sort_by_time-distinct m (IsSorted-distinct m s)))
          (All-take _ _ sorted (All-sort_by_time _ m (IsSorted-found m s))) in
      let size = length-take (length m - n) sorted fits in
      rw (evict_over n m over) (
        omega (arith, count, size, over_lt (length m) n over),
        λ h. omega (arith, count, size, over_lt (length m) n over),
      )
]

-- A map within the bound keeps its entries.
pub evict_within : (n : ℕ) (m : BTreeMap Time) → length m ≤ n → evict n m ≡ m
evict_within n m h = evict_room n m (ground arith)

-- An entry that the eviction leaves is as it was.
pub get-evict :
    (n : ℕ) (m : BTreeMap Time) (k : String) (t : Time)
    → get k (evict n m) ≡ some t
    → get k m ≡ some t
get-evict n m k t h = elim (Bool-cases (leb (length m) n)) [
  | inl room ↦ rw (sym (evict_room n m room)) h
  | inr over ↦
      let e = get-remove_each (take (length m - n) (sort_by_time m)) m k in
      unless_listed-eq-some _ _ t (sym e ∙ rw (evict_over n m over) at h)
]

-- Of a sorted store, an entry that the eviction takes is no later than any entry that it leaves.
pub evict_oldest :
    (n : ℕ) (m : BTreeMap Time) (k j : String) (t u : Time)
    → IsSorted m
    → get k m ≡ some t
    → get k (evict n m) ≡ none
    → get j (evict n m) ≡ some u
    → t ≤ℤ u
evict_oldest n m k j t u s gk gone left = elim (Bool-cases (leb (length m) n)) [
  | inl room ↦ absurd (cc (gk, ap (get k) (evict_room n m room), gone))
  | inr over ↦
      let first = take (length m - n) (sort_by_time m) in
      let same = get-sort_by_time m in
      let ek = sym (get-remove_each first m k) ∙ rw (evict_over n m over) at gone in
      let ej = sym (get-remove_each first m j) ∙ rw (evict_over n m over) at left in
      let d = IsSorted-distinct m s in
      let (v, listed) = unless_listed-eq-none _ _ t gk ek in
      let time : v ≡ t = cc (get-take _ (sort_by_time m) k v listed, same k d, gk) in
      take-le _ (sort_by_time m) k j t u (sort_by_time-IsTimeSorted m) (listed ∙ ap some time)
        (unless_listed-eq-some_left _ _ u ej) (same j d ∙ unless_listed-eq-some _ _ u ej)
]
