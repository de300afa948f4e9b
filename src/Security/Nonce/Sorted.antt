-- ===== src/Security/Nonce/Sorted.antt =====
-- The entries sorted by time: the same entries, in order of time.
use mathlib.Core.Path.{subst}
use oan_protocol_common.Base.{
  ℕ, zero, suc, String, ◌≡◌, ◌≢◌, refl, sym, ap, ◌∙◌, true, false, none, some, List, [], ◌∷◌, arith,
  eq_iff, ◌==◌, string_eq, if◌then◌else◌, All, All-map, length, take, Bool-cases, inl, inr,
}
use oan_protocol_common.Base.Int.{ℤ, ◌≤ℤ◌, leb_ℤ}
use oan_protocol_common.BTreeMap.{get}
use oan_protocol_common.BTreeMap.Length.{HasDistinctKeys}
use oan_protocol_common.Chrono.{Time}
use oan_protocol_common.Security.Nonce.{insert_by_time, sort_by_time}

module _ {ℓ} (P : String × Time → Type ℓ) where
  All-insert_by_time :
      (e : String × Time) (l : List (String × Time)) → P e → All P l → All P (insert_by_time e l)
  unfolding insert_by_time
  All-insert_by_time e [] p h = (p, tt)
  All-insert_by_time e (f ∷ l) p (q, h) = elim (Bool-cases (leb_ℤ e.1 f.1)) [
    | inl first ↦ rw first (p, (q, h))
    | inr later ↦ rw later (q, All-insert_by_time e l p h)
  ]

  pub All-sort_by_time : (l : List (String × Time)) → All P l → All P (sort_by_time l)
  unfolding sort_by_time
  All-sort_by_time [] h = tt
  All-sort_by_time (e ∷ l) (p, h) = All-insert_by_time e (sort_by_time l) p (All-sort_by_time l h)

length-insert_by_time :
    (e : String × Time) (l : List (String × Time)) → length (insert_by_time e l) ≡ suc (length l)
unfolding insert_by_time
length-insert_by_time e [] = refl
length-insert_by_time e (f ∷ l) = ground (arith, length-insert_by_time e l)

pub length-sort_by_time : (l : List (String × Time)) → length (sort_by_time l) ≡ length l
unfolding sort_by_time
length-sort_by_time [] = refl
length-sort_by_time (e ∷ l) =
    length-insert_by_time e (sort_by_time l) ∙ ap suc (length-sort_by_time l)

insert_by_time-distinct :
    (e : String × Time) (l : List (String × Time))
    → All (λ f. e.0 ≢ f.0) l
    → HasDistinctKeys l
    → HasDistinctKeys (insert_by_time e l)
unfolding insert_by_time
insert_by_time-distinct e [] h d = (tt, tt)
insert_by_time-distinct e (f ∷ l) (q, h) (k, d) = elim (Bool-cases (leb_ℤ e.1 f.1)) [
  | inl first ↦ rw first ((q, h), (k, d))
  | inr later ↦
      rw later (
        All-insert_by_time (λ g. f.0 ≢ g.0) e l (λ p. q (sym p)) k,
        insert_by_time-distinct e l h d,
      )
]

pub sort_by_time-distinct :
    (l : List (String × Time)) → HasDistinctKeys l → HasDistinctKeys (sort_by_time l)
unfolding sort_by_time
sort_by_time-distinct [] d = tt
sort_by_time-distinct (e ∷ l) (h, d) =
    insert_by_time-distinct e (sort_by_time l) (All-sort_by_time (λ f. e.0 ≢ f.0) l h)
      (sort_by_time-distinct l d)

get-insert_by_time :
    (e : String × Time) (l : List (String × Time)) (j : String)
    → All (λ f. e.0 ≢ f.0) l
    → get j (insert_by_time e l) ≡ (if e.0 == j then some e.1 else get j l)
unfolding insert_by_time get
get-insert_by_time e [] j h = refl
get-insert_by_time e (f ∷ l) j (q, h) =
    ground (arith, get-insert_by_time e l j h, eq_iff e.0 j, eq_iff f.0 j, eq_iff e.0 f.0)

-- Sorting changes no lookup.
pub get-sort_by_time :
    (l : List (String × Time)) (j : String) → HasDistinctKeys l → get j (sort_by_time l) ≡ get j l
unfolding sort_by_time get
get-sort_by_time [] j d = refl
get-sort_by_time (e ∷ l) j (h, d) =
    get-insert_by_time e (sort_by_time l) j (All-sort_by_time (λ f. e.0 ≢ f.0) l h)
    ∙ ap (λ o. if e.0 == j then some e.1 else o) (get-sort_by_time l j d)

abbrev IsTimeSorted : List (String × Time) → Type 0
IsTimeSorted [] = Unit
IsTimeSorted (e ∷ l) = All (λ f. e.1 ≤ℤ f.1) l × IsTimeSorted l

≤ℤ_of_leb : (a b : ℤ) → leb_ℤ a b ≡ true → a ≤ℤ b
≤ℤ_of_leb a b h = ground arith

≤ℤ_of_not-leb : (a b : ℤ) → leb_ℤ a b ≡ false → b ≤ℤ a
≤ℤ_of_not-leb a b h = ground arith

insert_by_time-IsTimeSorted :
    (e : String × Time) (l : List (String × Time))
    → IsTimeSorted l
    → IsTimeSorted (insert_by_time e l)
unfolding insert_by_time
insert_by_time-IsTimeSorted e [] s = (tt, tt)
insert_by_time-IsTimeSorted e (f ∷ l) (b, s) = elim (Bool-cases (leb_ℤ e.1 f.1)) [
  | inl first ↦
      let le = ≤ℤ_of_leb e.1 f.1 first in
      rw first ((le, All-map (λ g. f.1 ≤ℤ g.1) (λ g. e.1 ≤ℤ g.1) l (λ g h. omega arith) b), (b, s))
  | inr later ↦ rw later (
    All-insert_by_time (λ g. f.1 ≤ℤ g.1) e l (≤ℤ_of_not-leb e.1 f.1 later) b,
    insert_by_time-IsTimeSorted e l s,
  )
]

pub sort_by_time-IsTimeSorted : (l : List (String × Time)) → IsTimeSorted (sort_by_time l)
unfolding sort_by_time
sort_by_time-IsTimeSorted [] = tt
sort_by_time-IsTimeSorted (e ∷ l) =
    insert_by_time-IsTimeSorted e (sort_by_time l) (sort_by_time-IsTimeSorted l)

All-get :
    (t : Time) (l : List (String × Time)) (j : String) (u : Time)
    → All (λ f. t ≤ℤ f.1) l
    → get j l ≡ some u
    → t ≤ℤ u
unfolding get
All-get t [] j u h g = cc
All-get t (f ∷ l) j u (q, h) g = elim (Bool-cases (f.0 == j)) [
  | inl here ↦ let e : f.1 ≡ u = cc (rw here at g) in subst (λ v. t ≤ℤ v) e q
  | inr there ↦ All-get t l j u h (rw there at g)
]

-- In a list in order of time, an entry among the first n is no later than one that is not.
pub take-le :
    (n : ℕ) (l : List (String × Time)) (k j : String) (t u : Time)
    → IsTimeSorted l
    → get k (take n l) ≡ some t
    → get j (take n l) ≡ none
    → get j l ≡ some u
    → t ≤ℤ u
unfolding get
take-le zero l k j t u s gk gj g = cc
take-le (suc n) [] k j t u s gk gj g = cc
take-le (suc n) (e ∷ l) k j t u (b, s) gk gj g = elim (Bool-cases (e.0 == j)) [
  | inl here ↦ cc (rw here at gj)
  | inr there ↦ elim (Bool-cases (e.0 == k)) [
    | inl found ↦
        let same : e.1 ≡ t = cc (rw found at gk) in
        subst (λ v. v ≤ℤ u) same (All-get e.1 l j u b (rw there at g))
    | inr later ↦ take-le n l k j t u s (rw later at gk) (rw there at gj) (rw there at g)
  ]
]
