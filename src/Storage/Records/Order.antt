-- ===== src/Storage/Records/Order.antt =====
-- The order of a namespace's records: by time and key, each record once.
use Prim.Native.Nat.{Ordering}
use Prim.Native.String.{compare}
use text.Mathlib.TextEquality.{path_by_compare}
use text.Mathlib.TextPositions.{compare_refl}
use oan_protocol_common.Base.{
  String, ◌≡◌, ◌≢◌, ◌⊎◌, inl, inr, refl, sym, ap, ◌∙◌, true, false, List, [], ◌∷◌, All, All-map,
  Bool-cases, arith,
}
use oan_protocol_common.Text.Order.{compare_trans, compare_flip, Ordering-cases}
use oan_protocol_common.BTreeMap.{BTreeMap, IsBelow, IsSorted}
use oan_protocol_common.BTreeMap.Laws.{compare_lt-ne}
use oan_protocol_common.Storage.Limits.{Record}
use oan_protocol_common.Storage.Records.{Stored, is_after, insert_record, in_order}

-- A record is behind a time and a key.
abbrev IsBehind : String → String → Record → Type 0
IsBehind u k r =
    (compare u r.updated_at ≡ Ordering.lt)
    ⊎ ((u ≡ r.updated_at) × (compare k r.record_key ≡ Ordering.lt))

is_after_sound : (u k : String) (r : Record) → is_after u k r ≡ true → IsBehind u k r
unfolding is_after
is_after_sound u k r h = elim (Ordering-cases (compare u r.updated_at)) [
  | inl below ↦ inl below
  | inr (inr above) ↦ ground (arith, above)
  | inr (inl same) ↦ elim (Ordering-cases (compare k r.record_key)) [
    | inl less ↦ inr (path_by_compare u r.updated_at same, less)
    | inr (inl e) ↦ ground (arith, same, e)
    | inr (inr g) ↦ ground (arith, same, g)
  ]
]

is_after_complete : (u k : String) (r : Record) → IsBehind u k r → is_after u k r ≡ true
unfolding is_after
is_after_complete u k r (inl below) = rw (is_after, below) refl
is_after_complete u k r (inr (same, less)) =
    rw (is_after, ap (compare u) (sym same) ∙ compare_refl u) (rw less refl)

abbrev pub IsAfter : Record → Record → Type 0
IsAfter a b = is_after a.updated_at a.record_key b ≡ true

IsBehind-trans :
    (u k : String) (b c : Record)
    → IsBehind u k b
    → IsBehind b.updated_at b.record_key c
    → IsBehind u k c
IsBehind-trans u k b c (inl p) (inl q) = inl (compare_trans u b.updated_at c.updated_at p q)
IsBehind-trans u k b c (inl p) (inr (e, q)) = inl (rw (sym e) p)
IsBehind-trans u k b c (inr (e, p)) (inl q) = inl (rw e q)
IsBehind-trans u k b c (inr (e, p)) (inr (f, q)) =
    inr (e ∙ f, compare_trans k b.record_key c.record_key p q)

pub is_after_trans :
    (u k : String) (b c : Record) → is_after u k b ≡ true → IsAfter b c → is_after u k c ≡ true
is_after_trans u k b c p q =
    is_after_complete u k c (
      IsBehind-trans u k b c (is_after_sound u k b p)
        (is_after_sound b.updated_at b.record_key c q))

is_after_total :
    (a b : Record)
    → a.record_key ≢ b.record_key
    → is_after a.updated_at a.record_key b ≡ false
    → IsAfter b a
is_after_total a b ne h = elim (Ordering-cases (compare a.updated_at b.updated_at)) [
  | inl below ↦ cc (is_after_complete a.updated_at a.record_key b (inl below))
  | inr (inr above) ↦
      is_after_complete b.updated_at b.record_key a
        (inl (compare_flip a.updated_at b.updated_at above))
  | inr (inl same) ↦
      let e = path_by_compare a.updated_at b.updated_at same in
      elim (Ordering-cases (compare a.record_key b.record_key)) [
        | inl less ↦ cc (is_after_complete a.updated_at a.record_key b (inr (e, less)))
        | inr (inl k) ↦ absurd (ne (path_by_compare a.record_key b.record_key k))
        | inr (inr g) ↦
            is_after_complete b.updated_at b.record_key a
              (inr (sym e, compare_flip a.record_key b.record_key g))
      ]
]

pub is_after_irrefl : (a : Record) → is_after a.updated_at a.record_key a ≡ false
unfolding is_after
is_after_irrefl a = rw (is_after, compare_refl a.updated_at) (rw (compare_refl a.record_key) refl)

pub is_after_asym : (a b : Record) → IsAfter a b → is_after b.updated_at b.record_key a ≡ false
is_after_asym a b h = elim (Bool-cases (is_after b.updated_at b.record_key a)) [
  | inr f ↦ f
  | inl t ↦ cc (is_after_trans a.updated_at a.record_key b a h t, is_after_irrefl a)
]

-- Each record is behind the one before.
abbrev pub IsStrict : List Record → Type 0
IsStrict [] = Unit
IsStrict (a ∷ l) = All (IsAfter a) l × IsStrict l

All-insert_record :
    (P : Record → Type 0) (r : Record) (l : List Record) → P r → All P l → All P (insert_record r l)
unfolding insert_record
All-insert_record P r [] p h = (p, tt)
All-insert_record P r (s ∷ l) p (q, h) = elim (Bool-cases (is_after s.updated_at s.record_key r)) [
  | inl later ↦ rw later (q, All-insert_record P r l p h)
  | inr first ↦ rw first (p, (q, h))
]

insert_record-IsStrict :
    (r : Record) (l : List Record)
    → IsStrict l
    → All (λ s. s.record_key ≢ r.record_key) l
    → IsStrict (insert_record r l)
unfolding insert_record
insert_record-IsStrict r [] h ne = (tt, tt)
insert_record-IsStrict r (s ∷ l) (a, h) (n, ne) =
    elim (Bool-cases (is_after s.updated_at s.record_key r)) [
      | inl later ↦
          rw later (All-insert_record (IsAfter s) r l later a, insert_record-IsStrict r l h ne)
      | inr first ↦
          let before = is_after_total s r n first in
          rw first (
            (before, All-map (IsAfter s) (IsAfter r) l (λ c q. is_after_trans _ _ s c before q) a),
            (a, h),
          )
    ]

-- the row of a key as a record
in_order-keys :
    (k : String) (rows : BTreeMap Stored)
    → IsBelow k rows
    → All (λ s. s.record_key ≢ k) (in_order rows)
unfolding in_order
in_order-keys k [] h = tt
in_order-keys k ((j, row) ∷ rows) (below, h) =
    All-insert_record (λ s. s.record_key ≢ k) _ (in_order rows)
      (λ e. compare_lt-ne k j below (sym e)) (in_order-keys k rows h)

pub in_order-IsStrict : (rows : BTreeMap Stored) → IsSorted rows → IsStrict (in_order rows)
unfolding in_order
in_order-IsStrict [] h = tt
in_order-IsStrict ((k, row) ∷ rows) (below, h) =
    insert_record-IsStrict _ (in_order rows) (in_order-IsStrict rows h) (in_order-keys k rows below)
