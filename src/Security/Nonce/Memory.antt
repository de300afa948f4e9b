-- ===== src/Security/Nonce/Memory.antt =====
-- The store after a call, as a map from nonces to times.
use mathlib.Core.Path.{subst}
use oan_protocol_common.Base.{
  suc, ◌≤◌, ◌<◌, String, ◌≡◌, refl, sym, ap, ◌∙◌, Option, none, some, arith, ◌==◌, string_eq,
  if◌then◌else◌, length, length-retain, ok,
}
use oan_protocol_common.Base.Int.{ℤ, ◌≤ℤ◌}
use oan_protocol_common.BTreeMap.{BTreeMap, get, insert, IsSorted}
use oan_protocol_common.BTreeMap.Laws.{get-insert, get-retain, insert-IsSorted, retain-IsSorted}
use oan_protocol_common.BTreeMap.Length.{length-insert_new}
use oan_protocol_common.Chrono.{Time}
use oan_protocol_common.Security.Nonce.{
  NonceFile, Outside, read_store, verify_and_store_nonce, prune_nonce_store, live, is_live, evict,
}
use oan_protocol_common.Security.Nonce.Prune.{
  evict-IsSorted, length-evict, evict_within, get-evict, evict_oldest,
}
use oan_protocol_common.Security.Nonce.Store.{
  IsWellFormed, read_store-IsSorted, cutoff, accepted_store, remembered, call-eq-ok,
}

-- What a lookup finds in the store is remembered at the store's cutoff.
pub get-live :
    (c : Time) (m : BTreeMap Time) (k : String)
    → IsSorted m
    → get k (live c m) ≡ remembered c (get k m)
get-live c m k s = get-retain (is_live c) k m s

module _ (m : BTreeMap Time) (s : IsSorted m) (nonce : String) (seen_at now : Time) (ttl : ℤ) where
  abbrev pub kept : BTreeMap Time
  kept = live (cutoff now ttl) m

  -- the store before the eviction
  abbrev pub candidate : BTreeMap Time
  candidate = live (cutoff now ttl) (insert nonce seen_at kept)

  candidate-IsSorted : IsSorted candidate
  candidate-IsSorted =
      retain-IsSorted _ _ (insert-IsSorted nonce seen_at kept (retain-IsSorted _ m s))

  accepted-evict : accepted_store m nonce seen_at now ttl ≡ evict 10_000 candidate
  unfolding prune_nonce_store
  accepted-evict = refl

  pub get-candidate :
      (k : String)
      → get k candidate ≡ remembered (cutoff now ttl) (if nonce == k then some seen_at else get k m)
  get-candidate k =
      get-live (cutoff now ttl) (insert nonce seen_at kept) k
        (insert-IsSorted nonce seen_at kept (retain-IsSorted _ m s))
      ∙ ground (arith, get-insert nonce k seen_at kept, get-live (cutoff now ttl) m k s)

  pub accepted-IsSorted : IsSorted (accepted_store m nonce seen_at now ttl)
  accepted-IsSorted = rw accepted-evict (evict-IsSorted 10_000 candidate candidate-IsSorted)

  length-accepted : length (accepted_store m nonce seen_at now ttl) ≤ 10_000
  length-accepted = rw accepted-evict (length-evict 10_000 candidate candidate-IsSorted).0

  pub length-candidate : get nonce kept ≡ none → length candidate ≤ suc (length kept)
  length-candidate new = omega (
    arith,
    length-retain (λ e. is_live (cutoff now ttl) e.1) (insert nonce seen_at kept),
    length-insert_new nonce seen_at kept new,
  )

  pub accepted_room :
      get nonce kept ≡ none
      → length kept < 10_000
      → accepted_store m nonce seen_at now ttl ≡ candidate
  accepted_room new room =
      accepted-evict ∙ evict_within 10_000 candidate (omega (arith, length-candidate new))

  remembered-live : (c : Time) (o : Option Time) (t : Time) → remembered c o ≡ some t → c ≤ℤ t
  remembered-live c none t h = cc
  remembered-live c (some v) t h = ground arith

  accepted-live :
      (k : String) (t : Time)
      → get k (accepted_store m nonce seen_at now ttl) ≡ some t
      → cutoff now ttl ≤ℤ t
  accepted-live k t h =
      let found = get-evict 10_000 candidate k t (sym (ap (get k) accepted-evict) ∙ h) in
      remembered-live (cutoff now ttl) _ t (sym (get-candidate k) ∙ found)

module _ (outside : Outside) (file : NonceFile) (nonce : String) (seen_at now : Time) (ttl : ℤ)
    (w : IsWellFormed file)
    (accepted : (verify_and_store_nonce outside file nonce seen_at now ttl).0 ≡ ok tt) where
  abbrev after : NonceFile
  after = (verify_and_store_nonce outside file nonce seen_at now ttl).1

  -- A call that accepts leaves a sorted store of at most 10,000 entries, none of them older than
  -- the time to live.
  pub stored_bounds :
      (m : BTreeMap Time) × (read_store after ≡ ok m)
      × IsSorted m
      × (length m ≤ 10_000)
      × ((k : String) (t : Time) → get k m ≡ some t → cutoff now ttl ≤ℤ t)
  unfolding read_store
  stored_bounds =
      let (m, held, sound, written, new, left) =
        call-eq-ok outside file nonce seen_at now ttl accepted in
      let s = read_store-IsSorted file m w held in
      (
        accepted_store m nonce seen_at now ttl,
        ap read_store left,
        accepted-IsSorted m s nonce seen_at now ttl,
        length-accepted m s nonce seen_at now ttl,
        accepted-live m s nonce seen_at now ttl,
      )

  -- While fewer than 10,000 nonces are live, a call that accepts changes the store as a map
  -- exactly by adding its nonce and by forgetting what is older than the time to live.
  pub store_refines :
      (m : BTreeMap Time)
      → read_store file ≡ ok m
      → length (live (cutoff now ttl) m) < 10_000
      → (m' : BTreeMap Time) × (read_store after ≡ ok m')
        × ((k : String)
            → get k m' ≡ remembered (cutoff now ttl) (if nonce == k then some seen_at else get k m))
  unfolding read_store
  store_refines m held room =
      let (n, held', sound, written, new, left) =
        call-eq-ok outside file nonce seen_at now ttl accepted in
      let same : n ≡ m = cc in
      let s = read_store-IsSorted file m w held in
      let new' : get nonce (live (cutoff now ttl) m) ≡ none =
        subst (λ x. get nonce (live (cutoff now ttl) x) ≡ none) same new in
      (
        accepted_store m nonce seen_at now ttl,
        ap read_store left ∙ ap (λ x. ok (accepted_store x nonce seen_at now ttl)) same,
        λ k.
            ap (get k) (accepted_room m s nonce seen_at now ttl new' room)
            ∙ get-candidate m s nonce seen_at now ttl k,
      )

  -- When the store is full, what a call forgets of the nonces that are still live, its own among
  -- them, is no later than what it keeps.
  forgets_oldest :
      (m : BTreeMap Time)
      → read_store file ≡ ok m
      → (m' : BTreeMap Time) → read_store after ≡ ok m'
      → (k j : String) (t u : Time)
      → remembered (cutoff now ttl) (if nonce == k then some seen_at else get k m) ≡ some t
      → get k m' ≡ none
      → get j m' ≡ some u
      → t ≤ℤ u
  unfolding read_store
  forgets_oldest m held m' held' k j t u was gone there =
      let (n, held0, sound, written, new, left) =
        call-eq-ok outside file nonce seen_at now ttl accepted in
      let same : n ≡ m = cc in
      let s = read_store-IsSorted file m w held in
      let result : m' ≡ evict 10_000 (candidate m s nonce seen_at now ttl) = cc (
        ap (λ x. accepted_store x nonce seen_at now ttl) same,
        accepted-evict m s nonce seen_at now ttl,
      ) in
      evict_oldest 10_000 (candidate m s nonce seen_at now ttl) k j t u
        (candidate-IsSorted m s nonce seen_at now ttl)
        (get-candidate m s nonce seen_at now ttl k ∙ was) (sym (ap (get k) result) ∙ gone)
        (sym (ap (get j) result) ∙ there)
