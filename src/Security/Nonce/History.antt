-- ===== src/Security/Nonce/History.antt =====
-- Histories of calls on the path of one nonce store.
use mathlib.Core.Path.{subst}
use oan_protocol_common.Base.{
  ℕ, suc, ◌+◌, ◌≤◌, ◌<◌, String, ◌≡◌, refl, sym, ap, ◌∙◌, false, none, some, List, [], ◌∷◌, arith,
  eq_iff, ◌==◌, string_eq, length, length-retain, All, Result, ok, err, Result-cases, Bool-cases,
  inl, inr,
}
use oan_protocol_common.Base.Int.{ℤ, ◌≤ℤ◌}
use oan_protocol_common.BTreeMap.{BTreeMap, get, IsSorted}
use oan_protocol_common.Security.Error.{SecurityError, trusted_upstream_nonce_replayed}
use oan_protocol_common.Chrono.{Time}
use oan_protocol_common.Security.Nonce.{
  NonceFile, holding, Outside, read_store, verify_and_store_nonce, live, is_live,
}
use oan_protocol_common.Security.Nonce.Store.{
  call-eq-err, IsWellFormed, read_store-IsSorted, cutoff, accepted_store, remembered, call-eq-ok,
  call_replayed,
}
use oan_protocol_common.Security.Nonce.Memory.{
  get-live, candidate, accepted_room, length-candidate, get-candidate, accepted-IsSorted,
}

-- one call on the path of the store
pub record Call : Type 0 where
  pub outside : Outside
  pub nonce : String
  pub seen_at : Time
  pub now : Time

module _ (ttl : ℤ) where
  abbrev pub perform : NonceFile → Call → Result SecurityError (Unit {0}) × NonceFile
  perform file c = verify_and_store_nonce c.outside file c.nonce c.seen_at c.now ttl

  -- the file after the calls, in their order
  pub run : NonceFile → List Call → NonceFile
  run file [] = file
  run file (c ∷ cs) = run (perform file c).1 cs

  -- The file holds a store of at most `size` entries that has the nonce with its time.
  pub record Holds (nonce : String) (t : Time) (size : ℕ) (file : NonceFile) : Type 0 where
    pub store : BTreeMap Time
    pub held : read_store file ≡ ok store
    pub well_formed : IsWellFormed file
    pub within : length store ≤ size
    pub found : get nonce store ≡ some t

  -- The call's write succeeds, if it comes to one, and its cutoff is not after t.
  abbrev pub IsInTime : Time → Call → Type 0
  IsInTime t c = (c.outside.write_failure ≡ none) × (cutoff c.now ttl ≤ℤ t)

  remembered_in_time : (c t : Time) → c ≤ℤ t → remembered c (some t) ≡ some t
  remembered_in_time c t h = ground arith

  module _ {nonce : String} {t : Time} {size : ℕ} {file : NonceFile}
      (h : Holds nonce t size file) where
    live_found : (c : Time) → c ≤ℤ t → get nonce (live c h.store) ≡ some t
    live_found c le =
        get-live c h.store nonce (read_store-IsSorted file h.store h.well_formed h.held)
        ∙ ap (remembered c) h.found
        ∙ remembered_in_time c t le

    -- The nonce is refused.
    pub Holds-refused :
        (c : Call)
        → c.nonce ≡ nonce
        → c.outside.poisoned ≡ false
        → IsInTime t c
        → perform file c ≡ (err trusted_upstream_nonce_replayed, file)
    Holds-refused c same sound (_, le) =
        call_replayed c.outside file c.nonce c.seen_at c.now ttl h.store h.held sound t (
          ap (λ n. get n (live (cutoff c.now ttl) h.store)) same ∙ live_found (cutoff c.now ttl) le)

    Holds-kept : Holds nonce t (suc size) file
    Holds-kept = record {
      store = h.store;
      held = h.held;
      well_formed = h.well_formed;
      within = omega (arith, h.within);
      found = h.found;
    }

    module _ (c : Call) (in_time : IsInTime t c) (room : size < 10_000)
        (new : get c.nonce (live (cutoff c.now ttl) h.store) ≡ none) where
      is_sorted : IsSorted h.store
      is_sorted = read_store-IsSorted file h.store h.well_formed h.held

      abbrev next : BTreeMap Time
      next = accepted_store h.store c.nonce c.seen_at c.now ttl

      next-candidate : next ≡ candidate h.store is_sorted c.nonce c.seen_at c.now ttl
      next-candidate =
          accepted_room h.store is_sorted c.nonce c.seen_at c.now ttl new
            (omega (arith, h.within, length-retain (λ e. is_live (cutoff c.now ttl) e.1) h.store))

      length-next : length next ≤ suc size
      length-next = omega (
        arith,
        ap length next-candidate,
        length-candidate h.store is_sorted c.nonce c.seen_at c.now ttl new,
        length-retain (λ e. is_live (cutoff c.now ttl) e.1) h.store,
        h.within,
      )

      other_nonce : (c.nonce == nonce) ≡ false
      other_nonce = elim (Bool-cases (c.nonce == nonce)) [
        | inr other ↦ other
        | inl same ↦
            let e : c.nonce ≡ nonce = (eq_iff c.nonce nonce).0 same in
            cc (
              ap (λ n. get n (live (cutoff c.now ttl) h.store)) e,
              live_found (cutoff c.now ttl) in_time.1,
            )
      ]

      get-next : get nonce next ≡ some t
      get-next =
          ap (get nonce) next-candidate
          ∙ get-candidate h.store is_sorted c.nonce c.seen_at c.now ttl nonce
          ∙ ground (arith, other_nonce, h.found, in_time.1)

      Holds-next :
          (f : NonceFile) → f ≡ holding (record { nonces = next }) → Holds nonce t (suc size) f
      unfolding read_store
      Holds-next f e = subst (Holds nonce t (suc size)) (sym e) (record {
        store = next;
        held = refl;
        well_formed = accepted-IsSorted h.store is_sorted c.nonce c.seen_at c.now ttl;
        within = length-next;
        found = get-next;
      })

    -- A call in time keeps what the file holds, whatever its reply.
    Holds-perform :
        (c : Call) → IsInTime t c → size < 10_000 → Holds nonce t (suc size) (perform file c).1
    Holds-perform c in_time room = elim (Result-cases (perform file c).0) [
      | inl (e, refused) ↦
          subst (Holds nonce t (suc size))
            (sym (call-eq-err c.outside file c.nonce c.seen_at c.now ttl e refused in_time.0))
            Holds-kept
      | inr (_, accepted) ↦
          let (m, held, _, _, new, left) =
            call-eq-ok c.outside file c.nonce c.seen_at c.now ttl accepted in
          let same : m ≡ h.store = cc (held, h.held) in
          Holds-next c in_time room
            (subst (λ x. get c.nonce (live (cutoff c.now ttl) x) ≡ none) same new)
            (perform file c).1
            (left
              ∙ ap (λ x. holding (record { nonces = accepted_store x c.nonce c.seen_at c.now ttl }))
                  same)
    ]

  pub Holds-run :
      {nonce : String} {t : Time} (size : ℕ) (file : NonceFile) (cs : List Call)
      → Holds nonce t size file
      → All (IsInTime t) cs
      → size + length cs ≤ 10_000
      → Holds nonce t (size + length cs) (run file cs)
  unfolding run
  Holds-run {nonce} {t} size file [] h a room = subst (λ n. Holds nonce t n file) (omega arith) h
  Holds-run {nonce} {t} size file (c ∷ cs) h (p, a) room =
      subst (λ n. Holds nonce t n (run (perform file c).1 cs)) (omega arith)
        (Holds-run (suc size) (perform file c).1 cs (Holds-perform h c p (omega arith)) a
          (omega arith))
