-- ===== src/Security/Nonce/Replay.antt =====
-- Replays over a history of calls, and the window in which a replay goes unseen.
use mathlib.Core.Path.{subst}
use oan_protocol_common.Base.{
  ℕ, suc, ◌+◌, ◌*◌, ◌≤◌, ◌<◌, ◌≡◌, ◌↔◌, inl, inr, Bool-cases, refl, sym, ap, ◌∙◌, false, none, List,
  arith, eq_iff, string_eq, length, length-retain, All, Result, ok, err,
}
use oan_protocol_common.Base.Int.{ℤ, pos, ◌-ℤ◌, ◌≤ℤ◌, ◌<ℤ◌, pos_part, neg_part, -ℤ_parts, ltb_ℤ}
use oan_protocol_common.BTreeMap.{BTreeMap, get}
use oan_protocol_common.Security.Error.{SecurityError, trusted_upstream_nonce_replayed}
use oan_protocol_common.Chrono.{Time, seconds, nanos}
use oan_protocol_common.Security.Time.{verify_freshness, verify_freshness_iff}
use oan_protocol_common.Security.Nonce.{NonceFile, read_store, live, is_live}
use oan_protocol_common.Security.Nonce.Store.{
  IsWellFormed, read_store-IsSorted, cutoff, accepted_store, remembered, call-eq-ok, call_accepted,
}
use oan_protocol_common.Security.Nonce.Memory.{
  get-live, store_refines, stored_bounds, accepted_room, length-candidate, get-candidate,
  accepted-IsSorted,
}
use oan_protocol_common.Security.Nonce.History.{
  Call, perform, run, Holds, IsInTime, Holds-run, Holds-refused,
}

module _ (ttl : ℤ) where
  -- What a call that accepts leaves holds the nonce, if the nonce's own time is after the cutoff.
  Holds-accepted :
      (file : NonceFile) (c : Call) (m : BTreeMap Time)
      → IsWellFormed file
      → read_store file ≡ ok m
      → length m < 10_000
      → (perform ttl file c).0 ≡ ok tt
      → cutoff c.now ttl ≤ℤ c.seen_at
      → Holds ttl c.nonce c.seen_at (suc (length m)) (perform ttl file c).1
  unfolding read_store
  Holds-accepted file c m w held room accepted fresh =
      let (n, held', _, _, new, left) =
        call-eq-ok c.outside file c.nonce c.seen_at c.now ttl accepted in
      let same : m ≡ n = cc in
      let s = read_store-IsSorted file n w held' in
      let short : length (live (cutoff c.now ttl) n) ≤ length m =
        omega (arith, length-retain (λ e. is_live (cutoff c.now ttl) e.1) n, ap length same) in
      let next = accepted_room n s c.nonce c.seen_at c.now ttl new (omega (arith, short)) in
      subst (Holds ttl c.nonce c.seen_at (suc (length m))) (sym left) (record {
        store = accepted_store n c.nonce c.seen_at c.now ttl;
        held = refl;
        well_formed = accepted-IsSorted n s c.nonce c.seen_at c.now ttl;
        within =
            omega
              (arith, ap length next, length-candidate n s c.nonce c.seen_at c.now ttl new, short);
        found =
            ap (get c.nonce) next
            ∙ get-candidate n s c.nonce c.seen_at c.now ttl c.nonce
            ∙ ground (arith, eq_iff c.nonce c.nonce, fresh);
      })

  -- After a call that accepts a nonce whose time is in its time to live, every later call with the
  -- same nonce is refused and leaves the file as it is, whatever calls come between, as long as
  -- the nonce's time is not before the cutoff of a call, the writes succeed, the last call's lock
  -- is not poisoned, and the store and the calls together stay within 10,000 nonces.
  pub no_replay :
      (file : NonceFile) (first again : Call) (between : List Call) (m : BTreeMap Time)
      → IsWellFormed file
      → read_store file ≡ ok m
      → length m + 1 + length between ≤ 10_000
      → (perform ttl file first).0 ≡ ok tt
      → cutoff first.now ttl ≤ℤ first.seen_at
      → All (IsInTime ttl first.seen_at) between
      → again.nonce ≡ first.nonce
      → again.outside.poisoned ≡ false
      → IsInTime ttl first.seen_at again
      → perform ttl (run ttl (perform ttl file first).1 between) again
        ≡ (err trusted_upstream_nonce_replayed, run ttl (perform ttl file first).1 between)
  no_replay file first again between m w held room accepted fresh in_time same sound again_in_time =
      let start = Holds-accepted file first m w held (omega arith) accepted fresh in
      let later = Holds-run ttl (suc (length m)) _ between start in_time (omega arith) in
      Holds-refused ttl later again same sound again_in_time

  -- A nonce whose time is already before the cutoff of the call that accepts it, with fewer than
  -- 10,000 nonces stored, is not kept: the same call is accepted again.
  stale_replay :
      (file : NonceFile) (c : Call) (m : BTreeMap Time)
      → IsWellFormed file
      → read_store file ≡ ok m
      → length m < 10_000
      → (perform ttl file c).0 ≡ ok tt
      → c.seen_at <ℤ cutoff c.now ttl
      → (perform ttl (perform ttl file c).1 c).0 ≡ ok tt
  stale_replay file c m w held room accepted stale =
      let (_, _, sound, written, _, _) =
        call-eq-ok c.outside file c.nonce c.seen_at c.now ttl accepted in
      let (n, left, sorted, _, _) =
        stored_bounds c.outside file c.nonce c.seen_at c.now ttl w accepted in
      let (n', left', finds) =
        store_refines c.outside file c.nonce c.seen_at c.now ttl w accepted m held
          (omega (arith, length-retain (λ e. is_live (cutoff c.now ttl) e.1) m)) in
      let same : n' ≡ n = cc in
      let gone : get c.nonce n ≡ none =
        subst (λ x. get c.nonce x ≡ none) same
          (finds c.nonce ∙ ground (arith, eq_iff c.nonce c.nonce, stale)) in
      ap (λ (r : Result SecurityError (Unit {0}) × NonceFile). r.0)
        (call_accepted c.outside (perform ttl file c).1 c.nonce c.seen_at c.now ttl n left sound
          (get-live (cutoff c.now ttl) n c.nonce sorted ∙ ap (remembered (cutoff c.now ttl)) gone)
          written)

-- how a time that is before the cutoff lies to now
stale_iff :
    (seen_at now : Time) (s : ℕ)
    → (seen_at <ℤ cutoff now (pos s))
      ↔ ((neg_part (now -ℤ seen_at) ≡ 0) × (s * nanos < pos_part (now -ℤ seen_at)))
unfolding seconds
stale_iff seen_at now s = ground (arith, -ℤ_parts now seen_at, -ℤ_parts now (pos (s * nanos)))

-- A call whose time is not before the cutoff is refused when it is made again.
made_again :
    (ttl : ℤ) (file : NonceFile) (c : Call) (m : BTreeMap Time)
    → IsWellFormed file
    → read_store file ≡ ok m
    → length m < 10_000
    → (perform ttl file c).0 ≡ ok tt
    → cutoff c.now ttl ≤ℤ c.seen_at
    → (perform ttl (perform ttl file c).1 c).0 ≡ err trusted_upstream_nonce_replayed
made_again ttl file c m w held room accepted fresh =
    let (_, _, sound, written, _, _) =
      call-eq-ok c.outside file c.nonce c.seen_at c.now ttl accepted in
    ap (λ (r : Result SecurityError (Unit {0}) × NonceFile). r.0)
      (Holds-refused ttl (Holds-accepted ttl file c m w held room accepted fresh) c refl sound
        (written, fresh))

-- With s seconds for the clock skew and for the time to live, and fewer than 10,000 nonces stored,
-- a call that the nonce store accepts is accepted again when the same call is made again, and its
-- time passes `verify_freshness`, exactly when that time is more than s seconds and less than s +
-- 1 seconds ago.
pub replay_window :
    (file : NonceFile) (c : Call) (m : BTreeMap Time) (s : ℕ) (code : SecurityError)
    → IsWellFormed file
    → read_store file ≡ ok m
    → length m < 10_000
    → (perform (pos s) file c).0 ≡ ok tt
    → ((verify_freshness c.seen_at c.now (pos s) code ≡ ok tt)
        × ((perform (pos s) (perform (pos s) file c).1 c).0 ≡ ok tt))
      ↔ ((neg_part (c.now -ℤ c.seen_at) ≡ 0)
          × (s * nanos < pos_part (c.now -ℤ c.seen_at))
          × (pos_part (c.now -ℤ c.seen_at) ≤ s * nanos + 999_999_999))
replay_window file c m s code w held room accepted = (
  λ (fresh, again). elim (Bool-cases (ltb_ℤ c.seen_at (cutoff c.now (pos s)))) [
    | inl stale ↦
        let (past, more) = (stale_iff c.seen_at c.now s).0 (ground arith) in
        (past, more, omega (arith, (verify_freshness_iff c.seen_at c.now s code).0 fresh))
    | inr kept ↦ cc (made_again (pos s) file c m w held room accepted (ground (arith, kept)), again)
  ],
  λ (past, more, less). (
    (verify_freshness_iff c.seen_at c.now s code).1 (omega arith),
    stale_replay (pos s) file c m w held room accepted
        ((stale_iff c.seen_at c.now s).1 (past, more)),
  ),
)
