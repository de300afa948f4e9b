-- ===== src/Tests/Nonces.antt =====
-- Requests against a store of nonces (crates/oan-service-security/src/lib.rs).
use oan_protocol_common.Base.{
  arith, ℕ, ◌+◌, ◌*◌, ◌≤◌, ◌<◌, String, ◌≡◌, ◌↔◌, refl, false, none, some, [], ◌∷◌, ok, err, length,
  leb→le, if◌then◌else◌, ◌==◌, string_eq,
}
use oan_protocol_common.Base.Int.{ℤ, pos, ◌-ℤ◌, ◌≤ℤ◌, pos_part, neg_part}
use oan_protocol_common.BTreeMap.{BTreeMap, get, insert, remove, IsSorted}
use oan_protocol_common.Security.Error.{
  trusted_upstream_nonce_replayed, trusted_upstream_timestamp_stale,
}
use oan_protocol_common.Chrono.{Time, seconds, nanos}
use oan_protocol_common.Security.Time.{verify_freshness}
use oan_protocol_common.Security.Nonce.{
  NonceFile, missing, Outside, read_store, verify_and_store_nonce, accept_nonce, prune_nonce_store,
  evict, sort_by_time, remove_each,
}
use oan_protocol_common.Security.Nonce.Store.{cutoff, remembered}
use oan_protocol_common.Security.Nonce.Memory.{stored_bounds, store_refines}
use oan_protocol_common.Security.Nonce.History.{Call, perform, run}
use oan_protocol_common.Security.Nonce.Replay.{no_replay, replay_window}

abbrev pub calm : Outside
calm = record { poisoned = false; write_failure = none }

abbrev call_at : String → Time → Time → Call
call_at nonce seen_at now = record { outside = calm; nonce = nonce; seen_at = seen_at; now = now }

-- times in seconds, with a time to live of 300 seconds
abbrev pub at : ℕ → Time
at n = pos (n * nanos)

abbrev ttl : ℤ
ttl = pos 300

abbrev first_call : Call
first_call = call_at "n-1" (at 1000) (at 1001)

first_accepted : (perform ttl missing first_call).0 ≡ ok tt
unfolding verify_and_store_nonce read_store accept_nonce prune_nonce_store evict get insert seconds
first_accepted = refl

no_replay_example :
    perform ttl
      (run ttl (perform ttl missing first_call).1 (call_at "n-2" (at 1100) (at 1101) ∷ []))
      (call_at "n-1" (at 1200) (at 1200))
    ≡ (
      err trusted_upstream_nonce_replayed,
      run ttl (perform ttl missing first_call).1 (call_at "n-2" (at 1100) (at 1101) ∷ []),
    )
unfolding read_store seconds ◌-ℤ◌
no_replay_example =
    no_replay ttl missing first_call (call_at "n-1" (at 1200) (at 1200))
      (call_at "n-2" (at 1100) (at 1101) ∷ []) [] tt refl (leb→le 2 10_000 refl) first_accepted
      (omega arith) ((refl, omega arith), tt) refl refl (refl, omega arith)

abbrev late_call : Call
late_call = call_at "n-1" (at 1000) (pos (1300 * nanos + 1))

late_accepted : (perform ttl missing late_call).0 ≡ ok tt
unfolding verify_and_store_nonce read_store accept_nonce prune_nonce_store evict get insert seconds
late_accepted = refl

replay_window_example :
    ((verify_freshness (at 1000) (pos (1300 * nanos + 1)) (pos 300) trusted_upstream_timestamp_stale
        ≡ ok tt)
      × ((perform ttl (perform ttl missing late_call).1 late_call).0 ≡ ok tt))
    ↔ ((neg_part (pos (1300 * nanos + 1) -ℤ at 1000) ≡ 0)
        × (300 * nanos < pos_part (pos (1300 * nanos + 1) -ℤ at 1000))
        × (pos_part (pos (1300 * nanos + 1) -ℤ at 1000) ≤ 300 * nanos + 999_999_999))
unfolding read_store
replay_window_example =
    replay_window missing late_call [] 300 trusted_upstream_timestamp_stale tt refl
      (leb→le 1 10_000 refl) late_accepted

abbrev first_file : NonceFile
first_file = (perform ttl missing first_call).1

stored_bounds_example :
    (m : BTreeMap Time) × (read_store first_file ≡ ok m)
    × IsSorted m
    × (length m ≤ 10_000)
    × ((k : String) (t : Time) → get k m ≡ some t → cutoff (at 1001) ttl ≤ℤ t)
stored_bounds_example = stored_bounds calm missing "n-1" (at 1000) (at 1001) ttl tt first_accepted

store_refines_example :
    (m : BTreeMap Time) × (read_store first_file ≡ ok m)
    × ((k : String)
        → get k m
          ≡ remembered (cutoff (at 1001) ttl) (if "n-1" == k then some (at 1000) else get {0} k []))
unfolding read_store
store_refines_example =
    store_refines calm missing "n-1" (at 1000) (at 1001) ttl tt first_accepted [] refl
      (leb→le 1 10_000 refl)

again_refused : (perform ttl first_file first_call).0 ≡ err trusted_upstream_nonce_replayed
unfolding verify_and_store_nonce read_store accept_nonce prune_nonce_store evict get insert seconds
    ◌-ℤ◌
again_refused = refl

abbrev three_nonces : BTreeMap Time
three_nonces = ("a", at 30) ∷ ("b", at 10) ∷ ("c", at 20) ∷ []

three_IsSorted : IsSorted three_nonces
three_IsSorted = ((refl, (refl, tt)), ((refl, tt), (tt, tt)))

b_evicted : get "b" (evict 2 three_nonces) ≡ none
unfolding evict get sort_by_time remove_each remove
b_evicted = refl

c_left : get "c" (evict 2 three_nonces) ≡ some (at 20)
unfolding evict get sort_by_time remove_each remove
c_left = refl
