-- ===== src/Security/Nonce.antt =====
-- The store of the nonces seen (crates/oan-service-security/src/lib.rs, `NonceStore`,
-- `verify_and_store_nonce` and `prune_nonce_store`).
pub mod Sorted
pub mod Prune
pub mod Store
pub mod Memory
pub mod History
pub mod Replay
use oan_protocol_common.Base.{
  ℕ, ◌-◌, String, Bool, true, false, Option, none, some, List, [], ◌∷◌, Result, ok, err, ◌>>=◌,
  ◌>>◌, if◌then◌else◌, leb, length, take, retain,
}
use oan_protocol_common.Base.Int.{ℤ, ◌-ℤ◌, leb_ℤ}
use oan_protocol_common.BTreeMap
use oan_protocol_common.BTreeMap.{BTreeMap, contains_key, insert, remove}
use oan_protocol_common.Security.Error.{
  SecurityError, invalid_nonce_store, trusted_upstream_nonce_replayed,
}
use oan_protocol_common.Chrono.{Time, seconds}

abbrev default_max_nonce_entries : ℕ
default_max_nonce_entries = 10_000

pub record NonceStore : Type 0 where
  pub nonces : BTreeMap Time

abbrev pub is_live : Time → Time → Bool
is_live cutoff seen_at = leb_ℤ cutoff seen_at

-- `retain(|_, value| *value >= cutoff)`
abbrev pub live : Time → BTreeMap Time → BTreeMap Time
live cutoff m = retain (λ e. is_live cutoff e.1) m

-- `sort_by_key(|(_, seen_at)| *seen_at)`, which is stable
unfoldable pub insert_by_time : String × Time → List (String × Time) → List (String × Time)
insert_by_time e [] = e ∷ []
insert_by_time e (f ∷ l) =
    let later = f ∷ insert_by_time e l in if leb_ℤ e.1 f.1 then e ∷ f ∷ l else later

unfoldable pub sort_by_time : List (String × Time) → List (String × Time)
unfolding insert_by_time
sort_by_time [] = []
sort_by_time (e ∷ l) = insert_by_time e (sort_by_time l)

-- the loop that removes the stale nonces
unfoldable pub remove_each : List (String × Time) → BTreeMap Time → BTreeMap Time
remove_each [] m = m
remove_each ((stale_nonce, _) ∷ l) m = remove_each l (remove stale_nonce m)

-- `prune_nonce_store` behind its `retain`
unfoldable pub evict : ℕ → BTreeMap Time → BTreeMap Time
unfolding sort_by_time remove_each
evict max_entries m =
    if leb (length m) max_entries
    then m
    else remove_each (take (length m - max_entries) (sort_by_time m)) m

unfoldable pub prune_nonce_store : BTreeMap Time → Time → ℤ → ℕ → BTreeMap Time
prune_nonce_store m now ttl_seconds max_entries =
    evict max_entries (live (now -ℤ seconds ttl_seconds) m)

-- What the path of the store holds: no file, one that is no store, or a store.
pub data NonceFile : Type 0 where
  missing : NonceFile
  unreadable : NonceFile
  holding : NonceStore → NonceFile

unfoldable pub read_store : NonceFile → Result SecurityError (BTreeMap Time)
read_store missing = ok []
read_store unreadable = err invalid_nonce_store
read_store (holding s) = ok s.nonces

-- What the system does during a call: whether the lock is poisoned, and, if the write fails, what it
-- leaves at the path.
pub record Outside : Type 0 where
  pub poisoned : Bool
  pub write_failure : Option NonceFile

abbrev written : Option NonceFile → NonceFile → Result SecurityError (Unit {0}) × NonceFile
written none new = (ok tt, new)
written (some left) new = (err invalid_nonce_store, left)

abbrev write_store : Outside → BTreeMap Time → Result SecurityError (Unit {0}) × NonceFile
write_store outside m = written outside.write_failure (holding (record { nonces = m }))

-- `verify_and_store_nonce` from the store that it has read
unfoldable pub accept_nonce :
    Outside
    → NonceFile
    → BTreeMap Time
    → String
    → Time
    → Time
    → ℤ
    → Result SecurityError (Unit {0}) × NonceFile
accept_nonce outside file nonces nonce seen_at now ttl_seconds =
    let kept = live (now -ℤ seconds ttl_seconds) nonces in
    if contains_key nonce kept
    then (err trusted_upstream_nonce_replayed, file)
    else write_store outside
        (prune_nonce_store (insert nonce seen_at kept) now ttl_seconds default_max_nonce_entries)

-- Calls on one path are made one at a time, by the lock of the path: a call takes the file and
-- returns it as it leaves it.
unfoldable pub verify_and_store_nonce :
    Outside → NonceFile → String → Time → Time → ℤ → Result SecurityError (Unit {0}) × NonceFile
verify_and_store_nonce outside file nonce seen_at now ttl_seconds =
    if outside.poisoned then (err invalid_nonce_store, file) else elim (read_store file) [
      | err e ↦ (err e, file)
      | ok nonces ↦ accept_nonce outside file nonces nonce seen_at now ttl_seconds
    ]
