-- ===== src/Security/Nonce/Store.antt =====
-- `verify_and_store_nonce`: when it accepts, and the store that it leaves.
use mathlib.Core.Path.{subst}
use oan_protocol_common.Base.{
  String, ◌≡◌, ap, ◌∙◌, true, false, Option, none, some, [], string_eq, Bool-cases, Option-cases,
  Result-cases, inl, inr, Result, ok, err,
}
use oan_protocol_common.Base.Int.{ℤ, ◌-ℤ◌}
use oan_protocol_common.BTreeMap.{BTreeMap, get, insert, IsSorted}
use oan_protocol_common.BTreeMap.Laws.{keep_if}
use oan_protocol_common.Security.Error.{
  SecurityError, invalid_nonce_store, trusted_upstream_nonce_replayed,
}
use oan_protocol_common.Chrono.{Time, seconds}
use oan_protocol_common.Security.Nonce.{
  NonceFile, missing, unreadable, holding, Outside, read_store, verify_and_store_nonce,
  accept_nonce, prune_nonce_store, live, is_live,
}

-- What deserialising a `BTreeMap` gives for nothing.
abbrev pub IsWellFormed : NonceFile → Type 0
IsWellFormed missing = Unit
IsWellFormed unreadable = Unit
IsWellFormed (holding s) = IsSorted s.nonces

pub read_store-IsSorted :
    (file : NonceFile) (m : BTreeMap Time) → IsWellFormed file → read_store file ≡ ok m → IsSorted m
unfolding read_store
read_store-IsSorted missing m w h = let e : [] ≡ m = cc in subst IsSorted e tt
read_store-IsSorted unreadable m w h = cc
read_store-IsSorted (holding s) m w h = let e : s.nonces ≡ m = cc in subst IsSorted e w

-- The times that a call no longer keeps are those before it.
abbrev pub cutoff : Time → ℤ → Time
cutoff now ttl = now -ℤ seconds ttl

-- the store after a call that accepts
abbrev pub accepted_store : BTreeMap Time → String → Time → Time → ℤ → BTreeMap Time
accepted_store m nonce seen_at now ttl =
    prune_nonce_store (insert nonce seen_at (live (cutoff now ttl) m)) now ttl 10_000

-- the time at which a nonce was seen, unless that is before the cutoff
abbrev pub remembered : Time → Option Time → Option Time
remembered c o = keep_if (is_live c) o

abbrev reply : Result SecurityError (Unit {0}) × NonceFile → Result SecurityError (Unit {0})
reply r = r.0

abbrev file_left : Result SecurityError (Unit {0}) × NonceFile → NonceFile
file_left r = r.1

module _ (outside : Outside) (file : NonceFile) (nonce : String) (seen_at now : Time)
    (ttl : ℤ) where
  abbrev call : Result SecurityError (Unit {0}) × NonceFile
  call = verify_and_store_nonce outside file nonce seen_at now ttl

  call_poisoned : outside.poisoned ≡ true → call ≡ (err invalid_nonce_store, file)
  unfolding verify_and_store_nonce
  call_poisoned h = rw h

  call_unreadable :
      (e : SecurityError)
      → outside.poisoned ≡ false
      → read_store file ≡ err e
      → call ≡ (err e, file)
  unfolding verify_and_store_nonce
  call_unreadable e h r = rw (h, r)

  module _ (m : BTreeMap Time) (held : read_store file ≡ ok m)
      (sound : outside.poisoned ≡ false) where
    call_read : call ≡ accept_nonce outside file m nonce seen_at now ttl
    unfolding verify_and_store_nonce
    call_read = simp (sound, held)

    -- A nonce that the store remembers is refused, and the file is left as it is.
    pub call_replayed :
        (t : Time)
        → get nonce (live (cutoff now ttl) m) ≡ some t
        → call ≡ (err trusted_upstream_nonce_replayed, file)
    unfolding accept_nonce
    call_replayed t g = call_read ∙ simp g

    pub call_accepted :
        get nonce (live (cutoff now ttl) m) ≡ none
        → outside.write_failure ≡ none
        → call ≡ (ok tt, holding (record { nonces = accepted_store m nonce seen_at now ttl }))
    unfolding accept_nonce
    call_accepted g w = call_read ∙ simp (g, w)

    call_unwritten :
        (left : NonceFile)
        → get nonce (live (cutoff now ttl) m) ≡ none
        → outside.write_failure ≡ some left
        → call ≡ (err invalid_nonce_store, left)
    unfolding accept_nonce
    call_unwritten left g w = call_read ∙ simp (g, w)

  -- A call accepts only from a readable store that does not remember the nonce, with a lock that
  -- is not poisoned and a write that succeeds; it then leaves the pruned store with the nonce
  -- inserted.
  pub call-eq-ok :
      call.0 ≡ ok tt
      → (m : BTreeMap Time) × (read_store file ≡ ok m)
        × (outside.poisoned ≡ false)
        × (outside.write_failure ≡ none)
        × (get nonce (live (cutoff now ttl) m) ≡ none)
        × (call.1 ≡ holding (record { nonces = accepted_store m nonce seen_at now ttl }))
  call-eq-ok h = elim (Bool-cases outside.poisoned) [
    | inl poisoned ↦ cc (ap reply (call_poisoned poisoned))
    | inr sound ↦ elim (Result-cases (read_store file)) [
      | inl (e, r) ↦ cc (ap reply (call_unreadable e sound r))
      | inr (m, held) ↦ elim (Option-cases (get nonce (live (cutoff now ttl) m))) [
        | inr (t, g) ↦ cc (ap reply (call_replayed m held sound t g))
        | inl g ↦ elim (Option-cases outside.write_failure) [
          | inr (left, w) ↦ cc (ap reply (call_unwritten m held sound left g w))
          | inl w ↦ (m, held, sound, w, g, ap file_left (call_accepted m held sound g w))
        ]
      ]
    ]
  ]

  -- An error of a call leaves the file as it was, unless the write is what failed.
  pub call-eq-err :
      (e : SecurityError) → call.0 ≡ err e → outside.write_failure ≡ none → call.1 ≡ file
  call-eq-err e h w = elim (Bool-cases outside.poisoned) [
    | inl poisoned ↦ ap file_left (call_poisoned poisoned)
    | inr sound ↦ elim (Result-cases (read_store file)) [
      | inl (e', r) ↦ ap file_left (call_unreadable e' sound r)
      | inr (m, held) ↦ elim (Option-cases (get nonce (live (cutoff now ttl) m))) [
        | inr (t, g) ↦ ap file_left (call_replayed m held sound t g)
        | inl g ↦ cc (ap reply (call_accepted m held sound g w))
      ]
    ]
  ]
