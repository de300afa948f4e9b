-- ===== src/Bulletin/Chain.antt =====
-- An accepted bulletin: its numbers, its links, its hashes and its signatures.
use oan_protocol_common.Base.{
  ℕ, ◌+◌, String, ◌≡◌, ◌↔◌, refl, false, Option, none, some, List, [], ◌∷◌, arith, eq_iff, nat_eq,
  ◌!=◌, string_eq, option_eq, option_beq_iff, ok, fail_if-eq-ok, >>=-eq-ok, Result, err, map_err,
  if◌then◌else◌, not, is_some, ◌&&◌,
}
use oan_protocol_common.Core.Suite.{CryptoSuite}
use oan_protocol_common.Core.Document.{DataIntegrityProof}
use oan_protocol_common.Crypto.Primitives.{Primitives}
use oan_protocol_common.Crypto.Keys.{CryptoError, VerifyingKey}
use oan_protocol_common.Crypto.Signatures.{
  signature_input, verify_bytes, verify_bytes_multibase, verify_payload_with_proof,
}
use oan_protocol_common.Bulletin.{
  BulletinEvent, Bulletin, BulletinError, Formats, suite_of_event, hash_payload, hash_core,
  verify_signature, verify_event, verify_from, verify_hash_chain, sequence_mismatch,
  previous_hash_mismatch, event_hash_mismatch, signature_mismatch,
}

map_err-eq-ok :
    (m : Result CryptoError (Unit {0})) (e : BulletinError) → (map_err m e ≡ ok tt) ↔ (m ≡ ok tt)
map_err-eq-ok (ok tt) e = (λ h. refl, λ h. refl)
map_err-eq-ok (err d) e = (λ h. cc, λ h. cc)

same_number : (a b : ℕ) → ((a != b) ≡ false) ↔ (a ≡ b)
same_number a b = ground arith

same_link : (a b : Option String) → ((a != b) ≡ false) ↔ (a ≡ b)
same_link a b = ground (arith, option_beq_iff a b)

same_hash : (a b : String) → ((a != b) ≡ false) ↔ (a ≡ b)
same_hash a b = ground (arith, eq_iff a b)

module _ (primitives : Primitives) (formats : Formats) (root_key : VerifyingKey) where
  -- The proof has the signature of the root key on the event's hash: over the input of the event's
  -- suite when neither the event nor the proof names one, else by the suite of the proof.
  abbrev IsProven :
      BulletinEvent → DataIntegrityProof → Option CryptoSuite → Option CryptoSuite → Type 0
  IsProven event proof none none =
      verify_bytes_multibase primitives root_key
        (signature_input primitives (suite_of_event event) (hash_payload event.event_hash))
        proof.proof_value
      ≡ ok tt
  IsProven event proof none (some suite) =
      verify_payload_with_proof primitives (hash_payload event.event_hash) proof root_key ≡ ok tt
  IsProven event proof (some suite) _ =
      verify_payload_with_proof primitives (hash_payload event.event_hash) proof root_key ≡ ok tt

  -- The event's hash is signed by the root key: in its proof, or without one in its signature.
  abbrev pub IsSigned : BulletinEvent → Option DataIntegrityProof → Type 0
  IsSigned event none =
      verify_bytes primitives root_key
        (signature_input primitives (suite_of_event event) (hash_payload event.event_hash))
        event.signature
      ≡ ok tt
  IsSigned event (some proof) = IsProven event proof proof.crypto_suite event.crypto_suite

  -- The events from an index on, behind a hash: numbered on, each with the hash of the one before,
  -- with the hash of its own core, and signed.
  abbrev pub IsChain : ℕ → Option String → List BulletinEvent → Type 0
  IsChain index previous [] = Unit
  IsChain index previous (event ∷ events) =
      (event.core.sequence ≡ index + 1)
      × (event.core.previous_hash ≡ previous)
      × (hash_core primitives formats (suite_of_event event) event.core ≡ event.event_hash)
      × IsSigned event event.proof
      × IsChain (index + 1) (some event.event_hash) events

  IsProven-iff :
      (event : BulletinEvent) (proof : DataIntegrityProof) (o p : Option CryptoSuite)
      → ((if not (is_some o) && not (is_some p)
            then map_err
                (verify_bytes_multibase primitives root_key
                  (signature_input primitives
                    (suite_of_event event)
                    (hash_payload event.event_hash))
                  proof.proof_value)
                (signature_mismatch event.core.sequence)
            else map_err
                (verify_payload_with_proof primitives
                  (hash_payload event.event_hash)
                  proof
                  root_key)
                (signature_mismatch event.core.sequence))
          ≡ ok tt)
        ↔ IsProven event proof o p
  IsProven-iff event proof none none = map_err-eq-ok _ _
  IsProven-iff event proof none (some suite) = map_err-eq-ok _ _
  IsProven-iff event proof (some suite) p = map_err-eq-ok _ _

  IsSigned-iff :
      (event : BulletinEvent) (proof : Option DataIntegrityProof)
      → (verify_signature primitives root_key event proof ≡ ok tt) ↔ IsSigned event proof
  unfolding verify_signature
  IsSigned-iff event none = map_err-eq-ok _ _
  IsSigned-iff event (some proof) = IsProven-iff event proof proof.crypto_suite event.crypto_suite

  -- The event is right behind the index and the hash.
  abbrev IsNext : ℕ → Option String → BulletinEvent → Type 0
  IsNext index previous event =
      (event.core.sequence ≡ index + 1)
      × (event.core.previous_hash ≡ previous)
      × (hash_core primitives formats (suite_of_event event) event.core ≡ event.event_hash)
      × IsSigned event event.proof

  pub verify_event_iff :
      (index : ℕ) (previous : Option String) (event : BulletinEvent)
      → (verify_event primitives formats root_key index previous event ≡ ok tt)
        ↔ IsNext index previous event
  unfolding verify_event
  verify_event_iff index previous event =
      let sequence = event.core.sequence in
      let numbered = fail_if-eq-ok _ (sequence_mismatch index (index + 1) sequence) _ tt in
      let linked = fail_if-eq-ok _ (previous_hash_mismatch sequence) _ tt in
      let hashed = fail_if-eq-ok _ (event_hash_mismatch sequence) _ tt in
      (
        λ h.
            let (number, h1) = numbered.0 h in
            let (link, h2) = linked.0 h1 in
            let (hash, signed) = hashed.0 h2 in
            (
              (same_number _ _).0 number,
              (same_link _ _).0 link,
              (same_hash _ _).0 hash,
              (IsSigned-iff event event.proof).0 signed,
            ),
        λ (number, link, hash, signed). numbered.1 (
          (same_number _ _).1 number,
          linked.1 (
            (same_link _ _).1 link,
            hashed.1 ((same_hash _ _).1 hash, (IsSigned-iff event event.proof).1 signed),
          ),
        ),
      )

  IsChain-iff :
      (index : ℕ) (previous : Option String) (events : List BulletinEvent)
      → (verify_from primitives formats root_key index previous events ≡ ok tt)
        ↔ IsChain index previous events
  unfolding verify_from
  IsChain-iff index previous [] = (λ h. tt, λ c. refl)
  IsChain-iff index previous (event ∷ events) = (
    λ h.
        let (_, checked, rest) =
          >>=-eq-ok (verify_event primitives formats root_key index previous event) _ {b = tt} h in
        let (number, link, hash, signed) = (verify_event_iff index previous event).0 checked in
        (
          number,
          link,
          hash,
          signed,
          (IsChain-iff (index + 1) (some event.event_hash) events).0 rest,
        ),
    λ (number, link, hash, signed, rest).
        rw ((verify_event_iff index previous event).1 (number, link, hash, signed))
          ((IsChain-iff (index + 1) (some event.event_hash) events).1 rest),
  )

  -- A bulletin is accepted by `verify_hash_chain` exactly when it is numbered from 1 on, each
  -- event has the hash of the one before, the first none, and the hash of its own core, and each
  -- event is signed by the root key.
  pub verify_hash_chain_iff :
      (bulletin : Bulletin)
      → (verify_hash_chain primitives formats bulletin root_key ≡ ok tt)
        ↔ IsChain 0 none bulletin.events
  unfolding verify_hash_chain
  verify_hash_chain_iff bulletin = IsChain-iff 0 none bulletin.events
