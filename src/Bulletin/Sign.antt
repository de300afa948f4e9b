-- ===== src/Bulletin/Sign.antt =====
-- A signed event is the next one of the chain.
use oan_protocol_common.Base.{ℕ, ◌+◌, String, ◌≡◌, refl, Option, some, ok}
use Prim.Native.String.{◌++◌ as ◌+s+◌}
use oan_protocol_common.Chrono.{Time}
use oan_protocol_common.Crypto.Primitives.{Primitives}
use oan_protocol_common.Crypto.Keys.{SigningKey, verifying_key, suite_of_signing_key}
use oan_protocol_common.Crypto.Signatures.Verify.{
  Signs, built, build_data_integrity_proof_lem, built_verifies,
}
use oan_protocol_common.Core.Suite.{hash_algorithm}
use oan_protocol_common.Bulletin.{
  BulletinEventCore, BulletinEvent, Formats, suite_of_event, hash_payload, hash_core, sign,
  verify_event,
}
use oan_protocol_common.Bulletin.Chain.{verify_event_iff}

module _ (primitives : Primitives) (formats : Formats) (signs : Signs primitives) where
  -- the event that `sign` makes
  abbrev signed : Time → BulletinEventCore → SigningKey → BulletinEvent
  signed now core key =
      let suite = suite_of_signing_key key in
      let event_hash = hash_core primitives formats suite core in
      let proof =
        built primitives signs now (hash_payload event_hash) core.actor_did
          (core.actor_did +s+ "#key-1") key in
      record {
        core = core;
        event_hash = event_hash;
        signature = proof.proof_value;
        proof = some proof;
        crypto_suite = some suite;
        hash_algorithm = some (hash_algorithm suite);
      }

  -- A core is signed with each key, and the event is accepted as the next one by the key's verifying
  -- key, behind the index and the hash that the core names.
  verify_event-sign :
      (now : Time) (core : BulletinEventCore) (key : SigningKey) (index : ℕ)
      (previous : Option String)
      → core.sequence ≡ index + 1
      → core.previous_hash ≡ previous
      → (event : BulletinEvent) × (sign primitives formats now core key ≡ ok event)
        × (verify_event primitives formats (verifying_key primitives key) index previous event
            ≡ ok tt)
  unfolding sign suite_of_event
  verify_event-sign now core key index previous number link = (
    signed now core key,
    rw
        (build_data_integrity_proof_lem primitives signs now
          (hash_payload (hash_core primitives formats (suite_of_signing_key key) core))
          core.actor_did (core.actor_did +s+ "#key-1") key)
        refl,
    (verify_event_iff primitives formats (verifying_key primitives key) index previous
          (signed now core key)).1
        (number, link, refl, built_verifies primitives signs now _ _ _ key),
  )
