-- ===== src/Bulletin.antt =====
-- The bulletin of governance events and its hash chain (crates/oan-bulletin/src/lib.rs).
pub mod Cores
pub mod Chain
pub mod History
pub mod Sign
use oan_protocol_common.Base.{
  ℕ, ◌+◌, String, not, ◌&&◌, Option, none, some, List, [], ◌∷◌, is_some, nat_beq, nat_eq, ◌==◌,
  ◌!=◌, string_eq, option_eq, if◌then◌else◌, Result, ok, err, ◌>>=◌, ◌>>◌, fail_if, map_err,
}
use Prim.Native.String.{◌++◌ as ◌+s+◌}
use oan_protocol_common.Chrono.{Time}
use oan_protocol_common.Json.{Value, null, number, string, object, no_fields, field}
use oan_protocol_common.Core.Suite.{CryptoSuite, ed25519_sha256_legacy, or_else, hash_algorithm}
use oan_protocol_common.Core.Document.{DataIntegrityProof}
use oan_protocol_common.Crypto.Primitives.{Primitives}
use oan_protocol_common.Crypto.Keys.{CryptoError, SigningKey, VerifyingKey, suite_of_signing_key}
use oan_protocol_common.Crypto.Signatures.{
  hash_json_with_suite, signature_input, verify_bytes, verify_bytes_multibase,
  verify_payload_with_proof, build_data_integrity_proof,
}

pub data BulletinEventType : Type 0 where
  root_initialized cdn_service_info_updated registrar_authorized registrar_revoked
        discovery_node_authorized discovery_node_domains_updated discovery_node_revoked node_revoked
        capability_tag_tree_updated :
      BulletinEventType

pub record BulletinEventCore : Type 0 where
  pub sequence : ℕ
  pub previous_hash : Option String
  pub event_type : BulletinEventType
  pub subject_did : String
  pub actor_did : String
  pub payload : Value
  pub created_at : Time

pub record BulletinEvent : Type 0 where
  pub core : BulletinEventCore
  pub event_hash : String
  pub signature : String
  pub proof : Option DataIntegrityProof
  pub crypto_suite : Option CryptoSuite
  pub hash_algorithm : Option String

pub record Bulletin : Type 0 where
  pub version : String
  pub root_did : String
  pub created_at : Time
  pub events : List BulletinEvent

-- `sequence_mismatch` has the index, the expected number and the actual one.
pub data BulletinError : Type 0 where
  crypto : CryptoError → BulletinError
  sequence_mismatch : ℕ → ℕ → ℕ → BulletinError
  previous_hash_mismatch event_hash_mismatch signature_mismatch : ℕ → BulletinError

abbrev suite_in : Option DataIntegrityProof → Option CryptoSuite
suite_in none = none
suite_in (some proof) = proof.crypto_suite

abbrev suite_or_legacy : Option CryptoSuite → CryptoSuite
suite_or_legacy none = ed25519_sha256_legacy
suite_or_legacy (some suite) = suite

-- `BulletinEvent::crypto_suite`
unfoldable pub suite_of_event : BulletinEvent → CryptoSuite
suite_of_event event = suite_or_legacy (or_else event.crypto_suite (suite_in event.proof))

-- `json!({ "eventHash": event_hash })`
abbrev pub hash_payload : String → Value
hash_payload event_hash = object (field "eventHash" (string event_hash) no_fields)

-- the name that serde gives a type of event (`rename_all = "SCREAMING_SNAKE_CASE"`)
unfoldable pub event_type_name : BulletinEventType → String
event_type_name root_initialized = "ROOT_INITIALIZED"
event_type_name cdn_service_info_updated = "CDN_SERVICE_INFO_UPDATED"
event_type_name registrar_authorized = "REGISTRAR_AUTHORIZED"
event_type_name registrar_revoked = "REGISTRAR_REVOKED"
event_type_name discovery_node_authorized = "DISCOVERY_NODE_AUTHORIZED"
event_type_name discovery_node_domains_updated = "DISCOVERY_NODE_DOMAINS_UPDATED"
event_type_name discovery_node_revoked = "DISCOVERY_NODE_REVOKED"
event_type_name node_revoked = "NODE_REVOKED"
event_type_name capability_tag_tree_updated = "CAPABILITY_TAG_TREE_UPDATED"

abbrev pub optional_text : Option String → Value
optional_text none = null
optional_text (some s) = string s

-- chrono's text of a time, and serde_json's text of a number
pub record Formats : Type 0 where
  pub rfc3339 : Time → String
  pub decimal : ℕ → String

-- `?`, by `From<CryptoError>`
abbrev pub lift : {A : Type 0} → Result CryptoError A → Result BulletinError A
lift (ok a) = ok a
lift (err e) = err (crypto e)

module _ (primitives : Primitives) where
  -- the signature by its proof, or without one
  unfoldable pub verify_signature :
      VerifyingKey → BulletinEvent → Option DataIntegrityProof → Result BulletinError (Unit {0})
  verify_signature root_key event (some proof) =
      if not (is_some proof.crypto_suite) && not (is_some event.crypto_suite)
      then map_err
          (verify_bytes_multibase primitives root_key
            (signature_input primitives (suite_of_event event) (hash_payload event.event_hash))
            proof.proof_value)
          (signature_mismatch event.core.sequence)
      else map_err
          (verify_payload_with_proof primitives (hash_payload event.event_hash) proof root_key)
          (signature_mismatch event.core.sequence)
  verify_signature root_key event none =
      map_err
        (verify_bytes primitives root_key
          (signature_input primitives (suite_of_event event) (hash_payload event.event_hash))
          event.signature)
        (signature_mismatch event.core.sequence)

module _ (primitives : Primitives) (formats : Formats) where
  -- the JSON value of a core, its keys in order
  unfoldable pub core_value : BulletinEventCore → Value
  core_value core = object (
      field "actorDid" (string core.actor_did) (
        field "createdAt" (string (formats.rfc3339 core.created_at)) (
          field "eventType" (string (event_type_name core.event_type)) (
            field "payload" core.payload (
              field "previousHash" (optional_text core.previous_hash) (
                field "sequence" (number (formats.decimal core.sequence))
                  (field "subjectDid" (string core.subject_did) no_fields)))))))

  -- `BulletinEventCore::hash`
  unfoldable pub hash_core : CryptoSuite → BulletinEventCore → String
  unfolding core_value
  hash_core suite core = hash_json_with_suite primitives suite (core_value core)

  -- `BulletinEventCore::sign`; `now` is the clock's time.
  unfoldable pub sign : Time → BulletinEventCore → SigningKey → Result BulletinError BulletinEvent
  unfolding hash_core
  sign now core signing_key = do
    let suite = suite_of_signing_key signing_key
    let event_hash = hash_core suite core
    proof ← lift (
        build_data_integrity_proof primitives now (hash_payload event_hash) core.actor_did
          (core.actor_did +s+ "#key-1") signing_key)
    ok (record {
      core = core;
      event_hash = event_hash;
      signature = proof.proof_value;
      proof = some proof;
      crypto_suite = some suite;
      hash_algorithm = some (hash_algorithm suite);
    })

  -- the loop's body
  unfoldable pub verify_event :
      VerifyingKey → ℕ → Option String → BulletinEvent → Result BulletinError (Unit {0})
  verify_event root_key index previous_hash event = do
    fail_if (event.core.sequence != index + 1)
        (sequence_mismatch index (index + 1) event.core.sequence)
    fail_if (event.core.previous_hash != previous_hash) (previous_hash_mismatch event.core.sequence)
    fail_if (hash_core (suite_of_event event) event.core != event.event_hash)
        (event_hash_mismatch event.core.sequence)
    verify_signature primitives root_key event event.proof

  unfoldable pub verify_from :
      VerifyingKey → ℕ → Option String → List BulletinEvent → Result BulletinError (Unit {0})
  verify_from root_key index previous_hash [] = ok tt
  verify_from root_key index previous_hash (event ∷ events) =
      verify_event root_key index previous_hash event
      >> verify_from root_key (index + 1) (some event.event_hash) events

  unfoldable pub verify_hash_chain : Bulletin → VerifyingKey → Result BulletinError (Unit {0})
  verify_hash_chain bulletin root_key = verify_from root_key 0 none bulletin.events
