-- ===== src/Tests/Requests.antt =====
-- Signed requests (crates/oan-service-security/src/lib.rs).
use Prim.Native.String.{◌++◌ as ◌+s+◌}
use oan_protocol_common.Base.{ℕ, String, ◌≡◌, refl, some, [], ◌∷◌, ok, err, leb→le, arith}
use oan_protocol_common.Base.Int.{pos, ◌-ℤ◌}
use oan_protocol_common.BTreeMap.{get, insert}
use oan_protocol_common.Chrono.{Time, seconds}
use oan_protocol_common.Text.{strip_prefix}
use oan_protocol_common.Core.Suite.{from_verification_method_type}
use oan_protocol_common.Core.Document.{
  DidDocument, VerificationMethod, suite_of_method, suite_of_proof,
}
use oan_protocol_common.Crypto.Keys.{
  suite_of_signing_key, verifying_key, verifying_key_from_method,
  verifying_key_from_public_key_multibase, crypto_suite_from_verification_method,
}
use oan_protocol_common.Crypto.Signatures.{hash_json_with_suite, verify_payload_with_proof}
use oan_protocol_common.Crypto.Signatures.Verify.{built}
use oan_protocol_common.Protocol.{SignedRequestEnvelope}
use oan_protocol_common.Protocol.Encode.{envelope_payload}
use oan_protocol_common.Security.Error.{SecurityError, trusted_upstream_signature_invalid}
use oan_protocol_common.Security.Time.{verify_freshness}
use oan_protocol_common.Security.Nonce.{
  NonceFile, missing, read_store, verify_and_store_nonce, accept_nonce, prune_nonce_store, evict,
}
use oan_protocol_common.Security.Nonce.History.{run}
use oan_protocol_common.Security.Methods.{find_relationship_method}
use oan_protocol_common.Security.Envelope.{
  TrustedUpstreamPolicy, TrustedUpstreamContext, EnvelopeInput, unsigned,
  create_signed_request_envelope, check_request, check_signature, verify_signed_request_envelope,
}
use oan_protocol_common.Security.Envelope.Accept.{accepted_envelope, IsExpected, IsSigned}
use oan_protocol_common.Security.Envelope.Replay.{
  Request, IsTaken, IsRefused, serve, replayed_envelope, forged_envelope,
}
use oan_protocol_common.Security.Envelope.Create.{verify-create, HasKey}
use oan_protocol_common.Tests.Documents.{
  zeros, sample_id, sample_key, sample_method, agent_document,
}
use oan_protocol_common.Tests.Nonces.{calm, at}
use oan_protocol_common.Tests.Keys.{sample_primitives, sample_Signs, write_bytes}
use oan_protocol_common.Tests.Crypto.{sample_value, sample_signing_key}

abbrev pub sample_rfc3339 : Time → String
sample_rfc3339 t = "time"

abbrev sample_input : EnvelopeInput
sample_input = record {
  request_id = "r-1";
  protocol_version = "1";
  purpose = "cdn-publish";
  method = "POST";
  path = "/cdn/resources";
  aud = "cdn";
  payload = sample_value;
  creator = sample_id;
  verification_method = sample_key;
  signing_key = sample_signing_key;
  nonce = "n-1";
}

abbrev sample_policy : TrustedUpstreamPolicy
sample_policy = record {
  expected_purpose = "cdn-publish";
  expected_method = "POST";
  expected_path = "/cdn/resources";
  expected_audience = "cdn";
  max_clock_skew_seconds = pos 300;
  nonce_ttl_seconds = pos 300;
}

abbrev pub key_method : VerificationMethod
key_method = record sample_method { public_key_multibase = some ("z" +s+ write_bytes (zeros 32)) }

abbrev pub key_document : DidDocument
key_document = record agent_document { verification_method = key_method ∷ [] }

pub key_held :
    verifying_key_from_method sample_primitives key_method
    ≡ ok (verifying_key sample_primitives sample_signing_key)
unfolding verifying_key_from_method verifying_key_from_public_key_multibase verifying_key
    suite_of_method from_verification_method_type strip_prefix
key_held = refl

sample_HasKey :
    HasKey sample_primitives sample_rfc3339 sample_Signs sample_input key_document key_method
unfolding find_relationship_method crypto_suite_from_verification_method suite_of_method
    from_verification_method_type suite_of_signing_key
sample_HasKey = record { found = refl; held = key_held; suite = refl }

nonce_stored : (verify_and_store_nonce calm missing "n-1" (at 1000) (at 1001) (pos 300)).0 ≡ ok tt
unfolding verify_and_store_nonce read_store accept_nonce prune_nonce_store evict get insert seconds
nonce_stored = refl

sample_fresh :
    verify_freshness (at 1000) (at 1001) (pos 300) SecurityError.trusted_upstream_timestamp_stale
    ≡ ok tt
unfolding verify_freshness ◌-ℤ◌
sample_fresh = refl

abbrev sample_context : TrustedUpstreamContext
sample_context = record {
  signer_did = sample_id;
  verification_method = sample_key;
  request_id = "r-1";
}

verify-create_example :
    (envelope : SignedRequestEnvelope) × (create_signed_request_envelope sample_primitives
        sample_rfc3339
        (at 1000)
        (at 1000)
        sample_input
      ≡ ok envelope)
    × ((verify_signed_request_envelope sample_primitives sample_rfc3339 calm missing envelope
          sample_value sample_id key_document sample_policy
          (at 1001)).0
        ≡ ok sample_context)
verify-create_example =
    verify-create sample_primitives sample_rfc3339 sample_Signs (at 1000) (at 1000) sample_input
      calm missing sample_policy (at 1001) sample_id key_document key_method
      (record { purpose = refl; method = refl; path = refl; audience = refl }) sample_fresh
      sample_HasKey nonce_stored

-- the envelope that is created from the input
abbrev sample_envelope : SignedRequestEnvelope
sample_envelope = record (unsigned sample_primitives sample_rfc3339 (at 1000) sample_input) {
  proof =
      built sample_primitives sample_Signs (at 1000)
        (envelope_payload sample_rfc3339
          (unsigned sample_primitives sample_rfc3339 (at 1000) sample_input))
        sample_id sample_key sample_signing_key;
}

abbrev request_at : ℕ → SignedRequestEnvelope → Request
request_at n envelope = record {
  outside = calm;
  envelope = envelope;
  payload = sample_value;
  signer_did = sample_id;
  document = key_document;
  now = at n;
}

-- an envelope with the same nonce that is signed by nobody
abbrev forged : SignedRequestEnvelope
forged = record sample_envelope { proof = record (sample_envelope.proof) { proof_value = "z2" } }

sample_accepted :
    (serve sample_primitives sample_rfc3339 sample_policy missing
      (request_at 1001 sample_envelope)).0
    ≡ ok sample_context
unfolding verify_signed_request_envelope verify_freshness ◌-ℤ◌ verify_and_store_nonce read_store
    accept_nonce prune_nonce_store evict get insert seconds find_relationship_method
    verifying_key_from_method verifying_key_from_public_key_multibase suite_of_method
    from_verification_method_type strip_prefix verify_payload_with_proof suite_of_proof
    hash_json_with_suite suite_of_signing_key
sample_accepted = refl

accepted_envelope_example :
    IsExpected sample_envelope sample_policy (at 1001)
    × ((verify_and_store_nonce calm missing "n-1" (at 1000) (at 1001) (pos 300)).0 ≡ ok tt)
    × IsSigned sample_primitives sample_rfc3339 sample_envelope sample_value sample_id key_document
        sample_context
unfolding suite_of_signing_key
accepted_envelope_example =
    accepted_envelope sample_primitives sample_rfc3339 calm missing sample_envelope sample_value
      sample_id key_document sample_policy (at 1001) sample_context sample_accepted

IsTaken-again :
    (envelope : SignedRequestEnvelope)
    → envelope.request_nonce ≡ "n-1"
    → envelope.request_timestamp ≡ at 1000
    → IsTaken sample_primitives sample_rfc3339 sample_policy missing
        (request_at 1001 envelope)
        (request_at 1200 sample_envelope)
        []
unfolding read_store seconds ◌-ℤ◌
IsTaken-again envelope named dated = record {
  store = [];
  well_formed = tt;
  held = refl;
  room = leb→le 1 10_000 refl;
  in_time = rw dated (omega arith);
  between_in_time = tt;
  same_nonce = rw named refl;
  sound = refl;
  again_in_time = (refl, rw dated (omega arith));
}

abbrev after : Request → NonceFile
after r = run (pos 300) (serve sample_primitives sample_rfc3339 sample_policy missing r).1 []

replayed_envelope_example : IsRefused (after (request_at 1001 sample_envelope)) (
    serve sample_primitives sample_rfc3339 sample_policy
      (after (request_at 1001 sample_envelope))
      (request_at 1200 sample_envelope))
replayed_envelope_example =
    replayed_envelope sample_primitives sample_rfc3339 sample_policy missing
      (request_at 1001 sample_envelope) (request_at 1200 sample_envelope) [] sample_context
      (IsTaken-again sample_envelope refl refl) sample_accepted

forged_request : check_request forged sample_policy (at 1001) ≡ ok tt
unfolding check_request verify_freshness ◌-ℤ◌
forged_request = refl

forged_unsigned :
    check_signature sample_primitives sample_rfc3339 forged sample_value sample_id key_document
    ≡ err trusted_upstream_signature_invalid
unfolding check_signature find_relationship_method verifying_key_from_method
    verifying_key_from_public_key_multibase suite_of_method from_verification_method_type
    strip_prefix verify_payload_with_proof suite_of_proof suite_of_signing_key
forged_unsigned = refl

forged_envelope_example :
    ((serve sample_primitives sample_rfc3339 sample_policy missing (request_at 1001 forged)).0
      ≡ err trusted_upstream_signature_invalid)
    × IsRefused (after (request_at 1001 forged)) (
        serve sample_primitives sample_rfc3339 sample_policy
          (after (request_at 1001 forged))
          (request_at 1200 sample_envelope))
forged_envelope_example =
    forged_envelope sample_primitives sample_rfc3339 sample_policy missing (request_at 1001 forged)
      (request_at 1200 sample_envelope) [] trusted_upstream_signature_invalid
      (IsTaken-again forged refl refl) forged_request nonce_stored forged_unsigned
