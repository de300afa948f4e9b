-- ===== src/Security/Envelope.antt =====
-- Signed request envelopes (`create_signed_request_envelope`, `verify_signed_request_envelope`).
pub mod Accept
pub mod Replay
pub mod Create
use Prim.Native.String.{len}
use oan_protocol_common.Base.{
  ℕ, String, Option, none, some, nat_beq, ◌!=◌, string_eq, Result, ok, err, ◌>>=◌, ◌>>◌, fail_if,
  map_err,
}
use oan_protocol_common.Base.Int.{ℤ}
use oan_protocol_common.Chrono.{Time}
use oan_protocol_common.Json.{Value}
use oan_protocol_common.Core.Document.{DidDocument, DataIntegrityProof, VerificationMethod}
use oan_protocol_common.Core.Validate.{key_1}
use oan_protocol_common.Crypto.Primitives.{Primitives}
use oan_protocol_common.Crypto.Keys.{
  CryptoError, SigningKey, suite_of_signing_key, verifying_key_from_method,
  crypto_suite_from_verification_method,
}
use oan_protocol_common.Crypto.Signatures.{
  hash_json_with_suite, verify_payload_with_proof, build_data_integrity_proof,
}
use oan_protocol_common.Protocol.{SignedRequestEnvelope}
use oan_protocol_common.Protocol.Encode.{envelope_payload}
use oan_protocol_common.Security.Error.{
  SecurityError, trusted_upstream_signature_missing, trusted_upstream_method_mismatch,
  trusted_upstream_path_mismatch, trusted_upstream_purpose_mismatch,
  trusted_upstream_audience_mismatch, trusted_upstream_timestamp_stale,
  trusted_upstream_key_invalid, trusted_upstream_signature_invalid, trusted_upstream_suite_invalid,
  trusted_upstream_body_hash_mismatch,
}
use oan_protocol_common.Security.Time.{verify_freshness}
use oan_protocol_common.Security.Nonce.{NonceFile, Outside, verify_and_store_nonce}
use oan_protocol_common.Security.Methods.{find_relationship_method, assertion_method}

-- The path of the nonce store is the state, not a field.
pub record TrustedUpstreamPolicy : Type 0 where
  pub expected_purpose : String
  pub expected_method : String
  pub expected_path : String
  pub expected_audience : String
  pub max_clock_skew_seconds : ℤ
  pub nonce_ttl_seconds : ℤ

pub record TrustedUpstreamContext : Type 0 where
  pub signer_did : String
  pub verification_method : String
  pub request_id : String

-- `SignedRequestEnvelopeInput`, its payload as JSON
pub record EnvelopeInput : Type 0 where
  pub request_id : String
  pub protocol_version : String
  pub purpose : String
  pub method : String
  pub path : String
  pub aud : String
  pub payload : Value
  pub creator : String
  pub verification_method : String
  pub signing_key : SigningKey
  pub nonce : String

-- the checks of a request before its nonce is stored
unfoldable pub check_request :
    SignedRequestEnvelope → TrustedUpstreamPolicy → Time → Result SecurityError (Unit {0})
check_request envelope policy now = do
  fail_if (nat_beq (len envelope.proof.proof_value) 0) trusted_upstream_signature_missing
  fail_if (envelope.method != policy.expected_method) trusted_upstream_method_mismatch
  fail_if (envelope.path != policy.expected_path) trusted_upstream_path_mismatch
  fail_if (envelope.purpose != policy.expected_purpose) trusted_upstream_purpose_mismatch
  fail_if (envelope.aud != policy.expected_audience) trusted_upstream_audience_mismatch
  verify_freshness envelope.request_timestamp now policy.max_clock_skew_seconds
      trusted_upstream_timestamp_stale

-- the method that the proof names, or the signer's first key
abbrev pub method_or_key_1 : Option String → String → String
method_or_key_1 none signer_did = key_1 signer_did
method_or_key_1 (some value) signer_did = value

abbrev no_proof : Time → DataIntegrityProof
no_proof now = record {
  context = none;
  proof_type = "";
  creator = "";
  created = now;
  proof_purpose = "";
  proof_value = "";
  crypto_suite = none;
  hash_algorithm = none;
  verification_method = none;
}

-- what the outcome of a step leads to, with the file that it leaves
abbrev pub behind_nonce :
    Result SecurityError TrustedUpstreamContext
    → Result SecurityError (Unit {0}) × NonceFile
    → Result SecurityError TrustedUpstreamContext × NonceFile
behind_nonce checked (ok _, file) = (checked, file)
behind_nonce checked (err e, file) = (err e, file)

abbrev pub behind_request :
    Result SecurityError TrustedUpstreamContext × NonceFile
    → NonceFile
    → Result SecurityError (Unit {0})
    → Result SecurityError TrustedUpstreamContext × NonceFile
behind_request next file (ok _) = next
behind_request next file (err e) = (err e, file)

module _ (primitives : Primitives) (rfc3339 : Time → String) where
  -- the envelope before it is signed
  abbrev pub unsigned : Time → EnvelopeInput → SignedRequestEnvelope
  unsigned now input = record {
    request_id = input.request_id;
    protocol_version = input.protocol_version;
    purpose = input.purpose;
    method = input.method;
    path = input.path;
    aud = input.aud;
    request_timestamp = now;
    request_nonce = input.nonce;
    body_hash =
        hash_json_with_suite primitives (suite_of_signing_key input.signing_key) input.payload;
    proof = no_proof now;
  }

  -- The clock is read for the envelope, and again for its proof.
  unfoldable pub create_signed_request_envelope :
      Time → Time → EnvelopeInput → Result CryptoError SignedRequestEnvelope
  create_signed_request_envelope now later input = do
    proof ←
        build_data_integrity_proof primitives later (envelope_payload rfc3339 (unsigned now input))
          input.creator input.verification_method input.signing_key
    ok (record (unsigned now input) { proof = proof })

  -- the checks by a method's key, and of the body
  unfoldable pub check_method_signature :
      SignedRequestEnvelope
      → Value
      → String
      → VerificationMethod
      → Result SecurityError TrustedUpstreamContext
  check_method_signature envelope payload signer_did method = do
    key ← map_err (verifying_key_from_method primitives method) trusted_upstream_key_invalid
    map_err
        (verify_payload_with_proof primitives (envelope_payload rfc3339 envelope) envelope.proof
          key)
        trusted_upstream_signature_invalid
    suite ← map_err (crypto_suite_from_verification_method method) trusted_upstream_suite_invalid
    fail_if (hash_json_with_suite primitives suite payload != envelope.body_hash)
        trusted_upstream_body_hash_mismatch
    ok (record {
      signer_did = signer_did;
      verification_method = method.id;
      request_id = envelope.request_id;
    })

  -- what follows the nonce
  unfoldable pub check_signature :
      SignedRequestEnvelope
      → Value
      → String
      → DidDocument
      → Result SecurityError TrustedUpstreamContext
  unfolding check_method_signature
  check_signature envelope payload signer_did signer_document =
      find_relationship_method signer_document assertion_method
        (some (method_or_key_1 envelope.proof.verification_method signer_did))
      >>= λ method. check_method_signature envelope payload signer_did method

  -- The nonce is stored before the signature is checked, and stays stored when the check fails.
  unfoldable pub verify_signed_request_envelope :
      Outside
      → NonceFile
      → SignedRequestEnvelope
      → Value
      → String
      → DidDocument
      → TrustedUpstreamPolicy
      → Time
      → Result SecurityError TrustedUpstreamContext × NonceFile
  unfolding check_request check_signature
  verify_signed_request_envelope outside file envelope payload signer_did signer_document policy
        now =
      behind_request
        (behind_nonce (check_signature envelope payload signer_did signer_document) (
          verify_and_store_nonce outside file envelope.request_nonce envelope.request_timestamp now
            policy.nonce_ttl_seconds))
        file (check_request envelope policy now)
