-- ===== src/Security/Envelope/Create.antt =====
-- An envelope that is created is accepted, where the policy asks for it and the document has the key.
use Prim.Native.String.{◌++◌ as ◌+s+◌, len}
use text.Mathlib.TextPositions.{len-append}
use oan_protocol_common.Base.{
  String, ◌≡◌, refl, ap, ◌∙◌, false, some, nat_beq, ◌!=◌, string_eq, arith, eq_iff, Result, ok,
}
use oan_protocol_common.Chrono.{Time}
use oan_protocol_common.Json.{Value}
use oan_protocol_common.Core.Suite.{CryptoSuite}
use oan_protocol_common.Core.Document.{DidDocument, VerificationMethod}
use oan_protocol_common.Crypto.Primitives.{Primitives}
use oan_protocol_common.Crypto.Keys.{
  VerifyingKey, suite_of_signing_key, verifying_key, verifying_key_from_method,
  crypto_suite_from_verification_method,
}
use oan_protocol_common.Crypto.Signatures.{verify_payload_with_proof, hash_json_with_suite}
use oan_protocol_common.Crypto.Signatures.Verify.{
  Signs, built, built_verifies, build_data_integrity_proof_lem,
}
use oan_protocol_common.Protocol.{SignedRequestEnvelope}
use oan_protocol_common.Protocol.Encode.{envelope_payload}
use oan_protocol_common.Security.Error.{SecurityError, trusted_upstream_timestamp_stale}
use oan_protocol_common.Security.Time.{verify_freshness}
use oan_protocol_common.Security.Nonce.{NonceFile, Outside, verify_and_store_nonce}
use oan_protocol_common.Security.Methods.{find_relationship_method, assertion_method}
use oan_protocol_common.Security.Envelope.{
  TrustedUpstreamPolicy, TrustedUpstreamContext, EnvelopeInput, unsigned,
  create_signed_request_envelope, check_request, check_method_signature,
  verify_signed_request_envelope,
}
use oan_protocol_common.Security.Envelope.Replay.{behind_passed}
use oan_protocol_common.Security.Envelope.Accept.{IsExpected}

-- The policy asks for what the input says.
pub record IsAsked (input : EnvelopeInput) (policy : TrustedUpstreamPolicy) : Type 0 where
  pub purpose : input.purpose ≡ policy.expected_purpose
  pub method : input.method ≡ policy.expected_method
  pub path : input.path ≡ policy.expected_path
  pub audience : input.aud ≡ policy.expected_audience

abbrev first :
    Result SecurityError TrustedUpstreamContext × NonceFile
    → Result SecurityError TrustedUpstreamContext
first reply = reply.0

ne_self : (s t : String) → s ≡ t → (s != t) ≡ false
ne_self s t h = ground (arith, eq_iff s t)

not_empty : (s : String) → nat_beq (len ("z" +s+ s)) 0 ≡ false
not_empty s = ground (arith, len-append "z" s)

module _ (primitives : Primitives) (rfc3339 : Time → String) (signs : Signs primitives) where
  -- The document lists the method that the input names, with the key that signs and its suite.
  pub record HasKey (input : EnvelopeInput) (document : DidDocument) (method : VerificationMethod)
      : Type 0 where
    pub found :
        find_relationship_method document assertion_method (some input.verification_method)
        ≡ ok method
    pub held :
        verifying_key_from_method primitives method
        ≡ ok (verifying_key primitives input.signing_key)
    pub suite :
        crypto_suite_from_verification_method method ≡ ok (suite_of_signing_key input.signing_key)

  check_method_complete :
      (envelope : SignedRequestEnvelope) (payload : Value) (signer_did : String)
      (method : VerificationMethod) (key : VerifyingKey) (suite : CryptoSuite)
      → verifying_key_from_method primitives method ≡ ok key
      → verify_payload_with_proof primitives (envelope_payload rfc3339 envelope) envelope.proof key
        ≡ ok tt
      → crypto_suite_from_verification_method method ≡ ok suite
      → hash_json_with_suite primitives suite payload ≡ envelope.body_hash
      → check_method_signature primitives rfc3339 envelope payload signer_did method
        ≡ ok (record {
          signer_did = signer_did;
          verification_method = method.id;
          request_id = envelope.request_id;
        })
  unfolding check_method_signature
  check_method_complete envelope payload signer_did method key suite held verified hashed body =
      rw held (rw verified (rw hashed (rw (ne_self _ _ body) refl)))

  check_request_complete :
      (envelope : SignedRequestEnvelope) (policy : TrustedUpstreamPolicy) (now : Time)
      → IsExpected envelope policy now
      → check_request envelope policy now ≡ ok tt
  unfolding check_request
  check_request_complete envelope policy now x = rw x.signed (
      rw (ne_self _ _ x.method) (
        rw (ne_self _ _ x.path) (rw (ne_self _ _ x.purpose) (rw (ne_self _ _ x.audience) x.fresh))))

  module _ (now later : Time) (input : EnvelopeInput) where
    abbrev signed : SignedRequestEnvelope
    signed = record (unsigned primitives rfc3339 now input) {
      proof =
          built primitives signs later
            (envelope_payload rfc3339 (unsigned primitives rfc3339 now input)) input.creator
            input.verification_method input.signing_key;
    }

    create_lem : create_signed_request_envelope primitives rfc3339 now later input ≡ ok signed
    unfolding create_signed_request_envelope
    create_lem =
        rw
          (build_data_integrity_proof_lem primitives signs later
            (envelope_payload rfc3339 (unsigned primitives rfc3339 now input)) input.creator
            input.verification_method input.signing_key)
          refl

    -- An envelope is created from each input, and accepted where the policy asks for what the
    -- input says, the timestamp is fresh, the nonce is stored, and the signer's document lists the
    -- input's method with the key that signs and its suite; the laws of the encodings and
    -- signatures are those of `Signs`.
    pub verify-create :
        (outside : Outside) (file : NonceFile) (policy : TrustedUpstreamPolicy) (at : Time)
        (signer_did : String) (document : DidDocument) (method : VerificationMethod)
        → IsAsked input policy
        → verify_freshness now at policy.max_clock_skew_seconds trusted_upstream_timestamp_stale
          ≡ ok tt
        → HasKey input document method
        → (verify_and_store_nonce outside file input.nonce now at policy.nonce_ttl_seconds).0
          ≡ ok tt
        → (envelope : SignedRequestEnvelope) × (create_signed_request_envelope primitives rfc3339
              now later input
            ≡ ok envelope)
          × ((verify_signed_request_envelope primitives rfc3339 outside file envelope input.payload
                signer_did document policy at).0
              ≡ ok (record {
                signer_did = signer_did;
                verification_method = method.id;
                request_id = input.request_id;
              }))
    unfolding verify_signed_request_envelope envelope_payload
    verify-create outside file policy at signer_did document method asked fresh key stored =
        let request = check_request_complete signed policy at (record {
          signed = not_empty _;
          method = asked.method;
          path = asked.path;
          purpose = asked.purpose;
          audience = asked.audience;
          fresh = fresh;
        }) in
        let checked =
          check_method_complete signed input.payload signer_did method
            (verifying_key primitives input.signing_key) (suite_of_signing_key input.signing_key)
            key.held
            (built_verifies primitives signs later
              (envelope_payload rfc3339 (unsigned primitives rfc3339 now input)) input.creator
              input.verification_method input.signing_key)
            key.suite refl in
        (
          signed,
          create_lem,
          rw request (rw key.found (ap first (behind_passed _ _ file stored) ∙ checked)),
        )
