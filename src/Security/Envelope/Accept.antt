-- ===== src/Security/Envelope/Accept.antt =====
-- What an accepted envelope is.
use Prim.Native.String.{len}
use oan_protocol_common.Base.{
  String, ◌≡◌, refl, sym, true, false, some, nat_beq, ◌!=◌, string_eq, arith, eq_iff, Result, ok,
  err, ◌>>=◌, map_err, fail_if-eq-ok, >>=-eq-ok, ok_inj,
}
use oan_protocol_common.Chrono.{Time}
use oan_protocol_common.Json.{Value}
use oan_protocol_common.Core.Document.{DidDocument, VerificationMethod}
use oan_protocol_common.Core.Suite.{CryptoSuite}
use oan_protocol_common.Core.Validate.{lists}
use oan_protocol_common.Crypto.Primitives.{Primitives}
use oan_protocol_common.Crypto.Keys.{
  CryptoError, VerifyingKey, verifying_key_from_method, crypto_suite_from_verification_method,
}
use oan_protocol_common.Crypto.Signatures.{hash_json_with_suite, verify_payload_with_proof}
use oan_protocol_common.Protocol.{SignedRequestEnvelope}
use oan_protocol_common.Protocol.Encode.{envelope_payload}
use oan_protocol_common.Security.Error.{SecurityError, trusted_upstream_timestamp_stale}
use oan_protocol_common.Security.Time.{verify_freshness}
use oan_protocol_common.Security.Nonce.{NonceFile, Outside, verify_and_store_nonce}
use oan_protocol_common.Security.Methods.{
  find_relationship_method, find_relationship_method_sound, assertion_method,
}
use oan_protocol_common.Security.Envelope.{
  TrustedUpstreamPolicy, TrustedUpstreamContext, check_request, check_signature,
  check_method_signature, method_or_key_1, verify_signed_request_envelope, behind_nonce,
  behind_request,
}

-- The parts of a chain whose error is replaced.
pub map_err-eq-ok :
    {A B : Type 0} (m : Result CryptoError A) (e : SecurityError)
    (next : A → Result SecurityError B) (b : B)
    → (map_err m e >>= next) ≡ ok b
    → (a : A) × (m ≡ ok a) × (next a ≡ ok b)
map_err-eq-ok (ok a) e next b h = (a, refl, h)
map_err-eq-ok (err x) e next b h = cc

pub not_ne : (s t : String) → (s != t) ≡ false → s ≡ t
not_ne s t h = ground (arith, eq_iff s t)

-- What the checks before the nonce accept.
pub record IsExpected (envelope : SignedRequestEnvelope) (policy : TrustedUpstreamPolicy)
    (now : Time) : Type 0 where
  pub signed : nat_beq (len envelope.proof.proof_value) 0 ≡ false
  pub method : envelope.method ≡ policy.expected_method
  pub path : envelope.path ≡ policy.expected_path
  pub purpose : envelope.purpose ≡ policy.expected_purpose
  pub audience : envelope.aud ≡ policy.expected_audience
  pub fresh :
      verify_freshness envelope.request_timestamp now policy.max_clock_skew_seconds
        trusted_upstream_timestamp_stale
      ≡ ok tt

check_request_sound :
    (envelope : SignedRequestEnvelope) (policy : TrustedUpstreamPolicy) (now : Time)
    → check_request envelope policy now ≡ ok tt
    → IsExpected envelope policy now
unfolding check_request
check_request_sound envelope policy now h =
    let (signed, h1) = (fail_if-eq-ok _ _ _ tt).0 h in
    let (method, h2) = (fail_if-eq-ok _ _ _ tt).0 h1 in
    let (path, h3) = (fail_if-eq-ok _ _ _ tt).0 h2 in
    let (purpose, h4) = (fail_if-eq-ok _ _ _ tt).0 h3 in
    let (audience, h5) = (fail_if-eq-ok _ _ _ tt).0 h4 in
    record {
      signed = signed;
      method = not_ne _ _ method;
      path = not_ne _ _ path;
      purpose = not_ne _ _ purpose;
      audience = not_ne _ _ audience;
      fresh = h5;
    }

behind_sound :
    (checked : Result SecurityError TrustedUpstreamContext)
    (call : Result SecurityError (Unit {0}) × NonceFile) (file : NonceFile)
    (request : Result SecurityError (Unit {0})) (context : TrustedUpstreamContext)
    → (behind_request (behind_nonce checked call) file request).0 ≡ ok context
    → (request ≡ ok tt) × (call.0 ≡ ok tt) × (checked ≡ ok context)
behind_sound checked call file (err e) context h = cc
behind_sound checked (err e, left) file (ok _) context h = cc
behind_sound checked (ok _, left) file (ok _) context h = (refl, refl, h)

module _ (primitives : Primitives) (rfc3339 : Time → String) where
  -- What the checks behind the nonce accept: a method of the signer's document, listed for assertion,
  -- whose key signed the envelope, and a body with the hash that is signed.
  pub record IsSigned (envelope : SignedRequestEnvelope) (payload : Value) (signer_did : String)
      (document : DidDocument) (context : TrustedUpstreamContext) : Type 0 where
    pub method : VerificationMethod
    pub key : VerifyingKey
    pub suite : CryptoSuite
    pub listed : lists document.assertion_method method.id ≡ true
    pub named : method.id ≡ method_or_key_1 envelope.proof.verification_method signer_did
    pub held : verifying_key_from_method primitives method ≡ ok key
    pub verified :
        verify_payload_with_proof primitives (envelope_payload rfc3339 envelope) envelope.proof key
        ≡ ok tt
    pub hashed : crypto_suite_from_verification_method method ≡ ok suite
    pub body : hash_json_with_suite primitives suite payload ≡ envelope.body_hash
    pub reported : context ≡ record {
      signer_did = signer_did;
      verification_method = method.id;
      request_id = envelope.request_id;
    }

  check_signature_sound :
      (envelope : SignedRequestEnvelope) (payload : Value) (signer_did : String)
      (document : DidDocument) (context : TrustedUpstreamContext)
      → check_signature primitives rfc3339 envelope payload signer_did document ≡ ok context
      → IsSigned envelope payload signer_did document context
  unfolding check_signature check_method_signature
  check_signature_sound envelope payload signer_did document context h =
      let (method, found, h1) =
        >>=-eq-ok
          (find_relationship_method document assertion_method
            (some (method_or_key_1 envelope.proof.verification_method signer_did)))
          (check_method_signature primitives rfc3339 envelope payload signer_did) h in
      let (listed, named) =
        find_relationship_method_sound document assertion_method _ method found in
      let (key, held, h2) = map_err-eq-ok (verifying_key_from_method primitives method) _ _ _ h1 in
      let (_, verified, h3) =
        map_err-eq-ok
          (verify_payload_with_proof primitives (envelope_payload rfc3339 envelope) envelope.proof
            key)
          _ _ _ h2 in
      let (suite, hashed, h4) =
        map_err-eq-ok (crypto_suite_from_verification_method method) _ _ _ h3 in
      let (body, h5) = (fail_if-eq-ok _ _ _ context).0 h4 in
      record {
        method = method;
        key = key;
        suite = suite;
        listed = listed;
        named = named;
        held = held;
        verified = verified;
        hashed = hashed;
        body = not_ne _ _ body;
        reported = sym (ok_inj h5);
      }

  -- An envelope that `verify_signed_request_envelope` accepts has a proof value, the method, path,
  -- purpose and audience of the policy and a fresh timestamp; its nonce was stored; a method of
  -- the signer's document, listed for assertion and named by the proof, or the first key where the
  -- proof names none, has the key that signed the payload; and the body has the hash that is
  -- signed.
  pub accepted_envelope :
      (outside : Outside) (file : NonceFile) (envelope : SignedRequestEnvelope) (payload : Value)
      (signer_did : String) (document : DidDocument) (policy : TrustedUpstreamPolicy) (now : Time)
      (context : TrustedUpstreamContext)
      → (verify_signed_request_envelope primitives rfc3339 outside file envelope payload signer_did
          document policy now).0
        ≡ ok context
      → IsExpected envelope policy now
        × ((verify_and_store_nonce outside file envelope.request_nonce envelope.request_timestamp
              now policy.nonce_ttl_seconds).0
            ≡ ok tt)
        × IsSigned envelope payload signer_did document context
  unfolding verify_signed_request_envelope
  accepted_envelope outside file envelope payload signer_did document policy now context h =
      let (request, call, checked) = behind_sound _ _ _ _ context h in
      (
        check_request_sound envelope policy now request,
        call,
        check_signature_sound envelope payload signer_did document context checked,
      )

  pub passed_request :
      (outside : Outside) (file : NonceFile) (envelope : SignedRequestEnvelope) (payload : Value)
      (signer_did : String) (document : DidDocument) (policy : TrustedUpstreamPolicy) (now : Time)
      (context : TrustedUpstreamContext)
      → (verify_signed_request_envelope primitives rfc3339 outside file envelope payload signer_did
          document policy now).0
        ≡ ok context
      → (check_request envelope policy now ≡ ok tt)
        × ((verify_and_store_nonce outside file envelope.request_nonce envelope.request_timestamp
              now policy.nonce_ttl_seconds).0
            ≡ ok tt)
  unfolding verify_signed_request_envelope
  passed_request outside file envelope payload signer_did document policy now context h =
      let (request, call, checked) = behind_sound _ _ _ _ context h in (request, call)
