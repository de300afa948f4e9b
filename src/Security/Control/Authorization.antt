-- ===== src/Security/Control/Authorization.antt =====
-- What an accepted authorization by a controller is.
use oan_protocol_common.Base.{
  String, ◌≡◌, sym, true, false, ◌&&◌, ◌⊎◌, inl, inr, Option, none, some, ◌!=◌, string_eq,
  option_eq, option_beq_iff, arith, eq_iff, Result, ok, err, fail_if-eq-ok, fail_if-last, >>=-eq-ok,
  ok_inj,
}
use oan_protocol_common.Base.Int.{ℤ, ◌+ℤ◌, ltb_ℤ, ◌≤ℤ◌}
use oan_protocol_common.Text.{is_blank}
use oan_protocol_common.Chrono.{Time, seconds}
use oan_protocol_common.Json.{Value}
use oan_protocol_common.Core.Document.{DidDocument, VerificationMethod}
use oan_protocol_common.Core.Validate.{lists}
use oan_protocol_common.Crypto.Primitives.{Primitives}
use oan_protocol_common.Crypto.Keys.{VerifyingKey, verifying_key_from_method}
use oan_protocol_common.Crypto.Signatures.{verify_payload_with_proof}
use oan_protocol_common.Protocol.{
  ControllerAuthorizationChallenge, ControllerAuthorizationProofBundle,
}
use oan_protocol_common.Protocol.Encode.{authorization_value}
use oan_protocol_common.Security.Error.{
  SecurityError, controller_authorization_time_window_invalid,
  controller_authorization_challenge_not_yet_valid, controller_authorization_challenge_expired,
  controller_authorization_did_document_id_mismatch, controller_authorization_private_key_material,
  controller_authorization_method_controller_mismatch,
  controller_authorization_proof_purpose_mismatch, controller_authorization_proof_creator_mismatch,
  controller_authorization_verification_method_mismatch,
}
use oan_protocol_common.Security.Methods.{
  find_relationship_method_sound, assertion_method, capability_invocation,
}
use oan_protocol_common.Security.Envelope.Accept.{map_err-eq-ok, not_ne}
use oan_protocol_common.Security.Control.{
  AuthorizationContext, check_authorization_fields, check_authorization_times,
  check_authorization_signature, check_named_method, authorizing_method, or_try,
  verify_controller_authorization_proof,
}
use oan_protocol_common.Security.Control.Secrets.{IsClean, contains_private_key_material_iff}

not_ne_option : (o p : Option String) → (o != p) ≡ false → o ≡ p
not_ne_option o p h = ground (arith, option_beq_iff o p)

not_both_ne : (s t u : String) → ((s != t) && (s != u)) ≡ false → (s ≡ t) ⊎ (s ≡ u)
not_both_ne s t u h = ground (arith, eq_iff s t, eq_iff s u)

not_after : (a b : ℤ) → ltb_ℤ b a ≡ false → a ≤ℤ b
not_after a b h = ground arith

-- The challenge is what the context expects.
pub record IsFor (challenge : ControllerAuthorizationChallenge) (context : AuthorizationContext)
    : Type 0 where
  pub resource : challenge.resource_did ≡ context.expected_resource_did
  pub controller : challenge.controller_did ≡ context.expected_controller_did
  publisher : challenge.publisher_did ≡ context.expected_publisher_did
  document_hash : challenge.did_document_hash ≡ context.expected_did_document_hash
  pub metadata_hash : challenge.metadata_hash ≡ context.expected_metadata_hash
  pub registrar : challenge.registrar_did ≡ context.expected_registrar_did
  pub purpose : challenge.purpose ≡ context.expected_purpose

fields_sound :
    (c : ControllerAuthorizationChallenge) (context : AuthorizationContext)
    → check_authorization_fields c context ≡ ok tt
    → IsFor c context
unfolding check_authorization_fields
fields_sound c context h =
    let (resource, h1) = (fail_if-eq-ok _ _ _ tt).0 h in
    let (controller, h2) = (fail_if-eq-ok _ _ _ tt).0 h1 in
    let (publisher, h3) = (fail_if-eq-ok _ _ _ tt).0 h2 in
    let (document, h4) = (fail_if-eq-ok _ _ _ tt).0 h3 in
    let (metadata, h5) = (fail_if-eq-ok _ _ _ tt).0 h4 in
    let (registrar, h6) = (fail_if-eq-ok _ _ _ tt).0 h5 in
    let purpose = (fail_if-last _ _).0 h6 in
    record {
      resource = not_ne _ _ resource;
      controller = not_ne _ _ controller;
      publisher = not_ne_option _ _ publisher;
      document_hash = not_ne _ _ document;
      metadata_hash = not_ne _ _ metadata;
      registrar = not_ne _ _ registrar;
      purpose = not_ne _ _ purpose;
    }

-- The challenge is in its time, with the skew of the clocks for its start.
pub record IsCurrent (challenge : ControllerAuthorizationChallenge) (context : AuthorizationContext)
    : Type 0 where
  pub nonce : is_blank challenge.nonce ≡ false
  ordered : challenge.issued_at ≤ℤ challenge.expires_at
  begun : challenge.issued_at ≤ℤ context.now +ℤ seconds context.max_clock_skew_seconds
  lasting : context.now ≤ℤ challenge.expires_at

times_sound :
    (c : ControllerAuthorizationChallenge) (context : AuthorizationContext)
    → check_authorization_times c context ≡ ok tt
    → IsCurrent c context
unfolding check_authorization_times
times_sound c context h =
    let (nonce, h1) = (fail_if-eq-ok _ _ _ tt).0 h in
    let (ordered, h2) = (fail_if-eq-ok _ controller_authorization_time_window_invalid _ tt).0 h1 in
    let (begun, h3) =
      (fail_if-eq-ok _ controller_authorization_challenge_not_yet_valid _ tt).0 h2 in
    let lasting = (fail_if-last _ controller_authorization_challenge_expired).0 h3 in
    record {
      nonce = nonce;
      ordered = not_after c.issued_at c.expires_at ordered;
      begun = not_after c.issued_at (context.now +ℤ seconds context.max_clock_skew_seconds) begun;
      lasting = not_after context.now c.expires_at lasting;
    }

named_sound :
    (named : Option String) (expected : String) (e : SecurityError)
    → check_named_method named expected e ≡ ok tt
    → (s : String) → named ≡ some s
    → s ≡ expected
unfolding check_named_method
named_sound none expected e h s same = cc
named_sound (some t) expected e h s same = let e' = not_ne t expected ((fail_if-last _ _).0 h) in cc

or_try_cases :
    {A : Type 0} (m n : Result SecurityError A) (a : A)
    → or_try m n ≡ ok a
    → (m ≡ ok a) ⊎ (n ≡ ok a)
or_try_cases (ok b) n a h = inl h
or_try_cases (err e) n a h = inr h

-- The method is the one that the challenge names, listed for one of the two relationships.
method_sound :
    (bundle : ControllerAuthorizationProofBundle) (method : VerificationMethod)
    → authorizing_method bundle ≡ ok method
    → ((lists bundle.controller_did_document.capability_invocation method.id ≡ true)
        ⊎ (lists bundle.controller_did_document.assertion_method method.id ≡ true))
      × (method.id ≡ bundle.challenge.verification_method)
method_sound bundle method h = elim (or_try_cases _ _ method h) [
  | inl found ↦
      let (listed, named) =
        find_relationship_method_sound bundle.controller_did_document capability_invocation
          bundle.challenge.verification_method method found in
      (inl listed, named)
  | inr found ↦
      let (listed, named) =
        find_relationship_method_sound bundle.controller_did_document assertion_method
          bundle.challenge.verification_method method found in
      (inr listed, named)
]

module _ (primitives : Primitives) (rfc3339 : Time → String) where
  -- The proof is by a key of the controller, for one of the two purposes, over the challenge.
  pub record IsProved (bundle : ControllerAuthorizationProofBundle) (id : String) : Type 0 where
    pub method : VerificationMethod
    pub key : VerifyingKey
    pub listed :
        (lists bundle.controller_did_document.capability_invocation method.id ≡ true)
        ⊎ (lists bundle.controller_did_document.assertion_method method.id ≡ true)
    pub chosen : method.id ≡ bundle.challenge.verification_method
    pub reported : id ≡ method.id
    pub controlled : method.controller ≡ bundle.challenge.controller_did
    pub held : verifying_key_from_method primitives method ≡ ok key
    pub purpose :
        (bundle.proof.proof_purpose ≡ "capabilityInvocation")
        ⊎ (bundle.proof.proof_purpose ≡ "assertionMethod")
    pub creator :
        (bundle.proof.creator ≡ bundle.challenge.controller_did)
        ⊎ (bundle.proof.creator ≡ bundle.challenge.verification_method)
    pub verified :
        verify_payload_with_proof primitives
          (authorization_value rfc3339 bundle.challenge)
          bundle.proof
          key
        ≡ ok tt
    pub named :
        (s : String)
        → bundle.proof.verification_method ≡ some s
        → s ≡ bundle.challenge.verification_method

  signature_sound :
      (bundle : ControllerAuthorizationProofBundle) (method : VerificationMethod) (id : String)
      → authorizing_method bundle ≡ ok method
      → check_authorization_signature primitives rfc3339 bundle method ≡ ok id
      → IsProved bundle id
  unfolding check_authorization_signature
  signature_sound bundle method id found h =
      let (listed, chosen) = method_sound bundle method found in
      let (controlled, h1) =
        (fail_if-eq-ok _ controller_authorization_method_controller_mismatch _ id).0 h in
      let (key, held, h2) = map_err-eq-ok (verifying_key_from_method primitives method) _ _ _ h1 in
      let (purpose, h3) =
        (fail_if-eq-ok _ controller_authorization_proof_purpose_mismatch _ id).0 h2 in
      let (creator, h4) =
        (fail_if-eq-ok _ controller_authorization_proof_creator_mismatch _ id).0 h3 in
      let (_, verified, h5) =
        map_err-eq-ok
          (verify_payload_with_proof primitives (authorization_value rfc3339 bundle.challenge)
            bundle.proof key)
          _ _ _ h4 in
      let (_, named, h6) =
        >>=-eq-ok
          (check_named_method bundle.proof.verification_method bundle.challenge.verification_method
            controller_authorization_verification_method_mismatch)
          _ h5 in
      record {
        method = method;
        key = key;
        listed = listed;
        chosen = chosen;
        reported = sym (ok_inj h6);
        controlled = not_ne _ _ controlled;
        held = held;
        purpose =
            not_both_ne bundle.proof.proof_purpose "capabilityInvocation" "assertionMethod" purpose;
        creator =
            not_both_ne bundle.proof.creator bundle.challenge.controller_did
              bundle.challenge.verification_method creator;
        verified = verified;
        named = named_sound _ _ _ named;
      }

  -- A bundle that `verify_controller_authorization_proof` accepts has the challenge that the
  -- context expects, in its time; the controller's document has the controller's identifier and
  -- nothing named as a private key at any depth; and the method that the challenge names, listed
  -- for capability invocation or assertion and controlled by the controller, has the key that
  -- signed the challenge, with a purpose and creator that are allowed.
  pub authorization_sound :
      (document_value : DidDocument → Value) (bundle : ControllerAuthorizationProofBundle)
      (context : AuthorizationContext) (id : String)
      → verify_controller_authorization_proof primitives rfc3339 document_value bundle context
        ≡ ok id
      → IsFor bundle.challenge context
        × IsCurrent bundle.challenge context
        × (bundle.controller_did_document.id ≡ bundle.challenge.controller_did)
        × IsClean (document_value bundle.controller_did_document)
        × IsProved bundle id
  unfolding verify_controller_authorization_proof
  authorization_sound document_value bundle context id h =
      let (_, fields, h1) = >>=-eq-ok (check_authorization_fields bundle.challenge context) _ h in
      let (_, times, h2) = >>=-eq-ok (check_authorization_times bundle.challenge context) _ h1 in
      let (same, h3) =
        (fail_if-eq-ok _ controller_authorization_did_document_id_mismatch _ id).0 h2 in
      let (clean, h4) = (fail_if-eq-ok _ controller_authorization_private_key_material _ id).0 h3 in
      let (method, found, h5) =
        >>=-eq-ok (authorizing_method bundle)
          (check_authorization_signature primitives rfc3339 bundle) h4 in
      (
        fields_sound _ _ fields,
        times_sound _ _ times,
        not_ne _ _ same,
        (contains_private_key_material_iff _).0 clean,
        signature_sound bundle method id found h5,
      )
