-- ===== src/Tests/Registrations.antt =====
-- Proofs of control and registrations (crates/oan-service-security/src/lib.rs,
-- crates/oan-protocol/src/lib.rs).
use oan_protocol_common.Base.{◌≡◌, ◌↔◌, refl, none, some, ok}
use oan_protocol_common.Base.Int.{pos, ◌≤ℤ◌, ◌+ℤ◌}
use oan_protocol_common.Base58.{in_class, class_run, validate_routing_code, validate_suffix_code}
use oan_protocol_common.Did.{parse, parse_parts, is_match}
use oan_protocol_common.Chrono.{seconds}
use oan_protocol_common.Text.{strip_prefix, split, all_chars, contains, starts_with, is_blank}
use oan_protocol_common.Json.{Value, null, get}
use oan_protocol_common.Core.Kinds.{ResourceType}
use oan_protocol_common.Core.Suite.{from_verification_method_type}
use oan_protocol_common.Core.Document.{DataIntegrityProof, suite_of_method, suite_of_proof}
use oan_protocol_common.Crypto.Keys.{
  verifying_key_from_method, verifying_key_from_public_key_multibase, suite_of_signing_key,
}
use oan_protocol_common.Crypto.Signatures.{build_data_integrity_proof, verify_payload_with_proof}
use oan_protocol_common.Crypto.Signatures.Verify.{built}
use oan_protocol_common.Protocol.{
  DidControlChallenge, SubjectControlProofBundle, ControllerAuthorizationChallenge,
  ControllerAuthorizationProofBundle, ResourceRegistrationSubmission,
}
use oan_protocol_common.Protocol.Encode.{control_value, authorization_value}
use oan_protocol_common.Protocol.Submission.{
  validate_shape, validate_hash_reference, check_challenge, check_authorization,
}
use oan_protocol_common.Protocol.Submission.Shape.{IsSubmission, validate_shape_sound}
use oan_protocol_common.Security.Methods.{find_relationship_method, assertion_method}
use oan_protocol_common.Security.Control.{
  AuthorizationContext, verify_subject_control_proof, verify_controller_authorization_proof,
}
use oan_protocol_common.Security.Control.Secrets.{IsClean}
use oan_protocol_common.Security.Control.Authorization.{
  authorization_sound, IsFor, IsCurrent, IsProved,
}
use oan_protocol_common.Security.Control.Subject.{answer_in_time, answer, expecting}
use oan_protocol_common.Security.Claims.{
  build_registration_binding_claims, verify_registration_binding_claims,
}
use oan_protocol_common.Security.Claims.Binding.{verify_registration_binding_claims_iff, Has, Binds}
use oan_protocol_common.Tests.Documents.{
  sample_id, sample_key, sample_proof, sample_codecs, agent_document, agent_accepted,
}
use oan_protocol_common.Tests.Nonces.{at}
use oan_protocol_common.Tests.Keys.{sample_primitives, sample_Signs}
use oan_protocol_common.Tests.Crypto.{sample_signing_key}
use oan_protocol_common.Tests.Requests.{sample_rfc3339, key_document, key_method, key_held}

abbrev sample_challenge : DidControlChallenge
sample_challenge = record {
  challenge_id = "challenge-1";
  draft_id = "1";
  subject_did = sample_id;
  did_document_hash = "sha256:d";
  registrar_did = "did:oan:registrar";
  purpose = "resource-registration";
  verification_method = sample_key;
  nonce = "n";
  issued_at = at 1000;
  expires_at = at 1300;
}

sample_found :
    find_relationship_method key_document assertion_method (some sample_key) ≡ ok key_method
unfolding find_relationship_method
sample_found = refl

answer_in_time_example :
    (proof : DataIntegrityProof) × (build_data_integrity_proof sample_primitives
        (at 1001)
        (control_value sample_rfc3339 sample_challenge)
        sample_id
        sample_key
        sample_signing_key
      ≡ ok proof)
    × ((verify_subject_control_proof sample_primitives sample_rfc3339
            (answer sample_challenge proof)
            key_document
            (expecting sample_challenge (at 1300))
          ≡ ok sample_key)
        ↔ (at 1300 ≤ℤ at 1300))
answer_in_time_example =
    answer_in_time sample_primitives sample_rfc3339 sample_Signs sample_challenge (at 1001)
      (at 1300) sample_id sample_signing_key key_document key_method sample_found key_held

abbrev controller_challenge : ControllerAuthorizationChallenge
controller_challenge = record {
  challenge_id = "controller-auth-1";
  resource_did = sample_id;
  controller_did = sample_id;
  publisher_did = none;
  did_document_hash = "sha256:d";
  metadata_hash = "sha256:m";
  registrar_did = "did:oan:registrar";
  purpose = "resource-registration-controller-authorization";
  verification_method = sample_key;
  nonce = "n";
  issued_at = at 1000;
  expires_at = at 1300;
}

abbrev controller_bundle : ControllerAuthorizationProofBundle
controller_bundle = record {
  challenge = controller_challenge;
  controller_did_document = key_document;
  proof =
      built sample_primitives sample_Signs (at 1001)
        (authorization_value sample_rfc3339 controller_challenge) sample_id sample_key
        sample_signing_key;
}

abbrev controller_context : AuthorizationContext
controller_context = record {
  expected_resource_did = sample_id;
  expected_controller_did = sample_id;
  expected_publisher_did = none;
  expected_did_document_hash = "sha256:d";
  expected_metadata_hash = "sha256:m";
  expected_registrar_did = "did:oan:registrar";
  expected_purpose = "resource-registration-controller-authorization";
  max_clock_skew_seconds = pos 10;
  now = at 1001;
}

authorization_accepted :
    verify_controller_authorization_proof sample_primitives sample_rfc3339
      (λ d. null)
      controller_bundle
      controller_context
    ≡ ok sample_key
unfolding verify_controller_authorization_proof is_blank seconds ◌+ℤ◌ find_relationship_method
    verifying_key_from_method verifying_key_from_public_key_multibase suite_of_method
    from_verification_method_type strip_prefix verify_payload_with_proof suite_of_proof
    suite_of_signing_key
authorization_accepted = refl

authorization_sound_example :
    IsFor controller_challenge controller_context
    × IsCurrent controller_challenge controller_context
    × (sample_id ≡ sample_id)
    × IsClean null
    × IsProved sample_primitives sample_rfc3339 controller_bundle sample_key
authorization_sound_example =
    authorization_sound sample_primitives sample_rfc3339 (λ d. null) controller_bundle
      controller_context sample_key authorization_accepted

abbrev sample_bundle : SubjectControlProofBundle
sample_bundle = record (answer sample_challenge sample_proof) { proof_hash = some "p" }

abbrev sample_claims : Value
sample_claims =
    build_registration_binding_claims sample_rfc3339 "sha256:d" sample_challenge "p" (at 1002)

verify_registration_binding_claims_iff_example :
    (verify_registration_binding_claims sample_claims sample_id "sha256:d" "did:oan:registrar"
        "resource-registration" sample_bundle
      ≡ ok tt)
    ↔ (Has sample_claims "didDocumentHash" "sha256:d"
        × ((binding : Value) × (get sample_claims "registrationBinding" ≡ some binding)
            × Binds binding sample_id "did:oan:registrar" "resource-registration" sample_bundle))
verify_registration_binding_claims_iff_example =
    verify_registration_binding_claims_iff sample_claims sample_id "sha256:d" "did:oan:registrar"
      "resource-registration" sample_bundle

abbrev sample_submission : ResourceRegistrationSubmission
sample_submission = record {
  resource_did = sample_id;
  resource_type = ResourceType.agent_service;
  did_document = agent_document;
  did_document_hash = "sha256:d";
  metadata = null;
  package_version = "1.0.0";
  package_hash = "sha256:p";
  metadata_hash = "sha256:m";
  hash_algorithm = "sha256";
  registration_credential = null;
  subject_control_proof = sample_bundle;
  controller_authorization_proof = some controller_bundle;
}

submission_accepted : validate_shape sample_codecs sample_submission ≡ ok tt
unfolding validate_shape validate_hash_reference check_challenge check_authorization parse
    parse_parts is_match starts_with strip_prefix split all_chars contains class_run in_class
    validate_routing_code validate_suffix_code is_blank
submission_accepted = rw agent_accepted refl

validate_shape_sound_example : IsSubmission sample_codecs sample_submission
validate_shape_sound_example =
    validate_shape_sound sample_codecs sample_submission submission_accepted
