-- ===== src/Security/Control/Challenges.antt =====
-- The challenges for control (`create_did_control_challenge`, `create_controller_authorization_challenge`).
use Prim.Native.String.{◌++◌}
use oan_protocol_common.Base.{String, Option}
use oan_protocol_common.Base.Int.{ℤ, ◌+ℤ◌}
use oan_protocol_common.Text.{replace}
use oan_protocol_common.Chrono.{Time, seconds}
use oan_protocol_common.Protocol.{
  DidControlChallenge, ControllerAuthorizationChallenge,
  purpose_controller_authorization_registration,
}

pub record DidControlPolicy : Type 0 where
  challenge_ttl_seconds : ℤ
  pub challenge_purpose : String

pub record ControllerAuthorizationChallengeInput : Type 0 where
  pub resource_did : String
  pub controller_did : String
  pub publisher_did : Option String
  pub did_document_hash : String
  pub metadata_hash : String
  pub registrar_did : String
  pub verification_method : String
  pub ttl_seconds : ℤ
  pub nonce : String

-- `millis` is the text of a time's milliseconds, and `issued_at` the clock's time.
module _ (millis : Time → String) (issued_at : Time) where
  unfoldable create_did_control_challenge :
      (draft_id subject_did did_document_hash registrar_did verification_method : String)
      → DidControlPolicy
      → String
      → DidControlChallenge
  create_did_control_challenge draft_id subject_did did_document_hash registrar_did
        verification_method policy nonce =
      record {
        challenge_id = "challenge-" ++ (draft_id ++ ("-" ++ millis issued_at));
        draft_id = draft_id;
        subject_did = subject_did;
        did_document_hash = did_document_hash;
        registrar_did = registrar_did;
        purpose = policy.challenge_purpose;
        verification_method = verification_method;
        nonce = nonce;
        issued_at = issued_at;
        expires_at = issued_at +ℤ seconds policy.challenge_ttl_seconds;
      }

  unfoldable create_controller_authorization_challenge :
      ControllerAuthorizationChallengeInput → ControllerAuthorizationChallenge
  create_controller_authorization_challenge input = record {
    challenge_id =
        "controller-auth-" ++ (replace b':' "-" input.resource_did ++ ("-" ++ millis issued_at));
    resource_did = input.resource_did;
    controller_did = input.controller_did;
    publisher_did = input.publisher_did;
    did_document_hash = input.did_document_hash;
    metadata_hash = input.metadata_hash;
    registrar_did = input.registrar_did;
    purpose = purpose_controller_authorization_registration;
    verification_method = input.verification_method;
    nonce = input.nonce;
    issued_at = issued_at;
    expires_at = issued_at +ℤ seconds input.ttl_seconds;
  }
