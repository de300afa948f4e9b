-- ===== src/Protocol.antt =====
-- The messages between the nodes (crates/oan-protocol/src/lib.rs) that the other parts check.
pub mod Submission
pub mod Encode
use oan_protocol_common.Base.{String, Option}
use oan_protocol_common.Chrono.{Time}
use oan_protocol_common.Json.{Value}
use oan_protocol_common.Core.Kinds.{ResourceType}
use oan_protocol_common.Core.Document.{DidDocument, DataIntegrityProof}

abbrev pub purpose_resource_registration : String
purpose_resource_registration = "resource-registration"

abbrev pub purpose_controller_authorization_registration : String
purpose_controller_authorization_registration = "resource-registration-controller-authorization"

abbrev pub registration_flow : String
registration_flow = "did-control"

pub record SignedRequestEnvelope : Type 0 where
  pub request_id : String
  pub protocol_version : String
  pub purpose : String
  pub method : String
  pub path : String
  pub aud : String
  pub request_timestamp : Time
  pub request_nonce : String
  pub body_hash : String
  pub proof : DataIntegrityProof

pub record DidControlChallenge : Type 0 where
  pub challenge_id : String
  pub draft_id : String
  pub subject_did : String
  pub did_document_hash : String
  pub registrar_did : String
  pub purpose : String
  pub verification_method : String
  pub nonce : String
  pub issued_at : Time
  pub expires_at : Time

pub record SubjectControlProofBundle : Type 0 where
  pub challenge : DidControlChallenge
  pub proof : DataIntegrityProof
  pub verified_at : Option Time
  pub verified_verification_method : Option String
  pub proof_hash : Option String

pub record ControllerAuthorizationChallenge : Type 0 where
  pub challenge_id : String
  pub resource_did : String
  pub controller_did : String
  pub publisher_did : Option String
  pub did_document_hash : String
  pub metadata_hash : String
  pub registrar_did : String
  pub purpose : String
  pub verification_method : String
  pub nonce : String
  pub issued_at : Time
  pub expires_at : Time

pub record ControllerAuthorizationProofBundle : Type 0 where
  pub challenge : ControllerAuthorizationChallenge
  pub controller_did_document : DidDocument
  pub proof : DataIntegrityProof

pub record ResourceRegistrationSubmission : Type 0 where
  pub resource_did : String
  pub resource_type : ResourceType
  pub did_document : DidDocument
  pub did_document_hash : String
  pub metadata : Value
  pub package_version : String
  pub package_hash : String
  pub metadata_hash : String
  pub hash_algorithm : String
  pub registration_credential : Value
  pub subject_control_proof : SubjectControlProofBundle
  pub controller_authorization_proof : Option ControllerAuthorizationProofBundle
