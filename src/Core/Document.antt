-- ===== src/Core/Document.antt =====
-- DID documents and their parts (crates/oan-core/src/lib.rs). A `u16` or `u64` is a number, and a
-- field that the source leaves out of the JSON when it is absent is an option.
use oan_protocol_common.Base.{ℕ, String, Bool, Option, List, [], ◌∷◌, any, ◌==◌, string_eq}
use oan_protocol_common.Chrono.{Time}
use oan_protocol_common.BTreeMap.{BTreeMap}
use oan_protocol_common.Json.{Value}
use oan_protocol_common.Core.Suite.{
  CryptoSuite, or_else, from_proof_type, from_verification_method_type,
}
use oan_protocol_common.Core.Kinds.{SubjectType, ResourceType}

pub record VerificationMethod : Type 0 where
  pub id : String
  pub method_type : String
  pub controller : String
  pub crypto_suite : Option CryptoSuite
  pub public_key_format : Option String
  pub public_key_multibase : Option String
  pub public_key_jwk : Option Value

-- `VerificationMethod::crypto_suite`
unfoldable pub suite_of_method : VerificationMethod → Option CryptoSuite
suite_of_method method =
    or_else method.crypto_suite (from_verification_method_type method.method_type)

pub record DataIntegrityProof : Type 0 where
  pub context : Option String
  pub proof_type : String
  pub creator : String
  pub created : Time
  pub proof_purpose : String
  pub proof_value : String
  pub crypto_suite : Option CryptoSuite
  pub hash_algorithm : Option String
  pub verification_method : Option String

-- `DataIntegrityProof::crypto_suite`
unfoldable pub suite_of_proof : DataIntegrityProof → Option CryptoSuite
suite_of_proof proof = or_else proof.crypto_suite (from_proof_type proof.proof_type)

pub record ServiceEndpoint : Type 0 where
  pub id : String
  pub service_type : String
  pub service_endpoint : String
  pub version : Option String
  pub protocol : Option String
  pub server_type : Option String
  pub port : Option ℕ

pub record AddressBinding : Type 0 where
  pub id : String
  pub address_type : String
  pub network : String
  pub address : String
  pub controller : String
  pub purpose : String

pub record AgentDescription : Type 0 where
  pub capability_description : String
  pub capability_tags : List String
  pub use_case_examples : List String

pub record ResourceDescription : Type 0 where
  pub name : Option String
  pub description : Option String
  pub capability_description : Option String
  pub capability_tags : List String
  pub use_case_examples : List String
  pub input_schema : Option Value
  pub output_schema : Option Value
  pub examples : List Value
  pub audience : Option Value
  pub domain : Option Value
  pub language : Option Value
  pub version : Option String

pub record ProtocolBinding : Type 0 where
  pub id : String
  pub protocol : String
  pub version : Option String
  pub transport : Option String
  pub service_ref : Option String
  pub schema_ref : Option String
  pub extra : BTreeMap Value

pub record ImplementationLink : Type 0 where
  pub relation : String
  pub target_did : String
  pub target_type : Option ResourceType
  pub target_service : Option String
  pub version_constraint : Option String

pub data CredentialIssuer : Type 0 where
  did : String → CredentialIssuer
  dids : List String → CredentialIssuer

pub record CredentialRequirement : Type 0 where
  pub id : String
  pub purpose : String
  pub credential_type : String
  pub issuer : Option CredentialIssuer
  pub scope : Option Value
  pub presentation_mode : Option String
  pub required : Bool

pub record PackageInfo : Type 0 where
  pub manifest_url : Option String
  pub download_url : Option String
  pub package_hash : Option String
  pub metadata_hash : Option String
  pub root_proof_ref : Option String
  pub version : Option String
  pub version_scheme : Option String
  pub previous_version : Option String
  pub release_notes_url : Option String
  pub created_at : Option Time
  pub updated_at : Option Time
  pub expires_at : Option Time

pub record ExternalIdentifier : Type 0 where
  pub id : String
  pub resolution_service_endpoint : Option String

pub data DidController : Type 0 where
  did : String → DidController
  dids : List String → DidController

-- `DidController::contains`
unfoldable pub controls : DidController → String → Bool
controls (DidController.did value) target = value == target
controls (DidController.dids values) target = any (λ value. value == target) values

pub record OanMetadata : Type 0 where
  pub subject_type : SubjectType
  pub resource_type : ResourceType
  pub external_identifiers : List ExternalIdentifier
  pub identity_type : Option String
  pub controller_did : Option String
  pub publisher_did : Option String
  pub issuer_did : Option String
  pub ttl : Option ℕ
  pub resource_description : Option ResourceDescription
  pub agent_description : Option AgentDescription
  pub capability_tags : List String
  pub authorized_domains : List String
  pub protocol_bindings : List ProtocolBinding
  pub implementation_links : List ImplementationLink
  pub credential_requirements : List CredentialRequirement
  pub package_info : Option PackageInfo
  pub service_policy : Option String
  pub network_scope : Option String
  pub lifecycle_state : Option String
  pub extra : BTreeMap Value

pub record DidDocument : Type 0 where
  pub context : List String
  pub id : String
  pub controller : Option DidController
  pub verification_method : List VerificationMethod
  pub authentication : List String
  pub assertion_method : List String
  pub capability_invocation : List String
  pub service : List ServiceEndpoint
  pub proof : Option DataIntegrityProof
  pub oan_metadata : Option OanMetadata

abbrev pub did_oan_contexts : List String
did_oan_contexts =
    "https://www.w3.org/ns/did/v1" ∷ "https://openagenet.xyz/did-oan-specs/v1"
    ∷ "https://w3id.org/security/suites/ed25519-2020/v1" ∷ []
