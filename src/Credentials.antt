-- ===== src/Credentials.antt =====
-- Credentials (crates/oan-credentials/src/lib.rs): their data, and the validation of each kind.
pub mod Kinds
pub mod Proofs
pub mod Identity
use oan_protocol_common.Base.{
  String, Bool, true, false, not, ◌||◌, Option, List, [], ◌∷◌, ◌==◌, ◌!=◌, string_eq, list_eq,
  Result, ok, err, ◌>>=◌, ◌>>◌, fail_if,
}
use oan_protocol_common.Chrono.{Time}
use oan_protocol_common.BTreeMap.{BTreeMap}
use oan_protocol_common.Json.{Value}
use oan_protocol_common.Core.Kinds.{SubjectType, ResourceType}
use oan_protocol_common.Core.Profile.Types.{OanProof}
use oan_protocol_common.Crypto.Keys.{CryptoError}

pub data CredentialError : Type 0 where
  crypto : CryptoError → CredentialError
  missing_proof invalid_signature invalid_type invalid_subject : CredentialError
  serialization : String → CredentialError

abbrev pub vc_infrastructure_authorization : String
vc_infrastructure_authorization = "OANInfrastructureAuthorizationCredential"

abbrev pub vc_resource_registration : String
vc_resource_registration = "OANResourceRegistrationCredential"

abbrev pub vc_business_fact : String
vc_business_fact = "OANBusinessFactCredential"

abbrev pub vc_qualification : String
vc_qualification = "OANQualificationCredential"

abbrev pub vc_audit_result : String
vc_audit_result = "OANAuditResultCredential"

abbrev pub vc_self_claimed_capability : String
vc_self_claimed_capability = "OANSelfClaimedCapabilityCredential"

abbrev pub oan_vc_contexts : List String
oan_vc_contexts =
    "https://www.w3.org/2018/credentials/v1" ∷ "https://openagenet.xyz/did-oan-specs/v1"
    ∷ "https://w3id.org/security/suites/ed25519-2020/v1" ∷ []

pub record CredentialStatusReference : Type 0 where
  pub id : String
  pub status_type : String
  pub credential_id : Option String
  pub subject_did : Option String
  pub issuer_did : Option String
  pub status : Option String
  pub updated_at : Option Time
  pub extra : BTreeMap Value

pub record CredentialSchemaReference : Type 0 where
  pub id : String
  pub schema_type : String

pub record OanVerifiableCredential (T : Type 0) : Type 0 where
  pub context : List String
  pub id : Option String
  pub credential_type : List String
  pub issuer : String
  pub issuance_date : Time
  pub expiration_date : Option Time
  pub credential_subject : T
  pub credential_status : Option CredentialStatusReference
  pub credential_schema : Option CredentialSchemaReference
  pub proof : OanProof

pub record InfrastructureAuthorizationCredentialSubject : Type 0 where
  pub id : String
  pub role : String
  pub subject_type : String
  pub resource_type : String
  pub endpoint : Option String
  pub authorized_domains : List String
  pub did_document_hash : String

pub record ExternalIdentifierReference : Type 0 where
  pub id : String

pub record ResourceRegistrationCredentialSubject : Type 0 where
  pub id : String
  pub resource_type : ResourceType
  pub subject_type : SubjectType
  pub registrar_did : String
  pub did_document_hash : String
  pub metadata_hash : String
  pub package_hash : String
  pub package_version : String
  pub hash_algorithm : String
  pub authorized_domains : List String
  pub external_identifiers : List ExternalIdentifierReference
  pub lifecycle_state : String

pub record BusinessFactCredentialSubject : Type 0 where
  pub id : String
  pub subject_type : String
  pub fact_type : String
  pub claim : Value

pub record QualificationCredentialSubject : Type 0 where
  pub id : String
  pub subject_type : String
  pub qualification_type : String
  pub qualification : Value

pub record AuditResultCredentialSubject : Type 0 where
  pub id : String
  pub subject_type : String
  pub audit_type : String
  pub result : Value
  pub audited_at : Time

pub record SelfClaimedCapabilityCredentialSubject : Type 0 where
  pub id : String
  pub capability : String
  pub claim : Value

pub data GovernedInfrastructureRole : Type 0 where
  root registrar discovery vc_issuer : GovernedInfrastructureRole

-- `GovernedInfrastructureRole::resource_type`
unfoldable pub resource_type_of : GovernedInfrastructureRole → String
resource_type_of root = "root_node"
resource_type_of registrar = "registrar_node"
resource_type_of discovery = "discovery_node"
resource_type_of vc_issuer = "vc_issuer_node"

unfoldable pub as_str : GovernedInfrastructureRole → String
as_str root = "root"
as_str registrar = "registrar"
as_str discovery = "discovery"
as_str vc_issuer = "vc_issuer"

abbrev pub Check : Type 0
Check = Result CredentialError (Unit {0})
