-- ===== src/Credentials/Kinds.antt =====
-- The validation of a credential of each kind: its types, and the fields of its subject.
pub mod Roles
use oan_protocol_common.Base.{
  String, Bool, true, false, not, ◌&&◌, ◌||◌, List, [], ◌∷◌, any, ◌==◌, ◌!=◌, string_eq, list_eq,
  Result, ok, err, ◌>>=◌, ◌>>◌, fail_if,
}
use oan_protocol_common.Credentials.{
  CredentialError, invalid_type, invalid_subject, Check, OanVerifiableCredential,
  InfrastructureAuthorizationCredentialSubject, ResourceRegistrationCredentialSubject,
  BusinessFactCredentialSubject, QualificationCredentialSubject, AuditResultCredentialSubject,
  SelfClaimedCapabilityCredentialSubject, vc_infrastructure_authorization, vc_resource_registration,
  vc_business_fact, vc_qualification, vc_audit_result, vc_self_claimed_capability,
}

-- `credential_type.as_slice() != ["VerifiableCredential", kind]`
abbrev check_type : List String → String → Check
check_type credential_type kind =
    fail_if (credential_type != ("VerifiableCredential" ∷ kind ∷ [])) invalid_type

-- whether one of the fields is empty
abbrev pub any_empty : List String → Bool
any_empty fields = any (λ s. s == "") fields

-- the pairs of a role and a type of resource that `matches!` lists
unfoldable pub role_resource_matches : String → String → Bool
role_resource_matches role resource_type =
    role == "root" && resource_type == "root_node"
    || (role == "registrar" && resource_type == "registrar_node"
        || (role == "discovery" && resource_type == "discovery_node"
            || role == "vc_issuer" && resource_type == "vc_issuer_node"))

unfoldable pub validate_infrastructure_authorization_credential :
    OanVerifiableCredential InfrastructureAuthorizationCredentialSubject → Check
validate_infrastructure_authorization_credential credential = do
  check_type credential.credential_type vc_infrastructure_authorization
  fail_if
      ((credential.credential_subject.subject_type != "infrastructure_node")
        || not (
            role_resource_matches credential.credential_subject.role
              credential.credential_subject.resource_type))
      invalid_subject
  fail_if
      (any_empty
        (credential.credential_subject.id ∷ credential.credential_subject.did_document_hash ∷ []))
      invalid_subject

unfoldable validate_resource_registration_credential :
    OanVerifiableCredential ResourceRegistrationCredentialSubject → Check
validate_resource_registration_credential credential = do
  check_type credential.credential_type vc_resource_registration
  fail_if
      (any_empty (
        credential.credential_subject.id ∷ credential.credential_subject.registrar_did
        ∷ credential.credential_subject.did_document_hash
        ∷ credential.credential_subject.metadata_hash ∷ credential.credential_subject.package_hash
        ∷ credential.credential_subject.package_version
        ∷ credential.credential_subject.hash_algorithm ∷ []))
      invalid_subject

unfoldable validate_business_subject : BusinessFactCredentialSubject → Check
validate_business_subject subject =
    fail_if (any_empty (subject.id ∷ subject.subject_type ∷ subject.fact_type ∷ [])) invalid_subject

unfoldable validate_business_fact_credential :
    OanVerifiableCredential BusinessFactCredentialSubject → Check
unfolding validate_business_subject
validate_business_fact_credential credential = do
  check_type credential.credential_type vc_business_fact
  validate_business_subject credential.credential_subject

unfoldable validate_qualification_credential :
    OanVerifiableCredential QualificationCredentialSubject → Check
validate_qualification_credential credential = do
  check_type credential.credential_type vc_qualification
  fail_if
      (any_empty (
        credential.credential_subject.id ∷ credential.credential_subject.subject_type
        ∷ credential.credential_subject.qualification_type ∷ []))
      invalid_subject

unfoldable validate_audit_result_credential :
    OanVerifiableCredential AuditResultCredentialSubject → Check
validate_audit_result_credential credential = do
  check_type credential.credential_type vc_audit_result
  fail_if
      (any_empty (
        credential.credential_subject.id ∷ credential.credential_subject.subject_type
        ∷ credential.credential_subject.audit_type ∷ []))
      invalid_subject

unfoldable validate_self_claimed_capability_credential :
    OanVerifiableCredential SelfClaimedCapabilityCredentialSubject → Check
validate_self_claimed_capability_credential credential = do
  check_type credential.credential_type vc_self_claimed_capability
  fail_if
      (any_empty (credential.credential_subject.id ∷ credential.credential_subject.capability ∷ []))
      invalid_subject
