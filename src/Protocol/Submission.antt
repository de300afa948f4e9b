-- ===== src/Protocol/Submission.antt =====
-- The shape of a registration: `validate_resource_routing_code` and
-- `ResourceRegistrationSubmission::validate_shape`.
pub mod Shape
use Prim.Native.String.{◌++◌ as ◌+s+◌, slice}
use oan_protocol_common.Base.{
  String, Bool, true, false, not, ◌&&◌, Option, none, some, ◌==◌, ◌!=◌, string_eq, Result, ok, err,
  ◌>>=◌, ◌>>◌, fail_if,
}
use oan_protocol_common.Text.{contains, starts_with, is_blank}
use oan_protocol_common.Base58.{DidOanError}
use oan_protocol_common.Did
use oan_protocol_common.Did.{DidOan}
use oan_protocol_common.Core.Kinds.{ResourceType, resource_eq}
use oan_protocol_common.Core.Document.{OanMetadata}
use oan_protocol_common.Core.Codecs.{Codecs}
use oan_protocol_common.Core.Validate.{DidDocumentError, validate_oan_resource}
use oan_protocol_common.Protocol.{
  ResourceRegistrationSubmission, SubjectControlProofBundle, ControllerAuthorizationProofBundle,
  DidControlChallenge, purpose_resource_registration, purpose_controller_authorization_registration,
}

-- The fields that `validate_hash_reference` is called for.
pub data HashField : Type 0 where
  did_document_hash metadata_hash package_hash : HashField

-- The texts of the errors, and the errors that are turned into their text.
pub data ShapeError : Type 0 where
  resource_routing_code_mismatch did_document_id_mismatch resource_type_mismatch
        empty_package_version empty_hash_algorithm challenge_subject_did_mismatch
        challenge_did_document_hash_mismatch challenge_purpose_mismatch
        controller_authorization_resource_did_mismatch
        controller_authorization_did_document_hash_mismatch
        controller_authorization_metadata_hash_mismatch controller_authorization_purpose_mismatch
        controller_authorization_did_document_id_mismatch :
      ShapeError
  empty algorithm_mismatch : HashField → ShapeError
  identifier : DidOanError → ShapeError
  document : DidDocumentError → ShapeError

abbrev pub of_did {ℓ} : {A : Type ℓ} → Result DidOanError A → Result ShapeError A
of_did (ok a) = ok a
of_did (err e) = err (identifier e)

abbrev pub of_document {ℓ} : {A : Type ℓ} → Result DidDocumentError A → Result ShapeError A
of_document (ok a) = ok a
of_document (err e) = err (document e)

unfoldable validate_resource_routing_code : String → String → Result ShapeError (Unit {0})
validate_resource_routing_code resource_did registrar_did = do
  resource ← of_did (Did.parse resource_did)
  registrar ← of_did (Did.parse registrar_did)
  fail_if (resource.routing_code != slice registrar.suffix_code 0 5) resource_routing_code_mismatch

unfoldable pub validate_hash_reference : HashField → String → String → Result ShapeError (Unit {0})
validate_hash_reference name value algorithm = do
  fail_if (is_blank value) (empty name)
  fail_if (contains value b':' && not (starts_with (algorithm +s+ ":") value))
      (algorithm_mismatch name)

-- `metadata.resource_type != self.resource_type`, and true without metadata
abbrev pub other_type : Option OanMetadata → ResourceType → Bool
other_type none expected = true
other_type (some metadata) expected = metadata.resource_type != expected

-- the checks of the challenge for the subject
unfoldable pub check_challenge :
    ResourceRegistrationSubmission → DidControlChallenge → Result ShapeError (Unit {0})
check_challenge s challenge = do
  fail_if (challenge.subject_did != s.resource_did) challenge_subject_did_mismatch
  fail_if (challenge.did_document_hash != s.did_document_hash) challenge_did_document_hash_mismatch
  fail_if (challenge.purpose != purpose_resource_registration) challenge_purpose_mismatch

-- the checks of the controller's authorization, where there is one
unfoldable pub check_authorization :
    ResourceRegistrationSubmission
    → Option ControllerAuthorizationProofBundle
    → Result ShapeError (Unit {0})
check_authorization s none = ok tt
check_authorization s (some bundle) = do
  fail_if (bundle.challenge.resource_did != s.resource_did)
      controller_authorization_resource_did_mismatch
  fail_if (bundle.challenge.did_document_hash != s.did_document_hash)
      controller_authorization_did_document_hash_mismatch
  fail_if (bundle.challenge.metadata_hash != s.metadata_hash)
      controller_authorization_metadata_hash_mismatch
  fail_if (bundle.challenge.purpose != purpose_controller_authorization_registration)
      controller_authorization_purpose_mismatch
  fail_if (bundle.controller_did_document.id != bundle.challenge.controller_did)
      controller_authorization_did_document_id_mismatch

module _ (codecs : Codecs) where
  unfoldable pub validate_shape : ResourceRegistrationSubmission → Result ShapeError (Unit {0})
  validate_shape s = do
    _ ← of_did (Did.parse s.resource_did)
    fail_if (s.did_document.id != s.resource_did) did_document_id_mismatch
    of_document (validate_oan_resource codecs s.did_document)
    fail_if (other_type s.did_document.oan_metadata s.resource_type) resource_type_mismatch
    fail_if (is_blank s.package_version) empty_package_version
    fail_if (is_blank s.hash_algorithm) empty_hash_algorithm
    validate_hash_reference did_document_hash s.did_document_hash s.hash_algorithm
    validate_hash_reference metadata_hash s.metadata_hash s.hash_algorithm
    validate_hash_reference package_hash s.package_hash s.hash_algorithm
    check_challenge s s.subject_control_proof.challenge
    check_authorization s s.controller_authorization_proof
