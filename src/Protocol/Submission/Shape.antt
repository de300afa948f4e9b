-- ===== src/Protocol/Submission/Shape.antt =====
-- What `validate_shape` accepts.
use Prim.Native.String.{◌++◌ as ◌+s+◌}
use oan_protocol_common.Base.{
  String, ◌≡◌, refl, true, false, Option, none, some, ◌!=◌, string_eq, arith, eq_iff, Result, ok,
  err, ◌>>=◌, ◌>>◌, fail_if-eq-ok, fail_if-last, >>=-eq-ok,
}
use oan_protocol_common.Text.{contains, starts_with, is_blank}
use oan_protocol_common.Base58.{DidOanError}
use oan_protocol_common.Did
use oan_protocol_common.Did.{DidOan}
use oan_protocol_common.Core.Kinds.{ResourceType, resource_eq}
use oan_protocol_common.Core.Document.{OanMetadata}
use oan_protocol_common.Core.Codecs.{Codecs}
use oan_protocol_common.Core.Validate.{DidDocumentError, validate_oan_resource}
use oan_protocol_common.Core.Validate.Resource.{IsResource, validate_oan_resource_iff}
use oan_protocol_common.Protocol.{
  ResourceRegistrationSubmission, ControllerAuthorizationProofBundle, DidControlChallenge,
}
use oan_protocol_common.Protocol.Submission.{
  HashField, did_document_hash, metadata_hash, package_hash, ShapeError, did_document_id_mismatch,
  resource_type_mismatch, empty_package_version, empty_hash_algorithm, empty, algorithm_mismatch,
  of_did, of_document, other_type, validate_hash_reference, check_challenge, check_authorization,
  validate_shape,
}

not_ne : (s t : String) → (s != t) ≡ false → s ≡ t
not_ne s t h = ground (arith, eq_iff s t)

-- A hash is some text, and names the algorithm if it names one.
abbrev IsHash : String → String → Type 0
IsHash value algorithm =
    (is_blank value ≡ false)
    × (contains value b':' ≡ true → starts_with (algorithm +s+ ":") value ≡ true)

IsHash-sound :
    (name : HashField) (value algorithm : String)
    → validate_hash_reference name value algorithm ≡ ok tt
    → IsHash value algorithm
unfolding validate_hash_reference
IsHash-sound name value algorithm h =
    let (some_text, h1) = (fail_if-eq-ok _ (empty name) _ tt).0 h in
    let algorithm_named = (fail_if-last _ (algorithm_mismatch name)).0 h1 in
    (some_text, λ c. ground arith)

-- The challenge for the subject is for this registration.
pub record IsChallenge (s : ResourceRegistrationSubmission) (challenge : DidControlChallenge)
    : Type 0 where
  pub subject : challenge.subject_did ≡ s.resource_did
  pub document : challenge.did_document_hash ≡ s.did_document_hash
  pub purpose : challenge.purpose ≡ "resource-registration"

IsChallenge-sound :
    (s : ResourceRegistrationSubmission) (challenge : DidControlChallenge)
    → check_challenge s challenge ≡ ok tt
    → IsChallenge s challenge
unfolding check_challenge
IsChallenge-sound s challenge h =
    let (subject, h1) = (fail_if-eq-ok _ _ _ tt).0 h in
    let (document, h2) = (fail_if-eq-ok _ _ _ tt).0 h1 in
    let purpose = (fail_if-last _ _).0 h2 in
    record {
      subject = not_ne _ _ subject;
      document = not_ne _ _ document;
      purpose = not_ne challenge.purpose "resource-registration" purpose;
    }

-- A controller's authorization, where there is one, is for this registration.
abbrev IsAuthorized :
    ResourceRegistrationSubmission → Option ControllerAuthorizationProofBundle → Type 0
IsAuthorized s none = Unit
IsAuthorized s (some bundle) =
    (bundle.challenge.resource_did ≡ s.resource_did)
    × (bundle.challenge.did_document_hash ≡ s.did_document_hash)
    × (bundle.challenge.metadata_hash ≡ s.metadata_hash)
    × (bundle.challenge.purpose ≡ "resource-registration-controller-authorization")
    × (bundle.controller_did_document.id ≡ bundle.challenge.controller_did)

IsAuthorized-sound :
    (s : ResourceRegistrationSubmission) (o : Option ControllerAuthorizationProofBundle)
    → check_authorization s o ≡ ok tt
    → IsAuthorized s o
unfolding check_authorization
IsAuthorized-sound s none h = tt
IsAuthorized-sound s (some bundle) h =
    let (resource, h1) = (fail_if-eq-ok _ _ _ tt).0 h in
    let (document, h2) = (fail_if-eq-ok _ _ _ tt).0 h1 in
    let (metadata, h3) = (fail_if-eq-ok _ _ _ tt).0 h2 in
    let (purpose, h4) = (fail_if-eq-ok _ _ _ tt).0 h3 in
    let controller = (fail_if-last _ _).0 h4 in
    (
      not_ne _ _ resource,
      not_ne _ _ document,
      not_ne _ _ metadata,
      not_ne bundle.challenge.purpose "resource-registration-controller-authorization" purpose,
      not_ne _ _ controller,
    )

type_sound :
    (o : Option OanMetadata) (expected : ResourceType)
    → other_type o expected ≡ false
    → (metadata : OanMetadata) × (o ≡ some metadata) × (metadata.resource_type ≡ expected)
type_sound none expected h = cc
type_sound (some metadata) expected h =
    (metadata, refl, ground (arith, resource_eq.test_iff metadata.resource_type expected))

of_did-eq-ok :
    {B : Type 0} (m : Result DidOanError DidOan) (next : DidOan → Result ShapeError B) (b : B)
    → (of_did m >>= next) ≡ ok b
    → (did : DidOan) × (m ≡ ok did) × (next did ≡ ok b)
of_did-eq-ok (ok did) next b h = (did, refl, h)
of_did-eq-ok (err e) next b h = cc

of_document-eq-ok :
    {B : Type 0} (m : Result DidDocumentError (Unit {0})) (rest : Result ShapeError B) (b : B)
    → (of_document m >> rest) ≡ ok b
    → (m ≡ ok tt) × (rest ≡ ok b)
of_document-eq-ok (ok _) rest b h = (refl, h)
of_document-eq-ok (err e) rest b h = cc

module _ (codecs : Codecs) where
  pub record IsSubmission (s : ResourceRegistrationSubmission) : Type 0 where
    pub did : DidOan
    pub metadata : OanMetadata
    pub parsed : Did.parse s.resource_did ≡ ok did
    pub same_id : s.did_document.id ≡ s.resource_did
    pub resource : IsResource codecs s.did_document
    pub has_metadata : s.did_document.oan_metadata ≡ some metadata
    pub typed : metadata.resource_type ≡ s.resource_type
    pub versioned : is_blank s.package_version ≡ false
    pub hashes :
        IsHash s.did_document_hash s.hash_algorithm
        × IsHash s.metadata_hash s.hash_algorithm
        × IsHash s.package_hash s.hash_algorithm
    pub challenge : IsChallenge s s.subject_control_proof.challenge
    pub authorized : IsAuthorized s s.controller_authorization_proof

  -- A submission that `validate_shape` accepts has a parsed identifier, which is its document's;
  -- the document is a resource's document of the type that is submitted; the hashes are texts that
  -- name no other algorithm; and the challenge and the controller's authorization, where there is
  -- one, are for this registration.
  pub validate_shape_sound :
      (s : ResourceRegistrationSubmission) → validate_shape codecs s ≡ ok tt → IsSubmission s
  unfolding validate_shape
  validate_shape_sound s h =
      let (did, parsed, h1) = of_did-eq-ok (Did.parse s.resource_did) _ tt h in
      let (same, h2) = (fail_if-eq-ok _ did_document_id_mismatch _ tt).0 h1 in
      let (resource, h3) =
        of_document-eq-ok (validate_oan_resource codecs s.did_document) _ tt h2 in
      let (typed, h4) =
        (fail_if-eq-ok (other_type s.did_document.oan_metadata s.resource_type)
            resource_type_mismatch _ tt).0
          h3 in
      let (versioned, h5) = (fail_if-eq-ok _ empty_package_version _ tt).0 h4 in
      let (_, h6) = (fail_if-eq-ok _ empty_hash_algorithm _ tt).0 h5 in
      let (_, a, h7) =
        >>=-eq-ok (validate_hash_reference did_document_hash s.did_document_hash s.hash_algorithm) _
          {b = tt} h6 in
      let (_, b, h8) =
        >>=-eq-ok (validate_hash_reference metadata_hash s.metadata_hash s.hash_algorithm) _
          {b = tt} h7 in
      let (_, c, h9) =
        >>=-eq-ok (validate_hash_reference package_hash s.package_hash s.hash_algorithm) _ {b = tt}
          h8 in
      let (_, challenge, authorized) =
        >>=-eq-ok (check_challenge s s.subject_control_proof.challenge) _ {b = tt} h9 in
      let (metadata, has, same_type) = type_sound _ _ typed in
      record {
        did = did;
        metadata = metadata;
        parsed = parsed;
        same_id = not_ne _ _ same;
        resource = (validate_oan_resource_iff codecs s.did_document).0 resource;
        has_metadata = has;
        typed = same_type;
        versioned = versioned;
        hashes = (IsHash-sound _ _ _ a, IsHash-sound _ _ _ b, IsHash-sound _ _ _ c);
        challenge = IsChallenge-sound _ _ challenge;
        authorized = IsAuthorized-sound _ _ authorized;
      }
