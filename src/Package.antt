-- ===== src/Package.antt =====
-- Resource packages (crates/oan-package/src/lib.rs): the checks of the hashes, of the metadata and of
-- the claims that the root signs.
pub mod Hashes
pub mod Seal
pub mod Agree
use Prim.Native.String.{◌++◌ as ◌+s+◌}
use oan_protocol_common.Base.{
  String, Bool, true, false, not, ◌&&◌, ◌||◌, Option, none, some, List, [], ◌==◌, ◌!=◌, string_eq,
  list_eq, if◌then◌else◌, Result, ok, err, ◌>>=◌, ◌>>◌, fail_if, ok_or,
}
use oan_protocol_common.Chrono.{Time}
use oan_protocol_common.Json.{Value, string, object, no_fields, field}
use oan_protocol_common.Core.Suite.{CryptoSuite, ed25519_sha256, or_else}
use oan_protocol_common.Core.Kinds.{SubjectType, ResourceType, subject_eq, resource_eq, as_str}
use oan_protocol_common.Core.Document.{
  DidDocument, DataIntegrityProof, ServiceEndpoint, suite_of_proof,
}
use oan_protocol_common.Crypto.Primitives.{Primitives}
use oan_protocol_common.Crypto.Signatures.{hash_json_with_suite}

-- `PackageError`, less the errors of oan-crypto, which a hash does not return
pub data PackageError : Type 0 where
  did_document_hash_mismatch metadata_hash_mismatch package_hash_mismatch root_proof_claim_mismatch
        resource_type_mismatch :
      PackageError

pub record ResourceMetadata : Type 0 where
  pub resource_did : String
  pub resource_type : ResourceType
  pub subject_type : SubjectType
  pub publisher_did : Option String
  pub subject_did : Option String
  pub name : String
  pub description : String
  pub capability_tags : List String
  pub authorized_domains : List String
  pub protocol_bindings : List Value
  pub services : List ServiceEndpoint
  pub lifecycle_state : String
  pub package_version : String
  pub package_hash : String
  pub metadata_hash : String
  pub hash_algorithm : String
  pub updated_at : Time

pub record RootProof : Type 0 where
  pub root_did : String
  pub bulletin_event_hash : Option String
  pub signature : Option String
  pub package_claims : Option Value
  pub proof : Option DataIntegrityProof
  pub crypto_suite : Option CryptoSuite
  pub hash_algorithm : Option String

pub record ResourcePackageClaims : Type 0 where
  pub resource_did : String
  pub resource_type : ResourceType
  pub version : String
  pub did_document_hash : String
  pub metadata_hash : String
  pub package_hash : String
  pub hash_algorithm : String
  pub lifecycle_state : String
  pub authorized_domains : List String
  pub bulletin_ref : Option String

pub record ResourcePackage : Type 0 where
  pub package_version : String
  pub resource_did : String
  pub resource_type : ResourceType
  pub did_document : DidDocument
  pub did_document_raw : Option Value
  pub did_document_hash : String
  pub metadata_hash : String
  pub package_hash : String
  pub hash_algorithm : String
  pub metadata : ResourceMetadata
  pub root_proof : RootProof
  pub created_at : Time

abbrev suite_in : Option DataIntegrityProof → Option CryptoSuite
suite_in none = none
suite_in (some proof) = suite_of_proof proof

abbrev suite_or_sha256 : Option CryptoSuite → CryptoSuite
suite_or_sha256 none = ed25519_sha256
suite_or_sha256 (some suite) = suite

unfoldable pub effective_crypto_suite : ResourcePackage → CryptoSuite
unfolding suite_of_proof
effective_crypto_suite self =
    suite_or_sha256 (or_else self.root_proof.crypto_suite (suite_in self.root_proof.proof))

unfoldable pub hash_matches : String → String → String → Bool
hash_matches expected algorithm actual =
    expected == actual || expected == (algorithm +s+ (":" +s+ actual))

unfoldable pub resource_type_matches_subject : ResourceType → SubjectType → Bool
resource_type_matches_subject ResourceType.agent_instance SubjectType.agent_instance = true
resource_type_matches_subject ResourceType.agent_product SubjectType.agent_product = true
resource_type_matches_subject ResourceType.agent_service SubjectType.agent_service = true
resource_type_matches_subject ResourceType.agent_service SubjectType.agent_instance = true
resource_type_matches_subject ResourceType.skill SubjectType.skill = true
resource_type_matches_subject ResourceType.mcp_server SubjectType.mcp_server = true
resource_type_matches_subject ResourceType.tool_api SubjectType.tool_api = true
resource_type_matches_subject ResourceType.organization SubjectType.organization = true
resource_type_matches_subject ResourceType.developer SubjectType.developer = true
resource_type_matches_subject ResourceType.infrastructure_node SubjectType.infrastructure_node =
    true
resource_type_matches_subject ResourceType.root_node SubjectType.root_node = true
resource_type_matches_subject ResourceType.registrar_node SubjectType.registrar_node = true
resource_type_matches_subject ResourceType.discovery_node SubjectType.discovery_node = true
resource_type_matches_subject ResourceType.cdn_node SubjectType.cdn_node = true
resource_type_matches_subject ResourceType.vc_issuer_node SubjectType.vc_issuer_node = true
resource_type_matches_subject ResourceType.trust_indexer_node SubjectType.trust_indexer_node = true
resource_type_matches_subject ResourceType.controller SubjectType.controller = true
resource_type_matches_subject ResourceType.unspecified SubjectType.unspecified = true
resource_type_matches_subject _ _ = false

unfoldable pub verify_resource_type_consistency : ResourcePackage → Result PackageError (Unit {0})
verify_resource_type_consistency self = do
  did_metadata ← ok_or self.did_document.oan_metadata resource_type_mismatch
  fail_if
      (not (
        self.resource_type == self.metadata.resource_type
        && (self.metadata.subject_type == did_metadata.subject_type
            && (self.resource_type == did_metadata.resource_type
                && resource_type_matches_subject self.resource_type self.metadata.subject_type))))
      resource_type_mismatch

-- `unwrap_or_default` of the domains in the document's metadata
unfoldable pub document_domains : DidDocument → List String
document_domains document = elim document.oan_metadata [
  | none ↦ []
  | some metadata ↦ metadata.authorized_domains
]

unfoldable pub verify_metadata_consistency : ResourcePackage → Result PackageError (Unit {0})
verify_metadata_consistency self =
    fail_if
      (not (
        self.metadata.resource_did == self.resource_did
        && (self.metadata.package_version == self.package_version
            && (self.metadata.package_hash == self.package_hash
                && (self.metadata.metadata_hash == self.metadata_hash
                    && (self.metadata.hash_algorithm == self.hash_algorithm
                        && document_domains self.did_document
                          == self.metadata.authorized_domains))))))
      root_proof_claim_mismatch

-- The claims that are parsed say of the package what it says.
unfoldable pub claims_match : ResourcePackageClaims → ResourcePackage → Bool
claims_match parsed self =
    parsed.resource_did == self.resource_did
    && (parsed.resource_type == self.resource_type
        && (parsed.version == self.package_version
            && (parsed.did_document_hash == self.did_document_hash
                && (parsed.metadata_hash == self.metadata_hash
                    && (parsed.package_hash == self.package_hash
                        && (parsed.hash_algorithm == self.hash_algorithm
                            && (parsed.lifecycle_state == self.metadata.lifecycle_state
                                && parsed.authorized_domains
                                  == self.metadata.authorized_domains)))))))

-- The object of `json!` that is hashed, its keys in their order.
unfoldable pub package_value : ResourcePackage → Value
unfolding as_str
package_value self = object (
    field "didDocumentHash" (string self.did_document_hash) (
      field "hashAlgorithm" (string self.hash_algorithm) (
        field "metadataHash" (string self.metadata_hash) (
          field "packageVersion" (string self.package_version) (
            field "resourceDid" (string self.resource_did)
              (field "resourceType" (string (as_str self.resource_type)) no_fields))))))

-- the metadata without the hashes, which are not hashed
abbrev pub normalized : ResourceMetadata → ResourceMetadata
normalized metadata = record metadata { metadata_hash = ""; package_hash = "" }

-- What serde does: the JSON of documents and of metadata, and the claims in a value.
pub record Codecs : Type 0 where
  pub document_value : DidDocument → Value
  pub metadata_value : ResourceMetadata → Value
  pub parse_claims : Value → Option ResourcePackageClaims

module _ (primitives : Primitives) (codecs : Codecs) where
  unfoldable pub hash_resource_metadata_with_suite : CryptoSuite → ResourceMetadata → String
  hash_resource_metadata_with_suite suite metadata =
      hash_json_with_suite primitives suite (codecs.metadata_value (normalized metadata))

  unfoldable pub verify_did_document_hash : ResourcePackage → Result PackageError (Unit {0})
  verify_did_document_hash self =
      fail_if
        (not (
          hash_matches self.did_document_hash self.hash_algorithm (
            hash_json_with_suite primitives (effective_crypto_suite self)
              (codecs.document_value self.did_document))))
        did_document_hash_mismatch

  unfoldable pub verify_metadata_hash : ResourcePackage → Result PackageError (Unit {0})
  verify_metadata_hash self =
      fail_if
        (not (
          hash_matches self.metadata_hash self.hash_algorithm
            (hash_resource_metadata_with_suite (effective_crypto_suite self) self.metadata)))
        metadata_hash_mismatch

  unfoldable pub verify_package_hash : ResourcePackage → Result PackageError (Unit {0})
  verify_package_hash self =
      fail_if
        (not (
          hash_matches self.package_hash self.hash_algorithm
            (hash_json_with_suite primitives (effective_crypto_suite self) (package_value self))))
        package_hash_mismatch

module _ (codecs : Codecs) where
  unfoldable pub verify_root_claim_binding : ResourcePackage → Result PackageError (Unit {0})
  verify_root_claim_binding self = do
    claims ← ok_or self.root_proof.package_claims root_proof_claim_mismatch
    parsed ← ok_or (codecs.parse_claims claims) root_proof_claim_mismatch
    fail_if (not (claims_match parsed self)) root_proof_claim_mismatch
