-- ===== src/Tests/Packages.antt =====
-- Packages (crates/oan-package/src/lib.rs).
use oan_protocol_common.Base.{ℕ, ◌≡◌, ◌⊎◌, refl, none, some, List, [], ok}
use oan_protocol_common.Base.Int.{pos}
use oan_protocol_common.Text.{contains}
use oan_protocol_common.Json.{Value, null, string}
use oan_protocol_common.Core.Suite.{CryptoSuite}
use oan_protocol_common.Core.Kinds.{SubjectType, ResourceType}
use oan_protocol_common.Crypto.Signatures.{hash_hex, hash_json_with_suite}
use oan_protocol_common.Package.{
  ResourcePackage, ResourceMetadata, Codecs, verify_did_document_hash, verify_metadata_hash,
  verify_package_hash, verify_metadata_consistency, verify_resource_type_consistency,
  resource_type_matches_subject,
}
use oan_protocol_common.Crypto.Signatures.Collisions.{Collision}
use oan_protocol_common.Package.Hashes.{NoColon}
use oan_protocol_common.Package.Agree.{Encodes, Hashed, Agree, same_package_hash}
use oan_protocol_common.Package.Seal.{claims_of, sealed, sealed_verifies}
use oan_protocol_common.Tests.Documents.{agent_document, sample_id}
use oan_protocol_common.Tests.Keys.{sample_primitives, sample_Quotes, read_string}

abbrev sample_metadata : ResourceMetadata
sample_metadata = record {
  resource_did = sample_id;
  resource_type = ResourceType.agent_service;
  subject_type = SubjectType.agent_instance;
  publisher_did = none;
  subject_did = none;
  name = "agent";
  description = "";
  capability_tags = [];
  authorized_domains = [];
  protocol_bindings = [];
  services = [];
  lifecycle_state = "active";
  package_version = "1";
  package_hash = "";
  metadata_hash = "";
  hash_algorithm = "sha-256";
  updated_at = pos 0;
}

abbrev sample_package : ResourcePackage
sample_package = record {
  package_version = "1";
  resource_did = sample_id;
  resource_type = ResourceType.agent_service;
  did_document = agent_document;
  did_document_raw = none;
  did_document_hash = "";
  metadata_hash = "";
  package_hash = "";
  hash_algorithm = "sha-256";
  metadata = sample_metadata;
  root_proof = record {
    root_did = sample_id;
    bulletin_event_hash = none;
    signature = none;
    package_claims = some null;
    proof = none;
    crypto_suite = none;
    hash_algorithm = none;
  };
  created_at = pos 0;
}

-- A document is encoded as its identifier, metadata as its name, and every value is read as the claims
-- of the sample.
abbrev package_codecs : Codecs
package_codecs = record {
  document_value = λ d. string d.id;
  metadata_value = λ m. string m.name;
  parse_claims = λ v. some (claims_of sample_package none);
}

hash_colon : (s : CryptoSuite) (b : List ℕ) → NoColon (hash_hex sample_primitives s b)
unfolding hash_hex contains
hash_colon CryptoSuite.ed25519_sha256_legacy b = refl
hash_colon CryptoSuite.ed25519_sha256 b = refl
hash_colon CryptoSuite.sm2_sm3 b = refl

json_colon : (s : CryptoSuite) (v : Value) → NoColon (hash_json_with_suite sample_primitives s v)
unfolding hash_json_with_suite
json_colon s v = hash_colon s _

sample_Encodes : Encodes sample_primitives package_codecs
sample_Encodes = record { no_colon = json_colon; document_json = λ d. tt; metadata_json = λ m. tt }

sealed_verifies_example :
    (verify_did_document_hash sample_primitives package_codecs
        (sealed sample_primitives package_codecs sample_package)
      ≡ ok tt)
    × (verify_metadata_hash sample_primitives package_codecs
          (sealed sample_primitives package_codecs sample_package)
        ≡ ok tt)
    × (verify_package_hash sample_primitives package_codecs
          (sealed sample_primitives package_codecs sample_package)
        ≡ ok tt)
    × (verify_metadata_consistency (sealed sample_primitives package_codecs sample_package) ≡ ok tt)
sealed_verifies_example = sealed_verifies sample_primitives package_codecs sample_package

sealed-Hashed :
    Hashed sample_primitives package_codecs (sealed sample_primitives package_codecs sample_package)
sealed-Hashed =
    let (document, metadata, hash, same) =
      sealed_verifies sample_primitives package_codecs sample_package in
    (hash, document, metadata)

same_package_hash_example :
    Agree package_codecs
      (sealed sample_primitives package_codecs sample_package)
      (sealed sample_primitives package_codecs sample_package)
    ⊎ Collision sample_primitives
same_package_hash_example =
    same_package_hash sample_primitives package_codecs read_string sample_Quotes sample_Encodes
      (sealed sample_primitives package_codecs sample_package)
      (sealed sample_primitives package_codecs sample_package) sealed-Hashed sealed-Hashed refl

types_agree : verify_resource_type_consistency sample_package ≡ ok tt
unfolding verify_resource_type_consistency resource_type_matches_subject
types_agree = refl
