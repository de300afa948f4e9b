-- ===== src/Tests/Documents.antt =====
-- A DID document of an agent, one of a node, and the checks of each.
use Prim.Native.String.{len}
use oan_protocol_common.Base.{
  ℕ, zero, suc, String, ◌≡◌, ◌↔◌, refl, none, some, List, [], ◌∷◌, ok, length, nat_beq,
  if◌then◌else◌,
}
use oan_protocol_common.Base.Int.{pos}
use oan_protocol_common.Text.{strip_prefix, starts_with, split, all_chars, contains}
use oan_protocol_common.BTreeMap.{get}
use oan_protocol_common.Base58.{in_class, class_run, validate_routing_code, validate_suffix_code}
use oan_protocol_common.Did.{parse, parse_parts, is_match}
use oan_protocol_common.Core.Suite.{from_verification_method_type}
use oan_protocol_common.Core.Kinds.{SubjectType, ResourceType, valid_type_combination}
use oan_protocol_common.Core.Document.{
  DidDocument, DidController, DataIntegrityProof, VerificationMethod, OanMetadata,
  ExternalIdentifier, controls, suite_of_method, did_oan_contexts,
}
use oan_protocol_common.Core.Codecs.{Codecs}
use oan_protocol_common.Core.Validate.{
  validate_mvp, validate_proof, validate_oan_resource, validate_external_identifiers,
  check_identifiers, validate_endpoint, validate_infrastructure_profile, service_type_of,
}
use oan_protocol_common.Core.Validate.Resource.{IsResource, validate_oan_resource_iff}
use oan_protocol_common.Core.Validate.Infrastructure.{IsNode, validate_infrastructure_profile_iff}

abbrev pub zeros : ℕ → List ℕ
zeros zero = []
zeros (suc n) = 0 ∷ zeros n

-- Every text decodes to 64 zeros, but for "key", which is a multicodec key.
abbrev pub sample_codecs : Codecs
sample_codecs = record {
  bs58_decode = λ s. if nat_beq (len s) 3 then some (0xED ∷ 0x01 ∷ zeros 32) else some (zeros 64);
  bs58_encode = λ b. if nat_beq (length b) 34 then "key" else "signature";
  base64_decode = λ s. some (zeros 32);
  parse_url = λ s. some (record { scheme = "https"; username = ""; password = none });
  serialized_len = λ l. some (length l);
  verifying_key = λ secret. zeros 32;
}

abbrev pub sample_id : String
sample_id = "did:oan:aB3dE:7YpQm9Kx2VnRb6Ts3WfHa4Cd5Ej8LgNz"

abbrev pub sample_key : String
sample_key = "did:oan:aB3dE:7YpQm9Kx2VnRb6Ts3WfHa4Cd5Ej8LgNz#key-1"

abbrev pub sample_method : VerificationMethod
sample_method = record {
  id = sample_key;
  method_type = "Ed25519VerificationKey2020";
  controller = sample_id;
  crypto_suite = none;
  public_key_format = none;
  public_key_multibase = some "zkey";
  public_key_jwk = none;
}

abbrev pub sample_proof : DataIntegrityProof
sample_proof = record {
  context = none;
  proof_type = "Ed25519Signature2020";
  creator = "";
  created = pos 0;
  proof_purpose = "assertionMethod";
  proof_value = "zsignature";
  crypto_suite = none;
  hash_algorithm = none;
  verification_method = some sample_key;
}

abbrev sample_identifiers : List ExternalIdentifier
sample_identifiers =
    record { id = "a"; resolution_service_endpoint = none }
    ∷ record { id = "a"; resolution_service_endpoint = some "https://example.org" }
    ∷ []

abbrev metadata_of : SubjectType → ResourceType → OanMetadata
metadata_of subject resource = record {
  subject_type = subject;
  resource_type = resource;
  external_identifiers = sample_identifiers;
  identity_type = none;
  controller_did = some sample_id;
  publisher_did = none;
  issuer_did = none;
  ttl = none;
  resource_description = none;
  agent_description = none;
  capability_tags = [];
  authorized_domains = [];
  protocol_bindings = [];
  implementation_links = [];
  credential_requirements = [];
  package_info = none;
  service_policy = none;
  network_scope = none;
  lifecycle_state = none;
  extra = [];
}

abbrev document_of : OanMetadata → DidDocument
document_of metadata = record {
  context = did_oan_contexts;
  id = sample_id;
  controller = some (DidController.did sample_id);
  verification_method = sample_method ∷ [];
  authentication = sample_key ∷ [];
  assertion_method = sample_key ∷ [];
  capability_invocation = [];
  service =
      record {
        id = "s";
        service_type = "OANRootService";
        service_endpoint = "https://example.org";
        version = none;
        protocol = none;
        server_type = none;
        port = none;
      }
      ∷ [];
  proof = some sample_proof;
  oan_metadata = some metadata;
}

abbrev pub agent_document : DidDocument
agent_document = document_of (metadata_of SubjectType.agent_instance ResourceType.agent_service)

abbrev root_document : DidDocument
root_document = document_of (metadata_of SubjectType.infrastructure_node ResourceType.root_node)

pub agent_accepted : validate_oan_resource sample_codecs agent_document ≡ ok tt
unfolding validate_oan_resource validate_mvp validate_proof validate_external_identifiers
    check_identifiers validate_endpoint valid_type_combination controls parse parse_parts is_match
    starts_with strip_prefix split all_chars contains class_run in_class validate_routing_code
    validate_suffix_code
agent_accepted = refl

validate_oan_resource_iff_example :
    (validate_oan_resource sample_codecs agent_document ≡ ok tt)
    ↔ IsResource sample_codecs agent_document
validate_oan_resource_iff_example = validate_oan_resource_iff sample_codecs agent_document

root_accepted : validate_infrastructure_profile root_document ResourceType.root_node ≡ ok tt
unfolding validate_infrastructure_profile validate_mvp service_type_of controls get suite_of_method
    from_verification_method_type
root_accepted = refl

validate_infrastructure_profile_iff_example :
    (validate_infrastructure_profile root_document ResourceType.root_node ≡ ok tt)
    ↔ IsNode root_document ResourceType.root_node
validate_infrastructure_profile_iff_example =
    validate_infrastructure_profile_iff root_document ResourceType.root_node
