-- ===== src/Core/Validate.antt =====
-- The checks of a DID document (crates/oan-core/src/lib.rs, `DidDocument`).
pub mod External
pub mod Resource
pub mod Infrastructure
use Prim.Native.String.{◌++◌ as ◌+s+◌, len}
use oan_protocol_common.Base.{
  ℕ, String, Char, code, Bool, true, false, not, ◌&&◌, ◌||◌, Option, none, some, List, [], ◌∷◌, any,
  find, is_empty, is_some, length, leb, ltb, nat_beq, ◌==◌, ◌!=◌, string_eq, list_eq, option_eq,
  if◌then◌else◌, Result, ok, err, ◌>>=◌, ◌>>◌, fail_if, ok_or, map_err,
}
use oan_protocol_common.Text.{strip_prefix, starts_with, all_chars}
use oan_protocol_common.BTreeMap.{contains_key}
use oan_protocol_common.Did
use oan_protocol_common.Core.Suite.{CryptoSuite}
use oan_protocol_common.Core.Kinds.{
  SubjectType, ResourceType, subject_eq, resource_eq, valid_type_combination,
}
use oan_protocol_common.Core.Document.{
  DidDocument, DidController, DataIntegrityProof, VerificationMethod, OanMetadata,
  ExternalIdentifier, ServiceEndpoint, controls, suite_of_method, did_oan_contexts,
}
use oan_protocol_common.Core.Codecs.{Codecs, Url}

pub data DidDocumentError : Type 0 where
  empty_id missing_did_core_context missing_verification_method missing_authentication
        missing_assertion_method missing_oan_metadata resource_type_mismatch
        invalid_did_oan_identifier missing_controller missing_proof invalid_type_combination
        controller_did_mismatch :
      DidDocumentError
  invalid_proof : String → DidDocumentError
  invalid_external_identifier : String → DidDocumentError

abbrev Check : Type 0
Check = Result DidDocumentError (Unit {0})

unfoldable pub validate_mvp : DidDocument → Check
validate_mvp d = do
  fail_if (nat_beq (len d.id) 0) empty_id
  fail_if (d.context != did_oan_contexts) missing_did_core_context
  fail_if (is_empty d.verification_method) missing_verification_method
  fail_if (is_empty d.authentication) missing_authentication
  fail_if (is_empty d.assertion_method) missing_assertion_method

-- `format!("{}#key-1", id)`
abbrev pub key_1 : String → String
key_1 id = id +s+ "#key-1"

-- `contains` of a list of texts, as the source writes it: `iter().any(|x| x == value)`
abbrev pub lists : List String → String → Bool
lists values value = any (λ x. x == value) values

-- `unwrap_or_default` of an optional text
abbrev pub or_empty : Option String → String
or_empty none = ""
or_empty (some s) = s

-- `char::is_control`: the Unicode category Cc
abbrev is_control : Char → Bool
is_control c = ltb (code c) 32 || leb 127 (code c) && ltb (code c) 160

module _ (codecs : Codecs) where
  -- whether a text decodes to 64 bytes
  abbrev has_64_bytes : Option (List ℕ) → Bool
  has_64_bytes none = false
  has_64_bytes (some signature) = nat_beq (length signature) 64

  abbrev is_signature_behind : Option String → Bool
  is_signature_behind none = false
  is_signature_behind (some encoded) = has_64_bytes (codecs.bs58_decode encoded)

  -- `starts_with('z')`, and 64 bytes decoded from what is behind it
  abbrev pub is_signature : String → Bool
  is_signature proof_value = is_signature_behind (strip_prefix "z" proof_value)

  unfoldable pub validate_proof : DidDocument → DataIntegrityProof → Check
  validate_proof d proof = do
    verification_method ← ok_or proof.verification_method (invalid_proof "verificationMethod")
    fail_if
        (not (nat_beq (len proof.creator) 0)
          || is_some proof.crypto_suite
          || is_some proof.hash_algorithm
          || (proof.proof_type != "Ed25519Signature2020")
          || (proof.proof_purpose != "assertionMethod")
          || (verification_method != key_1 d.id)
          || not (is_signature proof.proof_value)
          || not (lists d.assertion_method verification_method)
          || not (lists d.authentication verification_method))
        (invalid_proof "did:oan")

  -- `matches!(scheme, "file" | "data" | "javascript")`, a user or a password
  abbrev pub is_unsafe : Url → Bool
  is_unsafe url =
      (url.scheme == "file" || (url.scheme == "data" || url.scheme == "javascript"))
      || not (nat_beq (len url.username) 0)
      || is_some url.password

  unfoldable pub validate_endpoint : Option String → Check
  validate_endpoint none = ok tt
  validate_endpoint (some endpoint) = do
    fail_if (ltb 1024 (len endpoint)) (invalid_external_identifier "endpointLength")
    parsed ← ok_or (codecs.parse_url endpoint) (invalid_external_identifier "endpointUri")
    fail_if (is_unsafe parsed) (invalid_external_identifier "endpointSafety")

  -- whether a pair of an endpoint and an identifier is in the set of those seen
  abbrev pub is_seen : List (String × String) → String × String → Bool
  is_seen ids key = any (λ k. k.0 == key.0 && k.1 == key.1) ids

  abbrev pub key_of : ExternalIdentifier → String × String
  key_of value = (or_empty value.resolution_service_endpoint, value.id)

  abbrev pub is_bad_id : String → Bool
  is_bad_id id =
      nat_beq (len id) 0
      || ltb 512 (len id)
      || not (all_chars (λ ch. not (is_control ch)) id)
      || starts_with "did:oan:" id

  -- the loop of `validate_external_identifiers`, with the set of the keys seen
  unfoldable pub check_identifiers : List (String × String) → List ExternalIdentifier → Check
  check_identifiers ids [] = ok tt
  check_identifiers ids (value ∷ values) =
      let rest = check_identifiers (key_of value ∷ ids) values in
      do
        fail_if (is_bad_id value.id) (invalid_external_identifier "id")
        fail_if (is_seen ids (key_of value)) (invalid_external_identifier "duplicate")
        validate_endpoint value.resolution_service_endpoint
        rest

  unfoldable pub validate_external_identifiers : List ExternalIdentifier → Check
  validate_external_identifiers values = do
    fail_if (ltb 8 (length values)) (invalid_external_identifier "maxItems")
    check_identifiers [] values
    serialized ← ok_or (codecs.serialized_len values) (invalid_external_identifier "serialization")
    fail_if (ltb 8192 serialized) (invalid_external_identifier "maxBytes")

  abbrev pub is_other_controller : DidController → Option String → Bool
  is_other_controller controller none = false
  is_other_controller controller (some controller_did) = not (controls controller controller_did)

  unfoldable pub validate_oan_resource : DidDocument → Check
  validate_oan_resource d = do
    validate_mvp d
    controller ← ok_or d.controller missing_controller
    metadata ← ok_or d.oan_metadata missing_oan_metadata
    fail_if (is_other_controller controller metadata.controller_did) controller_did_mismatch
    fail_if (not (valid_type_combination metadata.subject_type metadata.resource_type))
        invalid_type_combination
    fail_if
        (metadata.subject_type == SubjectType.controller
          && metadata.resource_type == ResourceType.controller
          && not (controls controller d.id))
        controller_did_mismatch
    _ ← map_err (Did.parse d.id) invalid_did_oan_identifier
    proof ← ok_or d.proof missing_proof
    validate_proof d proof
    validate_external_identifiers metadata.external_identifiers

unfoldable pub service_type_of : ResourceType → Option String
service_type_of ResourceType.root_node = some "OANRootService"
service_type_of ResourceType.registrar_node = some "OANRegistrarService"
service_type_of ResourceType.discovery_node = some "OANDiscoveryService"
service_type_of ResourceType.vc_issuer_node = some "OANVcIssuerService"
service_type_of _ = none

unfoldable pub validate_infrastructure_profile : DidDocument → ResourceType → Check
validate_infrastructure_profile d expected_resource_type = do
  validate_mvp d
  metadata ← ok_or d.oan_metadata missing_oan_metadata
  fail_if
      ((metadata.subject_type != SubjectType.infrastructure_node)
        || (metadata.resource_type != expected_resource_type))
      invalid_type_combination
  fail_if
      (is_some metadata.identity_type
        || contains_key "nodeRole" metadata.extra
        || contains_key "identityType" metadata.extra)
      invalid_type_combination
  controller ← ok_or d.controller missing_controller
  method ←
      ok_or (find (λ m. m.id == key_1 d.id && m.controller == d.id) d.verification_method)
        missing_verification_method
  expected_service_type ← ok_or (service_type_of expected_resource_type) invalid_type_combination
  fail_if
      (not (lists d.authentication (key_1 d.id))
        || not (lists d.assertion_method (key_1 d.id))
        || not (controls controller d.id)
        || not (any (λ s. s.service_type == expected_service_type) d.service))
      invalid_type_combination
  fail_if (not (is_some d.proof) || not (is_some (suite_of_method method))) missing_proof
