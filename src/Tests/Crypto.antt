-- ===== src/Tests/Crypto.antt =====
-- Canonical texts, keys and proofs (crates/oan-crypto/src/lib.rs).
use text.Mathlib.TextLemmas.{cons≢nil}
use oan_protocol_common.Base.{◌≡◌, ◌≢◌, refl, true, some, ok}
use oan_protocol_common.Base.Int.{pos}
use oan_protocol_common.Json.{
  Value, null, boolean, number, array, object, no_values, value, no_fields, field,
}
use oan_protocol_common.Core.Suite.{ed25519_sha256}
use oan_protocol_common.Core.Document.{DidDocument, DataIntegrityProof}
use oan_protocol_common.Core.Validate.{validate_oan_resource}
use oan_protocol_common.Crypto.Canonical.{canonical_json_value}
use oan_protocol_common.Crypto.Canonical.Head.{IsJson}
use oan_protocol_common.Crypto.Canonical.Injective.{canonical_json_value_injective}
use oan_protocol_common.Crypto.Keys.{
  SigningKey, VerifyingKey, suite_of_verifying_key, verifying_key, public_key_multibase,
  public_key_jwk, verifying_key_from_public_key_multibase, verifying_key_from_public_key_jwk,
}
use oan_protocol_common.Crypto.Keys.Back.{key_back}
use oan_protocol_common.Crypto.Signatures.{build_data_integrity_proof, verify_payload_with_proof}
use oan_protocol_common.Crypto.Signatures.Verify.{verify_payload_with_proof-build}
use oan_protocol_common.Crypto.DocumentProof.{verify_did_document_proof}
use oan_protocol_common.Crypto.DocumentProof.Conflict.{no_document_passes_both}
use oan_protocol_common.Tests.Documents.{
  zeros, sample_codecs, sample_key, sample_proof, agent_document,
}
use oan_protocol_common.Tests.Keys.{sample_primitives, sample_Signs, sample_Quotes, read_string}

-- {"a":[1,true],"b":null}
abbrev pub sample_value : Value
sample_value = object (
    field "a" (array (value (number "1") (value (boolean true) no_values)))
      (field "b" null no_fields))

sample_IsJson : IsJson sample_value
sample_IsJson = ((((refl, tt), cons≢nil), (tt, tt)), (tt, tt))

sample_canonical :
    canonical_json_value (record sample_primitives { json_string = λ s. s }) sample_value
    ≡ "{a:[1,true],b:null}"
unfolding canonical_json_value
sample_canonical = refl

canonical_json_value_injective_example : sample_value ≡ sample_value
canonical_json_value_injective_example =
    canonical_json_value_injective sample_primitives read_string sample_Quotes sample_value
      sample_value sample_IsJson sample_IsJson refl

abbrev pub sample_signing_key : SigningKey
sample_signing_key = SigningKey.ed25519 ed25519_sha256 (zeros 32)

verify_payload_with_proof-build_example :
    (proof : DataIntegrityProof) × (build_data_integrity_proof sample_primitives
        (pos 0)
        sample_value
        "creator"
        sample_key
        sample_signing_key
      ≡ ok proof)
    × (verify_payload_with_proof sample_primitives sample_value proof
          (verifying_key sample_primitives sample_signing_key)
        ≡ ok tt)
verify_payload_with_proof-build_example =
    verify_payload_with_proof-build sample_primitives sample_Signs (pos 0) sample_value "creator"
      sample_key sample_signing_key

abbrev sample_verifying_key : VerifyingKey
sample_verifying_key = VerifyingKey.ed25519 ed25519_sha256 (zeros 32)

key_back_example :
    (verifying_key_from_public_key_multibase sample_primitives
        (suite_of_verifying_key sample_verifying_key)
        (public_key_multibase sample_primitives sample_verifying_key)
      ≡ ok sample_verifying_key)
    × (verifying_key_from_public_key_jwk sample_primitives
          (suite_of_verifying_key sample_verifying_key)
          (public_key_jwk sample_primitives sample_verifying_key)
        ≡ ok sample_verifying_key)
key_back_example = key_back sample_primitives sample_Signs sample_verifying_key (refl, refl)

-- the document of a resource with a proof of the older form
abbrev signed_document : DidDocument
signed_document = record agent_document {
  proof = some (record sample_proof { creator = sample_key });
}

signed_accepted :
    verify_did_document_proof sample_primitives (λ d. null) (λ v. ok tt) signed_document ≡ ok tt
unfolding verify_did_document_proof
signed_accepted = refl

no_document_passes_both_example : validate_oan_resource sample_codecs signed_document ≢ ok tt
no_document_passes_both_example =
    no_document_passes_both sample_primitives (λ d. null) (λ v. ok tt) sample_codecs signed_document
      signed_accepted
