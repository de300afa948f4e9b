-- ===== src/Tests/Profiles.antt =====
-- An identity of the strict profile, with its document and keys.
use oan_protocol_common.Base.{String, ◌≡◌, refl, none, some, [], ◌∷◌, ok}
use oan_protocol_common.Base.Int.{pos}
use oan_protocol_common.Text.{strip_prefix, starts_with, split, all_chars, contains}
use oan_protocol_common.Base58.{in_class, class_run, validate_routing_code, validate_suffix_code}
use oan_protocol_common.Did.{parse, parse_parts, is_match}
use oan_protocol_common.Core.Document.{did_oan_contexts}
use oan_protocol_common.Core.Profile.Types.{OanJwk, OanDidDocument, OanIdentity, invalid_jwk}
use oan_protocol_common.Core.Profile.{
  validate_ed25519, decode_oan_multibase, validate_for, validate_document, validate_identity,
}
use oan_protocol_common.Core.Profile.Documents.{IsDocument, validate_document_sound}
use oan_protocol_common.Core.Profile.Identity.{IsIdentity, validate_identity_sound}
use oan_protocol_common.Tests.Documents.{sample_codecs, sample_id, sample_key, zeros}

abbrev public_jwk : OanJwk
public_jwk = record { kty = "OKP"; crv = "Ed25519"; x = "x"; d = none; alg = some "EdDSA" }

abbrev private_jwk : OanJwk
private_jwk = record { kty = "OKP"; crv = "Ed25519"; x = "x"; d = some "d"; alg = none }

abbrev profile_document : OanDidDocument
profile_document = record {
  context = did_oan_contexts;
  id = sample_id;
  controller = none;
  verification_method =
      record {
        id = sample_key;
        method_type = "Ed25519VerificationKey2020";
        controller = sample_id;
        public_key_multibase = some "zkey";
        public_key_jwk = some public_jwk;
      }
      ∷ [];
  authentication = sample_key ∷ [];
  assertion_method = sample_key ∷ [];
  capability_invocation = [];
  service = [];
  proof = record {
    proof_type = "Ed25519Signature2020";
    created = pos 0;
    proof_purpose = "assertionMethod";
    proof_value = "zsignature";
    verification_method = sample_key;
  };
  oan_metadata = none;
}

abbrev identity : OanIdentity
identity = record {
  id = "1";
  created_at = "2026-01-01";
  did = sample_id;
  verification_method_id = sample_key;
  did_document = profile_document;
  public_key_jwk = public_jwk;
  private_key_jwk = private_jwk;
}

profile_accepted : validate_document sample_codecs profile_document ≡ ok tt
unfolding validate_document validate_ed25519 decode_oan_multibase validate_for parse parse_parts
    is_match starts_with strip_prefix split all_chars contains class_run in_class
    validate_routing_code validate_suffix_code
profile_accepted = refl

identity_accepted : validate_identity sample_codecs identity ≡ ok tt
unfolding validate_identity validate_document validate_ed25519 decode_oan_multibase validate_for
    parse parse_parts is_match starts_with strip_prefix split all_chars contains class_run in_class
    validate_routing_code validate_suffix_code
identity_accepted = refl

validate_document_sound_example : IsDocument sample_codecs profile_document
validate_document_sound_example =
    validate_document_sound sample_codecs profile_document profile_accepted

validate_identity_sound_example : IsIdentity sample_codecs identity
validate_identity_sound_example = validate_identity_sound sample_codecs identity identity_accepted

key_decodes : decode_oan_multibase sample_codecs "zkey" 34 invalid_jwk ≡ ok (0xED ∷ 0x01 ∷ zeros 32)
unfolding decode_oan_multibase strip_prefix
key_decodes = refl

abbrev key_text : String
key_text = "zkey"
