-- ===== src/Tests/Credentials.antt =====
-- Credentials and identities (crates/oan-credentials/src/lib.rs).
use Prim.Native.String.{◌++◌ as ◌+s+◌}
use oan_protocol_common.Base.{◌≡◌, ◌↔◌, refl, false, none, some, [], ◌∷◌, ok, err}
use oan_protocol_common.Base.Int.{pos}
use oan_protocol_common.Text.{starts_with}
use oan_protocol_common.Json.{Value, null, string, object, field, no_fields, remove_field, get}
use oan_protocol_common.Core.Suite.{ed25519_sha256, from_verification_method_type}
use oan_protocol_common.Core.Document.{DidDocument, VerificationMethod, controls, suite_of_method}
use oan_protocol_common.Core.Validate.{validate_mvp}
use oan_protocol_common.Core.Profile.Types.{OanProof}
use oan_protocol_common.Crypto.Keys.{
  verifying_key, public_key_jwk, private_key_jwk, signing_key_from_private_key_jwk,
  verifying_key_from_method, verifying_key_from_public_key_jwk,
}
use oan_protocol_common.Crypto.Signatures.{verify_oan_payload}
use oan_protocol_common.Crypto.DocumentProof.Standard.{Ssi}
use oan_protocol_common.Credentials.{
  OanVerifiableCredential, InfrastructureAuthorizationCredentialSubject, oan_vc_contexts,
  vc_infrastructure_authorization,
}
use oan_protocol_common.Credentials.Kinds.{
  validate_infrastructure_authorization_credential, role_resource_matches,
}
use oan_protocol_common.Credentials.Kinds.Roles.{
  IsAuthorization, validate_infrastructure_authorization_credential_iff,
}
use oan_protocol_common.Credentials.Proofs.{sign_credential, verify_oan_credential}
use oan_protocol_common.Credentials.Proofs.Verify.{verify_oan_credential-sign}
use oan_protocol_common.Credentials.Identity.{
  OanIdentity, validate_identity_bindings, validate_data_integrity, validate, find_method,
}
use oan_protocol_common.Credentials.Identity.Forged.{with_signature, forged_identity}
use oan_protocol_common.Credentials.Identity.Sound.{IsBound, IsSigned, validate_sound}
use oan_protocol_common.Tests.Documents.{
  zeros, sample_id, sample_key, sample_method, agent_document,
}
use oan_protocol_common.Tests.Keys.{sample_primitives, sample_Signs}
use oan_protocol_common.Tests.Crypto.{sample_signing_key}

abbrev empty_proof : OanProof
empty_proof = record {
  proof_type = "";
  created = pos 0;
  proof_purpose = "";
  proof_value = "";
  verification_method = "";
}

abbrev sample_credential : OanVerifiableCredential InfrastructureAuthorizationCredentialSubject
sample_credential = record {
  context = oan_vc_contexts;
  id = none;
  credential_type = "VerifiableCredential" ∷ vc_infrastructure_authorization ∷ [];
  issuer = sample_id;
  issuance_date = pos 0;
  expiration_date = none;
  credential_subject = record {
    id = sample_id;
    role = "registrar";
    subject_type = "infrastructure_node";
    resource_type = "registrar_node";
    endpoint = none;
    authorized_domains = [];
    did_document_hash = "hash";
  };
  credential_status = none;
  credential_schema = none;
  proof = empty_proof;
}

authorization_accepted : validate_infrastructure_authorization_credential sample_credential ≡ ok tt
unfolding validate_infrastructure_authorization_credential role_resource_matches
authorization_accepted = refl

validate_infrastructure_authorization_credential_iff_example :
    (validate_infrastructure_authorization_credential sample_credential ≡ ok tt)
    ↔ IsAuthorization sample_credential
validate_infrastructure_authorization_credential_iff_example =
    validate_infrastructure_authorization_credential_iff sample_credential

-- the issuer and the proof of a credential
abbrev credential_value :
    OanVerifiableCredential InfrastructureAuthorizationCredentialSubject → Value
credential_value credential = object (
    field "issuer" (string credential.issuer)
      (field "proof" (string credential.proof.proof_value) no_fields))

abbrev unsigned_credential : Value
unsigned_credential = object (field "issuer" (string sample_id) no_fields)

verify_oan_credential-sign_example :
    (proof : OanProof) × (sign_credential sample_primitives
        (pos 0)
        unsigned_credential
        ""
        ((sample_id +s+ "#") +s+ "key-1")
        sample_signing_key
      ≡ ok proof)
    × (verify_oan_credential sample_primitives credential_value
          (record sample_credential { proof = proof })
          (verifying_key sample_primitives sample_signing_key)
        ≡ ok tt)
unfolding remove_field
verify_oan_credential-sign_example =
    verify_oan_credential-sign sample_primitives sample_Signs credential_value sample_credential
      unsigned_credential (pos 0) "" "key-1" ed25519_sha256 (zeros 32) refl (λ proof. refl)

abbrev public_jwk : Value
public_jwk = public_key_jwk sample_primitives (verifying_key sample_primitives sample_signing_key)

abbrev identity_document : DidDocument
identity_document = record agent_document {
  verification_method =
      record sample_method { public_key_multibase = none; public_key_jwk = some public_jwk } ∷ [];
}

abbrev sample_identity : OanIdentity
sample_identity = record {
  id = "identity";
  created_at = "";
  did = sample_id;
  verification_method_id = sample_key;
  did_document = identity_document;
  public_key_jwk = public_jwk;
  private_key_jwk = private_key_jwk sample_primitives sample_signing_key;
}

-- no document is verified
abbrev refusing : Ssi
refusing = record {
  public_jwk = λ v. err "";
  iri = λ s. err "";
  is_uri = λ s. false;
  verify = λ d m k. err "";
}

identity_bound : validate_identity_bindings sample_primitives sample_identity ≡ ok tt
unfolding validate_identity_bindings controls public_key_jwk private_key_jwk verifying_key
    signing_key_from_private_key_jwk get
identity_bound = refl

identity_mvp : validate_mvp identity_document ≡ ok tt
unfolding validate_mvp
identity_mvp = refl

forged_identity_example :
    validate_data_integrity sample_primitives
      (λ d. null)
      refusing
      (with_signature sample_primitives sample_Signs.bs58_back sample_identity (pos 0) (zeros 64))
    ≡ ok tt
forged_identity_example =
    forged_identity sample_primitives sample_Signs.bs58_back (λ d. null) refusing sample_identity
      (pos 0) (zeros 64) identity_bound identity_mvp refl

abbrev signed_identity : OanIdentity
signed_identity =
    with_signature sample_primitives sample_Signs.bs58_back sample_identity (pos 0) (zeros 64)

signed_valid : validate sample_primitives (λ d. null) signed_identity ≡ ok tt
unfolding validate controls public_key_jwk private_key_jwk verifying_key
    signing_key_from_private_key_jwk get validate_mvp verifying_key_from_method suite_of_method
    from_verification_method_type verifying_key_from_public_key_jwk verify_oan_payload starts_with
signed_valid = refl

validate_sound_example :
    (signed_identity.did ≡ signed_identity.did_document.id)
    × (validate_mvp signed_identity.did_document ≡ ok tt)
    × ((method : VerificationMethod) × (find_method signed_identity ≡ some method)
        × IsBound sample_primitives signed_identity method
        × IsSigned sample_primitives (λ d. null) signed_identity method)
validate_sound_example = validate_sound sample_primitives (λ d. null) signed_identity signed_valid
