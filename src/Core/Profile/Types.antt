-- ===== src/Core/Profile/Types.antt =====
-- The types of the strict did:oan profile (crates/oan-core/src/lib.rs).
use oan_protocol_common.Base.{
  String, Bool, ◌&&◌, ◌≡◌, ◌↔◌, true, Option, List, PartialEq, ◌==◌, string_eq, option_eq,
  option_beq_iff, arith, eq_iff,
}
use oan_protocol_common.Chrono.{Time}
use oan_protocol_common.Json.{Value}
use oan_protocol_common.Core.Document.{DidController}

pub data OanProfileError : Type 0 where
  invalid_did invalid_context invalid_verification_method invalid_proof invalid_jwk invalid_identity
        invalid_credential :
      OanProfileError

pub record OanJwk : Type 0 where
  pub kty : String
  pub crv : String
  pub x : String
  pub d : Option String
  pub alg : Option String

abbrev jwk_beq : OanJwk → OanJwk → Bool
jwk_beq a b = a.kty == b.kty && a.crv == b.crv && a.x == b.x && a.d == b.d && a.alg == b.alg

pub jwk_beq_iff : (a b : OanJwk) → (jwk_beq a b ≡ true) ↔ (a ≡ b)
jwk_beq_iff a b = ground (
  arith,
  eq_iff a.kty b.kty,
  eq_iff a.crv b.crv,
  eq_iff a.x b.x,
  option_beq_iff a.d b.d,
  option_beq_iff a.alg b.alg,
)

instance abbrev pub jwk_eq : PartialEq OanJwk
jwk_eq = record { test = jwk_beq; test_iff = jwk_beq_iff }

pub record OanVerificationMethod : Type 0 where
  pub id : String
  pub method_type : String
  pub controller : String
  pub public_key_multibase : Option String
  pub public_key_jwk : Option OanJwk

-- `OanDataIntegrityProof` and `OanCredentialProof`, which have the same fields
pub record OanProof : Type 0 where
  pub proof_type : String
  pub created : Time
  pub proof_purpose : String
  pub proof_value : String
  pub verification_method : String

pub record OanVerifiableCredential : Type 0 where
  pub id : Option String
  pub credential_type : List String
  pub context : List String
  pub issuer : String
  pub issuance_date : Time
  pub expiration_date : Option Time
  pub credential_subject : Value
  pub credential_status : Option Value
  pub credential_schema : Option Value
  pub proof : OanProof

pub record OanDidDocument : Type 0 where
  pub context : List String
  pub id : String
  pub controller : Option DidController
  pub verification_method : List OanVerificationMethod
  pub authentication : List String
  pub assertion_method : List String
  pub capability_invocation : List String
  pub service : List Value
  pub proof : OanProof
  pub oan_metadata : Option Value

pub record OanPublicIdentity : Type 0 where
  pub id : String
  pub created_at : String
  pub did : String
  pub verification_method_id : String
  pub did_document : OanDidDocument
  pub public_key_jwk : OanJwk

pub record OanIdentity : Type 0 where
  pub id : String
  pub created_at : String
  pub did : String
  pub verification_method_id : String
  pub did_document : OanDidDocument
  pub public_key_jwk : OanJwk
  pub private_key_jwk : OanJwk

unfoldable public_projection : OanIdentity → OanPublicIdentity
public_projection identity = record {
  id = identity.id;
  created_at = identity.created_at;
  did = identity.did;
  verification_method_id = identity.verification_method_id;
  did_document = identity.did_document;
  public_key_jwk = identity.public_key_jwk;
}
