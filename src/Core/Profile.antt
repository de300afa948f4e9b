-- ===== src/Core/Profile.antt =====
-- The strict did:oan profile: keys, proofs, credentials, documents and identities
-- (crates/oan-core/src/lib.rs, the types named `Oan...`).
pub mod Types
pub mod Keys
pub mod Documents
pub mod Identity
use Prim.Native.String.{◌++◌ as ◌+s+◌, len}
use oan_protocol_common.Base.{
  ℕ, String, Bool, true, false, not, ◌&&◌, ◌||◌, Option, none, some, List, [], ◌∷◌, find, is_some,
  is_empty, is_ok, length, take, drop, nat_beq, nat_eq, ◌==◌, ◌!=◌, string_eq, list_eq, option_eq,
  if◌then◌else◌, Result, ok, err, ◌>>=◌, ◌>>◌, fail_if, ok_or, map_err,
}
use oan_protocol_common.Chrono.{Time}
use oan_protocol_common.Text.{strip_prefix}
use oan_protocol_common.Json.{Value}
use oan_protocol_common.Did
use oan_protocol_common.Core.Document.{DidController, controls, did_oan_contexts}
use oan_protocol_common.Core.Codecs.{Codecs}
use oan_protocol_common.Core.Profile.Types.{
  OanProfileError, invalid_did, invalid_context, invalid_verification_method, invalid_proof,
  invalid_jwk, invalid_identity, invalid_credential, OanJwk, jwk_eq, OanVerificationMethod,
  OanProof, OanVerifiableCredential, OanDidDocument, OanIdentity,
}
use oan_protocol_common.Core.Validate.{key_1, lists, or_empty}

abbrev Check : Type 0
Check = Result OanProfileError (Unit {0})

module _ (codecs : Codecs) where
  -- `URL_SAFE_NO_PAD.decode(text).map_err(|_| error)`
  abbrev decode_base64 : String → OanProfileError → Result OanProfileError (List ℕ)
  decode_base64 text error = ok_or (codecs.base64_decode text) error

  abbrev pub is_bad_alg : Option String → Bool
  is_bad_alg none = false
  is_bad_alg (some alg) = alg != "EdDSA"

  abbrev check_private : Bool → OanJwk → Check
  check_private false jwk = ok tt
  check_private true jwk = do
    secret ← decode_base64 (or_empty jwk.d) invalid_jwk
    fail_if (not (nat_beq (length secret) 32)) invalid_jwk

  unfoldable pub validate_ed25519 : OanJwk → Bool → Check
  validate_ed25519 jwk private = do
    fail_if
        ((jwk.kty != "OKP")
          || (jwk.crv != "Ed25519")
          || nat_beq (len jwk.x) 0
          || private && nat_beq (len (or_empty jwk.d)) 0
          || not private && is_some jwk.d
          || jwk.alg == some "Ed25519")
        invalid_jwk
    public_key ← decode_base64 jwk.x invalid_jwk
    fail_if (not (nat_beq (length public_key) 32)) invalid_jwk
    check_private private jwk
    fail_if (is_bad_alg jwk.alg) invalid_jwk

  unfoldable pub decode_oan_multibase :
      String → ℕ → OanProfileError → Result OanProfileError (List ℕ)
  decode_oan_multibase value expected_len error = do
    encoded ← ok_or (strip_prefix "z" value) error
    bytes ← ok_or (codecs.bs58_decode encoded) error
    fail_if (not (nat_beq (length bytes) expected_len) || (codecs.bs58_encode bytes != encoded))
        error
    ok bytes

  -- `OanDataIntegrityProof::validate_for` and `OanCredentialProof::validate_for`
  unfoldable pub validate_for : OanProof → String → Check
  validate_for proof did = do
    fail_if
        ((proof.proof_type != "Ed25519Signature2020")
          || (proof.proof_purpose != "assertionMethod")
          || (proof.verification_method != key_1 did))
        invalid_proof
    _ ← decode_oan_multibase proof.proof_value 64 invalid_proof
    ok tt

  abbrev credential_contexts : List String
  credential_contexts =
      "https://www.w3.org/2018/credentials/v1" ∷ "https://openagenet.xyz/did-oan-specs/v1"
      ∷ "https://w3id.org/security/suites/ed25519-2020/v1" ∷ []

  unfoldable validate_credential : OanVerifiableCredential → Check
  validate_credential credential = do
    fail_if (credential.context != credential_contexts) invalid_context
    fail_if
        (is_empty credential.credential_type
          || not (lists credential.credential_type "VerifiableCredential"))
        invalid_credential
    _ ← map_err (Did.parse credential.issuer) invalid_did
    validate_for credential.proof credential.issuer

  abbrev pub controlled_by : Option DidController → String → Bool
  controlled_by none did = false
  controlled_by (some controller) did = controls controller did

  -- `.map(decode).transpose()`
  abbrev pub decode_optional : Option String → Result OanProfileError (Option (List ℕ))
  decode_optional none = ok none
  decode_optional (some value) = do
    bytes ← decode_oan_multibase value 34 invalid_verification_method
    ok (some bytes)

  -- whether a multicodec key is not 0xed01 and the given key
  abbrev pub is_other_key : List ℕ → List ℕ → Bool
  is_other_key multibase_key key =
      (take 2 multibase_key != 0xED ∷ 0x01 ∷ []) || (key != drop 2 multibase_key)

  abbrev check_agreement : Option (List ℕ) → OanJwk → Check
  check_agreement none jwk = ok tt
  check_agreement (some multibase_key) jwk = do
    jwk_key ← decode_base64 jwk.x invalid_verification_method
    fail_if (is_other_key multibase_key jwk_key) invalid_verification_method

  abbrev pub check_jwk : Option (List ℕ) → Option OanJwk → Check
  check_jwk multibase_key none = ok tt
  check_jwk multibase_key (some jwk) = do
    validate_ed25519 jwk false
    check_agreement multibase_key jwk

  -- `OanDidDocument::validate`
  unfoldable pub validate_document : OanDidDocument → Check
  validate_document d = do
    fail_if (d.context != did_oan_contexts) invalid_context
    _ ← map_err (Did.parse d.id) invalid_did
    method ←
        ok_or (find (λ m. m.id == key_1 d.id) d.verification_method) invalid_verification_method
    fail_if
        ((method.method_type != "Ed25519VerificationKey2020")
          || not (is_some method.public_key_multibase) && not (is_some method.public_key_jwk)
          || not (lists d.authentication (key_1 d.id))
          || not (lists d.assertion_method (key_1 d.id)))
        invalid_verification_method
    fail_if (not (controlled_by d.controller method.controller) && method.controller != d.id)
        invalid_verification_method
    multibase_key ← decode_optional method.public_key_multibase
    check_jwk multibase_key method.public_key_jwk
    validate_for d.proof d.id

  -- the key of the method against the public key of the identity
  abbrev pub check_method_key : Option OanJwk → Option String → OanJwk → Check
  check_method_key (some method_jwk) multibase jwk = fail_if (method_jwk != jwk) invalid_identity
  check_method_key none none jwk = err invalid_identity
  check_method_key none (some multibase) jwk = do
    multibase_key ← decode_oan_multibase multibase 34 invalid_identity
    public_key ← decode_base64 jwk.x invalid_identity
    fail_if (is_other_key multibase_key public_key) invalid_identity

  -- `OanIdentity::validate`
  unfoldable pub validate_identity : OanIdentity → Check
  validate_identity identity = do
    fail_if
        ((identity.did != identity.did_document.id)
          || (identity.verification_method_id != key_1 identity.did)
          || not (is_ok (validate_document identity.did_document)))
        invalid_identity
    validate_ed25519 identity.public_key_jwk false
    validate_ed25519 identity.private_key_jwk true
    method ←
        ok_or
          (find (λ m. m.id == identity.verification_method_id)
            identity.did_document.verification_method)
          invalid_identity
    check_method_key method.public_key_jwk method.public_key_multibase identity.public_key_jwk
    private_bytes ← decode_base64 (or_empty identity.private_key_jwk.d) invalid_identity
    fail_if (not (nat_beq (length private_bytes) 32)) invalid_identity
    public_key ← decode_base64 identity.public_key_jwk.x invalid_identity
    fail_if (codecs.verifying_key private_bytes != public_key) invalid_identity
