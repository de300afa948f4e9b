-- ===== src/Credentials/Identity/Sound.antt =====
-- What an identity that is accepted has.
use oan_protocol_common.Base.{
  String, ◌≡◌, ◌↔◌, sym, Bool, true, false, not, ◌||◌, Option, none, some, ◌!=◌, string_eq,
  option_eq, option_beq_iff, arith, eq_iff, Result, ok, err, ok_or, map_err, >>=-eq-ok,
  fail_if-eq-ok, fail_if-last, ok_or-eq-ok,
}
use oan_protocol_common.Json.{Value}
use oan_protocol_common.Json.Equality.{value_eq}
use oan_protocol_common.Core.Suite.{ed25519_sha256}
use oan_protocol_common.Core.Document.{DidDocument, VerificationMethod, DataIntegrityProof}
use oan_protocol_common.Core.Validate.{validate_mvp, lists}
use oan_protocol_common.Crypto.Primitives.{Primitives}
use oan_protocol_common.Crypto.Keys.{
  SigningKey, VerifyingKey, verifying_key, public_key_jwk, signing_key_from_private_key_jwk,
  verifying_key_from_method,
}
use oan_protocol_common.Crypto.Signatures.{verify_oan_payload}
use oan_protocol_common.Credentials.{CredentialError, invalid_signature, invalid_subject}
use oan_protocol_common.Credentials.Identity.{
  OanIdentity, panic, failing, find_method, check_bound, validate_identity_bindings,
  credential_proof, unsigned_value, validate,
}

map_err-eq-ok {ℓ κ μ} :
    {E : Type ℓ} {F : Type κ} {A : Type μ} (m : Result E A) (e : F) {a : A}
    → map_err m e ≡ ok a
    → m ≡ ok a
map_err-eq-ok (ok a) e h = cc
map_err-eq-ok (err x) e h = cc

failing-eq-ok {ℓ} :
    {A : Type ℓ} (m : Result CredentialError A) {a : A} → failing m ≡ ok a → m ≡ ok a
failing-eq-ok (ok a) h = cc
failing-eq-ok (err x) h = cc

ok_or-some {ℓ κ} :
    {E : Type ℓ} {A : Type κ} (o : Option A) (e : E) {a : A} → ok_or o e ≡ ok a → o ≡ some a
ok_or-some none e h = cc
ok_or-some (some a) e h = cc

jwk_iff : (o : Option Value) (v : Value) → ((o != some v) ≡ false) ↔ (o ≡ some v)
jwk_iff o v = ground (arith, option_beq_iff o (some v))

value_iff : (v w : Value) → ((v != w) ≡ false) ↔ (v ≡ w)
value_iff v w = ground (arith, value_eq.test_iff v w)

str_iff : (s t : String) → ((s != t) ≡ false) ↔ (s ≡ t)
str_iff s t = ground (arith, eq_iff s t)

listed : (a b c : Bool) → (not a || (not b || not c)) ≡ false → (b ≡ true) × (c ≡ true)
listed a b c h = ground arith

module _ (primitives : Primitives) where
  -- The private key belongs to the public key.
  abbrev HasKeys : OanIdentity → Type 0
  HasKeys self =
      (key : SigningKey) × (signing_key_from_private_key_jwk primitives ed25519_sha256
          self.private_key_jwk
        ≡ ok key)
      × (public_key_jwk primitives (verifying_key primitives key) ≡ self.public_key_jwk)

  -- The method is listed for authentication and assertion, and has the public key.
  abbrev pub IsBound : OanIdentity → VerificationMethod → Type 0
  IsBound self method =
      (lists self.did_document.authentication self.verification_method_id ≡ true)
      × (lists self.did_document.assertion_method self.verification_method_id ≡ true)
      × (method.public_key_jwk ≡ some self.public_key_jwk)
      × HasKeys self

  check_bound_sound :
      (self : OanIdentity) (method : VerificationMethod)
      → check_bound primitives self method ≡ ok tt
      → IsBound self method
  unfolding check_bound
  check_bound_sound self method h =
      let (a, h1) = (fail_if-eq-ok _ invalid_subject _ tt).0 h in
      let (b, h2) = (fail_if-eq-ok _ invalid_subject _ tt).0 h1 in
      let (c, h3) = (fail_if-eq-ok _ invalid_subject _ tt).0 h2 in
      let (key, made, h4) =
        >>=-eq-ok
          (map_err (signing_key_from_private_key_jwk primitives ed25519_sha256 self.private_key_jwk)
            invalid_subject)
          _ h3 in
      let (x, y) = listed _ _ _ a in
      (
        x,
        y,
        (jwk_iff _ _).0 c,
        (
          key,
          map_err-eq-ok _ invalid_subject made,
          (value_iff _ _).0 ((fail_if-last _ invalid_subject).0 h4),
        ),
      )

  bindings_sound :
      (self : OanIdentity) (method : VerificationMethod)
      → validate_identity_bindings primitives self ≡ ok tt
      → find_method self ≡ some method
      → (self.did ≡ self.did_document.id) × IsBound self method
  unfolding validate_identity_bindings
  bindings_sound self method h found =
      let (a, h1) = (fail_if-eq-ok _ invalid_subject _ tt).0 h in
      let (b, h2) = (fail_if-eq-ok _ invalid_subject _ tt).0 h1 in
      let (m, same, h3) =
        (ok_or-eq-ok (find_method self) invalid_subject (check_bound primitives self) tt).0 h2 in
      let e : m ≡ method = cc in ((str_iff _ _).0 a, check_bound_sound self method (rw (sym e) h3))

  module _ (document_value : DidDocument → Value) where
    -- The document without its proof is signed with the key of the method.
    abbrev pub IsSigned : OanIdentity → VerificationMethod → Type 0
    IsSigned self method =
        (key : VerifyingKey) × (proof : DataIntegrityProof) × (name : String)
        × (verifying_key_from_method primitives method ≡ ok key)
        × (self.did_document.proof ≡ some proof)
        × (proof.verification_method ≡ some name)
        × (verify_oan_payload primitives (unsigned_value primitives document_value self)
              (credential_proof primitives document_value proof name) key
            ≡ ok tt)

    -- An identity that `OanIdentity::validate` accepts, without a panic, has its document's
    -- identifier and a document that passes `validate_mvp`; the method that it names is listed for
    -- authentication and assertion and has its public key, which is that of its private key; and
    -- the document without its proof is signed with the key of the method.
    pub validate_sound :
        (self : OanIdentity)
        → validate primitives document_value self ≡ ok tt
        → (self.did ≡ self.did_document.id)
          × (validate_mvp self.did_document ≡ ok tt)
          × ((method : VerificationMethod) × (find_method self ≡ some method)
              × IsBound self method
              × IsSigned self method)
    unfolding validate
    validate_sound self h =
        let (_, a, h1) = >>=-eq-ok (failing (validate_identity_bindings primitives self)) _ h in
        let (_, b, h2) =
          >>=-eq-ok (failing (map_err (validate_mvp self.did_document) invalid_subject)) _ h1 in
        let (method, c, h3) = >>=-eq-ok (failing (ok_or (find_method self) invalid_subject)) _ h2 in
        let (key, d, h4) =
          >>=-eq-ok
            (failing (map_err (verifying_key_from_method primitives method) invalid_subject)) _
            h3 in
        let (proof, e, h5) =
          >>=-eq-ok (failing (ok_or self.did_document.proof invalid_subject)) _ h4 in
        let (name, f, h6) = >>=-eq-ok (ok_or proof.verification_method panic) _ h5 in
        let found = ok_or-some _ invalid_subject (failing-eq-ok _ c) in
        let (same, bound) = bindings_sound self method (failing-eq-ok _ a) found in
        (
          same,
          map_err-eq-ok _ invalid_subject (failing-eq-ok _ b),
          (
            method,
            found,
            bound,
            (
              key,
              proof,
              name,
              map_err-eq-ok _ invalid_subject (failing-eq-ok _ d),
              ok_or-some _ invalid_subject (failing-eq-ok _ e),
              ok_or-some _ panic f,
              map_err-eq-ok _ invalid_signature (failing-eq-ok _ h6),
            ),
          ),
        )
