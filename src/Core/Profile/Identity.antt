-- ===== src/Core/Profile/Identity.antt =====
-- `OanIdentity::validate`: the keys of an accepted identity belong together.
use mathlib.Core.Path.{subst}
use oan_protocol_common.Base.{
  ℕ, String, ◌≡◌, ◌↔◌, refl, ap, sym, ◌∙◌, Bool, true, false, not, ◌||◌, Option, none, some, List,
  ◌∷◌, arith, eq_iff, find, is_ok, length, nat_beq, ◌==◌, ◌!=◌, string_eq, nat_eq, list_eq,
  list_beq_iff, Result, ok, err, fail_if-eq-ok, fail_if-last, ok_or-eq-ok, >>=-eq-ok,
}
use oan_protocol_common.Core.Codecs.{Codecs}
use oan_protocol_common.Core.Validate.{key_1, or_empty}
use oan_protocol_common.Core.Profile.Types.{
  OanProfileError, invalid_identity, OanJwk, jwk_eq, jwk_beq_iff, OanVerificationMethod,
  OanIdentity,
}
use oan_protocol_common.Core.Profile.{
  decode_oan_multibase, validate_ed25519, validate_identity, check_method_key,
}
use oan_protocol_common.Core.Profile.Keys.{
  IsMultibase, decode_oan_multibase_iff, IsPublicJwk, validate_ed25519_public_iff,
}
use oan_protocol_common.Core.Profile.Documents.{
  IsDocument, validate_document_sound, is_other_key-false,
}

module _ (codecs : Codecs) where
  -- The method holds the public key: as the same JWK, or, without a JWK, as its multicodec text.
  abbrev HoldsKey : Option OanJwk → Option String → OanJwk → Type 0
  HoldsKey (some method_jwk) multibase jwk = method_jwk ≡ jwk
  HoldsKey none none jwk = ⊥
  HoldsKey none (some value) jwk =
      (key : List ℕ) × (codecs.base64_decode jwk.x ≡ some key)
      × IsMultibase codecs 34 value (0xED ∷ 0x01 ∷ key)

  same_jwk : (a b : OanJwk) → (a != b) ≡ false → a ≡ b
  same_jwk a b h = ground (arith, jwk_beq_iff a b)

  method_key_sound :
      (method_jwk : Option OanJwk) (multibase : Option String) (jwk : OanJwk)
      → check_method_key codecs method_jwk multibase jwk ≡ ok tt
      → HoldsKey method_jwk multibase jwk
  method_key_sound (some method_jwk) multibase jwk h =
      same_jwk method_jwk jwk ((fail_if-last _ invalid_identity).0 h)
  method_key_sound none none jwk h = cc
  method_key_sound none (some value) jwk h =
      let (bytes, decoded, h1) =
        >>=-eq-ok (decode_oan_multibase codecs value 34 invalid_identity) _ {b = tt} h in
      let (key, read, agree) = (ok_or-eq-ok _ invalid_identity _ tt).0 h1 in
      let same = is_other_key-false codecs bytes key ((fail_if-last _ invalid_identity).0 agree) in
      (
        key,
        read,
        subst (IsMultibase codecs 34 value) same
            ((decode_oan_multibase_iff codecs value 34 invalid_identity bytes).0 decoded),
      )

  -- What `OanIdentity::validate` asks of an identity.
  pub record IsIdentity (identity : OanIdentity) : Type 0 where
    pub method : OanVerificationMethod
    pub secret : List ℕ
    pub same_did : identity.did ≡ identity.did_document.id
    pub first_key : identity.verification_method_id ≡ key_1 identity.did
    pub documented : IsDocument codecs identity.did_document
    pub public_jwk : IsPublicJwk codecs identity.public_key_jwk
    pub method_found :
        find
          (λ m. m.id == identity.verification_method_id)
          identity.did_document.verification_method
        ≡ some method
    pub holds_key :
        HoldsKey method.public_key_jwk method.public_key_multibase identity.public_key_jwk
    pub has_secret : codecs.base64_decode (or_empty identity.private_key_jwk.d) ≡ some secret
    pub secret_size : length secret ≡ 32
    pub key_pair :
        codecs.base64_decode identity.public_key_jwk.x ≡ some (codecs.verifying_key secret)

  identity_guard_iff :
      (did id method key : String) (valid : Bool)
      → (((did != id) || (method != key) || not valid) ≡ false)
        ↔ ((did ≡ id) × (method ≡ key) × (valid ≡ true))
  identity_guard_iff did id method key valid = ground (arith, eq_iff did id, eq_iff method key)

  is_ok-eq-true : (m : Result OanProfileError (Unit {0})) → is_ok m ≡ true → m ≡ ok tt
  is_ok-eq-true (ok tt) h = refl
  is_ok-eq-true (err e) h = cc

  same_bytes : (a b : List ℕ) → (a != b) ≡ false → a ≡ b
  same_bytes a b h = ground (arith, list_beq_iff a b)

  size_iff : (n : ℕ) → not (nat_beq n 32) ≡ false → n ≡ 32
  size_iff n h = ground arith

  -- An identity that `OanIdentity::validate` accepts has its document's identifier, an accepted
  -- document whose first key is the identity's public key, and a secret of 32 bytes whose public
  -- key is that key.
  pub validate_identity_sound :
      (identity : OanIdentity) → validate_identity codecs identity ≡ ok tt → IsIdentity identity
  unfolding validate_identity
  validate_identity_sound identity h =
      let (guard, h1) = (fail_if-eq-ok _ invalid_identity _ tt).0 h in
      let (_, public, h2) =
        >>=-eq-ok (validate_ed25519 codecs identity.public_key_jwk false) _ {b = tt} h1 in
      let (_, private, h3) =
        >>=-eq-ok (validate_ed25519 codecs identity.private_key_jwk true) _ {b = tt} h2 in
      let (method, found, h4) = (ok_or-eq-ok _ invalid_identity _ tt).0 h3 in
      let (_, held, h5) =
        >>=-eq-ok
          (check_method_key codecs method.public_key_jwk method.public_key_multibase
            identity.public_key_jwk)
          _ {b = tt} h4 in
      let (secret, has_secret, h6) = (ok_or-eq-ok _ invalid_identity _ tt).0 h5 in
      let (size, h7) = (fail_if-eq-ok _ invalid_identity _ tt).0 h6 in
      let (key, read, pair) = (ok_or-eq-ok _ invalid_identity _ tt).0 h7 in
      let (same, first, valid) =
        (identity_guard_iff identity.did _ identity.verification_method_id _ _).0 guard in
      record {
        method = method;
        secret = secret;
        same_did = same;
        first_key = first;
        documented = validate_document_sound codecs identity.did_document (is_ok-eq-true _ valid);
        public_jwk = (validate_ed25519_public_iff codecs identity.public_key_jwk).0 public;
        method_found = found;
        holds_key =
            method_key_sound method.public_key_jwk method.public_key_multibase
              identity.public_key_jwk held;
        has_secret = has_secret;
        secret_size = size_iff _ size;
        key_pair = read ∙ ap some (sym (same_bytes _ _ ((fail_if-last _ invalid_identity).0 pair)));
      }
