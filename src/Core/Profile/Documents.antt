-- ===== src/Core/Profile/Documents.antt =====
-- Documents and identities of the profile: what an accepted one guarantees.
use mathlib.Core.Path.{subst}
use oan_protocol_common.Base.{
  ℕ, zero, suc, String, ◌≡◌, ◌↔◌, ◌⊎◌, inl, inr, refl, ap, sym, ◌∙◌, Bool, true, false, not, ◌&&◌,
  ◌||◌, Option, none, some, List, [], ◌∷◌, ◌++◌, arith, eq_iff, find, is_some, take, drop, ◌==◌,
  ◌!=◌, string_eq, nat_eq, list_eq, option_eq, list_beq_iff, Result, Result-cases, ok, ◌>>=◌,
  map_err, fail_if-eq-ok, fail_if-last, ok_or-eq-ok, >>=-eq-ok,
}
use oan_protocol_common.Did
use oan_protocol_common.Core.Document.{did_oan_contexts}
use oan_protocol_common.Core.Codecs.{Codecs}
use oan_protocol_common.Core.Validate.{key_1, lists}
use oan_protocol_common.Core.Profile.Types.{
  OanProfileError, invalid_proof, invalid_context, invalid_did, invalid_verification_method, OanJwk,
  jwk_eq, OanProof, OanVerificationMethod, OanDidDocument,
}
use oan_protocol_common.Core.Profile.{
  decode_oan_multibase, validate_ed25519, validate_for, validate_document, is_other_key,
  controlled_by, check_jwk, decode_optional,
}
use oan_protocol_common.Core.Profile.Keys.{
  IsMultibase, decode_oan_multibase_iff, IsPublicJwk, validate_ed25519_public_iff,
}

take-drop : (n : ℕ) (xs : List ℕ) → take n xs ++ drop n xs ≡ xs
take-drop zero xs = refl
take-drop (suc n) [] = refl
take-drop (suc n) (x ∷ xs) = ap (λ l. x ∷ l) (take-drop n xs)

module _ (codecs : Codecs) where
  -- the bytes of a multicodec Ed25519 key: the two bytes of the code and the key
  pub is_other_key-false :
      (bytes key : List ℕ) → is_other_key codecs bytes key ≡ false → bytes ≡ 0xED ∷ 0x01 ∷ key
  is_other_key-false bytes key h =
      let code : take 2 bytes ≡ 0xED ∷ 0x01 ∷ [] =
        ground (arith, list_beq_iff (take 2 bytes) (0xED ∷ 0x01 ∷ [])) in
      let rest : key ≡ drop 2 bytes = ground (arith, list_beq_iff key (drop 2 bytes)) in
      sym (take-drop 2 bytes)
      ∙ ap (λ c. c ++ drop 2 bytes) code
      ∙ ap (λ k. 0xED ∷ 0x01 ∷ k) (sym rest)

  -- A proof for the identifier: by its first key, with a multibase signature of 64 bytes.
  abbrev IsProofFor : OanProof → String → Type 0
  IsProofFor proof did =
      (proof.proof_type ≡ "Ed25519Signature2020")
      × (proof.proof_purpose ≡ "assertionMethod")
      × (proof.verification_method ≡ key_1 did)
      × ((signature : List ℕ) × IsMultibase codecs 64 proof.proof_value signature)

  proof_guard_iff :
      (kind purpose method key : String)
      → (((kind != "Ed25519Signature2020") || (purpose != "assertionMethod") || (method != key))
          ≡ false)
        ↔ ((kind ≡ "Ed25519Signature2020") × (purpose ≡ "assertionMethod") × (method ≡ key))
  proof_guard_iff kind purpose method key = ground (
    arith,
    eq_iff kind "Ed25519Signature2020",
    eq_iff purpose "assertionMethod",
    eq_iff method key,
  )

  validate_for_iff :
      (proof : OanProof) (did : String)
      → (validate_for codecs proof did ≡ ok tt) ↔ IsProofFor proof did
  unfolding validate_for
  validate_for_iff proof did = (
    λ h.
        let (guard, h1) = (fail_if-eq-ok _ invalid_proof _ tt).0 h in
        let (kind, purpose, method) = (proof_guard_iff _ _ _ _).0 guard in
        let (bytes, decoded, _) =
          >>=-eq-ok (decode_oan_multibase codecs proof.proof_value 64 invalid_proof) _ {b = tt}
            h1 in
        (
          kind,
          purpose,
          method,
          (bytes, (decode_oan_multibase_iff codecs _ 64 invalid_proof bytes).0 decoded),
        ),
    λ h.
        let (kind, purpose, method, (bytes, multibase)) = h in
        (fail_if-eq-ok _ _ _ tt).1 (
          (proof_guard_iff _ _ _ _).1 (kind, purpose, method),
          rw ((decode_oan_multibase_iff codecs _ 64 invalid_proof bytes).1 multibase),
        ),
  )

  -- The keys of a method: at least one, each well formed, and the same key if there are both.
  abbrev HaveKey : Option String → Option OanJwk → Type 0
  HaveKey none none = ⊥
  HaveKey (some value) none = (bytes : List ℕ) × IsMultibase codecs 34 value bytes
  HaveKey none (some jwk) = IsPublicJwk codecs jwk
  HaveKey (some value) (some jwk) =
      IsPublicJwk codecs jwk
      × ((key : List ℕ) × (codecs.base64_decode jwk.x ≡ some key)
          × IsMultibase codecs 34 value (0xED ∷ 0x01 ∷ key))

  multibase_sound :
      (value : String) (jwk : Option OanJwk) (key : List ℕ)
      → IsMultibase codecs 34 value key
      → check_jwk codecs (some key) jwk ≡ ok tt
      → HaveKey (some value) jwk
  multibase_sound value none key multibase h = (key, multibase)
  multibase_sound value (some jwk) key multibase h =
      let (_, valid, h1) = >>=-eq-ok (validate_ed25519 codecs jwk false) _ {b = tt} h in
      let (jwk_key, decoded, agree) = (ok_or-eq-ok _ invalid_verification_method _ tt).0 h1 in
      let same =
        is_other_key-false key jwk_key ((fail_if-last _ invalid_verification_method).0 agree) in
      (
        (validate_ed25519_public_iff codecs jwk).0 valid,
        (jwk_key, decoded, subst (IsMultibase codecs 34 value) same multibase),
      )

  keys_sound :
      (multibase : Option String) (jwk : Option OanJwk)
      → (not (is_some multibase) && not (is_some jwk)) ≡ false
      → (decode_optional codecs multibase >>= λ key. check_jwk codecs key jwk) ≡ ok tt
      → HaveKey multibase jwk
  keys_sound none none some_key h = cc
  keys_sound none (some jwk) some_key h =
      let (_, valid, _) = >>=-eq-ok (validate_ed25519 codecs jwk false) _ {b = tt} h in
      (validate_ed25519_public_iff codecs jwk).0 valid
  keys_sound (some value) jwk some_key h =
      let (bytes, decoded, h1) = >>=-eq-ok (decode_optional codecs (some value)) _ {b = tt} h in
      let (key, multibase, h2) =
        >>=-eq-ok (decode_oan_multibase codecs value 34 invalid_verification_method) _ {b = bytes}
          decoded in
      let same : bytes ≡ some key = cc in
      multibase_sound value jwk key
        ((decode_oan_multibase_iff codecs value 34 invalid_verification_method key).0 multibase)
        (subst (λ b. check_jwk codecs b jwk ≡ ok tt) same h1)

  -- What `OanDidDocument::validate` asks of a document.
  pub record IsDocument (d : OanDidDocument) : Type 0 where
    pub did : Did.DidOan
    pub method : OanVerificationMethod
    pub has_contexts : d.context ≡ did_oan_contexts
    pub identified : Did.parse d.id ≡ ok did
    pub key_found : find (λ m. m.id == key_1 d.id) d.verification_method ≡ some method
    pub has_type : method.method_type ≡ "Ed25519VerificationKey2020"
    pub authenticates : lists d.authentication (key_1 d.id) ≡ true
    pub asserts : lists d.assertion_method (key_1 d.id) ≡ true
    pub controlled :
        (controlled_by codecs d.controller method.controller ≡ true) ⊎ (method.controller ≡ d.id)
    pub have_key : HaveKey method.public_key_multibase method.public_key_jwk
    pub proved : IsProofFor d.proof d.id

  method_guard_iff :
      (kind : String) (no_key a b : Bool)
      → (((kind != "Ed25519VerificationKey2020") || no_key || not a || not b) ≡ false)
        ↔ ((kind ≡ "Ed25519VerificationKey2020") × (no_key ≡ false) × (a ≡ true) × (b ≡ true))
  method_guard_iff kind no_key a b = ground (arith, eq_iff kind "Ed25519VerificationKey2020")

  controlled_iff :
      (c : Bool) (controller id : String)
      → ((not c && controller != id) ≡ false) ↔ ((c ≡ true) ⊎ (controller ≡ id))
  controlled_iff c controller id = ground (arith, eq_iff controller id)

  parsed :
      (id : String) (next : Result OanProfileError (Unit {0}))
      → (map_err (Did.parse id) invalid_did >>= λ _. next) ≡ ok tt
      → (did : Did.DidOan) × (Did.parse id ≡ ok did) × (next ≡ ok tt)
  parsed id next h = elim (Result-cases (Did.parse id)) [
    | inl (e, refused) ↦ cc (rw refused at h)
    | inr (did, accepted) ↦ (did, accepted, rw accepted at h)
  ]

  contexts_sound : (l : List String) → (l != did_oan_contexts) ≡ false → l ≡ did_oan_contexts
  contexts_sound l h = ground (arith, list_beq_iff l did_oan_contexts)

  -- A document that `OanDidDocument::validate` accepts has a parsed identifier and a first key
  -- that is well formed, controlled by the document or its controller, and listed for
  -- authentication and assertion; a multibase key and a JWK of it are the same key; the proof is
  -- by the first key, with a signature of 64 bytes.
  pub validate_document_sound :
      (d : OanDidDocument) → validate_document codecs d ≡ ok tt → IsDocument d
  unfolding validate_document
  validate_document_sound d h =
      let (contexts, h1) = (fail_if-eq-ok _ invalid_context _ tt).0 h in
      let (did, identified, h2) = parsed d.id _ h1 in
      let (method, key_found, h3) = (ok_or-eq-ok _ invalid_verification_method _ tt).0 h2 in
      let (guard, h4) = (fail_if-eq-ok _ invalid_verification_method _ tt).0 h3 in
      let (controlled, h5) = (fail_if-eq-ok _ invalid_verification_method _ tt).0 h4 in
      let (multibase, decoded, h6) =
        >>=-eq-ok (decode_optional codecs method.public_key_multibase) _ {b = tt} h5 in
      let (_, checked, proved) =
        >>=-eq-ok (check_jwk codecs multibase method.public_key_jwk) _ {b = tt} h6 in
      let (kind, some_key, a, b) = (method_guard_iff method.method_type _ _ _).0 guard in
      record {
        did = did;
        method = method;
        has_contexts = contexts_sound d.context contexts;
        identified = identified;
        key_found = key_found;
        has_type = kind;
        authenticates = a;
        asserts = b;
        controlled = (controlled_iff _ method.controller d.id).0 controlled;
        have_key =
            keys_sound method.public_key_multibase method.public_key_jwk some_key
              (rw decoded checked);
        proved = (validate_for_iff d.proof d.id).0 proved;
      }
