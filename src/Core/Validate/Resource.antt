-- ===== src/Core/Validate/Resource.antt =====
-- `validate_oan_resource`: exactly which documents it accepts.
use Prim.Native.String.{len}
use oan_protocol_common.Base.{
  String, ◌≡◌, ◌↔◌, refl, ap, sym, ◌∙◌, Bool, true, false, not, ◌&&◌, ◌||◌, some, arith, eq_iff,
  is_some, is_empty, length, nat_beq, ◌≤◌, All, ◌==◌, ◌!=◌, string_eq, list_eq, list_beq_iff,
  Result, ok, err, ◌>>=◌, map_err, fail_if-eq-ok, fail_if-last, ok_or-eq-ok, >>=-eq-ok,
}
use oan_protocol_common.Base58
use oan_protocol_common.Did
use oan_protocol_common.Did.{DidOan}
use oan_protocol_common.Core.Kinds.{
  SubjectType, ResourceType, subject_eq, resource_eq, valid_type_combination,
}
use oan_protocol_common.Core.Document.{
  DidDocument, DidController, DataIntegrityProof, OanMetadata, controls, did_oan_contexts,
}
use oan_protocol_common.Core.Codecs.{Codecs}
use oan_protocol_common.Core.Validate.{
  DidDocumentError, invalid_type_combination, controller_did_mismatch, invalid_did_oan_identifier,
  missing_proof, validate_mvp, validate_proof, validate_oan_resource, key_1, lists, is_signature,
  is_other_controller,
}
use oan_protocol_common.Core.Validate.External.{
  IsGood, AreDistinct, IsShort, validate_external_identifiers_iff,
}

-- A document of the did:oan profile: an identifier, the contexts, and methods of each kind.
abbrev pub IsMvp : DidDocument → Type 0
IsMvp d =
    (nat_beq (len d.id) 0 ≡ false)
    × (d.context ≡ did_oan_contexts)
    × (is_empty d.verification_method ≡ false)
    × (is_empty d.authentication ≡ false)
    × (is_empty d.assertion_method ≡ false)

pub validate_mvp_iff : (d : DidDocument) → (validate_mvp d ≡ ok tt) ↔ IsMvp d
unfolding validate_mvp
validate_mvp_iff d = ground (arith, list_beq_iff d.context did_oan_contexts)

module _ (codecs : Codecs) where
  -- A proof by the first key of the document, which is listed for assertion and authentication,
  -- with a signature of 64 bytes and nothing of the older form.
  abbrev IsProof : DidDocument → DataIntegrityProof → Type 0
  IsProof d proof =
      (proof.verification_method ≡ some (key_1 d.id))
      × (nat_beq (len proof.creator) 0 ≡ true)
      × (is_some proof.crypto_suite ≡ false)
      × (is_some proof.hash_algorithm ≡ false)
      × (proof.proof_type ≡ "Ed25519Signature2020")
      × (proof.proof_purpose ≡ "assertionMethod")
      × (is_signature codecs proof.proof_value ≡ true)
      × (lists d.assertion_method (key_1 d.id) ≡ true)
      × (lists d.authentication (key_1 d.id) ≡ true)

  -- the guards of `validate_proof`, for the method that the proof names
  proof_guards_iff :
      (a b c e f g : Bool) (kind purpose method key : String)
      → ((not a
            || b
            || c
            || (kind != "Ed25519Signature2020")
            || (purpose != "assertionMethod")
            || (method != key)
            || not e
            || not f
            || not g)
          ≡ false)
        ↔ ((method ≡ key)
            × (a ≡ true)
            × (b ≡ false)
            × (c ≡ false)
            × (kind ≡ "Ed25519Signature2020")
            × (purpose ≡ "assertionMethod")
            × (e ≡ true)
            × (f ≡ true)
            × (g ≡ true))
  proof_guards_iff a b c e f g kind purpose method key = ground (
    arith,
    eq_iff kind "Ed25519Signature2020",
    eq_iff purpose "assertionMethod",
    eq_iff method key,
  )

  validate_proof_iff :
      (d : DidDocument) (proof : DataIntegrityProof)
      → (validate_proof codecs d proof ≡ ok tt) ↔ IsProof d proof
  unfolding validate_proof
  validate_proof_iff d proof = (
    λ h.
        let (method, named, h1) = (ok_or-eq-ok _ _ _ tt).0 h in
        let (same, a, b, c, kind, purpose, e, f, g) =
          (proof_guards_iff _ _ _ _ _ _ _ _ method (key_1 d.id)).0 ((fail_if-last _ _).0 h1) in
        (
          named ∙ ap some same,
          a,
          b,
          c,
          kind,
          purpose,
          e,
          ap (lists d.assertion_method) (sym same) ∙ f,
          ap (lists d.authentication) (sym same) ∙ g,
        ),
    λ h.
        let (named, a, b, c, kind, purpose, e, f, g) = h in
        (ok_or-eq-ok _ _ _ tt).1 (
          key_1 d.id,
          named,
          (fail_if-last _ _).1 (
              (proof_guards_iff _ _ _ _ _ _ _ _ (key_1 d.id) (key_1 d.id)).1
                (refl, a, b, c, kind, purpose, e, f, g)),
        ),
  )

  -- the controller of the document and its description, at odds in none of the ways checked
  abbrev IsControlled : DidDocument → DidController → OanMetadata → Type 0
  IsControlled d controller metadata =
      (is_other_controller codecs controller metadata.controller_did ≡ false)
      × (valid_type_combination metadata.subject_type metadata.resource_type ≡ true)
      × (metadata.subject_type ≡ SubjectType.controller
          → metadata.resource_type ≡ ResourceType.controller
          → controls controller d.id ≡ true)

  -- What the checks ask of a resource's document.
  pub record IsResource (d : DidDocument) : Type 0 where
    pub controller : DidController
    pub metadata : OanMetadata
    pub proof : DataIntegrityProof
    pub did : DidOan
    pub shaped : IsMvp d
    pub has_controller : d.controller ≡ some controller
    pub has_metadata : d.oan_metadata ≡ some metadata
    pub has_proof : d.proof ≡ some proof
    pub identified : Did.parse d.id ≡ ok did
    pub controlled : IsControlled d controller metadata
    pub proved : IsProof d proof
    pub few : length metadata.external_identifiers ≤ 8
    pub good : All (IsGood codecs) metadata.external_identifiers
    pub distinct : AreDistinct codecs metadata.external_identifiers
    pub short : IsShort codecs metadata.external_identifiers

  map_err-eq-ok :
      {B : Type 0} (m : Result Base58.DidOanError DidOan) (e : DidDocumentError)
      (next : Result DidDocumentError B) (b : B)
      → ((map_err m e >>= λ _. next) ≡ ok b) ↔ ((did : DidOan) × (m ≡ ok did) × (next ≡ ok b))
  map_err-eq-ok (ok did) e next b = (λ h. (did, refl, h), λ h. let (_, _, k) = h in k)
  map_err-eq-ok (err x) e next b = (λ h. cc, λ h. let (_, p, _) = h in cc)

  self_iff :
      (metadata : OanMetadata) (c : Bool)
      → ((metadata.subject_type == SubjectType.controller
            && metadata.resource_type == ResourceType.controller
            && not c)
          ≡ false)
        ↔ (metadata.subject_type ≡ SubjectType.controller
            → metadata.resource_type ≡ ResourceType.controller
            → c ≡ true)
  self_iff metadata c = ground (
    arith,
    subject_eq.test_iff metadata.subject_type SubjectType.controller,
    resource_eq.test_iff metadata.resource_type ResourceType.controller,
  )

  not-false : (b : Bool) → not b ≡ false → b ≡ true
  not-false b h = ground arith

  true-not : (b : Bool) → b ≡ true → not b ≡ false
  true-not b h = ground arith

  -- An accepted document is a resource's document.
  validate_oan_resource_sound :
      (d : DidDocument) → validate_oan_resource codecs d ≡ ok tt → IsResource d
  unfolding validate_oan_resource
  validate_oan_resource_sound d h =
      let (_, shaped, h1) = >>=-eq-ok (validate_mvp d) _ {b = tt} h in
      let (controller, has_controller, h2) = (ok_or-eq-ok _ _ _ tt).0 h1 in
      let (metadata, has_metadata, h3) = (ok_or-eq-ok _ _ _ tt).0 h2 in
      let (declared, h4) = (fail_if-eq-ok _ _ _ tt).0 h3 in
      let (combined, h5) = (fail_if-eq-ok _ invalid_type_combination _ tt).0 h4 in
      let (own, h6) = (fail_if-eq-ok _ controller_did_mismatch _ tt).0 h5 in
      let (did, identified, h7) =
        (map_err-eq-ok (Did.parse d.id) invalid_did_oan_identifier _ tt).0 h6 in
      let (proof, has_proof, h8) = (ok_or-eq-ok _ missing_proof _ tt).0 h7 in
      let (_, proved, h9) = >>=-eq-ok (validate_proof codecs d proof) _ {b = tt} h8 in
      let (few, good, distinct, short) = (validate_external_identifiers_iff codecs _).0 h9 in
      record {
        controller = controller;
        metadata = metadata;
        proof = proof;
        did = did;
        shaped = (validate_mvp_iff d).0 shaped;
        has_controller = has_controller;
        has_metadata = has_metadata;
        has_proof = has_proof;
        identified = identified;
        controlled = (declared, not-false _ combined, (self_iff metadata _).0 own);
        proved = (validate_proof_iff d proof).0 proved;
        few = few;
        good = good;
        distinct = distinct;
        short = short;
      }

  -- Every resource's document is accepted.
  validate_oan_resource_complete :
      (d : DidDocument) → IsResource d → validate_oan_resource codecs d ≡ ok tt
  unfolding validate_oan_resource
  validate_oan_resource_complete d r =
      let (declared, combined, own) = r.controlled in
      rw ((validate_mvp_iff d).1 r.shaped) (
        (ok_or-eq-ok _ _ _ tt).1 (
          r.controller,
          r.has_controller,
          (ok_or-eq-ok _ _ _ tt).1 (
            r.metadata,
            r.has_metadata,
            (fail_if-eq-ok _ _ _ tt).1 (
              declared,
              (fail_if-eq-ok _ _ _ tt).1 (
                true-not _ combined,
                (fail_if-eq-ok _ _ _ tt).1 (
                  (self_iff r.metadata _).1 own,
                  (map_err-eq-ok (Did.parse d.id) _ _ tt).1 (
                    r.did,
                    r.identified,
                    (ok_or-eq-ok _ _ _ tt).1 (
                      r.proof,
                      r.has_proof,
                      rw ((validate_proof_iff d r.proof).1 r.proved) (
                          (validate_external_identifiers_iff codecs _).1
                            (r.few, r.good, r.distinct, r.short)),
                    ),
                  ),
                ),
              ),
            ),
          ),
        ))

  -- `validate_oan_resource` accepts exactly the documents that `IsResource` describes: shape,
  -- controller, types, parsed identifier, a bare proof by the listed first key with a 64-byte
  -- signature, and good, safe, distinct and short external identifiers.
  pub validate_oan_resource_iff :
      (d : DidDocument) → (validate_oan_resource codecs d ≡ ok tt) ↔ IsResource d
  validate_oan_resource_iff d = (validate_oan_resource_sound d, validate_oan_resource_complete d)
