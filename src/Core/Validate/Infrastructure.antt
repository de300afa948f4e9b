-- ===== src/Core/Validate/Infrastructure.antt =====
-- `validate_infrastructure_profile`: which documents it accepts as which kind of node.
use oan_protocol_common.Base.{
  String, ◌≡◌, ◌↔◌, ap, sym, ◌∙◌, Bool, true, false, not, ◌&&◌, ◌||◌, Option, none, some, arith,
  any, find, is_some, ◌==◌, ◌!=◌, string_eq, ok, fail_if-eq-ok, fail_if-last, ok_or-eq-ok,
  >>=-eq-ok,
}
use oan_protocol_common.BTreeMap.{contains_key}
use oan_protocol_common.Core.Kinds.{SubjectType, ResourceType, subject_eq, resource_eq}
use oan_protocol_common.Core.Document.{
  DidDocument, DidController, OanMetadata, VerificationMethod, controls, suite_of_method,
}
use oan_protocol_common.Core.Validate.{
  invalid_type_combination, missing_verification_method, missing_proof, missing_controller,
  validate_mvp, validate_infrastructure_profile, service_type_of, key_1, lists,
}
use oan_protocol_common.Core.Validate.Resource.{IsMvp, validate_mvp_iff}

-- What the checks ask of the document of a node of a kind.
pub record IsNode (d : DidDocument) (kind : ResourceType) : Type 0 where
  pub controller : DidController
  pub metadata : OanMetadata
  pub method : VerificationMethod
  pub service_type : String
  pub shaped : IsMvp d
  pub has_controller : d.controller ≡ some controller
  pub has_metadata : d.oan_metadata ≡ some metadata
  is_node : metadata.subject_type ≡ SubjectType.infrastructure_node
  is_kind : metadata.resource_type ≡ kind
  no_identity_type : metadata.identity_type ≡ none
  no_node_role : contains_key "nodeRole" metadata.extra ≡ false
  no_extra_identity : contains_key "identityType" metadata.extra ≡ false
  pub key_found :
      find (λ m. m.id == key_1 d.id && m.controller == d.id) d.verification_method ≡ some method
  served : service_type_of kind ≡ some service_type
  pub authenticates : lists d.authentication (key_1 d.id) ≡ true
  pub asserts : lists d.assertion_method (key_1 d.id) ≡ true
  controls_itself : controls controller d.id ≡ true
  offers : any (λ s. s.service_type == service_type) d.service ≡ true
  pub has_proof : is_some d.proof ≡ true
  has_suite : is_some (suite_of_method method) ≡ true

kinds_iff :
    (m : OanMetadata) (kind : ResourceType)
    → (((m.subject_type != SubjectType.infrastructure_node) || (m.resource_type != kind)) ≡ false)
      ↔ ((m.subject_type ≡ SubjectType.infrastructure_node) × (m.resource_type ≡ kind))
kinds_iff m kind = ground (
  arith,
  subject_eq.test_iff m.subject_type SubjectType.infrastructure_node,
  resource_eq.test_iff m.resource_type kind,
)

absent_iff :
    (o : Option String) (a b : Bool)
    → ((is_some o || a || b) ≡ false) ↔ ((o ≡ none) × (a ≡ false) × (b ≡ false))
absent_iff o a b = ground arith

present_iff :
    (a b c e : Bool)
    → ((not a || not b || not c || not e) ≡ false)
      ↔ ((a ≡ true) × (b ≡ true) × (c ≡ true) × (e ≡ true))
present_iff a b c e = ground arith

both_iff : (a b : Bool) → ((not a || not b) ≡ false) ↔ ((a ≡ true) × (b ≡ true))
both_iff a b = ground arith

-- `validate_infrastructure_profile` accepts exactly the documents that `IsNode` describes for the
-- expected kind of node.
pub validate_infrastructure_profile_iff :
    (d : DidDocument) (kind : ResourceType)
    → (validate_infrastructure_profile d kind ≡ ok tt) ↔ IsNode d kind
unfolding validate_infrastructure_profile
validate_infrastructure_profile_iff d kind = (
  λ h.
      let (_, shaped, h1) = >>=-eq-ok (validate_mvp d) _ {b = tt} h in
      let (metadata, has_metadata, h2) = (ok_or-eq-ok _ _ _ tt).0 h1 in
      let (kinds, h3) = (fail_if-eq-ok _ invalid_type_combination _ tt).0 h2 in
      let (absent, h4) = (fail_if-eq-ok _ invalid_type_combination _ tt).0 h3 in
      let (controller, has_controller, h5) = (ok_or-eq-ok _ missing_controller _ tt).0 h4 in
      let (method, key_found, h6) = (ok_or-eq-ok _ missing_verification_method _ tt).0 h5 in
      let (service_type, served, h7) = (ok_or-eq-ok _ invalid_type_combination _ tt).0 h6 in
      let (present, h8) = (fail_if-eq-ok _ invalid_type_combination _ tt).0 h7 in
      let (is_node, is_kind) = (kinds_iff metadata kind).0 kinds in
      let (a, b, c) = (absent_iff metadata.identity_type _ _).0 absent in
      let (e, f, g, i) = (present_iff _ _ _ _).0 present in
      let (proof, suite) = (both_iff _ _).0 ((fail_if-last _ missing_proof).0 h8) in
      record {
        controller = controller;
        metadata = metadata;
        method = method;
        service_type = service_type;
        shaped = (validate_mvp_iff d).0 shaped;
        has_controller = has_controller;
        has_metadata = has_metadata;
        is_node = is_node;
        is_kind = is_kind;
        no_identity_type = a;
        no_node_role = b;
        no_extra_identity = c;
        key_found = key_found;
        served = served;
        authenticates = e;
        asserts = f;
        controls_itself = g;
        offers = i;
        has_proof = proof;
        has_suite = suite;
      },
  λ r. rw ((validate_mvp_iff d).1 r.shaped) (
      (ok_or-eq-ok _ _ _ tt).1 (
        r.metadata,
        r.has_metadata,
        (fail_if-eq-ok _ _ _ tt).1 (
          (kinds_iff r.metadata kind).1 (r.is_node, r.is_kind),
          (fail_if-eq-ok _ _ _ tt).1 (
            (absent_iff r.metadata.identity_type _ _).1
                (r.no_identity_type, r.no_node_role, r.no_extra_identity),
            (ok_or-eq-ok _ _ _ tt).1 (
              r.controller,
              r.has_controller,
              (ok_or-eq-ok _ _ _ tt).1 (
                r.method,
                r.key_found,
                (ok_or-eq-ok _ _ _ tt).1 (
                  r.service_type,
                  r.served,
                  (fail_if-eq-ok _ _ _ tt).1 (
                    (present_iff _ _ _ _).1
                        (r.authenticates, r.asserts, r.controls_itself, r.offers),
                    (fail_if-last _ _).1 ((both_iff _ _).1 (r.has_proof, r.has_suite)),
                  ),
                ),
              ),
            ),
          ),
        ),
      )),
)

some-eq {ℓ} : {A : Type ℓ} (a b : A) → some a ≡ some b → a ≡ b
some-eq a b h = cc

-- A document passes `validate_infrastructure_profile` for one kind of node at most.
one_kind :
    (d : DidDocument) (kind other : ResourceType)
    → validate_infrastructure_profile d kind ≡ ok tt
    → validate_infrastructure_profile d other ≡ ok tt
    → kind ≡ other
one_kind d kind other h k =
    let r = (validate_infrastructure_profile_iff d kind).0 h in
    let q = (validate_infrastructure_profile_iff d other).0 k in
    sym r.is_kind
    ∙ ap (λ (m : OanMetadata). m.resource_type) (some-eq _ _ (sym r.has_metadata ∙ q.has_metadata))
    ∙ q.is_kind
