-- ===== src/Credentials/Kinds/Roles.antt =====
-- The credentials of infrastructure nodes that are accepted.
use oan_protocol_common.Base.{
  String, ◌≡◌, ◌≢◌, ◌↔◌, refl, Bool, true, false, not, ◌||◌, ◌&&◌, List, [], ◌∷◌, ◌==◌, ◌!=◌,
  string_eq, list_eq, arith, eq_iff, list_beq_iff, ok, ◌⊎◌, inl, inr, fail_if-eq-ok, fail_if-last,
}
use oan_protocol_common.Credentials.{
  OanVerifiableCredential, InfrastructureAuthorizationCredentialSubject, GovernedInfrastructureRole,
  root, registrar, discovery, vc_issuer, resource_type_of, as_str, invalid_type, invalid_subject,
  vc_infrastructure_authorization,
}
use oan_protocol_common.Credentials.Kinds.{
  validate_infrastructure_authorization_credential, role_resource_matches, any_empty,
}

-- The role and the type of resource are those of one governed role.
abbrev IsGoverned : String → String → Type 0
IsGoverned role resource_type =
    (r : GovernedInfrastructureRole) × ((role ≡ as_str r) × (resource_type ≡ resource_type_of r))

abbrev pub IsAuthorization :
    OanVerifiableCredential InfrastructureAuthorizationCredentialSubject → Type 0
IsAuthorization c =
    (c.credential_type ≡ "VerifiableCredential" ∷ vc_infrastructure_authorization ∷ [])
    × (c.credential_subject.subject_type ≡ "infrastructure_node")
    × IsGoverned c.credential_subject.role c.credential_subject.resource_type
    × (c.credential_subject.id ≢ "")
    × (c.credential_subject.did_document_hash ≢ "")

pair_iff : (s t x y : String) → ((s == x && t == y) ≡ true) ↔ ((s ≡ x) × (t ≡ y))
pair_iff s t x y = ground (arith, eq_iff s x, eq_iff t y)

or_cases : (a b : Bool) → (a || b) ≡ true → (a ≡ true) ⊎ (b ≡ true)
or_cases true b h = inl refl
or_cases false b h = inr h

matches_sound : (s t : String) → role_resource_matches s t ≡ true → IsGoverned s t
unfolding role_resource_matches as_str resource_type_of
matches_sound s t h = elim (or_cases _ _ h) [
  | inl x ↦ (root, (pair_iff s t _ _).0 x)
  | inr x ↦ elim (or_cases _ _ x) [
    | inl y ↦ (registrar, (pair_iff s t _ _).0 y)
    | inr y ↦ elim (or_cases _ _ y) [
      | inl z ↦ (discovery, (pair_iff s t _ _).0 z)
      | inr z ↦ (vc_issuer, (pair_iff s t _ _).0 z)
    ]
  ]
]

matches_complete : (s t : String) → IsGoverned s t → role_resource_matches s t ≡ true
unfolding role_resource_matches as_str resource_type_of
matches_complete s t (root, (p, q)) = rw p (rw q refl)
matches_complete s t (registrar, (p, q)) = rw p (rw q refl)
matches_complete s t (discovery, (p, q)) = rw p (rw q refl)
matches_complete s t (vc_issuer, (p, q)) = rw p (rw q refl)

empty_iff : (s t : String) → (any_empty (s ∷ t ∷ []) ≡ false) ↔ ((s ≢ "") × (t ≢ ""))
empty_iff s t = ground (arith, eq_iff s "", eq_iff t "")

types_iff : (ts us : List String) → ((ts != us) ≡ false) ↔ (ts ≡ us)
types_iff ts us = ground (arith, list_beq_iff ts us)

guard_iff : (s t : String) (b : Bool) → (((s != t) || not b) ≡ false) ↔ ((s ≡ t) × (b ≡ true))
guard_iff s t b = ground (arith, eq_iff s t)

-- An authorization is accepted exactly when it has the two types, a subject that is an
-- infrastructure node, a role and a type of resource that are those of one governed role, and an
-- identifier and a document hash that are not empty.
pub validate_infrastructure_authorization_credential_iff :
    (c : OanVerifiableCredential InfrastructureAuthorizationCredentialSubject)
    → (validate_infrastructure_authorization_credential c ≡ ok tt) ↔ IsAuthorization c
unfolding validate_infrastructure_authorization_credential
validate_infrastructure_authorization_credential_iff c = (
  λ h.
      let (a, h1) = (fail_if-eq-ok _ invalid_type _ tt).0 h in
      let (b, h2) = (fail_if-eq-ok _ invalid_subject _ tt).0 h1 in
      let (same, role) = (guard_iff _ _ _).0 b in
      let (x, y) = (empty_iff _ _).0 ((fail_if-last _ invalid_subject).0 h2) in
      ((types_iff _ _).0 a, same, matches_sound _ _ role, x, y),
  λ h.
      let (a, same, role, x, y) = h in
      (fail_if-eq-ok _ invalid_type _ tt).1 (
        (types_iff _ _).1 a,
        (fail_if-eq-ok _ invalid_subject _ tt).1 (
          (guard_iff _ _ _).1 (same, matches_complete _ _ role),
          (fail_if-last _ invalid_subject).1 ((empty_iff _ _).1 (x, y)),
        ),
      ),
)
