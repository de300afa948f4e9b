-- ===== src/Package/Seal.antt =====
-- Packages that are accepted: one whose hashes are filled in, and claims that say what a package says.
use oan_protocol_common.Base.{
  String, ◌≡◌, ap, ◌∙◌, fail_if, ◌↔◌, refl, Bool, true, false, not, ◌&&◌, Option, some, List, ◌==◌,
  string_eq, list_eq, arith, eq_iff, eq_refl, list_beq_iff, ok, fail_if-last, ok_or-eq-ok,
}
use oan_protocol_common.Json.{Value}
use oan_protocol_common.Core.Kinds.{ResourceType, resource_eq}
use oan_protocol_common.Crypto.Primitives.{Primitives}
use oan_protocol_common.Crypto.Signatures.{hash_json_with_suite}
use oan_protocol_common.Package.{
  ResourcePackage, ResourceMetadata, ResourcePackageClaims, Codecs, effective_crypto_suite,
  hash_matches, package_value, document_domains, claims_match, hash_resource_metadata_with_suite,
  verify_did_document_hash, verify_metadata_hash, verify_package_hash, verify_metadata_consistency,
  verify_root_claim_binding, root_proof_claim_mismatch,
}

-- What a package says of itself.
abbrev pub claims_of : ResourcePackage → Option String → ResourcePackageClaims
claims_of p ref = record {
  resource_did = p.resource_did;
  resource_type = p.resource_type;
  version = p.package_version;
  did_document_hash = p.did_document_hash;
  metadata_hash = p.metadata_hash;
  package_hash = p.package_hash;
  hash_algorithm = p.hash_algorithm;
  lifecycle_state = p.metadata.lifecycle_state;
  authorized_domains = p.metadata.authorized_domains;
  bulletin_ref = ref;
}

and_iff : (a b : Bool) → ((a && b) ≡ true) ↔ ((a ≡ true) × (b ≡ true))
and_iff a b = ground arith

not_iff : (b : Bool) → (not b ≡ false) ↔ (b ≡ true)
not_iff b = ground arith

resource_refl : (r : ResourceType) → (r == r) ≡ true
resource_refl r = (resource_eq.test_iff r r).1 refl

domains_refl : (ds : List String) → (ds == ds) ≡ true
domains_refl ds = (list_beq_iff ds ds).1 refl

claims_match_self :
    (p : ResourcePackage) (ref : Option String) → claims_match (claims_of p ref) p ≡ true
unfolding claims_match
claims_match_self p ref =
    simp (eq_refl, resource_refl p.resource_type, domains_refl p.metadata.authorized_domains)

claims_match_iff :
    (c : ResourcePackageClaims) (p : ResourcePackage)
    → (claims_match c p ≡ true) ↔ (c ≡ claims_of p c.bulletin_ref)
unfolding claims_match
claims_match_iff c p = (
  λ h.
      let (a, h1) = (and_iff _ _).0 h in
      let (b, h2) = (and_iff _ _).0 h1 in
      let (d, h3) = (and_iff _ _).0 h2 in
      let (e, h4) = (and_iff _ _).0 h3 in
      let (f, h5) = (and_iff _ _).0 h4 in
      let (g, h6) = (and_iff _ _).0 h5 in
      let (k, h7) = (and_iff _ _).0 h6 in
      let (l, m) = (and_iff _ _).0 h7 in
      λ i. record {
        resource_did = (eq_iff c.resource_did p.resource_did).0 a i;
        resource_type = (resource_eq.test_iff c.resource_type p.resource_type).0 b i;
        version = (eq_iff c.version p.package_version).0 d i;
        did_document_hash = (eq_iff c.did_document_hash p.did_document_hash).0 e i;
        metadata_hash = (eq_iff c.metadata_hash p.metadata_hash).0 f i;
        package_hash = (eq_iff c.package_hash p.package_hash).0 g i;
        hash_algorithm = (eq_iff c.hash_algorithm p.hash_algorithm).0 k i;
        lifecycle_state = (eq_iff c.lifecycle_state p.metadata.lifecycle_state).0 l i;
        authorized_domains =
            (list_beq_iff c.authorized_domains p.metadata.authorized_domains).0 m i;
        bulletin_ref = c.bulletin_ref;
      },
  λ h. rw h (claims_match_self p c.bulletin_ref),
)

hash_matches_self : (h a : String) → hash_matches h a h ≡ true
unfolding hash_matches
hash_matches_self h a = rw (eq_refl h) refl

module _ (primitives : Primitives) (codecs : Codecs) where
  -- the metadata for the package, but for its hashes
  abbrev matching : ResourcePackage → ResourceMetadata
  matching p = record p.metadata {
    resource_did = p.resource_did;
    package_version = p.package_version;
    hash_algorithm = p.hash_algorithm;
    authorized_domains = document_domains p.did_document;
  }

  abbrev document_hash : ResourcePackage → String
  document_hash p =
      hash_json_with_suite primitives (effective_crypto_suite p)
        (codecs.document_value p.did_document)

  abbrev hash_of_metadata : ResourcePackage → String
  hash_of_metadata p =
      hash_resource_metadata_with_suite primitives codecs (effective_crypto_suite p) (matching p)

  abbrev hash_of_package : ResourcePackage → String
  hash_of_package p = hash_json_with_suite primitives (effective_crypto_suite p) (
      package_value
        (record p { did_document_hash = document_hash p; metadata_hash = hash_of_metadata p }))

  -- the package with its hashes
  abbrev pub sealed : ResourcePackage → ResourcePackage
  sealed p = record p {
    did_document_hash = document_hash p;
    metadata_hash = hash_of_metadata p;
    package_hash = hash_of_package p;
    metadata = record (matching p) {
      metadata_hash = hash_of_metadata p;
      package_hash = hash_of_package p;
    };
  }

  -- A package whose hashes are filled in, with metadata for the package, passes the checks of its
  -- three hashes and of its metadata.
  pub sealed_verifies :
      (p : ResourcePackage)
      → (verify_did_document_hash primitives codecs (sealed p) ≡ ok tt)
        × (verify_metadata_hash primitives codecs (sealed p) ≡ ok tt)
        × (verify_package_hash primitives codecs (sealed p) ≡ ok tt)
        × (verify_metadata_consistency (sealed p) ≡ ok tt)
  unfolding verify_did_document_hash verify_metadata_hash verify_package_hash
      verify_metadata_consistency package_value hash_resource_metadata_with_suite
      effective_crypto_suite document_domains
  sealed_verifies p = (
    rw (hash_matches_self (document_hash p) p.hash_algorithm) refl,
    rw (hash_matches_self (hash_of_metadata p) p.hash_algorithm) refl,
    rw (hash_matches_self (hash_of_package p) p.hash_algorithm) refl,
    simp (eq_refl, domains_refl (document_domains p.did_document)),
  )

module _ (codecs : Codecs) where
  -- Claims in a package's root proof bind exactly when they are parsed to what the package says of
  -- itself, with any reference to a bulletin.
  verify_root_claim_binding_iff :
      (p : ResourcePackage)
      → (verify_root_claim_binding codecs p ≡ ok tt) ↔ (
          (claims : Value) × (p.root_proof.package_claims ≡ some claims)
          × ((ref : Option String) × (codecs.parse_claims claims ≡ some (claims_of p ref))))
  unfolding verify_root_claim_binding
  verify_root_claim_binding_iff p = (
    λ h.
        let (claims, found, h1) = (ok_or-eq-ok _ root_proof_claim_mismatch _ tt).0 h in
        let (parsed, read, h2) =
          (ok_or-eq-ok (codecs.parse_claims claims) root_proof_claim_mismatch
              (λ c. fail_if (not (claims_match c p)) root_proof_claim_mismatch) tt).0
            h1 in
        let same =
          (claims_match_iff parsed p).0
            ((not_iff _).0 ((fail_if-last _ root_proof_claim_mismatch).0 h2)) in
        (claims, found, (parsed.bulletin_ref, read ∙ ap some same)),
    λ h.
        let (claims, found, (ref, read)) = h in
        (ok_or-eq-ok _ root_proof_claim_mismatch _ tt).1 (
          claims,
          found,
          (ok_or-eq-ok (codecs.parse_claims claims) root_proof_claim_mismatch
                (λ c. fail_if (not (claims_match c p)) root_proof_claim_mismatch) tt).1
              (claims_of p ref, read, rw (claims_match_self p ref) refl),
        ),
  )
