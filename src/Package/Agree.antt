-- ===== src/Package/Agree.antt =====
-- Packages with one hash.
use oan_protocol_common.Base.{
  String, ◌≡◌, Bool, true, false, not, Option, ◌⊎◌, inl, inr, arith, ok, fail_if-last,
}
use oan_protocol_common.Json.{Value, string}
use oan_protocol_common.Core.Suite.{CryptoSuite}
use oan_protocol_common.Core.Kinds.{as_str_injective}
use oan_protocol_common.Core.Document.{DidDocument}
use oan_protocol_common.Crypto.Primitives.{Primitives}
use oan_protocol_common.Crypto.Canonical.Head.{Quotes, IsJson}
use oan_protocol_common.Crypto.Signatures.{hash_json_with_suite}
use oan_protocol_common.Package.{
  ResourcePackage, ResourceMetadata, Codecs, effective_crypto_suite, hash_matches, normalized,
  package_value, hash_resource_metadata_with_suite, verify_did_document_hash, verify_metadata_hash,
  verify_package_hash, did_document_hash_mismatch, metadata_hash_mismatch, package_hash_mismatch,
}
use oan_protocol_common.Crypto.Signatures.Collisions.{Collision, hash_inj}
use oan_protocol_common.Package.Hashes.{NoColon, hash_matches_inj}

-- What is asked of the hashes and of serde: a hash in hexadecimal has no colon, and the values that
-- are hashed are JSON.
pub record Encodes (primitives : Primitives) (codecs : Codecs) : Type 0 where
  pub no_colon :
      (suite : CryptoSuite) (value : Value) → NoColon (hash_json_with_suite primitives suite value)
  pub document_json : (d : DidDocument) → IsJson (codecs.document_value d)
  pub metadata_json : (m : ResourceMetadata) → IsJson (codecs.metadata_value m)

-- The package's hashes are right.
abbrev pub Hashed : Primitives → Codecs → ResourcePackage → Type 0
Hashed primitives codecs p =
    (verify_package_hash primitives codecs p ≡ ok tt)
    × (verify_did_document_hash primitives codecs p ≡ ok tt)
    × (verify_metadata_hash primitives codecs p ≡ ok tt)

-- What two packages have in common: all that is in the hash, the document, and the metadata but for
-- its hashes.
abbrev pub Agree : Codecs → ResourcePackage → ResourcePackage → Type 0
Agree codecs p q =
    (p.package_version ≡ q.package_version)
    × (p.resource_did ≡ q.resource_did)
    × (p.resource_type ≡ q.resource_type)
    × (p.hash_algorithm ≡ q.hash_algorithm)
    × (codecs.document_value p.did_document ≡ codecs.document_value q.did_document)
    × (codecs.metadata_value (normalized p.metadata)
        ≡ codecs.metadata_value (normalized q.metadata))

not-eq-false : (b : Bool) → not b ≡ false → b ≡ true
not-eq-false b h = ground arith

string_inj : {s t : String} → string s ≡ string t → s ≡ t
string_inj h = cc

-- the fields of the value that is hashed
package_value_parts :
    (p q : ResourcePackage)
    → package_value p ≡ package_value q
    → (p.did_document_hash ≡ q.did_document_hash)
      × (p.hash_algorithm ≡ q.hash_algorithm)
      × (p.metadata_hash ≡ q.metadata_hash)
      × (p.package_version ≡ q.package_version)
      × (p.resource_did ≡ q.resource_did)
      × (p.resource_type ≡ q.resource_type)
unfolding package_value
package_value_parts p q h =
    (cc, cc, cc, cc, cc, as_str_injective p.resource_type q.resource_type cc)

package_value-IsJson : (p : ResourcePackage) → IsJson (package_value p)
unfolding package_value
package_value-IsJson p = (tt, (tt, (tt, (tt, (tt, (tt, tt))))))

module _ (primitives : Primitives) (codecs : Codecs) (read : String → Option (String × String))
    (quotes : Quotes primitives.json_string read) (encodes : Encodes primitives codecs) where
  -- One text for the hashes of two values.
  same_value :
      (e a b : String) (s t : CryptoSuite) (v w : Value)
      → hash_matches e a (hash_json_with_suite primitives s v) ≡ true
      → hash_matches e b (hash_json_with_suite primitives t w) ≡ true
      → IsJson v
      → IsJson w
      → (v ≡ w) ⊎ Collision primitives
  same_value e a b s t v w p q j k =
      hash_inj primitives read quotes s t v w j k
        (hash_matches_inj e a b _ _ p q (encodes.no_colon s v) (encodes.no_colon t w))

  package_matches :
      (p : ResourcePackage)
      → verify_package_hash primitives codecs p ≡ ok tt
      → hash_matches p.package_hash p.hash_algorithm
          (hash_json_with_suite primitives (effective_crypto_suite p) (package_value p))
        ≡ true
  unfolding verify_package_hash
  package_matches p h = not-eq-false _ ((fail_if-last _ package_hash_mismatch).0 h)

  document_matches :
      (p : ResourcePackage)
      → verify_did_document_hash primitives codecs p ≡ ok tt
      → hash_matches p.did_document_hash p.hash_algorithm (
          hash_json_with_suite primitives
            (effective_crypto_suite p)
            (codecs.document_value p.did_document))
        ≡ true
  unfolding verify_did_document_hash
  document_matches p h = not-eq-false _ ((fail_if-last _ did_document_hash_mismatch).0 h)

  metadata_matches :
      (p : ResourcePackage)
      → verify_metadata_hash primitives codecs p ≡ ok tt
      → hash_matches p.metadata_hash p.hash_algorithm (
          hash_json_with_suite primitives
            (effective_crypto_suite p)
            (codecs.metadata_value (normalized p.metadata)))
        ≡ true
  unfolding verify_metadata_hash hash_resource_metadata_with_suite
  metadata_matches p h = not-eq-false _ ((fail_if-last _ metadata_hash_mismatch).0 h)

  package_same :
      (p q : ResourcePackage)
      → verify_package_hash primitives codecs p ≡ ok tt
      → verify_package_hash primitives codecs q ≡ ok tt
      → p.package_hash ≡ q.package_hash
      → (package_value p ≡ package_value q) ⊎ Collision primitives
  package_same p q a b e =
      same_value p.package_hash p.hash_algorithm q.hash_algorithm (effective_crypto_suite p)
        (effective_crypto_suite q) (package_value p) (package_value q) (package_matches p a)
        (rw e (package_matches q b)) (package_value-IsJson p) (package_value-IsJson q)

  document_same :
      (p q : ResourcePackage)
      → verify_did_document_hash primitives codecs p ≡ ok tt
      → verify_did_document_hash primitives codecs q ≡ ok tt
      → p.did_document_hash ≡ q.did_document_hash
      → (codecs.document_value p.did_document ≡ codecs.document_value q.did_document)
        ⊎ Collision primitives
  document_same p q a b e =
      same_value p.did_document_hash p.hash_algorithm q.hash_algorithm (effective_crypto_suite p)
        (effective_crypto_suite q) (codecs.document_value p.did_document)
        (codecs.document_value q.did_document) (document_matches p a) (rw e (document_matches q b))
        (encodes.document_json p.did_document) (encodes.document_json q.did_document)

  metadata_same :
      (p q : ResourcePackage)
      → verify_metadata_hash primitives codecs p ≡ ok tt
      → verify_metadata_hash primitives codecs q ≡ ok tt
      → p.metadata_hash ≡ q.metadata_hash
      → (codecs.metadata_value (normalized p.metadata)
          ≡ codecs.metadata_value (normalized q.metadata))
        ⊎ Collision primitives
  metadata_same p q a b e =
      same_value p.metadata_hash p.hash_algorithm q.hash_algorithm (effective_crypto_suite p)
        (effective_crypto_suite q) (codecs.metadata_value (normalized p.metadata))
        (codecs.metadata_value (normalized q.metadata)) (metadata_matches p a)
        (rw e (metadata_matches q b)) (encodes.metadata_json (normalized p.metadata))
        (encodes.metadata_json (normalized q.metadata))

  contents_same :
      (p q : ResourcePackage)
      → Hashed primitives codecs p
      → Hashed primitives codecs q
      → package_value p ≡ package_value q
      → Agree codecs p q ⊎ Collision primitives
  contents_same p q (a, b, c) (a', b', c') same =
      let (document, algorithm, metadata, version, did, kind) = package_value_parts p q same in
      elim (document_same p q b b' document) [
        | inr collision ↦ inr collision
        | inl x ↦ elim (metadata_same p q c c' metadata) [
          | inr collision ↦ inr collision
          | inl y ↦ inl (version, did, kind, algorithm, x, y)
        ]
      ]

  -- Two packages whose hashes are all verified and that have one package hash have the same
  -- version, identifier, type, hash algorithm, document and metadata but for its hashes, as serde
  -- encodes them; or two byte sequences with one hash are found. Asked are a hash without a colon,
  -- and texts and values that are JSON.
  pub same_package_hash :
      (p q : ResourcePackage)
      → Hashed primitives codecs p
      → Hashed primitives codecs q
      → p.package_hash ≡ q.package_hash
      → Agree codecs p q ⊎ Collision primitives
  same_package_hash p q h k e = elim (package_same p q h.0 k.0 e) [
    | inr collision ↦ inr collision
    | inl same ↦ contents_same p q h k same
  ]
