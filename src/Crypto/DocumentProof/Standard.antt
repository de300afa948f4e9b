-- ===== src/Crypto/DocumentProof/Standard.antt =====
-- The standard verification of a document's proof (`verify_oan_data_integrity` and its callers). The
-- JSON-LD proof itself is checked by the ssi crates.
use oan_protocol_common.Base.{
  ℕ, String, Bool, true, false, not, ◌||◌, Option, none, some, List, [], ◌∷◌, is_some, length,
  nat_beq, ◌==◌, ◌!=◌, string_eq, option_eq, Result, ok, err, ◌>>=◌, ◌>>◌, fail_if, ok_or,
}
use oan_protocol_common.Text.{split, ends_with}
use oan_protocol_common.Json.{
  Value, string, object, get, as_str, array_items, find_value, find_field, insert_field,
}
use oan_protocol_common.Core.Validate.{key_1}
use oan_protocol_common.Crypto.Primitives.{Primitives}
use oan_protocol_common.Crypto.Keys.{
  CryptoError, invalid_proof, invalid_verifying_key, invalid_public_key_encoding,
  missing_key_material, standard_data_integrity,
}

-- What the ssi and iref crates do: the JSON of the public part of a JWK, the syntax of an IRI and of a
-- URI, and the verification of a document under a method's identifier and key. An error is its text.
pub record Ssi : Type 0 where
  pub public_jwk : Value → Result String Value
  pub iri : String → Result String (Unit {0})
  pub is_uri : String → Bool
  pub verify : Value → String → List ℕ → Result String (Unit {0})

-- `map_err(|error| StandardDataIntegrity(error.to_string()))`
abbrev pub standard_error {ℓ} : {A : Type ℓ} → Result String A → Result CryptoError A
standard_error (ok a) = ok a
standard_error (err text) = err (standard_data_integrity text)

-- whether a proof has a key that only the legacy proofs have
abbrev has_legacy_key : Option Value → Bool
has_legacy_key (some (object map)) =
    is_some (find_field "creator" map)
    || (is_some (find_field "cryptoSuite" map) || is_some (find_field "hashAlgorithm" map))
has_legacy_key _ = false

abbrev pub member : Option Value → String → Option Value
member none key = none
member (some v) key = get v key

abbrev pub is_object : Value → Bool
is_object (object map) = true
is_object _ = false

-- `split('#').next().unwrap_or_default()`
abbrev before_fragment : String → String
before_fragment id = elim (split b'#' id) [ [] ↦ "" | part ∷ parts ↦ part ]

abbrev with_context : Value → Value
with_context (object map) =
    object (insert_field "@context" (string "https://w3id.org/security/suites/ed25519-2020/v1") map)
with_context proof = proof

abbrev replace_proof : Value → Option Value → Value
replace_proof (object map) (some proof) = object (insert_field "proof" (with_context proof) map)
replace_proof document _ = document

-- the document with the context of the suite in its proof
unfoldable with_suite_context : Value → Value
with_suite_context document = replace_proof document (get document "proof")

module _ (primitives : Primitives) (ssi : Ssi) where
  abbrev retry : Value → String → List ℕ → Result String (Unit {0}) → Result CryptoError (Unit {0})
  retry document method_id key (ok _) = ok tt
  retry document method_id key (err first_error) =
      elim (ssi.verify (with_suite_context document) method_id key) [
        | ok _ ↦ ok tt
        | err _ ↦ err (standard_data_integrity first_error)
      ]

  -- the key of a JWK that is no Ed25519 key of an accepted form is an error
  unfoldable public_key_bytes : Value → String → Result CryptoError (List ℕ)
  public_key_bytes key method_id = do
    fail_if (not (is_object key)) invalid_verifying_key
    fail_if
        ((as_str (get key "kty") != some "OKP")
          || ((as_str (get key "crv") != some "Ed25519")
              || as_str (get key "alg") == some "Ed25519"))
        invalid_verifying_key
    x ← ok_or (as_str (get key "x")) invalid_public_key_encoding
    bytes ← ok_or (primitives.base64_decode x) invalid_public_key_encoding
    fail_if (not (ssi.is_uri (before_fragment method_id))) invalid_public_key_encoding
    fail_if (not (nat_beq (length bytes) 32)) invalid_public_key_encoding
    fail_if (not (primitives.ed25519_point bytes)) invalid_public_key_encoding
    ok bytes

  unfoldable pub verify_oan_data_integrity : Value → Value → Result CryptoError (Unit {0})
  unfolding public_key_bytes with_suite_context
  verify_oan_data_integrity document public_key_jwk = do
    key ← standard_error (ssi.public_jwk public_key_jwk)
    method_id ← ok_or (as_str (member (get document "proof") "verificationMethod")) invalid_proof
    fail_if (has_legacy_key (get document "proof")) invalid_proof
    standard_error (ssi.iri method_id)
    fail_if (not (ends_with "#key-1" method_id)) invalid_proof
    bytes ← public_key_bytes key method_id
    retry document method_id bytes (ssi.verify document method_id bytes)

  unfoldable pub verify_did_document_proof_standard_value : Value → Result CryptoError (Unit {0})
  unfolding verify_oan_data_integrity
  verify_did_document_proof_standard_value document = do
    id ← ok_or (as_str (get document "id")) invalid_proof
    public_key ←
        ok_or
          (member
            (find_value (λ method. as_str (get method "id") == some (key_1 id))
              (array_items (get document "verificationMethod")))
            "publicKeyJwk")
          missing_key_material
    verify_oan_data_integrity document public_key
