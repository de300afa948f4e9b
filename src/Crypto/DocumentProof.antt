-- ===== src/Crypto/DocumentProof.antt =====
-- The proof of a DID document: the checks before the standard verification, and the fallback.
pub mod Standard
pub mod Sign
pub mod Conflict
use oan_protocol_common.Base.{
  ℕ, String, Bool, true, false, not, ◌&&◌, ◌||◌, Option, none, some, List, [], ◌∷◌, any, find,
  is_some, ◌==◌, ◌!=◌, string_eq, list_eq, option_eq, if◌then◌else◌, Result, ok, err, ◌>>=◌, ◌>>◌,
  fail_if, ok_or, map_err,
}
use oan_protocol_common.Json.{Value, get, as_str}
use oan_protocol_common.Core.Suite.{ed25519_sha256}
use oan_protocol_common.Core.Document.{
  DidDocument, DidController, DataIntegrityProof, VerificationMethod, did_oan_contexts,
}
use oan_protocol_common.Core.Validate.{key_1, lists}
use oan_protocol_common.Crypto.Primitives.{Primitives}
use oan_protocol_common.Crypto.Keys.{
  CryptoError, invalid_proof, VerifyingKey, verifying_key_from_method,
}
use oan_protocol_common.Crypto.Signatures.{signature_input, verify_bytes_multibase}

abbrev controllers : Option DidController → List String
controllers none = []
controllers (some (DidController.did controller)) = controller ∷ []
controllers (some (DidController.dids values)) = values

-- whether a method is the document's first key, controlled by the document or a controller of it
abbrev pub is_key_1 : DidDocument → VerificationMethod → Bool
is_key_1 document method =
    method.id == key_1 document.id
    && (method.controller == document.id
        || lists (controllers document.controller) method.controller)

-- `jwk.get("alg").as_str()` of an optional JWK
abbrev pub alg_of : Option Value → Option String
alg_of none = none
alg_of (some jwk) = as_str (get jwk "alg")

-- the checks of the method that is found
unfoldable pub check_method :
    DataIntegrityProof
    → VerificationMethod
    → Result CryptoError (DataIntegrityProof × VerificationMethod)
check_method proof method = do
  fail_if (method.method_type != "Ed25519VerificationKey2020") invalid_proof
  fail_if (alg_of method.public_key_jwk == some "Ed25519") invalid_proof
  ok (proof, method)

-- the checks of the proof, and the search for the method
unfoldable pub check_proof :
    DidDocument → DataIntegrityProof → Result CryptoError (DataIntegrityProof × VerificationMethod)
unfolding check_method
check_proof document proof = do
  fail_if
      ((proof.proof_type != "Ed25519Signature2020")
        || ((proof.proof_purpose != "assertionMethod")
            || ((proof.creator != key_1 document.id)
                || (is_some proof.crypto_suite || is_some proof.hash_algorithm))))
      invalid_proof
  fail_if
      ((proof.verification_method != some (key_1 document.id))
        || not (lists document.assertion_method (key_1 document.id)))
      invalid_proof
  method ← ok_or (find (λ m. is_key_1 document m) document.verification_method) invalid_proof
  check_method proof method

-- the checks of `verify_did_document_proof` before it verifies
unfoldable pub check_document_proof :
    DidDocument → Result CryptoError (DataIntegrityProof × VerificationMethod)
unfolding check_proof
check_document_proof document = do
  fail_if (document.context != did_oan_contexts) invalid_proof
  proof ← ok_or document.proof invalid_proof
  check_proof document proof

-- `document_value` is serde's encoding of a document, and `standard` the standard verification of it.
module _ (primitives : Primitives) (document_value : DidDocument → Value)
    (standard : Value → Result CryptoError (Unit {0})) where
  -- `did_document_signature_input`
  unfoldable document_input : DidDocument → List ℕ
  document_input document =
      signature_input primitives ed25519_sha256 (document_value (record document { proof = none }))

  -- the fallback, whose failing signature has the error of the standard verification
  unfoldable verify_legacy :
      DidDocument
      → DataIntegrityProof
      → VerificationMethod
      → CryptoError
      → Result CryptoError (Unit {0})
  unfolding document_input
  verify_legacy document proof method standard_error = do
    key ← verifying_key_from_method primitives method
    map_err (verify_bytes_multibase primitives key (document_input document) proof.proof_value)
        standard_error

  abbrev or_legacy :
      DidDocument
      → DataIntegrityProof × VerificationMethod
      → Result CryptoError (Unit {0})
      → Result CryptoError (Unit {0})
  or_legacy document (proof, method) (ok _) = ok tt
  or_legacy document (proof, method) (err standard_error) =
      verify_legacy document proof method standard_error

  unfoldable pub verify_did_document_proof : DidDocument → Result CryptoError (Unit {0})
  unfolding check_document_proof verify_legacy
  verify_did_document_proof document = check_document_proof document >>= λ checked.
      or_legacy document checked (standard (document_value document))
