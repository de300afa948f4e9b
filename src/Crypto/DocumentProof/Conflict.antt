-- ===== src/Crypto/DocumentProof/Conflict.antt =====
-- `verify_did_document_proof` against the checks of oan-core.
use Prim.Native.String.{len}
use mathlib.Core.Path.{subst}
use text.Mathlib.TextPositions.{len-append}
use oan_protocol_common.Base.{
  String, ◌≡◌, ◌≢◌, sym, ap, ◌∙◌, Bool, true, false, not, ◌||◌, Option, some, is_some, nat_beq,
  arith, eq_iff, ◌==◌, ◌!=◌, string_eq, list_eq, list_beq_iff, option_eq, option_beq_iff, Result,
  ok, fail_if-eq-ok, ok_or-eq-ok, >>=-eq-ok, find-eq-some, ok_inj,
}
use oan_protocol_common.Json.{Value}
use oan_protocol_common.Core.Document.{
  DidDocument, DataIntegrityProof, VerificationMethod, did_oan_contexts,
}
use oan_protocol_common.Core.Codecs.{Codecs}
use oan_protocol_common.Core.Validate.{key_1, lists, validate_oan_resource}
use oan_protocol_common.Core.Validate.Resource.{validate_oan_resource_iff}
use oan_protocol_common.Crypto.Primitives.{Primitives}
use oan_protocol_common.Crypto.Keys.{CryptoError, invalid_proof}
use oan_protocol_common.Crypto.DocumentProof.{
  check_document_proof, check_proof, check_method, verify_did_document_proof, is_key_1, alg_of,
}

-- What the checks before the verification ask of the document.
pub record IsSigned (document : DidDocument) (proof : DataIntegrityProof)
    (method : VerificationMethod) : Type 0 where
  pub contexts : document.context ≡ did_oan_contexts
  pub proved : document.proof ≡ some proof
  pub creator : proof.creator ≡ key_1 document.id
  pub bare : (is_some proof.crypto_suite ≡ false) × (is_some proof.hash_algorithm ≡ false)
  pub named : proof.verification_method ≡ some (key_1 document.id)
  pub first_key : is_key_1 document method ≡ true
  pub listed : lists document.assertion_method (key_1 document.id) ≡ true

some_inj : {A : Type 0} {a b : A} → some a ≡ some b → a ≡ b
some_inj h = cc

guards_iff :
    (kind purpose creator key : String) (a b : Bool)
    → ((kind != "Ed25519Signature2020")
        || ((purpose != "assertionMethod") || ((creator != key) || (a || b))))
      ≡ false
    → (creator ≡ key) × (a ≡ false) × (b ≡ false)
guards_iff kind purpose creator key a b h = ground (arith, eq_iff creator key)

named_iff :
    (o : Option String) (key : String) (a : Bool)
    → ((o != some key) || not a) ≡ false
    → (o ≡ some key) × (a ≡ true)
named_iff o key a h = ground (arith, option_beq_iff o (some key))

contexts_iff :
    (d : DidDocument) → (d.context != did_oan_contexts) ≡ false → d.context ≡ did_oan_contexts
contexts_iff d h = ground (arith, list_beq_iff d.context did_oan_contexts)

check_document_proof_sound :
    (d : DidDocument) (checked : DataIntegrityProof × VerificationMethod)
    → check_document_proof d ≡ ok checked
    → IsSigned d checked.0 checked.1
unfolding check_document_proof
check_document_proof_sound d checked h =
    let (contexts, h1) = (fail_if-eq-ok _ invalid_proof _ _).0 h in
    let (proof, proved, h2) = (ok_or-eq-ok _ invalid_proof (check_proof d) _).0 h1 in
    let (form, h3) = (fail_if-eq-ok _ invalid_proof _ _).0 h2 in
    let (names, h4) = (fail_if-eq-ok _ invalid_proof _ _).0 h3 in
    let (method, found, h5) = (ok_or-eq-ok _ invalid_proof (check_method proof) _).0 h4 in
    let (typed, h6) =
      (fail_if-eq-ok (method.method_type != "Ed25519VerificationKey2020") invalid_proof _ _).0 h5 in
    let (alg, h7) =
      (fail_if-eq-ok (alg_of method.public_key_jwk == some "Ed25519") invalid_proof _ _).0 h6 in
    let (creator, suite, hash) =
      guards_iff proof.proof_type proof.proof_purpose proof.creator (key_1 d.id) _ _ form in
    let (named, listed) = named_iff _ _ _ names in
    subst (λ (c : DataIntegrityProof × VerificationMethod). IsSigned d c.0 c.1)
      {x = (proof, method)} (ok_inj h7)
      (record {
        contexts = contexts_iff d contexts;
        proved = proved;
        creator = creator;
        bare = (suite, hash);
        named = named;
        listed = listed;
        first_key = find-eq-some (λ m. is_key_1 d m) d.verification_method method found;
      })

len-key_1 : (id : String) → nat_beq (len (key_1 id)) 0 ≡ false
len-key_1 id = ground (arith, len-append id "#key-1")

module _ (primitives : Primitives) (document_value : DidDocument → Value)
    (standard : Value → Result CryptoError (Unit {0})) where
  -- What `verify_did_document_proof` accepts is signed by a first key of the document.
  verify_did_document_proof_sound :
      (d : DidDocument)
      → verify_did_document_proof primitives document_value standard d ≡ ok tt
      → (checked : DataIntegrityProof × VerificationMethod) × IsSigned d checked.0 checked.1
  unfolding verify_did_document_proof
  verify_did_document_proof_sound d h =
      let (checked, accepted, _) = >>=-eq-ok (check_document_proof d) _ {b = tt} h in
      (checked, check_document_proof_sound d checked accepted)

  -- A document that `verify_did_document_proof` accepts is not accepted by
  -- `validate_oan_resource`, whatever the standard verification and the other crates do.
  pub no_document_passes_both :
      (codecs : Codecs) (d : DidDocument)
      → verify_did_document_proof primitives document_value standard d ≡ ok tt
      → validate_oan_resource codecs d ≢ ok tt
  no_document_passes_both codecs d h k =
      let (checked, signed) = verify_did_document_proof_sound d h in
      let r = (validate_oan_resource_iff codecs d).0 k in
      let same : some checked.0 ≡ some r.proof = sym signed.proved ∙ r.has_proof in
      let creator : r.proof.creator ≡ key_1 d.id =
        subst (λ (p : DataIntegrityProof). p.creator ≡ key_1 d.id) (some_inj same) signed.creator in
      let empty = r.proved.1 in
      cc (len-key_1 d.id, ap (λ x. nat_beq (len x) 0) (sym creator), empty)
