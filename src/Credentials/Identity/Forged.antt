-- ===== src/Credentials/Identity/Forged.antt =====
-- An identity that nobody signed.
use Prim.Native.String.{◌++◌ as ◌+s+◌}
use oan_protocol_common.Base.{
  ℕ, String, ◌≡◌, ◌∙◌, refl, Bool, true, false, none, some, List, length, ok, string_eq, option_eq,
  eq_refl,
}
use oan_protocol_common.Text.Laws.{strip_prefix-append, starts_with-append}
use oan_protocol_common.Chrono.{Time}
use oan_protocol_common.Json.{Value}
use oan_protocol_common.Core.Document.{DidDocument, DataIntegrityProof}
use oan_protocol_common.Core.Validate.{validate_mvp}
use oan_protocol_common.Crypto.Primitives.{Primitives}
use oan_protocol_common.Crypto.DocumentProof.Standard.{Ssi}
use oan_protocol_common.Credentials.Identity.{
  OanIdentity, check_bound, or_shape, validate_identity_bindings, check_shape,
  validate_data_integrity,
}

module _ (primitives : Primitives)
    (bs58_back : (b : List ℕ) → primitives.bs58_decode (primitives.bs58_encode b) ≡ some b) where
  -- a proof of the right shape with any bytes for a signature
  abbrev pub shaped : String → Time → List ℕ → DataIntegrityProof
  shaped method created signature = record {
    context = none;
    proof_type = "Ed25519Signature2020";
    creator = method;
    created = created;
    proof_purpose = "assertionMethod";
    proof_value = "z" +s+ primitives.bs58_encode signature;
    crypto_suite = none;
    hash_algorithm = none;
    verification_method = some method;
  }

  -- the identity with such a proof in its document
  abbrev pub with_signature : OanIdentity → Time → List ℕ → OanIdentity
  with_signature self created signature = record self {
    did_document = record self.did_document {
      proof = some (shaped self.verification_method_id created signature);
    };
  }

  check_shape-shaped :
      (method : String) (created : Time) (signature : List ℕ)
      → length signature ≡ 64
      → check_shape primitives method (shaped method created signature) ≡ ok tt
  unfolding check_shape
  check_shape-shaped method created signature size = rw (eq_refl method) (
      rw (starts_with-append "z" (primitives.bs58_encode signature)) (
        rw (strip_prefix-append "z" (primitives.bs58_encode signature))
          (rw (bs58_back signature) (rw size refl))))

  bindings-with_signature :
      (self : OanIdentity) (created : Time) (signature : List ℕ)
      → validate_identity_bindings primitives (with_signature self created signature)
        ≡ validate_identity_bindings primitives self
  unfolding validate_identity_bindings check_bound
  bindings-with_signature self created signature = refl

  valid-with_signature :
      (self : OanIdentity) (created : Time) (signature : List ℕ)
      → validate_mvp (with_signature self created signature).did_document
        ≡ validate_mvp self.did_document
  unfolding validate_mvp
  valid-with_signature self created signature = refl

  module _ (document_value : DidDocument → Value) (ssi : Ssi) where
    or_shape-shaped :
        (self : OanIdentity) (created : Time) (signature : List ℕ) (verified : Bool)
        → length signature ≡ 64
        → or_shape primitives document_value ssi (with_signature self created signature) verified
          ≡ ok tt
    or_shape-shaped self created signature true size = refl
    or_shape-shaped self created signature false size =
        check_shape-shaped self.verification_method_id created signature size

    -- An identity with good bindings and a document that passes `validate_mvp` is accepted by
    -- `validate_data_integrity` with any 64 bytes for a signature in a proof of the right shape,
    -- whatever the verifications say.
    pub forged_identity :
        (self : OanIdentity) (created : Time) (signature : List ℕ)
        → validate_identity_bindings primitives self ≡ ok tt
        → validate_mvp self.did_document ≡ ok tt
        → length signature ≡ 64
        → validate_data_integrity primitives document_value ssi
            (with_signature self created signature)
          ≡ ok tt
    unfolding validate_data_integrity
    forged_identity self created signature bound valid size =
        rw (bindings-with_signature self created signature ∙ bound) (
          rw (valid-with_signature self created signature ∙ valid)
            (or_shape-shaped self created signature _ size))
