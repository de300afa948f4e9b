-- ===== src/Credentials/Proofs/Verify.antt =====
-- A credential that is signed is accepted.
use Prim.Native.String.{◌++◌ as ◌+s+◌}
use oan_protocol_common.Base.{ℕ, String, ◌≡◌, refl, false, List, ok, list_eq, string_eq, ◌!=◌}
use oan_protocol_common.Text.Laws.{strip_prefix-append, starts_with-append}
use oan_protocol_common.Chrono.{Time}
use oan_protocol_common.Json.{Value}
use oan_protocol_common.Core.Suite.{CryptoSuite, ed25519_sha256}
use oan_protocol_common.Core.Profile.Types.{OanProof}
use oan_protocol_common.Crypto.Primitives.{Primitives}
use oan_protocol_common.Crypto.Keys.{SigningKey, verifying_key}
use oan_protocol_common.Crypto.Signatures.{signature_input, verify_oan_payload}
use oan_protocol_common.Crypto.Signatures.Verify.{Signs}
use oan_protocol_common.Credentials.{OanVerifiableCredential, oan_vc_contexts}
use oan_protocol_common.Credentials.Proofs.{
  remove_proof, sign_credential, verify_signed_payload, verify_oan_credential,
}

same_contexts : (cs : List String) → cs ≡ oan_vc_contexts → (cs != oan_vc_contexts) ≡ false
same_contexts cs h = rw h refl

module _ (primitives : Primitives) (signs : Signs primitives) where
  abbrev signature : Value → List ℕ → List ℕ
  signature unsigned key =
      primitives.ed25519_sign key (signature_input primitives ed25519_sha256 unsigned)

  abbrev proof_of : Time → Value → String → List ℕ → OanProof
  proof_of now unsigned method key = record {
    proof_type = "Ed25519Signature2020";
    created = now;
    proof_purpose = "assertionMethod";
    proof_value = "z" +s+ primitives.bs58_encode (signature unsigned key);
    verification_method = method;
  }

  verify_oan_payload-proof :
      (now : Time) (unsigned : Value) (method : String) (suite : CryptoSuite) (key : List ℕ)
      → verify_oan_payload primitives unsigned
          (proof_of now unsigned method key)
          (verifying_key primitives (SigningKey.ed25519 suite key))
        ≡ ok tt
  unfolding verify_oan_payload verifying_key
  verify_oan_payload-proof now unsigned method suite key =
      rw (starts_with-append "z" (primitives.bs58_encode (signature unsigned key))) (
        rw (strip_prefix-append "z" (primitives.bs58_encode (signature unsigned key))) (
          rw (signs.bs58_back (signature unsigned key)) (
            rw (signs.ed25519_length key (signature_input primitives ed25519_sha256 unsigned)) (
              rw (signs.ed25519_valid key (signature_input primitives ed25519_sha256 unsigned))
                refl))))

  module _ {T : Type 0} (value : OanVerifiableCredential T → Value) where
    -- A credential with the contexts of a credential is signed by each Ed25519 key, with a method
    -- of its issuer, and accepted with the key's verifying key; asked are the laws of `Signs` and
    -- that the credential's value without its proof is the value that is signed.
    pub verify_oan_credential-sign :
        (credential : OanVerifiableCredential T) (unsigned : Value) (now : Time)
        (creator fragment : String) (suite : CryptoSuite) (key : List ℕ)
        → credential.context ≡ oan_vc_contexts
        → ((proof : OanProof)
            → remove_proof (value (record credential { proof = proof })) ≡ ok unsigned)
        → (proof : OanProof) × (sign_credential primitives now unsigned creator
              ((credential.issuer +s+ "#") +s+ fragment)
              (SigningKey.ed25519 suite key)
            ≡ ok proof)
          × (verify_oan_credential primitives value
                (record credential { proof = proof })
                (verifying_key primitives (SigningKey.ed25519 suite key))
              ≡ ok tt)
    unfolding sign_credential verify_oan_credential verify_signed_payload
    verify_oan_credential-sign credential unsigned now creator fragment suite key contexts encoded =
        (
          proof_of now unsigned ((credential.issuer +s+ "#") +s+ fragment) key,
          refl,
          rw (same_contexts credential.context contexts) (
              rw (starts_with-append (credential.issuer +s+ "#") fragment) (
                rw (starts_with-append "z" (primitives.bs58_encode (signature unsigned key))) (
                  rw
                    (encoded (proof_of now unsigned ((credential.issuer +s+ "#") +s+ fragment) key))
                    (rw
                      (verify_oan_payload-proof now unsigned
                        ((credential.issuer +s+ "#") +s+ fragment) suite key)
                      refl)))),
        )
