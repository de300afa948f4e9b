-- ===== src/Core/Suite.antt =====
-- The cryptographic suites (crates/oan-core/src/lib.rs, `CryptoSuite`).
use oan_protocol_common.Base.{
  ℕ, String, PartialEq, enum_eq, nth_or, [], ◌∷◌, Option, none, some, ◌≡◌, refl, if◌then◌else◌,
  ◌==◌, string_eq, arith, eq_iff,
}

pub data CryptoSuite : Type 0 where
  ed25519_sha256_legacy ed25519_sha256 sm2_sm3 : CryptoSuite

abbrev discriminant : CryptoSuite → ℕ
discriminant ed25519_sha256_legacy = 0
discriminant ed25519_sha256 = 1
discriminant sm2_sm3 = 2

abbrev of_discriminant : ℕ → CryptoSuite
of_discriminant = nth_or sm2_sm3 (ed25519_sha256_legacy ∷ ed25519_sha256 ∷ [])

pub suite_back : (s : CryptoSuite) → of_discriminant (discriminant s) ≡ s
suite_back ed25519_sha256_legacy = refl
suite_back ed25519_sha256 = refl
suite_back sm2_sm3 = refl

instance abbrev pub suite_eq : PartialEq CryptoSuite
suite_eq = enum_eq discriminant of_discriminant suite_back

unfoldable signing_algorithm : CryptoSuite → String
signing_algorithm sm2_sm3 = "SM2"
signing_algorithm _ = "Ed25519"

unfoldable pub hash_algorithm : CryptoSuite → String
hash_algorithm sm2_sm3 = "SM3"
hash_algorithm _ = "SHA-256"

unfoldable pub canonical_hash_algorithm : CryptoSuite → String
canonical_hash_algorithm sm2_sm3 = "sm3"
canonical_hash_algorithm _ = "sha256"

unfoldable verification_method_type : CryptoSuite → String
verification_method_type sm2_sm3 = "SM2VerificationKey2020"
verification_method_type _ = "Ed25519VerificationKey2020"

unfoldable pub proof_type : CryptoSuite → String
proof_type sm2_sm3 = "SM2Signature2020"
proof_type _ = "Ed25519Signature2020"

unfoldable pub from_verification_method_type : String → Option CryptoSuite
from_verification_method_type value =
    if value == "Ed25519VerificationKey2020"
    then some ed25519_sha256
    else (if value == "SM2VerificationKey2020" then some sm2_sm3 else none)

unfoldable pub from_proof_type : String → Option CryptoSuite
from_proof_type value =
    if value == "Ed25519Signature2020"
    then some ed25519_sha256
    else (if value == "SM2Signature2020" then some sm2_sm3 else none)

-- `or_else` of an optional suite and one read from a type
abbrev pub or_else : Option CryptoSuite → Option CryptoSuite → Option CryptoSuite
or_else none o = o
or_else (some s) o = some s

-- The suite that the types of proofs and of methods name in place of a suite.
abbrev pub current : CryptoSuite → CryptoSuite
current sm2_sm3 = sm2_sm3
current _ = ed25519_sha256

-- The suite read back from a suite's type of proof, and from its type of verification method, is
-- the suite itself, or the current Ed25519 suite for the legacy one.
from_proof_type-proof_type :
    (s : CryptoSuite)
    → (from_proof_type (proof_type s) ≡ some (current s))
      × (from_verification_method_type (verification_method_type s) ≡ some (current s))
unfolding from_proof_type proof_type from_verification_method_type verification_method_type
from_proof_type-proof_type ed25519_sha256_legacy = (refl, refl)
from_proof_type-proof_type ed25519_sha256 = (refl, refl)
from_proof_type-proof_type sm2_sm3 = (refl, refl)

-- A type of proof that is read as a suite is that suite's type of proof.
from_proof_type-eq-some :
    (value : String) (s : CryptoSuite) → from_proof_type value ≡ some s → value ≡ proof_type s
unfolding from_proof_type proof_type
from_proof_type-eq-some value s h =
    ground (arith, eq_iff value "Ed25519Signature2020", eq_iff value "SM2Signature2020")
