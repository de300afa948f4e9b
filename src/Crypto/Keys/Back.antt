-- ===== src/Crypto/Keys/Back.antt =====
-- A key that is written as a multibase text or a JWK is read back.
use oan_protocol_common.Base.{
  ℕ, zero, suc, ◌≡◌, refl, ap, ◌∙◌, true, some, List, [], ◌∷◌, ◌++◌, length, take, drop, arith, ok,
}
use oan_protocol_common.Text.Laws.{strip_prefix-append}
use oan_protocol_common.Json.{get}
use oan_protocol_common.Core.Suite.{ed25519_sha256_legacy, ed25519_sha256, sm2_sm3}
use oan_protocol_common.Crypto.Primitives.{Primitives}
use oan_protocol_common.Crypto.Signatures.Verify.{Signs}
use oan_protocol_common.Crypto.Keys.{
  VerifyingKey, suite_of_verifying_key, without_multicodec, verifying_key_from_public_key_multibase,
  verifying_key_from_public_key_jwk, public_key_multibase, public_key_jwk,
}

take_append : {A : Type 0} (n : ℕ) (x y : List A) → length x ≡ n → take n (x ++ y) ≡ x
take_append zero [] y h = refl
take_append (suc n) [] y h = absurd (omega arith)
take_append zero (a ∷ x) y h = absurd (omega arith)
take_append (suc n) (a ∷ x) y h = ap (λ l. a ∷ l) (take_append n x y (omega arith))

drop_append : {A : Type 0} (n : ℕ) (x y : List A) → length x ≡ n → drop n (x ++ y) ≡ y
drop_append zero [] y h = refl
drop_append (suc n) [] y h = absurd (omega arith)
drop_append zero (a ∷ x) y h = absurd (omega arith)
drop_append (suc n) (a ∷ x) y h = drop_append n x y (omega arith)

take_all : {A : Type 0} (n : ℕ) (x : List A) → length x ≡ n → take n x ≡ x
take_all zero [] h = refl
take_all (suc n) [] h = refl
take_all zero (a ∷ x) h = absurd (omega arith)
take_all (suc n) (a ∷ x) h = ap (λ l. a ∷ l) (take_all n x (omega arith))

-- 32 bytes are not taken for a key with the multicodec prefix.
without_multicodec_lem : (bytes : List ℕ) → length bytes ≡ 32 → without_multicodec bytes ≡ bytes
unfolding without_multicodec
without_multicodec_lem [] h = refl
without_multicodec_lem (a ∷ []) h = refl
without_multicodec_lem (a ∷ b ∷ rest) h = ground arith

module _ (primitives : Primitives) (signs : Signs primitives) where
  -- A key that the source can hold: 32 bytes of a point, or an uncompressed point.
  abbrev IsKey : VerifyingKey → Type 0
  IsKey (VerifyingKey.ed25519 sm2_sm3 key) = ⊥
  IsKey (VerifyingKey.ed25519 _ key) = (length key ≡ 32) × (primitives.ed25519_point key ≡ true)
  IsKey (VerifyingKey.sm2 suite key) =
      (suite ≡ sm2_sm3)
      × (x : List ℕ) × (y : List ℕ) × (key ≡ 0x04 ∷ (x ++ y))
      × (length x ≡ 32)
      × (length y ≡ 32)
      × (primitives.sm2_point key ≡ some key)

  multibase_back :
      (key : VerifyingKey)
      → IsKey key
      → verifying_key_from_public_key_multibase primitives
          (suite_of_verifying_key key)
          (public_key_multibase primitives key)
        ≡ ok key
  unfolding suite_of_verifying_key public_key_multibase verifying_key_from_public_key_multibase
  multibase_back (VerifyingKey.ed25519 ed25519_sha256_legacy key) (size, point) =
      rw (strip_prefix-append "z" (primitives.bs58_encode key))
        (rw (signs.bs58_back key) (rw (without_multicodec_lem key size) (ground arith)))
  multibase_back (VerifyingKey.ed25519 ed25519_sha256 key) (size, point) =
      rw (strip_prefix-append "z" (primitives.bs58_encode key))
        (rw (signs.bs58_back key) (rw (without_multicodec_lem key size) (ground arith)))
  multibase_back (VerifyingKey.ed25519 sm2_sm3 key) h = absurd h
  multibase_back (VerifyingKey.sm2 suite key) (same, x, y, form, xs, ys, point) = rw same (
      rw (strip_prefix-append "z" (primitives.bs58_encode key))
        (rw (signs.bs58_back key) (rw point refl)))

  sm2_back :
      (key x y : List ℕ)
      → key ≡ 0x04 ∷ (x ++ y)
      → length x ≡ 32
      → length y ≡ 32
      → primitives.sm2_point key ≡ some key
      → verifying_key_from_public_key_jwk primitives sm2_sm3
          (public_key_jwk primitives (VerifyingKey.sm2 sm2_sm3 key))
        ≡ ok (VerifyingKey.sm2 sm2_sm3 key)
  unfolding public_key_jwk verifying_key_from_public_key_jwk get
  sm2_back key x y form xs ys point =
      let first : take 32 (drop 1 key) ≡ x =
        ap (λ k. take 32 (drop 1 k)) form ∙ take_append 32 x y xs in
      let second : take 32 (drop 33 key) ≡ y =
        ap (λ k. take 32 (drop 33 k)) form
        ∙ ap (take 32) (drop_append 32 x y xs)
        ∙ take_all 32 y ys in
      rw (first, second)
        (rw (signs.base64_back x)
          (rw (signs.base64_back y) (rw (xs, ys) (rw (← form) (rw point refl)))))

  jwk_back :
      (key : VerifyingKey)
      → IsKey key
      → verifying_key_from_public_key_jwk primitives
          (suite_of_verifying_key key)
          (public_key_jwk primitives key)
        ≡ ok key
  unfolding suite_of_verifying_key public_key_jwk verifying_key_from_public_key_jwk get
  jwk_back (VerifyingKey.ed25519 ed25519_sha256_legacy key) (size, point) =
      rw (signs.base64_back key) (ground arith)
  jwk_back (VerifyingKey.ed25519 ed25519_sha256 key) (size, point) =
      rw (signs.base64_back key) (ground arith)
  jwk_back (VerifyingKey.ed25519 sm2_sm3 key) h = absurd h
  jwk_back (VerifyingKey.sm2 suite key) (same, x, y, form, xs, ys, point) =
      rw same (sm2_back key x y form xs ys point)

  -- A verifying key of its suite's form is read back from its multibase text and from its JWK,
  -- where decoding undoes encoding.
  pub key_back :
      (key : VerifyingKey)
      → IsKey key
      → (verifying_key_from_public_key_multibase primitives
            (suite_of_verifying_key key)
            (public_key_multibase primitives key)
          ≡ ok key)
        × (verifying_key_from_public_key_jwk primitives
              (suite_of_verifying_key key)
              (public_key_jwk primitives key)
            ≡ ok key)
  key_back key h = (multibase_back key h, jwk_back key h)
