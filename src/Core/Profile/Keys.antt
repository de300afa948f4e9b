-- ===== src/Core/Profile/Keys.antt =====
-- Keys of the profile: multibase texts and JWKs.
use Prim.Native.String.{◌++◌ as ◌+s+◌, len}
use oan_protocol_common.Base.{
  ℕ, String, ◌≡◌, ◌≢◌, ◌↔◌, ◌⊎◌, inl, inr, refl, ap, sym, ◌∙◌, Bool, true, false, not, ◌&&◌, ◌||◌,
  Option, none, some, List, arith, eq_iff, is_some, length, nat_beq, nat_beq_iff, ◌==◌, ◌!=◌,
  string_eq, option_eq, option_beq_iff, ok, fail_if-eq-ok, fail_if-last, ok_or-eq-ok,
}
use oan_protocol_common.Text.{strip_prefix}
use oan_protocol_common.Text.Laws.{strip_prefix-eq-some, strip_prefix-append}
use oan_protocol_common.Core.Codecs.{Codecs}
use oan_protocol_common.Core.Validate.{or_empty}
use oan_protocol_common.Core.Profile.Types.{OanProfileError, invalid_jwk, OanJwk}
use oan_protocol_common.Core.Profile.{decode_oan_multibase, validate_ed25519, is_bad_alg}

module _ (codecs : Codecs) where
  -- The text is a z and the Base58 text of the n bytes, which decodes to them.
  abbrev pub IsMultibase : ℕ → String → List ℕ → Type 0
  IsMultibase n value bytes =
      (strip_prefix "z" value ≡ some (codecs.bs58_encode bytes))
      × (codecs.bs58_decode (codecs.bs58_encode bytes) ≡ some bytes)
      × (length bytes ≡ n)

  guard_iff :
      (n m : ℕ) (s t : String) → ((not (nat_beq n m) || (s != t)) ≡ false) ↔ ((n ≡ m) × (s ≡ t))
  guard_iff n m s t = ground (arith, eq_iff s t)

  pub decode_oan_multibase_iff :
      (value : String) (n : ℕ) (error : OanProfileError) (bytes : List ℕ)
      → (decode_oan_multibase codecs value n error ≡ ok bytes) ↔ IsMultibase n value bytes
  unfolding decode_oan_multibase
  decode_oan_multibase_iff value n error bytes = (
    λ h.
        let (encoded, stripped, h1) = (ok_or-eq-ok _ _ _ bytes).0 h in
        let (b, decoded, h2) = (ok_or-eq-ok _ error _ bytes).0 h1 in
        let (guard, h3) = (fail_if-eq-ok _ error (ok b) bytes).0 h2 in
        let (size, same) = (guard_iff (length b) n (codecs.bs58_encode b) encoded).0 guard in
        let e : b ≡ bytes = cc in
        let text : encoded ≡ codecs.bs58_encode bytes = sym same ∙ ap codecs.bs58_encode e in
        (
          stripped ∙ ap some text,
          ap codecs.bs58_decode (sym text) ∙ decoded ∙ ap some e,
          ap length (sym e) ∙ size,
        ),
    λ h.
        let (stripped, decoded, size) = h in
        (ok_or-eq-ok _ _ _ bytes).1 (
          codecs.bs58_encode bytes,
          stripped,
          (ok_or-eq-ok _ _ _ bytes).1 (
            bytes,
            decoded,
            (fail_if-eq-ok _ error (ok bytes) bytes).1 ((guard_iff _ n _ _).1 (size, refl), refl),
          ),
        ),
  )

  -- Two multibase texts that are decoded to the same bytes are equal: a key or signature has one
  -- accepted text.
  decode_oan_multibase_injective :
      (value other : String) (n m : ℕ) (error : OanProfileError) (bytes : List ℕ)
      → decode_oan_multibase codecs value n error ≡ ok bytes
      → decode_oan_multibase codecs other m error ≡ ok bytes
      → value ≡ other
  decode_oan_multibase_injective value other n m error bytes h k =
      let (stripped, _, _) = (decode_oan_multibase_iff value n error bytes).0 h in
      let (stripped', _, _) = (decode_oan_multibase_iff other m error bytes).0 k in
      strip_prefix-eq-some "z" value _ stripped ∙ sym (strip_prefix-eq-some "z" other _ stripped')

  -- Where Base58 decodes the text that it encodes some bytes to, the multibase text of the bytes
  -- is decoded to them.
  decode_oan_multibase-encode :
      (bytes : List ℕ) (error : OanProfileError)
      → codecs.bs58_decode (codecs.bs58_encode bytes) ≡ some bytes
      → decode_oan_multibase codecs ("z" +s+ codecs.bs58_encode bytes) (length bytes) error
        ≡ ok bytes
  decode_oan_multibase-encode bytes error decoded =
      (decode_oan_multibase_iff ("z" +s+ codecs.bs58_encode bytes) (length bytes) error bytes).1
        (strip_prefix-append "z" (codecs.bs58_encode bytes), decoded, refl)

  -- A key that decodes to 32 bytes.
  abbrev Is32Bytes : String → Type 0
  Is32Bytes text = (bytes : List ℕ) × (codecs.base64_decode text ≡ some bytes) × (length bytes ≡ 32)

  -- An Ed25519 public key, without a secret.
  abbrev pub IsPublicJwk : OanJwk → Type 0
  IsPublicJwk jwk =
      (jwk.kty ≡ "OKP")
      × (jwk.crv ≡ "Ed25519")
      × (nat_beq (len jwk.x) 0 ≡ false)
      × Is32Bytes jwk.x
      × (jwk.d ≡ none)
      × ((jwk.alg ≡ none) ⊎ (jwk.alg ≡ some "EdDSA"))

  public_guard_iff :
      (kty crv : String) (no_x secret : Bool) (d alg : Option String)
      → (((kty != "OKP")
            || (crv != "Ed25519")
            || no_x
            || false && secret
            || not false && is_some d
            || alg == some "Ed25519")
          ≡ false)
        ↔ ((kty ≡ "OKP") × (crv ≡ "Ed25519") × (no_x ≡ false) × (d ≡ none) × (alg ≢ some "Ed25519"))
  public_guard_iff kty crv no_x secret d alg =
      ground (arith, eq_iff kty "OKP", eq_iff crv "Ed25519", option_beq_iff alg (some "Ed25519"))

  alg_iff :
      (alg : Option String)
      → (is_bad_alg codecs alg ≡ false) ↔ ((alg ≡ none) ⊎ (alg ≡ some "EdDSA"))
  alg_iff none = (λ h. inl refl, λ h. refl)
  alg_iff (some alg) = (
    λ h. inr (ap some (ground (arith, eq_iff alg "EdDSA"))),
    λ h. ground (arith, eq_iff alg "EdDSA"),
  )

  not-false : (b : Bool) → (not b ≡ false) ↔ (b ≡ true)
  not-false b = ground arith

  alg-ne : (alg : Option String) → ((alg ≡ none) ⊎ (alg ≡ some "EdDSA")) → alg ≢ some "Ed25519"
  alg-ne alg (inl e) h = cc
  alg-ne alg (inr e) h =
      cc ((option_beq_iff {A = String} (some "EdDSA") (some "Ed25519")).1 (sym e ∙ h))

  -- A JWK is accepted as public exactly when it is an OKP key on Ed25519 of 32 bytes, has no
  -- secret part, and its algorithm is absent or EdDSA.
  pub validate_ed25519_public_iff :
      (jwk : OanJwk) → (validate_ed25519 codecs jwk false ≡ ok tt) ↔ IsPublicJwk jwk
  unfolding validate_ed25519
  validate_ed25519_public_iff jwk = (
    λ h.
        let (guard, h1) = (fail_if-eq-ok _ invalid_jwk _ tt).0 h in
        let (kty, crv, x, d, alg) =
          (public_guard_iff jwk.kty jwk.crv _ (nat_beq (len (or_empty jwk.d)) 0) jwk.d jwk.alg).0
            guard in
        let (key, decoded, h2) = (ok_or-eq-ok _ invalid_jwk _ tt).0 h1 in
        let (size, h3) = (fail_if-eq-ok _ invalid_jwk _ tt).0 h2 in
        (
          kty,
          crv,
          x,
          (key, decoded, (nat_beq_iff _ _).0 ((not-false _).0 size)),
          d,
          (alg_iff jwk.alg).0 ((fail_if-last _ invalid_jwk).0 h3),
        ),
    λ h.
        let (kty, crv, x, (key, decoded, size), d, alg) = h in
        (fail_if-eq-ok _ _ _ tt).1 (
          (public_guard_iff jwk.kty jwk.crv _ (nat_beq (len (or_empty jwk.d)) 0) jwk.d jwk.alg).1
              (kty, crv, x, d, alg-ne jwk.alg alg),
          (ok_or-eq-ok _ _ _ tt).1 (
            key,
            decoded,
            (fail_if-eq-ok _ _ _ tt).1 (
              (not-false _).1 ((nat_beq_iff _ _).1 size),
              (fail_if-last _ _).1 ((alg_iff jwk.alg).1 alg),
            ),
          ),
        ),
  )
