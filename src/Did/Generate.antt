-- ===== src/Did/Generate.antt =====
-- `generate` and `derive`: what they return, and when.
use Prim.Native.String.{◌∷◌, ◌++◌ as ◌+s+◌, len}
use mathlib.Core.List.{append_assoc}
use mathlib.Core.Path.{fun_ext}
use text.Mathlib.TextLemmas.{cons-append, nil-append}
use oan_protocol_common.Base.{
  ℕ, suc, ◌≤◌, String, ◌≡◌, ◌≢◌, ap, sym, ◌∙◌, some, List, ◌∷◌, ◌++◌, arith, Option-cases, inl, inr,
  ok, err, Result-cases,
}
use oan_protocol_common.Text.{trim_start_matches}
use oan_protocol_common.Base58.{
  DidOanError, invalid_routing_code, validate_routing_code, base58_suffix,
}
use oan_protocol_common.Base58.Prefix.{stream, prefix}
use oan_protocol_common.Base58.Suffix.{base58_suffix_lem, base58_suffix-IsCode}
use oan_protocol_common.Did.{
  DidOan, format_did, generate, derive, with_suffix, digest_at, after, key_id,
}
use oan_protocol_common.Did.Codes.{IsCode, validate_routing_code_iff}
use oan_protocol_common.Did.Parse.{parse_complete}

-- the identifier with the given codes
abbrev pub did_of : String → String → DidOan
did_of r s = record { value = format_did r s; routing_code = r; suffix_code = s }

validate_routing_code-err :
    (r : String) (e : DidOanError) → validate_routing_code r ≡ err e → e ≡ invalid_routing_code
unfolding validate_routing_code
validate_routing_code-err r e h = ground arith

module _ (block : ℕ → List ℕ) where
  -- the suffix that the first n blocks give
  abbrev suffix_of : ℕ → String
  suffix_of n = prefix 32 (stream block 0 n)

  suffix_of-IsCode : (n : ℕ) → 32 ≤ len (stream block 0 n) → IsCode 32 (suffix_of n)
  suffix_of-IsCode n h =
      base58_suffix-IsCode block (suc n) (suffix_of n) ((base58_suffix_lem block n).0 h)

  after_suffix :
      (n : ℕ) (r : String)
      → IsCode 5 r
      → 32 ≤ len (stream block 0 n)
      → after (validate_routing_code r) (with_suffix r (base58_suffix block (suc n)))
        ≡ some (ok (did_of r (suffix_of n)))
  after_suffix n r hr h =
      rw ((validate_routing_code_iff r).1 hr, (base58_suffix_lem block n).0 h)
        (ap some (parse_complete r (suffix_of n) hr (suffix_of-IsCode n h)))

  with_suffix-ok :
      (r : String) (fuel : ℕ) {e : DidOanError}
      → IsCode 5 r
      → with_suffix r (base58_suffix block fuel) ≢ some (err e)
  with_suffix-ok r fuel hr h = elim (Option-cases (base58_suffix block fuel)) [
    | inl out_of_fuel ↦ cc (rw out_of_fuel at h)
    | inr (s, made) ↦
        cc (rw made at h, parse_complete r s hr (base58_suffix-IsCode block fuel s made))
  ]

  after_error :
      (fuel : ℕ) (r : String) (e : DidOanError)
      → after (validate_routing_code r) (with_suffix r (base58_suffix block fuel)) ≡ some (err e)
      → (e ≡ invalid_routing_code) × ¬ IsCode 5 r
  after_error fuel r e h = elim (Result-cases (validate_routing_code r)) [
    | inl (e', p) ↦
        let same : e' ≡ e = cc (rw p at h) in
        let refused : ¬ IsCode 5 r = λ hr. cc (p, (validate_routing_code_iff r).1 hr) in
        (sym same ∙ validate_routing_code-err r e' p, refused)
    | inr (_, p) ↦ absurd (with_suffix-ok r fuel ((validate_routing_code_iff r).0 p) (rw p at h))
  ]

  -- With a routing code of 5 Base58 characters `generate` returns an identifier with that code and
  -- the suffix of the first 32 kept bytes, as soon as the first n fills of the generator hold as
  -- many.
  generate-eq-ok :
      (n : ℕ) (r : String)
      → IsCode 5 r
      → 32 ≤ len (stream block 0 n)
      → generate block (suc n) r ≡ some (ok (did_of r (suffix_of n)))
  unfolding generate
  generate-eq-ok n r hr h = after_suffix n r hr h

  -- An error of `generate` is `InvalidRoutingCode`, and the routing code is not 5 Base58
  -- characters.
  generate-eq-err :
      (fuel : ℕ) (r : String) (e : DidOanError)
      → generate block fuel r ≡ some (err e)
      → (e ≡ invalid_routing_code) × ¬ IsCode 5 r
  unfolding generate
  generate-eq-err fuel r e h = after_error fuel r e h

module _ (sha256 : List ℕ → List ℕ) (bytes : String → List ℕ) where
  -- With a routing code of 5 Base58 characters `derive` returns an identifier with that code, as
  -- soon as the digests at the first n counters hold 32 bytes below the rejection zone.
  derive-eq-ok :
      (n : ℕ) (r : String) (material nonce : List ℕ)
      → IsCode 5 r
      → 32 ≤ len (stream (digest_at sha256 bytes r material nonce) 0 n)
      → derive sha256 bytes (suc n) r material nonce
        ≡ some (ok (did_of r (suffix_of (digest_at sha256 bytes r material nonce) n)))
  unfolding derive
  derive-eq-ok n r material nonce hr h =
      after_suffix (digest_at sha256 bytes r material nonce) n r hr h

  digest_regroup :
      (r : String) (material shared nonce : List ℕ) (k : ℕ)
      → digest_at sha256 bytes r (material ++ shared) nonce k
        ≡ digest_at sha256 bytes r material (shared ++ nonce) k
  digest_regroup r material shared nonce k = simp append_assoc

  -- Bytes that move from the start of the nonce to the end of the controller material derive the
  -- same identifier.
  pub derive_regroup :
      (fuel : ℕ) (r : String) (material shared nonce : List ℕ)
      → derive sha256 bytes fuel r (material ++ shared) nonce
        ≡ derive sha256 bytes fuel r material (shared ++ nonce)
  unfolding derive
  derive_regroup fuel r material shared nonce =
      ap (λ f. after (validate_routing_code r) (with_suffix r (base58_suffix f fuel)))
        (fun_ext λ k. digest_regroup r material shared nonce k)

trim-hash : (s : String) → trim_start_matches 35 ("#" +s+ s) ≡ trim_start_matches 35 s
unfolding trim_start_matches
trim-hash s = ap (trim_start_matches 35) (cons-append "#" "" s ∙ ap (λ t. "#" ∷ t) (nil-append s))

-- A leading '#' of the fragment makes no difference to the key's identifier.
pub key_id-hash : (d : DidOan) (fragment : String) → key_id d ("#" +s+ fragment) ≡ key_id d fragment
unfolding key_id
key_id-hash d fragment = rw (trim-hash fragment)
