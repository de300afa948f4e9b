-- ===== src/Base58/Suffix.antt =====
-- The generation of suffixes: which text the loop returns, and with how much fuel.
use Prim.Native.String.{[], ◌∷◌, ◌++◌, len}
use Prim.Native.Nat.{min}
use text.Mathlib.TextLemmas.{nil-append, append-nil, append_assoc}
use text.Mathlib.TextPositions.{len-append, slice_all}
use oan_protocol_common.Base.{
  ℕ, zero, suc, ◌+◌, ◌≤◌, ◌<◌, String, ◌≡◌, ap, sym, ◌∙◌, false, none, some, List, [], ◌∷◌, arith,
  ltb, nat_beq, nat_beq_iff, Bool-cases, inl, inr, lt→ltb, ltb→lt,
}
use oan_protocol_common.Text.Laws.{AllChars, AllChars-append}
use oan_protocol_common.Base58.{
  is_base58, alphabet_at, push, push_unbiased_base58_chars, rejection_zone, suffix_code_len,
  suffix_from, base58_suffix, truncate,
}
use oan_protocol_common.Base58.Prefix.{
  accepted, prefix, alphabet_at-base58, accepted-base58, len-push, prefix_exact, prefix-base58,
  len-prefix, prefix-prefix_append, prefix_of_le, push_assoc, stream,
}

-- Pushing a block onto a suffix that is not full appends the block's accepted characters, up to 32.
pub push_unbiased_lem :
    (out : String) (bytes : List ℕ)
    → AllChars is_base58 out
    → len out < suffix_code_len
    → push_unbiased_base58_chars out bytes ≡ prefix suffix_code_len (out ++ accepted bytes)
unfolding push_unbiased_base58_chars accepted
push_unbiased_lem out [] h lt = rw (append-nil out) (sym (prefix_of_le 32 out h (omega arith)))
push_unbiased_lem out (byte ∷ bytes) h lt = elim (Bool-cases (ltb byte rejection_zone)) [
  | inr high ↦ rw high (push_unbiased_lem out bytes h lt)
  | inl low ↦
      let c = alphabet_at byte in
      let q = alphabet_at-base58 byte in
      let all = AllChars-append is_base58 out (c ∷ "") h (q, tt) in
      elim (Bool-cases (nat_beq (len (push out c)) suffix_code_len)) [
        | inl full ↦
            rw (low, full, sym (push_assoc out c (accepted bytes)))
              (sym (prefix_exact 32 (push out c) (accepted bytes) all ((nat_beq_iff _ _).0 full)))
        | inr more ↦
            rw (low, more, sym (push_assoc out c (accepted bytes)))
              (push_unbiased_lem (push out c) bytes all (ground (arith, len-push out c q)))
      ]
]

enough_le : {n : ℕ} → ltb n 32 ≡ false → 32 ≤ n
enough_le h = ground arith

ltb-false_of_eq : {n : ℕ} → n ≡ 32 → ltb n 32 ≡ false
ltb-false_of_eq e = ground arith

truncate_full : (out : String) → len out ≡ 32 → truncate out 32 ≡ out
truncate_full out e = rw (← e) (slice_all out)

module _ (block : ℕ → List ℕ) where
  push_block :
      (k n : ℕ) (out : String)
      → prefix 32 (prefix 32 (out ++ accepted (block k)) ++ stream block (k + 1) n)
        ≡ prefix 32 (out ++ stream block k (suc n))
  unfolding stream
  push_block k n out =
      prefix-prefix_append 32 (out ++ accepted (block k)) (stream block (k + 1) n)
      ∙ ap (prefix 32) (append_assoc out (accepted (block k)) (stream block (k + 1) n))

  len-push_block :
      (k n : ℕ) (out : String)
      → AllChars is_base58 out
      → len (prefix 32 (out ++ accepted (block k)) ++ stream block (k + 1) n)
        ≡ min 32 (len out + len (accepted (block k))) + len (stream block (k + 1) n)
  len-push_block k n out h =
      let all = AllChars-append is_base58 out (accepted (block k)) h (accepted-base58 (block k)) in
      omega (
        arith,
        len-append (prefix 32 (out ++ accepted (block k))) (stream block (k + 1) n),
        len-prefix 32 (out ++ accepted (block k)) all,
        len-append out (accepted (block k)),
      )

  len-stream :
      (k n : ℕ) (out : String)
      → len (out ++ stream block k (suc n))
        ≡ len out + len (accepted (block k)) + len (stream block (k + 1) n)
  unfolding stream
  len-stream k n out = omega (
    arith,
    len-append out (accepted (block k) ++ stream block (k + 1) n),
    len-append (accepted (block k)) (stream block (k + 1) n),
  )

  len-stream_zero : (k : ℕ) (out : String) → len (out ++ stream block k 0) ≡ len out
  unfolding stream
  len-stream_zero k out = ap len (append-nil out)

  push_block-base58 :
      (k : ℕ) (out : String)
      → AllChars is_base58 out
      → AllChars is_base58 (prefix 32 (out ++ accepted (block k)))
  push_block-base58 k out h =
      prefix-base58 32 _ (AllChars-append is_base58 out _ h (accepted-base58 (block k)))

  len-prefix_block :
      (k : ℕ) (out : String)
      → AllChars is_base58 out
      → len (prefix 32 (out ++ accepted (block k))) ≤ 32
  len-prefix_block k out h =
      omega (arith, len-prefix 32 _ (AllChars-append is_base58 out _ h (accepted-base58 (block k))))

  -- From a suffix that is not too long, the loop returns the first 32 characters, when the blocks
  -- hold as many.
  suffix_from_enough :
      (n k : ℕ) (out : String)
      → AllChars is_base58 out
      → len out ≤ 32
      → 32 ≤ len (out ++ stream block k n)
      → suffix_from block (suc n) k out ≡ some (prefix 32 (out ++ stream block k n))
  unfolding suffix_from
  suffix_from_enough zero k out h le enough =
      let full : len out ≡ 32 = omega (arith, len-stream_zero k out) in
      rw (ltb-false_of_eq full, truncate_full out full)
        (ap some (sym (prefix_exact 32 out (stream block k 0) h full)))
  suffix_from_enough (suc n) k out h le enough = elim (Bool-cases (ltb (len out) 32)) [
    | inl more ↦
        rw (more, push_unbiased_lem out (block k) h (ground arith), sym (push_block k n out))
          (suffix_from_enough n (k + 1) _ (push_block-base58 k out h) (len-prefix_block k out h)
            (omega (arith, len-push_block k n out h, len-stream k n out)))
    | inr full ↦
        rw (full, truncate_full out (ground arith))
          (ap some (sym (prefix_exact 32 out _ h (ground arith))))
  ]

  suffix_from_short :
      (n k : ℕ) (out : String)
      → AllChars is_base58 out
      → len (out ++ stream block k n) < 32
      → suffix_from block (suc n) k out ≡ none
  unfolding suffix_from
  suffix_from_short zero k out h short =
      rw (lt→ltb (len out) 32 (omega (arith, len-stream_zero k out)))
  suffix_from_short (suc n) k out h short =
      rw
        (
          lt→ltb (len out) 32 (omega (arith, len-stream k n out)),
          push_unbiased_lem out (block k) h (omega (arith, len-stream k n out)),
        )
        (suffix_from_short n (k + 1) _ (push_block-base58 k out h)
          (omega (arith, len-push_block k n out h, len-stream k n out)))

  -- With n rounds of fuel and one more the loop returns exactly when the first n blocks hold 32
  -- bytes below the rejection zone; the suffix is then the characters of the first 32 of them, and
  -- otherwise the fuel has run out.
  pub base58_suffix_lem :
      (n : ℕ)
      → (32 ≤ len (stream block 0 n)
          → base58_suffix block (suc n) ≡ some (prefix 32 (stream block 0 n)))
        × (len (stream block 0 n) < 32 → base58_suffix block (suc n) ≡ none)
  unfolding base58_suffix
  base58_suffix_lem n = (
    λ h.
        rw (← nil-append (stream block 0 n))
          (suffix_from_enough n 0 "" tt (omega arith) (rw (nil-append (stream block 0 n)) h)),
    λ h. suffix_from_short n 0 "" tt (rw (nil-append (stream block 0 n)) h),
  )

  stream-base58 : (k n : ℕ) → AllChars is_base58 (stream block k n)
  unfolding stream
  stream-base58 k zero = tt
  stream-base58 k (suc n) =
      AllChars-append is_base58 (accepted (block k)) _ (accepted-base58 (block k))
        (stream-base58 (k + 1) n)

  -- A suffix that the generator returns has 32 characters of the alphabet.
  pub base58_suffix-IsCode :
      (fuel : ℕ) (s : String)
      → base58_suffix block fuel ≡ some s
      → AllChars is_base58 s × (len s ≡ 32)
  base58_suffix-IsCode zero s h = unfold base58_suffix in cc h
  base58_suffix-IsCode (suc n) s h = elim (Bool-cases (ltb (len (stream block 0 n)) 32)) [
    | inl short ↦ cc ((base58_suffix_lem n).1 (ltb→lt _ _ short))
    | inr enough ↦
        let e : prefix 32 (stream block 0 n) ≡ s =
          cc ((base58_suffix_lem n).0 (enough_le enough)) in
        let all = stream-base58 0 n in
        rw (← e) (prefix-base58 32 _ all, omega (arith, len-prefix 32 _ all, enough_le enough))
  ]
