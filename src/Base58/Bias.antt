-- ===== src/Base58/Bias.antt =====
-- The bytes that the generators keep are spread evenly over the alphabet.
use Prim.Native.String.{[], ◌∷◌}
use oan_protocol_common.Base.{
  ℕ, zero, suc, ◌<◌, ◌+◌, ◌≡◌, refl, Bool, true, [], ◌∷◌, holds_below, holds_below_sound,
  nat_beq_iff, if◌then◌else◌, ◌==◌, string_eq, nat_eq,
}
use oan_protocol_common.Base58.{alphabet_at, base58_alphabet, nth, push_unbiased_base58_chars}

-- how many numbers below n pass the test
unfoldable pub count_below : ℕ → (ℕ → Bool) → ℕ
count_below zero p = 0
count_below (suc n) p = (if p n then 1 else 0) + count_below n p

-- how many of the 256 bytes push the i-th character of the alphabet
abbrev pub pushes : ℕ → ℕ
pushes i =
    count_below 256
      (λ byte. push_unbiased_base58_chars "" (byte ∷ []) == nth base58_alphabet i ∷ "")

pushes_table : holds_below 58 (λ i. pushes i == 4) ≡ true
unfolding holds_below count_below push_unbiased_base58_chars alphabet_at
pushes_table = refl

-- Of the 256 bytes exactly four push each of the 58 characters of the alphabet onto an empty
-- suffix.
pub pushes-eq-four : (i : ℕ) → i < 58 → pushes i ≡ 4
pushes-eq-four i h =
    (nat_beq_iff (pushes i) 4).0 (holds_below_sound 58 (λ i. pushes i == 4) i pushes_table h)
