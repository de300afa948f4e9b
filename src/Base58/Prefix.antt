-- ===== src/Base58/Prefix.antt =====
-- The characters that blocks of bytes give, and first parts of texts of the alphabet.
use Prim.Native.String.{[], ◌∷◌, ◌++◌, len}
use Prim.Native.Nat.{min}
use text.Mathlib.TextLemmas.{nil-append, cons-append, append_assoc}
use text.Mathlib.TextPositions.{len-append}
use oan_protocol_common.Base.{
  ℕ, zero, suc, ◌+◌, ◌≤◌, ◌%◌, Char, String, ◌≡◌, refl, ap, ◌∙◌, true, List, [], ◌∷◌, holds_below,
  holds_below_sound, arith, ltb, Bool-cases, inl, inr, if◌then◌else◌,
}
use oan_protocol_common.Text.{contains}
use oan_protocol_common.Text.Laws.{AllChars}
use oan_protocol_common.Base58.{is_base58, base58_alphabet, alphabet_at, nth, push, rejection_zone}
use oan_protocol_common.Base58.Alphabet.{len-base58}

-- The characters of the bytes below the rejection zone, in order.
unfoldable pub accepted : List ℕ → String
accepted [] = ""
accepted (byte ∷ bytes) =
    let rest = accepted bytes in if ltb byte rejection_zone then alphabet_at byte ∷ rest else rest

-- The first n characters.
unfoldable pub prefix : ℕ → String → String
prefix zero s = ""
prefix (suc n) [] = ""
prefix (suc n) (c ∷ s) = c ∷ prefix n s

-- The accepted characters of n blocks from the k-th.
module _ (block : ℕ → List ℕ) where
  unfoldable pub stream : ℕ → ℕ → String
  stream k zero = ""
  stream k (suc n) = accepted (block k) ++ stream (k + 1) n

pub alphabet_table : holds_below 58 (λ i. is_base58 (nth base58_alphabet i)) ≡ true
unfolding holds_below contains
alphabet_table = refl

pub alphabet_at-base58 : (byte : ℕ) → is_base58 (alphabet_at byte) ≡ true
unfolding alphabet_at
alphabet_at-base58 byte = holds_below_sound 58 _ (byte % 58) alphabet_table (omega arith)

pub accepted-base58 : (bytes : List ℕ) → AllChars is_base58 (accepted bytes)
unfolding accepted
accepted-base58 [] = tt
accepted-base58 (byte ∷ bytes) = elim (Bool-cases (ltb byte rejection_zone)) [
  | inl low ↦ rw low (alphabet_at-base58 byte, accepted-base58 bytes)
  | inr high ↦ rw high (accepted-base58 bytes)
]

pub len-push : (s : String) (c : Char) → is_base58 c ≡ true → len (push s c) ≡ len s + 1
len-push s c q = omega (arith, len-append s (c ∷ ""), len-base58 c "" q)

pub prefix_all : (s : String) → AllChars is_base58 s → prefix (len s) s ≡ s
unfolding prefix
prefix_all [] h = refl
prefix_all (c ∷ s) (q, h) = rw (len-base58 c s q) (ap (λ t. c ∷ t) (prefix_all s h))

pub prefix-append_left : (s t : String) → AllChars is_base58 s → prefix (len s) (s ++ t) ≡ s
unfolding prefix
prefix-append_left [] t h = refl
prefix-append_left (c ∷ s) t (q, h) =
    rw (len-base58 c s q, cons-append) (ap (λ t. c ∷ t) (prefix-append_left s t h))

pub prefix_exact : (n : ℕ) (s t : String) → AllChars is_base58 s → len s ≡ n → prefix n (s ++ t) ≡ s
prefix_exact n s t h e = rw (← e) (prefix-append_left s t h)

pub prefix-base58 : (n : ℕ) (s : String) → AllChars is_base58 s → AllChars is_base58 (prefix n s)
unfolding prefix
prefix-base58 zero s h = tt
prefix-base58 (suc n) [] h = tt
prefix-base58 (suc n) (c ∷ s) (q, h) = (q, prefix-base58 n s h)

pub len-prefix : (n : ℕ) (s : String) → AllChars is_base58 s → len (prefix n s) ≡ min n (len s)
unfolding prefix
len-prefix zero s h = omega arith
len-prefix (suc n) [] h = omega arith
len-prefix (suc n) (c ∷ s) (q, h) =
    omega (arith, len-prefix n s h, len-base58 c s q, len-base58 c (prefix n s) q)

pub prefix-prefix_append : (n : ℕ) (s t : String) → prefix n (prefix n s ++ t) ≡ prefix n (s ++ t)
unfolding prefix
prefix-prefix_append zero s t = refl
prefix-prefix_append (suc n) [] t = refl
prefix-prefix_append (suc n) (c ∷ s) t =
    rw (cons-append, cons-append) (ap (λ u. c ∷ u) (prefix-prefix_append n s t))

pub prefix_of_le : (n : ℕ) (s : String) → AllChars is_base58 s → len s ≤ n → prefix n s ≡ s
unfolding prefix
prefix_of_le zero [] h le = refl
prefix_of_le zero (c ∷ s) (q, h) le = absurd (omega (arith, len-base58 c s q))
prefix_of_le (suc n) [] h le = refl
prefix_of_le (suc n) (c ∷ s) (q, h) le =
    ap (λ t. c ∷ t) (prefix_of_le n s h (omega (arith, len-base58 c s q)))

pub push_assoc : (out : String) (c : Char) (s : String) → push out c ++ s ≡ out ++ (c ∷ s)
push_assoc out c s =
    append_assoc out (c ∷ "") s
    ∙ ap (λ t. out ++ t) (cons-append c "" s ∙ ap (λ t. c ∷ t) (nil-append s))
