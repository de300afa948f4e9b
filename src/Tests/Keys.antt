-- ===== src/Tests/Keys.antt =====
-- Concrete functions in place of the other crates' for oan-crypto, with the laws that are asked of them.
use Prim.Native.String.{◌++◌}
use text.Mathlib.TextLemmas.{nil-append, cons-append, append_assoc}
use oan_protocol_common.Base.{
  ℕ, zero, suc, ◌+◌, String, code, ◌≡◌, refl, ap, ◌∙◌, true, false, Option, none, some, List, [],
  ◌∷◌, nat_beq, length, arith,
}
use oan_protocol_common.Crypto.Primitives.{Primitives}
use oan_protocol_common.Crypto.Canonical.Head.{Quotes}
use oan_protocol_common.Crypto.Signatures.Verify.{Signs}
use oan_protocol_common.Tests.Documents.{zeros}

-- A byte is written as that many ones and a two.
abbrev pub ones : ℕ → String → String
ones zero r = "2" ++ r
ones (suc n) r = "1" ++ ones n r

abbrev pub write_bytes : List ℕ → String
write_bytes [] = ""
write_bytes (n ∷ b) = ones n (write_bytes b)

abbrev cons_byte : ℕ → Option (List ℕ) → Option (List ℕ)
cons_byte n none = none
cons_byte n (some b) = some (n ∷ b)

abbrev pub read_bytes : ℕ → String → Option (List ℕ)
read_bytes n String.[] = some []
read_bytes n (String.◌∷◌ c s) = elim (nat_beq (code c) b'1') [
  | true ↦ read_bytes (suc n) s
  | false ↦ cons_byte n (read_bytes 0 s)
]

read_ones : (n k : ℕ) (r : String) → read_bytes k (ones n r) ≡ cons_byte (k + n) (read_bytes 0 r)
read_ones zero k r =
    rw (cons-append, nil-append) (ap (λ m. cons_byte m (read_bytes 0 r)) (omega arith))
read_ones (suc n) k r =
    rw (cons-append, nil-append)
      (read_ones n (suc k) r ∙ ap (λ m. cons_byte m (read_bytes 0 r)) (omega arith))

pub bytes_back : (b : List ℕ) → read_bytes 0 (write_bytes b) ≡ some b
bytes_back [] = refl
bytes_back (n ∷ b) =
    read_ones n 0 (write_bytes b)
    ∙ ap (cons_byte (0 + n)) (bytes_back b)
    ∙ ap (λ m. some (m ∷ b)) (omega arith)

-- A string is written with a backslash before each character.
abbrev escaped : String → String → String
escaped String.[] r = "\"" ++ r
escaped (String.◌∷◌ c s) r = "\\" ++ (String.◌∷◌ c "" ++ escaped s r)

abbrev pub quote : String → String
quote s = "\"" ++ escaped s ""

abbrev cons_char : String → Option (String × String) → Option (String × String)
cons_char c none = none
cons_char c (some (s, r)) = some (c ++ s, r)

mutual
  pub unescape : String → Option (String × String)
  unescape String.[] = none
  unescape (String.◌∷◌ c s) = elim (nat_beq (code c) 34) [ true ↦ some ("", s) | false ↦ next s ]

  pub next : String → Option (String × String)
  next String.[] = none
  next (String.◌∷◌ c s) = cons_char (String.◌∷◌ c "") (unescape s)

abbrev pub read_string : String → Option (String × String)
read_string String.[] = none
read_string (String.◌∷◌ c s) = unescape s

escaped-append : (s r t : String) → escaped s r ++ t ≡ escaped s (r ++ t)
escaped-append String.[] r t = append_assoc "\"" r t
escaped-append (String.◌∷◌ c s) r t =
    append_assoc "\\" _ t
    ∙ ap (λ x. "\\" ++ x)
        (append_assoc (String.◌∷◌ c "") _ t ∙ ap (λ x. String.◌∷◌ c "" ++ x) (escaped-append s r t))

unescape_back : (s r : String) → unescape (escaped s r) ≡ some (s, r)
unfolding unescape
unescape_back String.[] r = rw (cons-append, nil-append) refl
unescape_back (String.◌∷◌ c s) r =
    rw (cons-append, nil-append)
      (rw (cons-append, nil-append) (rw (unescape_back s r) (rw (cons-append, nil-append) refl)))

length-zeros : (n : ℕ) → length (zeros n) ≡ n
length-zeros zero = refl
length-zeros (suc n) = ap suc (length-zeros n)

-- A signature is 64 zeros, and each hash is one text.
abbrev pub sample_primitives : Primitives
sample_primitives = record {
  bs58_encode = write_bytes;
  bs58_decode = read_bytes 0;
  base64_encode = write_bytes;
  base64_decode = read_bytes 0;
  json_string = quote;
  sha256_hex = λ b. "hash";
  sm3_hex = λ b. "hash";
  ed25519_public = λ key. key;
  ed25519_point = λ key. true;
  ed25519_sign = λ key payload. zeros 64;
  ed25519_verify = λ key payload signature. nat_beq (length signature) 64;
  sm2_secret = λ key. nat_beq (length key) 32;
  sm2_public = λ key. 0x04 ∷ zeros 64;
  sm2_point = λ key. some key;
  sm2_signature = λ signature. nat_beq (length signature) 64;
  sm2_sign = λ key payload. zeros 64;
  sm2_verify = λ key payload signature. nat_beq (length signature) 64;
}

pub sample_Signs : Signs sample_primitives
sample_Signs = record {
  bs58_back = bytes_back;
  base64_back = bytes_back;
  ed25519_length = λ key payload. length-zeros 64;
  sm2_length = λ key payload. length-zeros 64;
  ed25519_valid = λ key payload. refl;
  sm2_form = λ key payload. refl;
  sm2_valid = λ key payload. refl;
}

quote_reads : (s r : String) → read_string (quote s ++ r) ≡ some (s, r)
unfolding unescape
quote_reads s r =
    rw (append_assoc, cons-append)
      (rw (nil-append, escaped-append) (rw nil-append (unescape_back s r)))

pub sample_Quotes : Quotes quote read_string
sample_Quotes = record { opens = λ s r. rw (append_assoc, cons-append) refl; reads = quote_reads }
