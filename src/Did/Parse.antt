-- ===== src/Did/Parse.antt =====
-- `DidOan::parse`: exactly which texts it accepts, and with which result.
use Prim.Native.String.{◌∷◌, ◌++◌, len}
use text.Mathlib.TextLemmas.{append_assoc, nil-append, cons-append}
use text.Mathlib.TextPositions.{len-append}
use oan_protocol_common.Base.{
  Char, String, ◌≡◌, ◌≢◌, refl, ap, sym, ◌∙◌, true, not, none, some, List, [], ◌∷◌, arith,
  Option-cases, inl, inr, ok, err, fail_if, >>=-eq-ok, Result-cases,
}
use oan_protocol_common.Text.{strip_prefix, starts_with, split}
use oan_protocol_common.Text.Laws.{
  strip_prefix-eq-some, strip_prefix-append, AllChars, AllChars-mono,
}
use oan_protocol_common.Text.Split.{is_other, split-append, split-eq_two, split_of_AllChars}
use oan_protocol_common.Base58.{
  is_base58, invalid_syntax, invalid_prefix, validate_routing_code, validate_suffix_code,
}
use oan_protocol_common.Base58.Alphabet.{is_base58-other}
use oan_protocol_common.Did.{DidOan, parse, parse_parts, format_did, is_match, did_prefix}
use oan_protocol_common.Did.Codes.{
  IsCode, validate_routing_code_iff, validate_suffix_code_iff, is_match-format_did,
}

abbrev colon : Char
colon = ":"

split-did_prefix : (r : String) → split 58 (did_prefix ++ r) ≡ "did" ∷ "oan" ∷ split 58 r
split-did_prefix r =
    let outer : did_prefix ++ r ≡ "did" ++ (colon ∷ ("oan:" ++ r)) =
      append_assoc "did:" "oan:" r
      ∙ append_assoc "did" ":" ("oan:" ++ r)
      ∙ ap (λ t. "did" ++ t)
          (cons-append colon "" ("oan:" ++ r) ∙ ap (λ t. colon ∷ t) (nil-append _)) in
    let inner : "oan:" ++ r ≡ "oan" ++ (colon ∷ r) =
      append_assoc "oan" ":" r
      ∙ ap (λ t. "oan" ++ t) (cons-append colon "" r ∙ ap (λ t. colon ∷ t) (nil-append r)) in
    ap (split 58) outer
    ∙ split-append colon "did" ("oan:" ++ r) (refl, (refl, (refl, tt)))
    ∙ ap (λ l. "did" ∷ l)
        (ap (split 58) inner ∙ split-append colon "oan" r (refl, (refl, (refl, tt))))

parse_two-eq-ok :
    (v r s : String) (d : DidOan)
    → parse_parts v ("did" ∷ "oan" ∷ r ∷ s ∷ []) ≡ ok d
    → (d ≡ record { value = v; routing_code = r; suffix_code = s }) × IsCode 5 r × IsCode 32 s
unfolding parse_parts
parse_two-eq-ok v r s d h =
    let (_, checked_r, h1) = >>=-eq-ok (validate_routing_code r) _ {b = d} h in
    let (_, checked_s, h2) = >>=-eq-ok (validate_suffix_code s) _ {b = d} h1 in
    let (_, _, h3) = >>=-eq-ok (fail_if (not (is_match v)) invalid_syntax) _ {b = d} h2 in
    (cc, (validate_routing_code_iff r).0 checked_r, (validate_suffix_code_iff s).0 checked_s)

-- What an accepted text consists of, by the parts behind the prefix.
parse_parts-eq-ok :
    (v : String) (l : List String) (d : DidOan)
    → parse_parts v ("did" ∷ "oan" ∷ l) ≡ ok d
    → (l ≡ d.routing_code ∷ d.suffix_code ∷ [])
      × (d.value ≡ v)
      × IsCode 5 d.routing_code
      × IsCode 32 d.suffix_code
parse_parts-eq-ok v [] d h = unfold parse_parts in cc h
parse_parts-eq-ok v (r ∷ []) d h = unfold parse_parts in cc h
parse_parts-eq-ok v (r ∷ s ∷ x ∷ l) d h = unfold parse_parts in cc h
parse_parts-eq-ok v (r ∷ s ∷ []) d h =
    let (made, hr, hs) = parse_two-eq-ok v r s d h in simp made (refl, refl, hr, hs)

parse_of_prefix :
    (v r : String)
    → strip_prefix did_prefix v ≡ some r
    → parse v ≡ parse_parts v ("did" ∷ "oan" ∷ split 58 r)
unfolding parse starts_with
parse_of_prefix v r e = rw e (
    ap (parse_parts v) (ap (split 58) (strip_prefix-eq-some did_prefix v r e) ∙ split-did_prefix r))

parse_of_no_prefix : (v : String) → strip_prefix did_prefix v ≡ none → parse v ≡ err invalid_prefix
unfolding parse starts_with
parse_of_no_prefix v e = rw e

-- A text whose parts behind the prefix are two is their formatting.
format_of_parts :
    (v r : String)
    → strip_prefix did_prefix v ≡ some r
    → (a b : String) → split 58 r ≡ a ∷ b ∷ []
    → v ≡ format_did a b
unfolding format_did
format_of_parts v r found a b parts =
    let colon_first : ":" ++ b ≡ colon ∷ b =
      cons-append colon "" b ∙ ap (λ t. colon ∷ t) (nil-append b) in
    strip_prefix-eq-some did_prefix v r found
    ∙ ap (λ t. did_prefix ++ t)
        (split-eq_two colon r a b parts ∙ ap (λ t. a ++ t) (sym colon_first))

-- A text that `parse` accepts is the prefix did:oan:, the routing code, a colon and the suffix
-- code of the result, whose value is the text itself; the codes have 5 and 32 characters of the
-- Base58 alphabet.
pub parse_sound :
    (v : String) (d : DidOan)
    → parse v ≡ ok d
    → (d.value ≡ v)
      × (v ≡ format_did d.routing_code d.suffix_code)
      × IsCode 5 d.routing_code
      × IsCode 32 d.suffix_code
parse_sound v d h = elim (Option-cases (strip_prefix did_prefix v)) [
  | inl missing ↦ cc (parse_of_no_prefix v missing)
  | inr (r, found) ↦
      let (parts, same, hr, hs) =
        parse_parts-eq-ok v (split 58 r) d (sym (parse_of_prefix v r found) ∙ h) in
      (same, format_of_parts v r found d.routing_code d.suffix_code parts, hr, hs)
]

split_codes : (r s : String) → IsCode 5 r → IsCode 32 s → split 58 (r ++ (":" ++ s)) ≡ r ∷ s ∷ []
split_codes r s hr hs =
    let others = λ (t : String) (h : AllChars is_base58 t).
      AllChars-mono is_base58 (is_other colon) t is_base58-other h in
    ap (λ t. split 58 (r ++ t)) (cons-append colon "" s ∙ ap (λ t. colon ∷ t) (nil-append s))
    ∙ split-append colon r s (others r hr.0)
    ∙ ap (λ l. r ∷ l) (split_of_AllChars colon s (others s hs.0))

-- The text formatted from a routing code and a suffix code of 5 and 32 Base58 characters is
-- parsed, and gives the codes back.
pub parse_complete :
    (r s : String)
    → IsCode 5 r
    → IsCode 32 s
    → parse (format_did r s)
      ≡ ok (record { value = format_did r s; routing_code = r; suffix_code = s })
parse_complete r s hr hs =
    let stripped : strip_prefix did_prefix (format_did r s) ≡ some (r ++ (":" ++ s)) =
      unfold format_did in strip_prefix-append did_prefix (r ++ (":" ++ s)) in
    parse_of_prefix (format_did r s) (r ++ (":" ++ s)) stripped
    ∙ ap (λ l. parse_parts (format_did r s) ("did" ∷ "oan" ∷ l)) (split_codes r s hr hs)
    ∙ (unfold parse_parts in
        rw (
          (validate_routing_code_iff r).1 hr,
          (validate_suffix_code_iff s).1 hs,
          is_match-format_did r s hr hs,
        ))

-- `parse` of an accepted identifier's text gives the identifier back.
parse-value : (v : String) (d : DidOan) → parse v ≡ ok d → parse d.value ≡ ok d
parse-value v d h = ap parse (parse_sound v d h).0 ∙ h

-- An accepted identifier has 46 bytes.
len-value : (v : String) (d : DidOan) → parse v ≡ ok d → len d.value ≡ 46
unfolding format_did
len-value v d h =
    let (same, formatted, hr, hs) = parse_sound v d h in
    omega (
      arith,
      ap len (same ∙ formatted),
      len-append did_prefix (d.routing_code ++ (":" ++ d.suffix_code)),
      len-append d.routing_code (":" ++ d.suffix_code),
      len-append ":" d.suffix_code,
      hr.1,
      hs.1,
    )

validate_routing_code-ne : (s : String) → validate_routing_code s ≢ err invalid_syntax
unfolding validate_routing_code
validate_routing_code-ne s h = ground arith

validate_suffix_code-ne : (s : String) → validate_suffix_code s ≢ err invalid_syntax
unfolding validate_suffix_code
validate_suffix_code-ne s h = ground arith

parse_two-ne-syntax :
    (v r s : String)
    → v ≡ format_did r s
    → parse_parts v ("did" ∷ "oan" ∷ r ∷ s ∷ []) ≢ err invalid_syntax
unfolding parse_parts
parse_two-ne-syntax v r s shape h = elim (Result-cases (validate_routing_code r)) [
  | inl (e, p) ↦ validate_routing_code-ne r (cc (rw p at h))
  | inr (_, p) ↦ elim (Result-cases (validate_suffix_code s)) [
    | inl (e, q) ↦ validate_suffix_code-ne s (cc (rw (p, q) at h))
    | inr (_, q) ↦
        let matches : is_match v ≡ true =
          ap is_match shape
          ∙ is_match-format_did r s ((validate_routing_code_iff r).0 p)
              ((validate_suffix_code_iff s).0 q) in
        cc (rw (p, q, matches) at h)
  ]
]

parse_parts-ne-syntax :
    (v : String) (l : List String)
    → ((r s : String) → l ≡ r ∷ s ∷ [] → v ≡ format_did r s)
    → parse_parts v ("did" ∷ "oan" ∷ l) ≢ err invalid_syntax
parse_parts-ne-syntax v (r ∷ s ∷ []) shape h = parse_two-ne-syntax v r s (shape r s refl) h
parse_parts-ne-syntax v _ shape h = unfold parse_parts in cc h

-- `parse` never returns `InvalidSyntax`: a text whose codes are accepted matches the regular
-- expression.
parse-ne-invalid_syntax : (v : String) → parse v ≢ err invalid_syntax
parse-ne-invalid_syntax v h = elim (Option-cases (strip_prefix did_prefix v)) [
  | inl missing ↦ cc (parse_of_no_prefix v missing)
  | inr (r, found) ↦
      parse_parts-ne-syntax v (split 58 r) (format_of_parts v r found)
        (sym (parse_of_prefix v r found) ∙ h)
]
