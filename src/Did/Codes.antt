-- ===== src/Did/Codes.antt =====
-- When the validators of the codes accept, and what the syntax check makes of accepted codes.
use Prim.Native.String.{◌++◌, len}
use text.Mathlib.TextLemmas.{append-nil}
use mathlib.Core.Path.{subst}
use oan_protocol_common.Base.{ℕ, String, ◌≡◌, true, arith, nat_beq_iff, some, ok, ◌↔◌}
use oan_protocol_common.Text.Laws.{AllChars, all_chars_iff_to, all_chars_of, strip_prefix-append}
use oan_protocol_common.Base58.{is_base58, class_run, validate_routing_code, validate_suffix_code}
use oan_protocol_common.Base58.Alphabet.{class_run-append}
use oan_protocol_common.Did.{is_match, format_did}

-- n characters of the Base58 alphabet, one byte each
abbrev pub IsCode : ℕ → String → Type 0
IsCode n s = AllChars is_base58 s × (len s ≡ n)

pub validate_routing_code_iff : (s : String) → (validate_routing_code s ≡ ok tt) ↔ IsCode 5 s
unfolding validate_routing_code
validate_routing_code_iff s = (
  λ h. (all_chars_iff_to is_base58 s (ground arith), ground arith),
  λ h. rw ((nat_beq_iff (len s) 5).1 h.1, all_chars_of is_base58 s h.0),
)

pub validate_suffix_code_iff : (s : String) → (validate_suffix_code s ≡ ok tt) ↔ IsCode 32 s
unfolding validate_suffix_code
validate_suffix_code_iff s = (
  λ h. (all_chars_iff_to is_base58 s (ground arith), ground arith),
  λ h. rw ((nat_beq_iff (len s) 32).1 h.1, all_chars_of is_base58 s h.0),
)

class_run_of_IsCode : (n : ℕ) (s t : String) → IsCode n s → class_run n (s ++ t) ≡ some t
class_run_of_IsCode n s t (h, e) = rw (← e) (class_run-append s t h)

class_run_exact : (n : ℕ) (s : String) → IsCode n s → class_run n s ≡ some ""
class_run_exact n s h =
    subst (λ t. class_run n t ≡ some "") (append-nil s) (class_run_of_IsCode n s "" h)

-- Accepted codes pass the syntax check.
pub is_match-format_did :
    (r s : String) → IsCode 5 r → IsCode 32 s → is_match (format_did r s) ≡ true
unfolding is_match format_did
is_match-format_did r s hr hs =
    rw
      (
        strip_prefix-append "did:oan:" (r ++ (":" ++ s)),
        class_run_of_IsCode 5 r (":" ++ s) hr,
        strip_prefix-append ":" s,
      )
      (rw (class_run_exact 32 s hs))
