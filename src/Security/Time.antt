-- ===== src/Security/Time.antt =====
-- The freshness of a request: `verify_freshness` of crates/oan-service-security/src/lib.rs.
use oan_protocol_common.Base.{ℕ, ◌+◌, ◌*◌, ◌/◌, ◌≤◌, ◌≡◌, ◌↔◌, arith, Result, ok, fail_if}
use oan_protocol_common.Base.Int.{ℤ, pos, pos_part, neg_part, ◌-ℤ◌, ltb_ℤ}
use oan_protocol_common.Chrono.{Time, nanos}
use oan_protocol_common.Security.Error.{SecurityError}

-- `num_seconds().abs()`: the whole seconds of the absolute value
unfoldable abs_seconds : ℤ → ℕ
abs_seconds d = (pos_part d + neg_part d) / nanos

unfoldable pub verify_freshness : Time → Time → ℤ → SecurityError → Result SecurityError (Unit {0})
unfolding abs_seconds
verify_freshness timestamp now max_clock_skew_seconds code =
    fail_if (ltb_ℤ max_clock_skew_seconds (pos (abs_seconds (now -ℤ timestamp)))) code

-- With a skew of s seconds a time is fresh exactly when it is less than s + 1 seconds away from
-- now, on either side.
pub verify_freshness_iff :
    (timestamp now : Time) (s : ℕ) (code : SecurityError)
    → (verify_freshness timestamp now (pos s) code ≡ ok tt)
      ↔ (pos_part (now -ℤ timestamp) + neg_part (now -ℤ timestamp) ≤ s * nanos + 999_999_999)
unfolding verify_freshness
verify_freshness_iff timestamp now s code = ground arith
