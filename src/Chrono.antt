-- ===== src/Chrono.antt =====
-- chrono's times and durations, in nanoseconds; a time counts from the Unix epoch.
use oan_protocol_common.Base.{ℕ, suc, ◌*◌}
use oan_protocol_common.Base.Int.{ℤ, pos, negsuc, sub_ℕ}

abbrev pub Time : Type 0
Time = ℤ

abbrev pub nanos : ℕ
nanos = 1_000_000_000

-- `Duration::seconds`
unfoldable pub seconds : ℤ → ℤ
seconds (pos n) = pos (n * nanos)
seconds (negsuc n) = sub_ℕ 0 (suc n * nanos)
