-- ===== src/Clock.antt =====
-- crates/smb/src/clock.rs: monotonic time and durations, both in nanoseconds.
use smb_rs.Prelude.{ℕ, min, u64_max}
use smb_rs.Prelude

abbrev pub MonotonicTime : Type 0
MonotonicTime = ℕ

abbrev pub Duration : Type 0
Duration = ℕ

-- `MonotonicTime::saturating_add`: `u64::try_from(duration.as_nanos()).unwrap_or(u64::MAX)` first.
abbrev pub saturating_add : MonotonicTime → Duration → MonotonicTime
saturating_add t d = Prelude.saturating_add u64_max t (min d u64_max)
