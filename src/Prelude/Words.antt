-- ===== src/Prelude/Words.antt =====
-- Unsigned machine integers as bounded naturals: the standard library's checked and saturating sums.
use Prim.Native.Nat.{ℕ, ◌+◌, min}
use mathlib.Core.Option.{Option, none, some}
use smb_rs.Prelude.Tests.{leb, if◌then◌else◌}

abbrev pub u16_max : ℕ
u16_max = 65535

abbrev pub u32_max : ℕ
u32_max = 4294967295

abbrev pub u64_max : ℕ
u64_max = 18446744073709551615

-- `usize` on a 64-bit target.
abbrev pub usize_max : ℕ
usize_max = u64_max

-- `a.saturating_add(b)` at the type whose largest value is `top`.
abbrev pub saturating_add : ℕ → ℕ → ℕ → ℕ
saturating_add top a b = min (a + b) top

-- `a.checked_add(b)` at the type whose largest value is `top`.
abbrev pub checked_add : ℕ → ℕ → ℕ → Option ℕ
checked_add top a b = if leb (a + b) top then some (a + b) else none
