-- ===== src/Base/Word.antt =====
-- Rust's unsigned machine integers as native numbers: the arithmetic that the code asks for by name.
use Prim.Native.Nat.{ℕ, ◌+◌, ◌-◌, ◌*◌, ◌^◌, min}
use mathlib.Core.Option.{Option, none, some}
use lp_maker.Base.Tests.{ltb, if◌then◌else◌}

abbrev pub u32_max : ℕ
u32_max = 2 ^ 32 - 1

abbrev pub u64_max : ℕ
u64_max = 2 ^ 64 - 1

abbrev pub u128_max : ℕ
u128_max = 2 ^ 128 - 1

-- A result of an operation on integers up to `top`, if it fits.
abbrev pub checked : ℕ → ℕ → Option ℕ
checked top n = if ltb top n then none else some n

abbrev pub checked_add : ℕ → ℕ → ℕ → Option ℕ
checked_add top a b = checked top (a + b)

abbrev pub checked_mul : ℕ → ℕ → ℕ → Option ℕ
checked_mul top a b = checked top (a * b)

-- `saturating_add`; `saturating_sub` is the truncated `-` of ℕ.
abbrev pub saturating_add : ℕ → ℕ → ℕ → ℕ
saturating_add top a b = min top (a + b)
