-- ===== src/Prelude/Float.antt =====
-- Python's `float`. The arithmetic of binary floating point is not defined here: a development
-- takes a number type with the operations that the program calls, and no law of them unless a
-- theorem names it.
use Prim.Native.Nat.{ℕ}
use mathlib.Core.Bool.{Bool}
use mathlib.Core.Option.{Option}
use mathlib.Core.List.{List}
use cloud_native_emulator.Prelude.Int.{ℤ}

pub record Float : Type 1 where
  pub F : Type 0
  -- float(n), where int_fits says that it does not raise OverflowError
  pub of_int : ℤ → F
  pub int_fits : ℤ → Bool
  pub add : F → F → F
  pub mul : F → F → F
  -- a < b, a == b
  pub less : F → F → Bool
  pub equal : F → F → Bool
  -- n < a, a < n and n == a, which compare the exact values
  pub int_less : ℤ → F → Bool
  pub less_int : F → ℤ → Bool
  pub int_equal : ℤ → F → Bool
  -- whether f'{n / 1000.0:g}' rounds up where n stands halfway between two texts of six digits
  pub ties_up : ℕ → Bool
  -- int(a); `none` where it raises (an infinity, not a number)
  pub trunc : F → Option ℤ
  -- float(text), by code points; `none` where it raises ValueError
  pub parse : List ℕ → Option F
