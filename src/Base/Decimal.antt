-- ===== src/Base/Decimal.antt =====
-- `std::to_string` of an integer: the decimal digits, with a sign where it is negative.
use bb_monitor.Base.Tests.{ltb}
use bb_monitor.Base.Strings.{Bytes}
use bb_monitor.Base.Keys.{ℤ, pos, negsuc}
use Prim.Native.Nat.{ℕ, zero, suc, ◌+◌, ◌/◌, ◌%◌}
use mathlib.Core.Bool.{true, false}
use mathlib.Core.List.{[], ◌∷◌}

-- The digits of `n` in front of `rest`; a number below the fuel has fewer digits than the fuel.
digits_onto : ℕ → ℕ → Bytes → Bytes
digits_onto zero n rest = rest
digits_onto (suc fuel) n rest = elim (ltb n 10) [
  | true ↦ (b'0' + n) ∷ rest
  | false ↦ digits_onto fuel (n / 10) ((b'0' + n % 10) ∷ rest)
]

unfoldable pub to_string : ℤ → Bytes
unfolding digits_onto
to_string (pos n) = digits_onto (suc n) n []
to_string (negsuc n) = b'-' ∷ digits_onto (suc (suc n)) (suc n) []
