-- ===== src/Common/Text/Decimal.antt =====
-- The decimal digits of a number, as fmt's %d writes one that is not negative.
use Prim.Native.Nat.{ℕ, zero, suc, ◌+◌, ◌/◌, ◌%◌}
use mathlib.Core.Path.{◌≡◌, refl}
use mathlib.Core.List.{[], ◌∷◌}
use remote_command_orchestra.Common.Tests.{ltb, if◌then◌else◌}
use remote_command_orchestra.Common.Text.Search.{Bytes, codes}

-- Fuel: a number has fewer digits than its value and one.
decimal_from : ℕ → ℕ → Bytes → Bytes
decimal_from zero n rest = rest
decimal_from (suc f) n rest =
    let more = decimal_from f (n / 10) ((48 + n % 10) ∷ rest) in
    if ltb n 10 then (48 + n) ∷ rest else more

unfoldable pub decimal : ℕ → Bytes
unfolding decimal_from
decimal n = decimal_from (suc n) n []

decimal_test : decimal 1207 ≡ codes "1207"
unfolding decimal
decimal_test = refl
