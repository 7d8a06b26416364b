-- ===== src/Common/Text/Decimal.antt =====
-- `Display` of an unsigned integer: its decimal digits, with no leading zero.
use Prim.Native.Nat.{ℕ, zero, suc, ◌+◌, ◌-◌, ◌*◌, ◌/◌, ◌%◌}
use mathlib.Core.List.{[], ◌∷◌}
use install_scope.Common.Tests.{ltb, if◌then◌else◌}
use install_scope.Common.Text.Scan.{Text}

-- The digits of `n` before `acc`. A number has no more digits than its value plus one, so `suc n`
-- is fuel enough.
digits_from : ℕ → ℕ → Text → Text
digits_from zero n acc = acc
digits_from (suc fuel) n acc =
    let more = digits_from fuel (n / 10) ((b'0' + n % 10) ∷ acc) in
    if ltb n 10 then (b'0' + n) ∷ acc else more

unfoldable pub decimal : ℕ → Text
unfolding digits_from
decimal n = digits_from (suc n) n []

-- The number that decimal digits denote, most significant first.
unfoldable pub value_from : ℕ → Text → ℕ
value_from acc [] = acc
value_from acc (d ∷ s) = value_from (acc * 10 + d - b'0') s
