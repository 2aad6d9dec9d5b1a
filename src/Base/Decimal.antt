-- ===== src/Base/Decimal.antt =====
-- Python's `str` on integers.
use Prim.Native.Nat.{ℕ, zero, suc, ◌+◌, ◌/◌, ◌%◌}
use mathlib.Core.List.{[], ◌∷◌, ◌++◌}
use tiny_cache.Base.Tests.{ltb, if◌then◌else◌}
use tiny_cache.Base.Strings.{Text}
use tiny_cache.Base.Int.{ℤ, pos, negsuc}

-- `str(n)`: the fuel bounds the number of digits, and one digit takes one unit.
unfoldable pub digits : ℕ → ℕ → Text
digits zero n = []
digits (suc fuel) n =
    let higher = digits fuel (n / 10) in
    if ltb n 10 then (b'0' + n) ∷ [] else higher ++ (b'0' + n % 10) ∷ []

unfoldable pub decimal : ℕ → Text
decimal n = digits (suc n) n

unfoldable pub int_text : ℤ → Text
int_text (pos n) = decimal n
int_text (negsuc n) = b'-' ∷ decimal (suc n)
