-- ===== src/Base/Decimal.antt =====
-- `str(n)` of a number that is not negative.
use Prim.Native.Nat.{ℕ, zero, suc, ◌/◌, ◌%◌, ◌+◌}
use Prim.Native.String.{String}
use Prim.Native.String
use rules_ostest.Base.Tests.{ltb, if◌then◌else◌}

digit : ℕ → String
digit zero = "0"
digit (suc zero) = "1"
digit (suc (suc zero)) = "2"
digit (suc (suc (suc zero))) = "3"
digit (suc (suc (suc (suc zero)))) = "4"
digit (suc (suc (suc (suc (suc zero))))) = "5"
digit (suc (suc (suc (suc (suc (suc zero)))))) = "6"
digit (suc (suc (suc (suc (suc (suc (suc zero))))))) = "7"
digit (suc (suc (suc (suc (suc (suc (suc (suc zero)))))))) = "8"
digit _ = "9"

-- A number has fewer digits than its successor has units, which bounds the fuel.
digits : ℕ → ℕ → String
digits zero n = ""
digits (suc fuel) n =
    let before = digits fuel (n / 10) in
    if ltb n 10 then digit n else String.◌++◌ before (digit (n % 10))

unfoldable pub decimal : ℕ → String
unfolding digits digit
decimal n = digits (n + 1) n
