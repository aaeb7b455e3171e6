-- ===== src/Prelude/Decimal.antt =====
-- Texts put together, and numbers printed as fmt.Sprint does.
pub mod Reading
use Prim.Native.String.{◌++◌ as append_text}
use mini_dock.Prelude.{ℕ, zero, suc, ◌/◌, ◌%◌, String, ltb, if◌then◌else◌, ◌==◌}

infixr 60 ◌+s+◌
abbrev pub ◌+s+◌ : String → String → String
a +s+ b = append_text a b

abbrev pub digit : ℕ → String
digit n =
    if n == 0
    then "0"
    else if n == 1
    then "1"
    else if n == 2
    then "2"
    else if n == 3
    then "3"
    else if n == 4
    then "4"
    else if n == 5
    then "5"
    else if n == 6
    then "6"
    else if n == 7
    then "7"
    else if n == 8
    then "8"
    else "9"

unfoldable pub digits : ℕ → ℕ → String
digits zero n = digit n
digits (suc fuel) n =
    let rest = digits fuel (n / 10) in if ltb n 10 then digit n else rest +s+ digit (n % 10)

-- Nineteen digits hold every int64.
unfoldable pub decimal : ℕ → String
unfolding digits
decimal n = digits 18 n
