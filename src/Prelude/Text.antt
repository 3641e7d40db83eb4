-- ===== src/Prelude/Text.antt =====
-- Texts: Rust's `format!` over pieces, the decimal rendering of a number, and equality tests.
use Prim.Native.Nat.{ℕ, zero, suc, ◌/◌, ◌%◌}
use Prim.Native.String.{String}
use Prim.Native.String
use mathlib.Core.Path.{◌≡◌, refl}
use mathlib.Core.Bool.{Bool}
use mathlib.Core.List.{List, [], ◌∷◌}
use text.Mathlib.Text
use dssp_bot.Prelude.Tests.{◌==◌, ltb, if◌then◌else◌}

abbrev pub str_eq : String → String → Bool
str_eq s t = Text.◌==◌ s t

-- `format!`: the pieces of the text, one after the other.
abbrev pub format : List String → String
format [] = ""
format (s ∷ rest) = String.◌++◌ s (format rest)

abbrev pub digit : ℕ → String
digit n =
    if n == 0
    then "0"
    else if n == 1
    then "1"
    else if n == 2
    then "2"
    else if n == 3
    then "3"
    else if n == 4
    then "4"
    else if n == 5
    then "5"
    else if n == 6
    then "6"
    else if n == 7
    then "7"
    else if n == 8
    then "8"
    else "9"

-- A number below 10 ^ fuel, in decimal, in front of a text.
unfoldable pub decimal_from : ℕ → ℕ → String → String
decimal_from zero n s = s
decimal_from (suc fuel) n s =
    let s' = String.◌++◌ (digit (n % 10)) s in
    let rest = decimal_from fuel (n / 10) s' in if ltb n 10 then s' else rest

-- `Display` of an unsigned integer; a number has at most as many digits as its successor.
unfoldable pub decimal : ℕ → String
unfolding decimal_from
decimal n = decimal_from (suc n) n ""

decimal_305 : decimal 305 ≡ "305"
unfolding decimal
decimal_305 = refl
