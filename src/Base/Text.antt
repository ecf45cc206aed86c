-- ===== src/Base/Text.antt =====
-- What the program uses of Go's `fmt` on numbers: `%d` of a number that is not negative.
use Prim.Native.Nat.{ℕ, zero, suc, ◌/◌, ◌%◌}
use Prim.Native.String.{String, ◌++◌}
use mathlib.Core.List.{List, [], ◌∷◌}
use casper_vpn.Base.Tests.{ltb, if◌then◌else◌}

text_at : List String → ℕ → String
text_at [] n = ""
text_at (x ∷ xs) zero = x
text_at (x ∷ xs) (suc n) = text_at xs n

digit : ℕ → String
unfolding text_at
digit d = text_at ("0" ∷ "1" ∷ "2" ∷ "3" ∷ "4" ∷ "5" ∷ "6" ∷ "7" ∷ "8" ∷ "9" ∷ []) d

-- The fuel is a bound on the number of digits, and a number has no more digits than its value and 1.
decimal_from : ℕ → ℕ → String → String
unfolding digit
decimal_from zero n s = s
decimal_from (suc f) n s =
    let rest = decimal_from f (n / 10) (digit (n % 10) ++ s) in
    if ltb n 10 then digit n ++ s else rest

unfoldable pub decimal : ℕ → String
unfolding decimal_from
decimal n = decimal_from (suc n) n ""

-- Go's `+` on texts, for a file whose `++` is that of lists.
abbrev pub concat : String → String → String
concat s t = s ++ t
