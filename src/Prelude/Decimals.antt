-- ===== src/Prelude/Decimals.antt =====
-- Decimal texts of whole numbers (`strconv.Itoa`, `%d`) and their parser (`strconv.ParseInt`, which is also
-- `strconv.Atoi` on a 64-bit platform; `none` for an error).
use Prim.Native.Nat.{ℕ, zero, suc, ◌+◌, ◌-◌, ◌*◌, ◌/◌, ◌%◌, ◌^◌}
use mathlib.Core.Bool.{◌&&◌}
use mathlib.Core.Option.{Option, none, some}
use mathlib.Core.List.{[], ◌∷◌}
use hive_mind_fusion.Prelude.Tests.{ltb, leb, ◌==◌, if◌then◌else◌}
use hive_mind_fusion.Prelude.Ints.{ℤ, pos, negsuc}
use hive_mind_fusion.Prelude.Texts.{Text}

-- The digits of a number in front of a text; each round drops a digit, so the number plus one is fuel
-- enough.
unfoldable pub digits_before : ℕ → ℕ → Text → Text
digits_before zero n s = s
digits_before (suc fuel) n s =
    let more = digits_before fuel (n / 10) ((b'0' + n % 10) ∷ s) in
    if ltb n 10 then (b'0' + n) ∷ s else more

unfoldable pub decimal : ℕ → Text
unfolding digits_before
decimal n = digits_before (suc n) n []

unfoldable pub decimal_ℤ : ℤ → Text
unfolding decimal
decimal_ℤ (pos n) = decimal n
decimal_ℤ (negsuc n) = b'-' ∷ decimal (n + 1)

-- The number behind these digits, `none` for another byte.
unfoldable pub digits_value : ℕ → Text → Option ℕ
digits_value n [] = some n
digits_value n (c ∷ s) =
    let rest = digits_value (10 * n + (c - b'0')) s in
    if leb b'0' c && leb c b'9' then rest else none

abbrev pub in_int64 : Option ℕ → Option ℤ
in_int64 none = none
in_int64 (some n) = if ltb n (2 ^ 63) then some (pos n) else none

-- The smallest `int64` is -2^63.
abbrev pub negative_int64 : Option ℕ → Option ℤ
negative_int64 none = none
negative_int64 (some n) =
    if n == 0 then some (pos 0) else if leb n (2 ^ 63) then some (negsuc (n - 1)) else none

abbrev pub digits_of : Text → Option ℕ
digits_of [] = none
digits_of (c ∷ s) = digits_value 0 (c ∷ s)

-- `strconv.ParseInt(s, 10, 64)`.
unfoldable pub parse_int : Text → Option ℤ
unfolding digits_value
parse_int [] = none
parse_int (c ∷ s) =
    if c == b'-'
    then negative_int64 (digits_of s)
    else if c == b'+'
    then in_int64 (digits_of s)
    else in_int64 (digits_of (c ∷ s))
