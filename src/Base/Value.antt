-- ===== src/Base/Value.antt =====
-- JSON values, as `request.json` hands them over, and `int()` on them.
use solverr.Base.{
  ℕ, zero, suc, ◌+◌, ◌-◌, ◌*◌, ◌/◌, Bool, true, false, ◌&&◌, Option, none, some, [], ◌∷◌, leb, ◌==◌,
  if◌then◌else◌,
}
use solverr.Base.Int.{ℤ, pos, negsuc}
use solverr.Base.Text.{Text, strip, text_eq}
use mathlib.Core.Option

-- `decimal m e` is the number m / 10 ^ e. The floats that Python's reader makes of `NaN`, `Infinity` and
-- of numbers out of range, as 1e999, are left out.
mutual
  pub data Value : Type 0 where
    null : Value
    truth : Bool → Value
    int : ℤ → Value
    decimal : ℤ → ℕ → Value
    str : Text → Value
    obj : Fields → Value
    arr : Items → Value

  pub data Fields : Type 0 where
    field : Text → Value → Fields → Fields
    end : Fields

  pub data Items : Type 0 where
    cons : Value → Items → Items
    nil : Items

unfoldable pub power_of_ten : ℕ → ℕ
power_of_ten zero = 1
power_of_ten (suc e) = 10 * power_of_ten e

-- Minus a number.
abbrev pub minus : ℕ → ℤ
minus zero = pos 0
minus (suc n) = negsuc n

-- `int(x)` of a float rounds towards 0.
unfoldable pub truncate : ℤ → ℕ → ℤ
unfolding power_of_ten
truncate (pos m) e = pos (m / power_of_ten e)
truncate (negsuc m) e = minus (suc m / power_of_ten e)

-- The digits of a number, with single underscores between them. The flag says whether a digit
-- stands in front.
unfoldable pub digits : Bool → ℕ → Text → Option ℕ
digits seen n [] = if seen then some n else none
digits seen n (c ∷ cs) =
    let on_digit = digits true (n * 10 + (c - b'0')) cs in
    let on_bar = digits false n cs in
    if leb b'0' c && leb c b'9' then on_digit else (if seen && c == b'_' then on_bar else none)

unfoldable pub signed : Text → Option ℤ
unfolding digits
signed [] = none
signed (c ∷ cs) =
    if c == b'-'
    then Option.map minus (digits false 0 cs)
    else Option.map pos (digits false 0 (if c == b'+' then cs else c ∷ cs))

-- `int(s)`; `none` is the `ValueError`.
unfoldable pub parse_int : Text → Option ℤ
unfolding signed strip
parse_int s = signed (strip s)

-- `int(v)`; `none` is the `TypeError` or the `ValueError`.
unfoldable pub int_of : Value → Option ℤ
unfolding parse_int truncate
int_of (truth true) = some (pos 1)
int_of (truth false) = some (pos 0)
int_of (int n) = some n
int_of (decimal m e) = some (truncate m e)
int_of (str s) = parse_int s
int_of _ = none

-- The field under a name, the last one if a name comes twice, else `null`.
unfoldable pub attr : Text → Fields → Value → Value
attr name end found = found
attr name (field k v fs) found = attr name fs (if text_eq name k then v else found)
