-- ===== src/Protocol/Numbers.antt =====
-- Numbers of the protocol: `parsePositiveInt` and `parseSignedInt` of CommandParser.ts. `Number` rounds
-- what lies above 2^53, but nothing rounds to a safe integer that is not one.
use mini_store.Prelude.{
  ℕ, zero, suc, ◌+◌, ◌-◌, ◌*◌, Bool, true, false, not, ◌&&◌, ◌||◌, Option, none, some, [], ◌∷◌, ltb,
  leb, ◌==◌, if◌then◌else◌, ℤ, pos, negsuc, Text,
}

unfoldable pub is_digit : ℕ → Bool
is_digit c = leb b'0' c && leb c b'9'

unfoldable pub all_digits : Text → Bool
unfolding is_digit
all_digits [] = true
all_digits (c ∷ t) = is_digit c && all_digits t

-- `/^\d+$/.test(token)`
unfoldable pub is_number : Text → Bool
unfolding all_digits
is_number [] = false
is_number (c ∷ t) = all_digits (c ∷ t)

-- The value of a row of digits behind one of value `n`.
unfoldable pub value_from : ℕ → Text → ℕ
value_from n [] = n
value_from n (c ∷ t) = value_from (n * 10 + (c - b'0')) t

abbrev pub max_safe_integer : ℕ
max_safe_integer = 9_007_199_254_740_991

abbrev pub max_ttl_seconds : ℕ
max_ttl_seconds = 9_999_999_999

unfoldable pub parse_positive_int : Text → Option ℕ
unfolding is_number value_from
parse_positive_int token =
    let n = value_from 0 token in
    if not (is_number token)
    then none
    else if ltb max_safe_integer n || ltb n 1 || ltb max_ttl_seconds n
    then none
    else some n

abbrev pub negative : ℕ → ℤ
negative zero = pos 0
negative (suc n) = negsuc n

-- A row of digits as a safe integer; `make` puts the sign on.
unfoldable pub safe_integer : (ℕ → ℤ) → Text → Option ℤ
unfolding is_number value_from
safe_integer make digits =
    let n = value_from 0 digits in
    if not (is_number digits) then none else if ltb max_safe_integer n then none else some (make n)

-- `-0` counts as 0, which no use of it tells apart.
unfoldable pub parse_signed_int : Text → Option ℤ
unfolding safe_integer
parse_signed_int [] = none
parse_signed_int (c ∷ t) = if c == b'-' then safe_integer negative t else safe_integer pos (c ∷ t)
