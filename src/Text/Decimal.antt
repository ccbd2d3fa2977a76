-- ===== src/Text/Decimal.antt =====
-- `std::to_string` of an unsigned number, and `std::stoul`, which takes what `strtoul` takes.
pub mod RoundTrip
use lspt_evaluation.Common.{
  ℕ, zero, suc, ◌+◌, ◌-◌, ◌*◌, ◌/◌, ◌%◌, Bool, true, false, ◌&&◌, [], ◌∷◌, Option, none, some,
  Bytes, leb, ltb, ◌==◌, if◌then◌else◌, take_while, drop_while, is_empty,
}
use lspt_evaluation.Text.{is_space, ulong_mod}

abbrev pub is_digit : ℕ → Bool
is_digit c = leb b'0' c && leb c b'9'

-- The digits of `n` in front of `acc`; the fuel is above the number of digits.
unfoldable pub digits_onto : ℕ → ℕ → Bytes → Bytes
digits_onto zero n acc = acc
digits_onto (suc f) n acc =
    let rest = digits_onto f (n / 10) ((b'0' + n % 10) ∷ acc) in
    if ltb n 10 then (b'0' + n) ∷ acc else rest

unfoldable pub to_string : ℕ → Bytes
unfolding digits_onto
to_string n = digits_onto (suc n) n []

unfoldable pub digits_value : ℕ → Bytes → ℕ
digits_value acc [] = acc
digits_value acc (c ∷ cs) = digits_value (acc * 10 + (c - b'0')) cs

-- A minus sign negates in the unsigned type.
abbrev signed_value : Bool → ℕ → Option ℕ
signed_value negative n =
    if leb ulong_mod n then none else some (if negative then (ulong_mod - n) % ulong_mod else n)

abbrev unsigned_digits : Bool → Bytes → Option ℕ
unsigned_digits negative ds =
    if is_empty ds then none else signed_value negative (digits_value 0 ds)

after_sign : Bytes → Option ℕ
after_sign [] = none
after_sign (c ∷ cs) =
    if c == b'-'
    then unsigned_digits true (take_while is_digit cs)
    else if c == b'+'
    then unsigned_digits false (take_while is_digit cs)
    else unsigned_digits false (take_while is_digit (c ∷ cs))

-- White space and one sign in front are skipped, and what follows the digits is ignored. `none`
-- is an exception: `invalid_argument` without a digit, `out_of_range` from 2^64 on.
unfoldable pub stoul : Bytes → Option ℕ
unfolding after_sign digits_value
stoul s = after_sign (drop_while is_space s)
