-- ===== src/Text/Decimal/RoundTrip.antt =====
-- `std::stoul` over what `std::to_string` writes.
use lspt_evaluation.Common.{
  ℕ, zero, suc, ◌+◌, ◌-◌, ◌*◌, ◌/◌, ◌%◌, ◌<◌, ◌≡◌, refl, ap, ◌∙◌, true, false, [], ◌∷◌, some, Bytes,
  arith, leb, ltb, ◌==◌, all, is_empty, take_while-all, Bool-cases, inl, inr,
}
use lspt_evaluation.Text.Decimal.{is_digit, digits_onto, to_string, digits_value, after_sign, stoul}
use lspt_evaluation.Text.{is_space, ulong_mod}

digits_value-digits_onto :
    (f n : ℕ) (acc : Bytes) → n < f → digits_value 0 (digits_onto f n acc) ≡ digits_value n acc
unfolding digits_onto digits_value
digits_value-digits_onto zero n acc h = elim h [ ]
digits_value-digits_onto (suc f) n acc h = elim (Bool-cases (ltb n 10)) [
  | inl small ↦
      let e : 0 * 10 + (b'0' + n - b'0') ≡ n = omega arith in
      rw small (ap (λ (m : ℕ). digits_value m acc) e)
  | inr large ↦
      let below : n / 10 < f = ground arith in
      let e : n / 10 * 10 + (b'0' + n % 10 - b'0') ≡ n = omega arith in
      rw large (
        digits_value-digits_onto f (n / 10) ((b'0' + n % 10) ∷ acc) below
        ∙ ap (λ (m : ℕ). digits_value m acc) e)
]

all-digits_onto :
    (f n : ℕ) (acc : Bytes)
    → n < f
    → all is_digit acc ≡ true
    → (all is_digit (digits_onto f n acc) ≡ true) × (is_empty (digits_onto f n acc) ≡ false)
unfolding digits_onto
all-digits_onto zero n acc h d = elim h [ ]
all-digits_onto (suc f) n acc h d = elim (Bool-cases (ltb n 10)) [
  | inl small ↦ rw small (ground arith, refl)
  | inr large ↦
      let below : n / 10 < f = ground arith in
      let digit : is_digit (b'0' + n % 10) ≡ true = is_digit_below (n % 10) (omega arith) in
      rw large (all-digits_onto f (n / 10) ((b'0' + n % 10) ∷ acc) below (rw digit d))
]
  where
    is_digit_below : (k : ℕ) → k < 10 → is_digit (b'0' + k) ≡ true
    is_digit_below k l = ground arith

-- All bytes that `to_string` writes are digits, and there is one.
pub to_string-digits :
    (n : ℕ) → (all is_digit (to_string n) ≡ true) × (is_empty (to_string n) ≡ false)
unfolding to_string
to_string-digits n = all-digits_onto (suc n) n [] (omega arith) refl

stoul-digits :
    (ds : Bytes)
    → all is_digit ds ≡ true
    → is_empty ds ≡ false
    → digits_value 0 ds < ulong_mod
    → stoul ds ≡ some (digits_value 0 ds)
unfolding stoul after_sign
stoul-digits [] d e h = absurd cc
stoul-digits (c ∷ cs) d e h =
    let (space, minus, plus) = digit_first c (first d) in
    let whole = (take_while-all is_digit (c ∷ cs) d).0 in
    let ltb_mod : leb ulong_mod (digits_value 0 (c ∷ cs)) ≡ false =
      above (digits_value 0 (c ∷ cs)) h in
    rw (space, minus, plus, whole, ltb_mod) refl
  where
    above : (n : ℕ) → n < ulong_mod → leb ulong_mod n ≡ false
    above n l = ground arith

    first : all is_digit (c ∷ cs) ≡ true → is_digit c ≡ true
    first k = ground arith

    digit_first :
        (x : ℕ)
        → is_digit x ≡ true
        → (is_space x ≡ false) × ((x == b'-') ≡ false) × ((x == b'+') ≡ false)
    digit_first x k = ground arith

-- `std::stoul` reads the number that `std::to_string` wrote, below 2^64.
pub stoul-to_string : (n : ℕ) → n < ulong_mod → stoul (to_string n) ≡ some n
unfolding to_string
stoul-to_string n h =
    let value : digits_value 0 (digits_onto (suc n) n []) ≡ n =
      unfold digits_value in digits_value-digits_onto (suc n) n [] (omega arith) in
    let (d, e) = all-digits_onto (suc n) n [] (omega arith) refl in
    stoul-digits (digits_onto (suc n) n []) d e (rw value h) ∙ ap some value
