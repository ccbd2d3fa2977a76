-- ===== src/TimeUtil/Digits.antt =====
-- Numbers with zeros in front, digit by digit.
use lspt_evaluation.Common.{
  ℕ, zero, suc, ◌+◌, ◌/◌, ◌%◌, ◌≤◌, ◌<◌, ◌≡◌, refl, ◌∙◌, true, false, [], ◌∷◌, Bytes, arith, ltb,
  Bool-cases, inl, inr,
}
use lspt_evaluation.Text.Decimal.{digits_onto, to_string, digits_value}
use lspt_evaluation.TimeUtil.{padded}

abbrev pub digit : ℕ → ℕ
digit d = b'0' + d

digits_onto_last : (f n : ℕ) (acc : Bytes) → n < 10 → 0 < f → digits_onto f n acc ≡ digit n ∷ acc
unfolding digits_onto
digits_onto_last zero n acc h k = absurd (omega arith)
digits_onto_last (suc f) n acc h k = let e : ltb n 10 ≡ true = ground arith in rw e refl

digits_onto_more :
    (f n : ℕ) (acc : Bytes)
    → 10 ≤ n
    → digits_onto (suc f) n acc ≡ digits_onto f (n / 10) (digit (n % 10) ∷ acc)
unfolding digits_onto
digits_onto_more f n acc h = let e : ltb n 10 ≡ false = ground arith in rw e refl

abbrev pub two : ℕ → Bytes
two n = digit (n / 10) ∷ digit (n % 10) ∷ []

abbrev pub three : ℕ → Bytes
three n = digit (n / 10 / 10) ∷ digit (n / 10 % 10) ∷ digit (n % 10) ∷ []

abbrev pub four : ℕ → Bytes
four n =
    digit (n / 10 / 10 / 10) ∷ digit (n / 10 / 10 % 10) ∷ digit (n / 10 % 10) ∷ digit (n % 10) ∷ []

to_string-one : (n : ℕ) → n < 10 → to_string n ≡ digit n ∷ []
unfolding to_string
to_string-one n h = digits_onto_last (suc n) n [] h (omega arith)

to_string-two : (n : ℕ) → 10 ≤ n → n < 100 → to_string n ≡ two n
unfolding to_string
to_string-two n h k =
    digits_onto_more n n [] h ∙ digits_onto_last n (n / 10) _ (omega arith) (omega arith)

to_string-three : (n : ℕ) → 100 ≤ n → n < 1000 → to_string n ≡ three n
unfolding to_string
to_string-three zero h k = absurd (omega arith)
to_string-three (suc m) h k =
    let n = suc m in
    digits_onto_more n n [] (omega arith)
    ∙ digits_onto_more m (n / 10) _ (omega arith)
    ∙ digits_onto_last m (n / 10 / 10) _ (omega arith) (omega arith)

to_string-four : (n : ℕ) → 1000 ≤ n → n < 10000 → to_string n ≡ four n
unfolding to_string
to_string-four zero h k = absurd (omega arith)
to_string-four (suc zero) h k = absurd (omega arith)
to_string-four (suc (suc m)) h k =
    let n = suc (suc m) in
    digits_onto_more n n [] (omega arith)
    ∙ digits_onto_more (suc m) (n / 10) _ (omega arith)
    ∙ digits_onto_more m (n / 10 / 10) _ (omega arith)
    ∙ digits_onto_last m (n / 10 / 10 / 10) _ (omega arith) (omega arith)

pub padded-two : (n : ℕ) → n < 100 → padded 2 n ≡ two n
unfolding padded
padded-two n h = elim (Bool-cases (ltb n 10)) [
  | inl e ↦
      let small : n < 10 = ground arith in
      let high : n / 10 ≡ 0 = omega arith in
      let low : n % 10 ≡ n = omega arith in rw (to_string-one n small, high, low) refl
  | inr e ↦ let large : 10 ≤ n = ground arith in rw (to_string-two n large h) refl
]

pub padded-three : (n : ℕ) → n < 1000 → padded 3 n ≡ three n
unfolding padded
padded-three n h = elim (Bool-cases (ltb n 100)) [
  | inl e ↦
      let below : n < 100 = ground arith in
      elim (Bool-cases (ltb n 10)) [
        | inl e1 ↦
            let small : n < 10 = ground arith in
            let high : n / 10 ≡ 0 = omega arith in
            let low : n % 10 ≡ n = omega arith in rw (to_string-one n small, high, low) refl
        | inr e1 ↦
            let large : 10 ≤ n = ground arith in
            let high : n / 10 / 10 ≡ 0 = omega arith in
            let low : n / 10 % 10 ≡ n / 10 = omega arith in
            rw (to_string-two n large below, high, low) refl
      ]
  | inr e ↦ let large : 100 ≤ n = ground arith in rw (to_string-three n large h) refl
]

pub padded-four : (n : ℕ) → 1000 ≤ n → n < 10000 → padded 4 n ≡ four n
unfolding padded
padded-four n h k = rw (to_string-four n h k) refl

pub value_two : (n : ℕ) → digits_value 0 (two n) ≡ n
unfolding digits_value
value_two n = omega arith

pub value_three : (n : ℕ) → digits_value 0 (three n) ≡ n
unfolding digits_value
value_three n = omega arith

pub value_four : (n : ℕ) → digits_value 0 (four n) ≡ n
unfolding digits_value
value_four n = omega arith
