-- ===== src/TimeUtil/Fields.antt =====
-- What `current_time` writes, read back.
use lspt_evaluation.Common.{
  ℕ, List, ◌/◌, ◌%◌, ◌≤◌, ◌<◌, ◌≡◌, refl, ap, ◌∙◌, Bool, true, false, [], ◌∷◌, ◌++◌, Bytes, arith,
  map, take, drop,
}
use lspt_evaluation.Text.Decimal.{digits_value}
use lspt_evaluation.TimeUtil.{LocalTime, date_text, replaced, replace, path_form, current_time}
use lspt_evaluation.TimeUtil.Digits.{
  digit, two, three, four, padded-two, padded-three, padded-four, value_two, value_three,
  value_four,
}

-- A time of a year of four digits, each field in its range.
pub record IsTime (t : LocalTime) : Type 0 where
  pub year_from : 1000 ≤ t.year
  pub year_to : t.year < 10000
  pub month_to : t.month < 13
  pub day_to : t.day < 32
  pub hour_to : t.hour < 24
  pub minute_to : t.minute < 60
  pub second_to : t.second < 61
  pub usec_to : t.usec < 1000000

-- The text from a field on, with these two bytes for the blank and for each colon.
abbrev from_second : LocalTime → Bytes
from_second t = two t.second ++ (b'.' ∷ three (t.usec / 1000))

abbrev from_minute : ℕ → LocalTime → Bytes
from_minute colon t = two t.minute ++ (colon ∷ from_second t)

abbrev from_hour : ℕ → LocalTime → Bytes
from_hour colon t = two t.hour ++ (colon ∷ from_minute colon t)

abbrev from_day : ℕ → ℕ → LocalTime → Bytes
from_day blank colon t = two t.day ++ (blank ∷ from_hour colon t)

abbrev from_month : ℕ → ℕ → LocalTime → Bytes
from_month blank colon t = two t.month ++ (b'-' ∷ from_day blank colon t)

abbrev stamp : ℕ → ℕ → LocalTime → Bytes
stamp blank colon t = four t.year ++ (b'-' ∷ from_month blank colon t)

date_text-stamp : (t : LocalTime) → IsTime t → date_text t ≡ stamp b' ' b':' t
unfolding date_text
date_text-stamp t ok_time =
    let y = padded-four t.year ok_time.year_from ok_time.year_to in
    let mo = padded-two t.month (omega (arith, ok_time.month_to)) in
    let d = padded-two t.day (omega (arith, ok_time.day_to)) in
    let h = padded-two t.hour (omega (arith, ok_time.hour_to)) in
    let mi = padded-two t.minute (omega (arith, ok_time.minute_to)) in
    let s = padded-two t.second (omega (arith, ok_time.second_to)) in
    let ms = padded-three (t.usec / 1000) (omega (arith, ok_time.usec_to)) in
    rw (y, mo, d, h, mi, s, ms) refl

-- A replacement of a byte that is no digit keeps the digits.
abbrev KeepsDigits : (ℕ → ℕ) → Type 0
KeepsDigits f = (d : ℕ) → d < 10 → f (digit d) ≡ digit d

module _ (f : ℕ → ℕ) (keeps : KeepsDigits f) where
  map-two : (n : ℕ) (rest : Bytes) → n < 100 → map f (two n ++ rest) ≡ two n ++ map f rest
  map-two n rest h = rw (keeps (n / 10) (omega arith), keeps (n % 10) (omega arith)) refl

  map-three : (n : ℕ) → n < 1000 → map f (three n) ≡ three n
  map-three n h =
      rw
        (
          keeps (n / 10 / 10) (omega arith),
          keeps (n / 10 % 10) (omega arith),
          keeps (n % 10) (omega arith),
        )
        refl

  map-four : (n : ℕ) (rest : Bytes) → n < 10000 → map f (four n ++ rest) ≡ four n ++ map f rest
  map-four n rest h =
      rw
        (
          keeps (n / 10 / 10 / 10) (omega arith),
          keeps (n / 10 / 10 % 10) (omega arith),
          keeps (n / 10 % 10) (omega arith),
          keeps (n % 10) (omega arith),
        )
        refl

  two_then :
      (n sep sep' : ℕ) (rest rest' : Bytes)
      → n < 100
      → f sep ≡ sep'
      → map f rest ≡ rest'
      → map f (two n ++ (sep ∷ rest)) ≡ two n ++ (sep' ∷ rest')
  two_then n sep sep' rest rest' h e k =
      map-two n (sep ∷ rest) h
      ∙ ap (λ (x : ℕ). two n ++ (x ∷ map f rest)) e
      ∙ ap (λ (xs : Bytes). two n ++ (sep' ∷ xs)) k

  map-stamp :
      (blank colon : ℕ) (t : LocalTime)
      → IsTime t
      → f b'-' ≡ b'-'
      → f b'.' ≡ b'.'
      → map f (stamp blank colon t) ≡ stamp (f blank) (f colon) t
  map-stamp blank colon t ok_time dash point =
      let second =
        two_then t.second b'.' b'.' (three (t.usec / 1000)) _ (omega (arith, ok_time.second_to))
          point (map-three (t.usec / 1000) (omega (arith, ok_time.usec_to))) in
      let minute =
        two_then t.minute colon (f colon) (from_second t) _ (omega (arith, ok_time.minute_to)) refl
          second in
      let hour =
        two_then t.hour colon (f colon) (from_minute colon t) _ (omega (arith, ok_time.hour_to))
          refl minute in
      let day =
        two_then t.day blank (f blank) (from_hour colon t) _ (omega (arith, ok_time.day_to)) refl
          hour in
      let month =
        two_then t.month b'-' b'-' (from_day blank colon t) _ (omega (arith, ok_time.month_to)) dash
          day in
      map-four t.year (b'-' ∷ from_month blank colon t) ok_time.year_to
      ∙ ap (λ (x : ℕ). four t.year ++ (x ∷ map f (from_month blank colon t))) dash
      ∙ ap (λ (xs : Bytes). four t.year ++ (b'-' ∷ xs)) month

path_form-stamp : (t : LocalTime) → IsTime t → path_form (stamp b' ' b':' t) ≡ stamp b'_' b'-' t
unfolding path_form replace
path_form-stamp t ok_time =
    ap (map (replaced b':' b'-'))
      (map-stamp (replaced b' ' b'_') (λ d h. ground arith) b' ' b':' t ok_time refl refl)
    ∙ map-stamp (replaced b':' b'-') (λ d h. ground arith) b'_' b':' t ok_time refl refl

-- The numbers at the places of the fields.
unfoldable pub fields : Bytes → List ℕ
unfolding digits_value
fields s =
    digits_value 0 (take 4 s)
    ∷ digits_value 0 (take 2 (drop 5 s))
    ∷ digits_value 0 (take 2 (drop 8 s))
    ∷ digits_value 0 (take 2 (drop 11 s))
    ∷ digits_value 0 (take 2 (drop 14 s))
    ∷ digits_value 0 (take 2 (drop 17 s))
    ∷ digits_value 0 (take 3 (drop 20 s))
    ∷ []

abbrev pub numbers : LocalTime → List ℕ
numbers t = t.year ∷ t.month ∷ t.day ∷ t.hour ∷ t.minute ∷ t.second ∷ t.usec / 1000 ∷ []

fields-stamp : (blank colon : ℕ) (t : LocalTime) → fields (stamp blank colon t) ≡ numbers t
unfolding fields digits_value
fields-stamp blank colon t =
    let y = value_four t.year in
    let mo = value_two t.month in
    let d = value_two t.day in
    let h = value_two t.hour in
    let mi = value_two t.minute in
    let s = value_two t.second in
    let ms = value_three (t.usec / 1000) in rw (y, mo, d, h, mi, s, ms) refl

-- In a year of four digits, the fields of the local time, down to the milliseconds, stand at fixed
-- places of what `current_time` writes, in the form for a path too.
pub fields-current_time :
    (path : Bool) (t : LocalTime) → IsTime t → fields (current_time path t) ≡ numbers t
unfolding current_time
fields-current_time false t ok_time =
    ap fields (date_text-stamp t ok_time) ∙ fields-stamp b' ' b':' t
fields-current_time true t ok_time =
    ap fields (ap path_form (date_text-stamp t ok_time) ∙ path_form-stamp t ok_time)
    ∙ fields-stamp b'_' b'-' t
