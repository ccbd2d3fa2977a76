-- ===== src/TimeUtil.antt =====
-- Code/evaluation/src/TimeUtil.h and TimeUtil.cpp. The local time that `gettimeofday` and
-- `localtime_r` give at a call is an argument.
pub mod Digits
pub mod Fields
pub mod Program
use lspt_evaluation.Common.{
  ℕ, zero, suc, ◌-◌, ◌/◌, Bool, true, false, [], ◌∷◌, ◌++◌, Option, none, some, Bytes, ◌==◌,
  if◌then◌else◌, length, map,
}
use lspt_evaluation.Logger.Lines.{replicate}
use lspt_evaluation.Text.Decimal.{to_string}

-- The fields of `tm`, with the year and the month as they are written, and `tv_usec`.
pub record LocalTime : Type 0 where
  pub year : ℕ
  pub month : ℕ
  pub day : ℕ
  pub hour : ℕ
  pub minute : ℕ
  pub second : ℕ
  pub usec : ℕ

-- A number with zeros in front, as `std::setw` with the fill '0', and `%m`, `%d`, `%H`, `%M`, `%S`
-- of `std::put_time` write it.
unfoldable pub padded : ℕ → ℕ → Bytes
padded width n = replicate (width - length (to_string n)) b'0' ++ to_string n

-- `%F %T`, a point, and the milliseconds.
unfoldable pub date_text : LocalTime → Bytes
unfolding padded
date_text t =
    padded 4 t.year
    ++ (b'-'
        ∷ (padded 2 t.month
            ++ (b'-'
                ∷ (padded 2 t.day
                    ++ (b' '
                        ∷ (padded 2 t.hour
                            ++ (b':'
                                ∷ (padded 2 t.minute
                                    ++ (b':'
                                        ∷ (padded 2 t.second
                                            ++ (b'.' ∷ padded 3 (t.usec / 1000))))))))))))

-- `std::ranges::replace`.
abbrev pub replaced : ℕ → ℕ → ℕ → ℕ
replaced old new c = if c == old then new else c

unfoldable pub replace : ℕ → ℕ → Bytes → Bytes
replace old new s = map (replaced old new) s

-- Both replacements for a path.
unfoldable pub path_form : Bytes → Bytes
unfolding replace
path_form s = replace b':' b'-' (replace b' ' b'_' s)

unfoldable pub current_time : Bool → LocalTime → Bytes
unfolding date_text path_form
current_time path t = if path then path_form (date_text t) else date_text t

-- `program_time`; the state is its static `time_str`, `none` before the first call.
abbrev pub time_str : Option Bytes → LocalTime → Bytes
time_str none t = current_time false t
time_str (some s) t = s

unfoldable pub program_time : Bool → LocalTime → Option Bytes → Bytes × Option Bytes
unfolding current_time
program_time path t kept = let s = time_str kept t in (if path then path_form s else s, some s)
