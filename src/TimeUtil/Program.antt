-- ===== src/TimeUtil/Program.antt =====
-- The form of a time for a path, and what `program_time` remembers.
use lspt_evaluation.Common.{
  ℕ, List, ◌≡◌, refl, Bool, true, not, ◌&&◌, [], ◌∷◌, Option, none, some, Bytes, arith, ◌==◌,
  if◌then◌else◌, all,
}
use lspt_evaluation.TimeUtil.{
  LocalTime, date_text, replaced, replace, path_form, current_time, program_time,
}

-- Neither a blank nor a colon.
abbrev pub in_path : ℕ → Bool
in_path c = not (c == b' ') && not (c == b':')

path_form-in_path : (s : Bytes) → all in_path (path_form s) ≡ true
unfolding path_form replace
path_form-in_path [] = refl
path_form-in_path (c ∷ s) = rw (byte c) (path_form-in_path s)
  where
    byte : (c : ℕ) → in_path (replaced b':' b'-' (replaced b' ' b'_' c)) ≡ true
    byte c = ground arith

-- Calls of `program_time`, each with its argument and the time it is made at.
unfoldable pub after_calls : List (Bool × LocalTime) → Option Bytes → Option Bytes
unfolding program_time
after_calls [] kept = kept
after_calls ((path, t) ∷ calls) kept = after_calls calls (program_time path t kept).1

after_calls-some :
    (calls : List (Bool × LocalTime)) (s : Bytes) → after_calls calls (some s) ≡ some s
unfolding after_calls
after_calls-some [] s = refl
after_calls-some ((path, t) ∷ calls) s = after_calls-some calls s

-- Whatever calls of `program_time` come between, a later call gives what `current_time` gave at
-- the first, in the form that this call asks for; the form for a path has no blank and no colon.
pub program_time-first :
    (path' : Bool) (first : LocalTime) (calls : List (Bool × LocalTime)) (path : Bool)
    (t : LocalTime)
    → ((program_time path t (after_calls ((path', first) ∷ calls) none)).0
        ≡ current_time path first)
      × (all in_path (program_time true t (after_calls ((path', first) ∷ calls) none)).0 ≡ true)
unfolding program_time after_calls current_time
program_time-first path' first calls path t =
    let kept = after_calls-some calls (date_text first) in
    rw kept (form path, path_form-in_path (date_text first))
  where
    form :
        (b : Bool)
        → (if b then path_form (date_text first) else date_text first)
          ≡ (if b then path_form (date_text first) else date_text first)
    form b = refl
