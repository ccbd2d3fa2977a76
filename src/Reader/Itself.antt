-- ===== src/Reader/Itself.antt =====
-- A reader beside itself: what a parser keeps of its states.
use lspt_evaluation.Common.{
  ◌≡◌, refl, ap, subst, Outcome, ok, out_of_range, empty_back, json_error, no_fuel, Leaves, leaves,
  at_out_of_range, at_empty_back, at_json_error, at_no_fuel,
}
use lspt_evaluation.Reader.Simulates.{
  Agrees, Simulates, agree, out_of_range_both, empty_back_both, json_error_both, no_fuel_both,
}
use lspt_evaluation.Reader.{Reader}

abbrev Same : {S A : Type 0} → Outcome (A × S) → Outcome (A × S) → Type 0
Same {S} m n = Agrees (λ (s t : S). s ≡ t) m n

Same-refl : {S A : Type 0} (m : Outcome (A × S)) → Same m m
Same-refl (ok (a, s)) = agree refl
Same-refl out_of_range = out_of_range_both
Same-refl empty_back = empty_back_both
Same-refl json_error = json_error_both
Same-refl no_fuel = no_fuel_both

Same-ap : {S A : Type 0} (f : S → Outcome (A × S)) (s t : S) → s ≡ t → Same (f s) (f t)
Same-ap f s t e = subst (λ u. Same (f s) (f u)) e (Same-refl (f s))

pub Simulates-refl : {S : Type 0} (rd : Reader S) → Simulates (λ (s t : S). s ≡ t) rd rd
Simulates-refl rd = record {
  has_next = Same-ap rd.has_next;
  next_word = Same-ap rd.next_word;
  next_line = λ b. Same-ap (rd.next_line b);
  remaining = Same-ap rd.remaining;
  passed_buffer = λ s t e. ap rd.passed_buffer e;
}

-- What the relation of two calls says of the right states holds of those of the left call.
pub Agrees-Leaves :
    {S A : Type 0} (P : S → Type 0) {m : Outcome (A × S)}
    → Agrees (λ (s t : S). (s ≡ t) × P s) m m
    → Leaves (λ (q : A × S). P q.1) m
Agrees-Leaves {S} {A} P h = go h
  where
    go :
        {m n : Outcome (A × S)}
        → Agrees (λ (s t : S). (s ≡ t) × P s) m n
        → Leaves (λ (q : A × S). P q.1) m
    go (agree {a} {s} r) = leaves (a, s) r.1
    go out_of_range_both = at_out_of_range
    go empty_back_both = at_empty_back
    go json_error_both = at_json_error
    go no_fuel_both = at_no_fuel
