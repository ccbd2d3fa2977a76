-- ===== src/Http/ReplyEnds.antt =====
-- `parseResponse` over a text: how it ends, and what it accepts.
use lspt_evaluation.Common.{
  ℕ, ◌%◌, ◌<◌, ◌≡◌, refl, true, false, not, ◌||◌, [], Option, none, some, Bytes, arith, length,
  is_empty, Outcome, ok, out_of_range, empty_back, json_error, no_fuel, ◌==◌,
}
use lspt_evaluation.Http.Delivery.{value, parse_response_text}
use lspt_evaluation.Http.Ends.Loops.{
  Ends, IsWord, Within, Standing, >>=-Ends, if-Ends, next_word-Ends, next_line_behind-Ends,
  parse_headers-Ends, parse_body-Ends,
}
use lspt_evaluation.Http.Ends.{||-eq-false}
use lspt_evaluation.Http.Parser.{
  ends_at_newline, parse_headers, parse_body, parse_code, parse_response,
}
use lspt_evaluation.Http.{HttpResponse}
use lspt_evaluation.Stream.Cursor.{Cursor, start, text_reader}
use lspt_evaluation.Text.Decimal.{stoul}
use lspt_evaluation.Text.{uint_mod}

-- What a response that is accepted looks like.
pub record IsAcceptedReply (r : HttpResponse) : Type 0 where
  pub version_word : IsWord r.version
  pub has_version : is_empty r.version ≡ false
  pub code_positive : 0 < r.code
  pub code_fits : r.code < uint_mod
  pub has_status : is_empty r.status ≡ false

abbrev AcceptsReply : Option HttpResponse → Type 0
AcceptsReply none = Unit
AcceptsReply (some r) = IsAcceptedReply r

parse_code-Ends :
    (fuel n : ℕ) (version : Bytes) (number : Option ℕ) (c : Cursor)
    → IsWord version
    → Standing n c
    → n < fuel
    → Ends (λ r _. AcceptsReply r) (parse_code text_reader fuel version number c)
unfolding parse_code
parse_code-Ends fuel n version none c v s h = tt {0}
parse_code-Ends fuel n version (some k) c v s h =
    >>=-Ends (λ _ c'. Within n c') (λ r _. AcceptsReply r) (text_reader.next_line true c) _
      (next_line_behind-Ends n c s)
      λ status c1 w1.
        let split = not (ends_at_newline (text_reader.passed_buffer c1)) in
        if-Ends (λ r _. AcceptsReply r)
          (split || (is_empty version || (k % uint_mod == 0 || is_empty status))) (ok (none, c1)) _
          (λ _. tt {0})
          λ complete.
            let (has_version, rest) =
              ||-eq-false (is_empty version) _ (||-eq-false split _ complete).1 in
            let (code_ne, has_status) = ||-eq-false (k % uint_mod == 0) (is_empty status) rest in
            >>=-Ends (λ _ c'. Within n c') (λ r _. AcceptsReply r)
              (parse_headers text_reader fuel [] c1) _
              (parse_headers-Ends fuel n [] c1 w1 (omega (arith, w1.bounded)))
              λ headers c2 w2.
                >>=-Ends (λ _ _. Unit {0}) (λ r _. AcceptsReply r) (parse_body text_reader c2) _
                  (parse_body-Ends n c2 w2)
                  λ body c3 _. record {
                    version_word = v;
                    has_version = has_version;
                    code_positive = positive (k % uint_mod) code_ne;
                    code_fits = omega arith;
                    has_status = has_status;
                  }
  where
    positive : (x : ℕ) → (x == 0) ≡ false → 0 < x
    positive x e = ground arith

parse_response-Ends :
    (fuel : ℕ) (t : Bytes)
    → length t < fuel
    → Ends (λ r _. AcceptsReply r) (parse_response text_reader fuel (start t))
unfolding parse_response start
parse_response-Ends fuel t h =
    let n = length t in
    >>=-Ends (λ w c'. IsWord w × Standing n c') (λ r _. AcceptsReply r)
      (text_reader.next_word (start t)) _
      (next_word-Ends n (start t) (record { inside = refl; bounded = omega arith }))
      λ version c1 (v, s1).
        >>=-Ends (λ w c'. IsWord w × Standing n c') (λ r _. AcceptsReply r)
          (text_reader.next_word c1) _ (next_word-Ends n c1 s1)
          λ word c2 (_, s2). parse_code-Ends fuel n version (stoul word) c2 v s2 h

-- How the parser ends over a text: with no response, with an accepted one, or at an empty line.
pub data ReplyEnding : Outcome (Option HttpResponse) → Type 0 where
  rejected : ReplyEnding (ok none)
  accepted : (r : HttpResponse) → IsAcceptedReply r → ReplyEnding (ok (some r))
  at_empty_line : ReplyEnding empty_back

-- `parseResponse` ends on every text, with fuel above its length: it rejects the text, or accepts
-- a response whose version is a word, whose code is neither 0 nor above 32 bits and whose status
-- is not empty, or calls `back()` on an empty line; it never leaves the bounds of a string.
pub parse_response_text-ReplyEnding :
    (fuel : ℕ) (t : Bytes) → length t < fuel → ReplyEnding (parse_response_text fuel t)
unfolding parse_response_text
parse_response_text-ReplyEnding fuel t h =
    ending (parse_response text_reader fuel (start t)) (parse_response-Ends fuel t h)
  where
    ending :
        (m : Outcome (Option HttpResponse × Cursor))
        → Ends (λ r _. AcceptsReply r) m
        → ReplyEnding (value m)
    ending (ok (none, c)) e = rejected
    ending (ok (some r, c)) e = accepted r e
    ending out_of_range e = absurd e
    ending empty_back e = at_empty_line
    ending json_error e = absurd e
    ending no_fuel e = absurd e
