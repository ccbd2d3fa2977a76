-- ===== src/Http/Ends.antt =====
-- `parseRequest` over a text: how it ends, and what it accepts.
pub mod Loops
pub mod Sizes
pub mod Values
use lspt_evaluation.Common.{
  ℕ, zero, suc, ◌-◌, ◌≤◌, ◌<◌, ◌≡◌, refl, sym, ap, ◌∙◌, Bool, true, false, not, ◌||◌, inl, inr, [],
  ◌∷◌, Option, none, some, Bytes, arith, length, any, is_empty, all, take_while, drop_while,
  if◌then◌else◌, if_false, Bool-cases, Outcome, ok, out_of_range, empty_back, json_error, no_fuel,
  ◌>>=◌, length-append, take_while-append-drop_while,
}
use lspt_evaluation.Http.Delivery.{value, parse_request_text}
use lspt_evaluation.Http.Parser.{
  header_of, has_newline, on_header, on_line, on_more, parse_headers, parse_body, parse_rest,
  parse_request, accept_line, check_words, is_unknown,
}
use lspt_evaluation.Http.{Method, Headers, HttpRequest, string_to_method, set_header}
use lspt_evaluation.Stream.Cursor.{Cursor, skip, start, over_newline, text_reader}
use lspt_evaluation.Stream.{not_space, not_newline, pop_cr}
use lspt_evaluation.Text.{is_space}
use Loops.{
  Shorter, Ends, IsWord, Within, Standing, parse_headers-Ends, parse_body-Ends, next_word-Ends,
  next_line-Ends, if-Ends, >>=-Ends, has_next-Standing,
}

-- What a request that is accepted looks like.
pub record IsAccepted (r : HttpRequest) : Type 0 where
  pub known : is_unknown r.method ≡ false
  pub has_resource : is_empty r.resource ≡ false
  pub has_version : is_empty r.version ≡ false
  pub resource_word : IsWord r.resource
  pub version_word : IsWord r.version

abbrev pub Accepts : Option HttpRequest → Type 0
Accepts none = Unit
Accepts (some r) = IsAccepted r

parse_rest-Ends :
    (fuel n : ℕ) (m : Method) (resource version : Bytes) (c : Cursor)
    → Within n c
    → length c.ahead < fuel
    → is_unknown m ≡ false
    → is_empty resource ≡ false
    → is_empty version ≡ false
    → IsWord resource
    → IsWord version
    → Ends (λ r _. Accepts r) (parse_rest text_reader fuel m resource version c)
unfolding parse_rest
parse_rest-Ends fuel n m resource version c w h known p q a b =
    >>=-Ends (λ _ c'. Within n c') _ (parse_headers text_reader fuel [] c) _
      (parse_headers-Ends fuel n [] c w h)
      λ headers c1 w1.
        >>=-Ends (λ _ _. Unit {0}) _ (parse_body text_reader c1) _ (parse_body-Ends n c1 w1)
          λ body c2 _. record {
            known = known;
            has_resource = p;
            has_version = q;
            resource_word = a;
            version_word = b;
          }

pub ||-eq-false : (a b : Bool) → (a || b) ≡ false → (a ≡ false) × (b ≡ false)
||-eq-false false b h = (refl, h)
||-eq-false true b h = absurd cc

module _ (fuel n : ℕ) (m : Method) (resource version : Bytes) (res : IsWord resource)
    (ver : IsWord version) where
  accept_line-Ends :
      (line : Bytes) (c : Cursor)
      → Within n c
      → n < fuel
      → is_empty resource ≡ false
      → is_empty version ≡ false
      → Ends (λ r _. Accepts r) (accept_line text_reader fuel m resource version line c)
  unfolding accept_line
  accept_line-Ends line c w h p q =
      let stray = any (λ x. not (is_space x)) line in
      if-Ends (λ r _. Accepts r) (stray || is_unknown m) (ok (none, c))
        (parse_rest text_reader fuel m resource version c) (λ _. tt {0})
        λ valid.
          parse_rest-Ends fuel n m resource version c w (omega (arith, w.bounded))
            (||-eq-false stray (is_unknown m) valid).1 p q res ver

  check_words-Ends :
      (c : Cursor)
      → Standing n c
      → n < fuel
      → Ends (λ r _. Accepts r) (check_words text_reader fuel m resource version c)
  unfolding check_words
  check_words-Ends c s h =
      let split = has_newline (text_reader.passed_buffer c) in
      if-Ends (λ r _. Accepts r) (split || (is_empty resource || is_empty version)) (ok (none, c))
        (text_reader.next_line false c >>= λ r.
          accept_line text_reader fuel m resource version r.0 r.1)
        (λ _. tt {0})
        λ complete.
          let full = (||-eq-false split _ complete).1 in
          let (p, q) = ||-eq-false (is_empty resource) (is_empty version) full in
          >>=-Ends (λ _ c'. Within n c' × Shorter c c') (λ r _. Accepts r)
            (text_reader.next_line false c)
            (λ r. accept_line text_reader fuel m resource version r.0 r.1) (next_line-Ends n c s)
            λ line c' (w, _). accept_line-Ends line c' w h p q

pub parse_request-Ends :
    (fuel : ℕ) (t : Bytes)
    → length t < fuel
    → Ends (λ r _. Accepts r) (parse_request text_reader fuel (start t))
unfolding parse_request start
parse_request-Ends fuel t h =
    let n = length t in
    >>=-Ends (λ w c'. IsWord w × Standing n c') _ (text_reader.next_word (start t)) _
      (next_word-Ends n _ (record { inside = refl; bounded = omega arith }))
      λ word c1 (_, s1).
        >>=-Ends (λ w c'. IsWord w × Standing n c') _ (text_reader.next_word c1) _
          (next_word-Ends n c1 s1)
          λ resource c2 (res, s2).
            >>=-Ends (λ w c'. IsWord w × Standing n c') _ (text_reader.next_word c2) _
              (next_word-Ends n c2 s2)
              λ version c3 (ver, s3).
                check_words-Ends fuel n (string_to_method word) resource version res ver c3 s3 h

-- How the parser ends over a text: with no request, with an accepted one, or at an empty line.
pub data Ending : Outcome (Option HttpRequest) → Type 0 where
  rejected : Ending (ok none)
  accepted : (r : HttpRequest) → IsAccepted r → Ending (ok (some r))
  at_empty_line : Ending empty_back

ending : (m : Outcome (Option HttpRequest × Cursor)) → Ends (λ r _. Accepts r) m → Ending (value m)
ending (ok (none, c)) h = rejected
ending (ok (some r, c)) h = accepted r h
ending out_of_range h = absurd h
ending empty_back h = at_empty_line
ending json_error h = absurd h
ending no_fuel h = absurd h

-- `parseRequest` ends on every text, with fuel above its length: it rejects the text, or accepts a
-- request with a known method and a resource and a version that are words, or calls `back()` on an
-- empty line; it never leaves the bounds of a string.
pub parse_request_text-Ending :
    (fuel : ℕ) (t : Bytes) → length t < fuel → Ending (parse_request_text fuel t)
unfolding parse_request_text
parse_request_text-Ending fuel t h = ending _ (parse_request-Ends fuel t h)
