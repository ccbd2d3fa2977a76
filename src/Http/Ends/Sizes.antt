-- ===== src/Http/Ends/Sizes.antt =====
-- The parts of a request that `parseRequest` gives over a text are no longer than the text.
use lspt_evaluation.Common.{
  ℕ, zero, suc, ◌≤◌, ◌≡◌, subst, Bool, true, false, not, [], ◌∷◌, Option, none, some, Bytes, arith,
  length, is_empty, take_while, drop_while, Outcome, ok, Leaves, leaves, at_out_of_range,
  at_empty_back, at_json_error, at_no_fuel, >>=-Leaves, if-Leaves,
}
use lspt_evaluation.Http.Delivery.{value, parse_request_text}
use lspt_evaluation.Http.Ends.Loops.{length-drop_while}
use lspt_evaluation.Http.Parser.{
  header_of, on_header, on_line, on_more, parse_headers, parse_body, parse_rest, parse_request,
  accept_line, check_words,
}
use lspt_evaluation.Http.{Method, Headers, HttpRequest, set_header, get_header}
use lspt_evaluation.Stream.Cursor.{Cursor, skip, start, over_newline, text_reader}
use lspt_evaluation.Stream.{not_space, not_newline, pop_cr}
use lspt_evaluation.Text.{is_space}
use lspt_evaluation.Http.Ends.Values.{
  ShortValues, set_header-ShortValues, get_header-ShortValues, length-take_while, length-chomp,
  ShortHeader, header_of-ShortHeader,
}

-- At most `n` bytes are ahead.
abbrev Fits : ℕ → Cursor → Type 0
Fits n c = length c.ahead ≤ n

module _ (n : ℕ) where
  next_word-Leaves :
      (c : Cursor)
      → Fits n c
      → Leaves (λ (q : Bytes × Cursor). Fits n q.1) (text_reader.next_word c)
  unfolding text_reader
  next_word-Leaves c h = if-Leaves _ c.past at_out_of_range (
      leaves _ (
        omega (
          arith,
          h,
          length-drop_while not_space (drop_while is_space c.ahead),
          length-drop_while is_space c.ahead,
        )))

  over_newline-Fits :
      (c : Cursor) (xs : Bytes) → Fits n c → length xs ≤ n → Fits n (over_newline c xs)
  unfolding over_newline
  over_newline-Fits c [] h k = h
  over_newline-Fits c (x ∷ r) h k = omega arith

  pop_cr-Leaves : (w : Bytes) → length w ≤ n → Leaves (λ (l : Bytes). length l ≤ n) (pop_cr w)
  unfolding pop_cr
  pop_cr-Leaves [] h = at_empty_back
  pop_cr-Leaves (x ∷ r) h = leaves _ (omega (arith, h, length-chomp (x ∷ r)))

  next_line-Leaves :
      (c : Cursor)
      → Fits n c
      → Leaves
          (λ (q : Bytes × Cursor). (length q.0 ≤ n) × Fits n q.1)
          (text_reader.next_line false c)
  unfolding text_reader
  next_line-Leaves c h =
      let c2 = skip not_newline c in
      let ahead : length c2.ahead ≤ n = omega (arith, h, length-drop_while not_newline c.ahead) in
      if-Leaves _ c.past at_out_of_range (
        >>=-Leaves (λ (l : Bytes). length l ≤ n)
          (λ (q : Bytes × Cursor). (length q.0 ≤ n) × Fits n q.1)
          (pop_cr-Leaves (take_while not_newline c.ahead)
            (omega (arith, h, length-take_while not_newline c.ahead)))
          (λ l k. leaves _ (k, over_newline-Fits c2 c2.ahead ahead ahead)))

  abbrev HeadersFit : Headers × Cursor → Type 0
  HeadersFit q = ShortValues n q.0 × Fits n q.1

  module _ (again : Headers → Cursor → Outcome (Headers × Cursor))
      (next : (hs : Headers) (c : Cursor)
        → ShortValues n hs
        → Fits n c
        → Leaves HeadersFit (again hs c)) where
    on_line-Leaves :
        (hs : Headers) (line : Bytes) (c : Cursor)
        → ShortValues n hs
        → length line ≤ n
        → Fits n c
        → Leaves HeadersFit (on_line text_reader again hs line c)
    unfolding on_line
    on_line-Leaves hs [] c a l h = leaves _ (a, h)
    on_line-Leaves hs (x ∷ line) c a l h =
        found (header_of (x ∷ line)) (header_of-ShortHeader (x ∷ line))
      where
        found :
            (o : Option (Bytes × Bytes))
            → ShortHeader (length (x ∷ line)) o
            → Leaves HeadersFit (on_header text_reader again hs o c)
        found none s = leaves _ (a, h)
        found (some (k, v)) s =
            next (set_header k v hs) c (set_header-ShortValues n k v hs (omega arith) a) h

    on_more-Leaves :
        (hs : Headers) (more : Bool) (c : Cursor)
        → ShortValues n hs
        → Fits n c
        → Leaves HeadersFit (on_more text_reader again hs more c)
    unfolding on_more
    on_more-Leaves hs false c a h = leaves _ (a, h)
    on_more-Leaves hs true c a h =
        >>=-Leaves _ HeadersFit (next_line-Leaves c h) (λ q (l, k). on_line-Leaves hs q.0 q.1 a l k)

  parse_headers-Leaves :
      (f : ℕ) (hs : Headers) (c : Cursor)
      → ShortValues n hs
      → Fits n c
      → Leaves HeadersFit (parse_headers text_reader f hs c)
  unfolding parse_headers text_reader
  parse_headers-Leaves zero hs c a h = at_no_fuel
  parse_headers-Leaves (suc f) hs c a h =
      on_more-Leaves (parse_headers text_reader f)
        (λ hs' c' a' h'. parse_headers-Leaves f hs' c' a' h') hs _ c a h

  parse_body-Leaves :
      (c : Cursor)
      → Fits n c
      → Leaves (λ (q : Bytes × Cursor). length q.0 ≤ n) (parse_body text_reader c)
  unfolding parse_body text_reader
  parse_body-Leaves c h =
      if-Leaves _ (not (is_empty (drop_while is_space c.ahead)))
        (if-Leaves _ c.past at_out_of_range (leaves _ h)) (leaves _ (omega arith))

  -- What is kept of an accepted request.
  abbrev pub IsSmall : Option HttpRequest → Type 0
  IsSmall none = Unit {0}
  IsSmall (some r) =
      (length r.body ≤ n) × ((k v : Bytes) → get_header k r.headers ≡ some v → length v ≤ n)

  parse_rest-Leaves :
      (fuel : ℕ) (m : Method) (resource version : Bytes) (c : Cursor)
      → Fits n c
      → Leaves
          (λ (q : Option HttpRequest × Cursor). IsSmall q.0)
          (parse_rest text_reader fuel m resource version c)
  unfolding parse_rest
  parse_rest-Leaves fuel m resource version c h =
      let Q = λ (q : Option HttpRequest × Cursor). IsSmall q.0 in
      >>=-Leaves HeadersFit Q (parse_headers-Leaves fuel [] c tt h) (λ q (a, h1).
        >>=-Leaves _ Q (parse_body-Leaves q.1 h1)
          (λ b s. leaves _ (s, λ k v e. get_header-ShortValues n k v q.0 a e)))

  pub parse_request-Leaves :
      (fuel : ℕ) (t : Bytes)
      → length t ≤ n
      → Leaves
          (λ (q : Option HttpRequest × Cursor). IsSmall q.0)
          (parse_request text_reader fuel (start t))
  unfolding parse_request start check_words accept_line
  parse_request-Leaves fuel t h =
      let Q = λ (q : Option HttpRequest × Cursor). IsSmall q.0 in
      >>=-Leaves _ Q (next_word-Leaves _ h) (λ a ha.
        >>=-Leaves _ Q (next_word-Leaves a.1 ha) (λ b hb.
          >>=-Leaves _ Q (next_word-Leaves b.1 hb) (λ c hc. if-Leaves Q _ (leaves _ tt) (
            >>=-Leaves _ Q (next_line-Leaves c.1 hc) (λ l (short, hl).
              if-Leaves Q _ (leaves _ tt) (parse_rest-Leaves fuel _ b.0 c.0 l.1 hl))))))

IsSmall-value :
    (n : ℕ) (m : Outcome (Option HttpRequest × Cursor)) (r : HttpRequest)
    → Leaves (λ (q : Option HttpRequest × Cursor). IsSmall n q.0) m
    → value m ≡ ok (some r)
    → IsSmall n (some r)
IsSmall-value n _ r (leaves (none, c) s) e = absurd cc
IsSmall-value n _ r (leaves (some q, c) s) e =
    let same : some q ≡ some r = cc in subst (IsSmall n) same s
IsSmall-value n _ r at_out_of_range e = absurd cc
IsSmall-value n _ r at_empty_back e = absurd cc
IsSmall-value n _ r at_json_error e = absurd cc
IsSmall-value n _ r at_no_fuel e = absurd cc

-- The body and every header value of a request that `parseRequest` accepts are no longer than the
-- text that it was read from.
pub parse_request_text-IsSmall :
    (fuel : ℕ) (t : Bytes) (r : HttpRequest)
    → parse_request_text fuel t ≡ ok (some r)
    → (length r.body ≤ length t)
      × ((k v : Bytes) → get_header k r.headers ≡ some v → length v ≤ length t)
unfolding parse_request_text
parse_request_text-IsSmall fuel t r e =
    IsSmall-value (length t) _ r (parse_request-Leaves (length t) fuel t (omega arith)) e
