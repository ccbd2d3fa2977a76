-- ===== src/Http/Reply.antt =====
-- A response that was written by `to_string` and read back by `parseResponse`.
use lspt_evaluation.Common.{
  ℕ, suc, ◌%◌, ◌<◌, ◌≡◌, refl, sym, ap, ◌∙◌, Bool, true, false, not, ◌||◌, ◌⊎◌, [], ◌∷◌, ◌++◌,
  Option, none, some, Bytes, arith, length, length-append, all, any, is_empty, take_while_stop,
  Outcome, ok, ◌>>=◌, ◌==◌, if◌then◌else◌,
}
use lspt_evaluation.Http.Delivery.{value, parse_response_text}
use lspt_evaluation.Http.Parser.{
  ends_at_newline, parse_headers, parse_body, parse_code, parse_response,
}
use lspt_evaluation.Http.RoundTrip.{nonempty, AreHeaders, received, parse_tail}
use lspt_evaluation.Http.{Headers, HttpResponse, header_lines, response_to_string}
use lspt_evaluation.Stream.Cursor.{Cursor, start, text_reader, next_word, next_line, over_newline}
use lspt_evaluation.Stream.Reads.{cursor, next_word-cursor, pop_cr-concat, all-concat_cr}
use lspt_evaluation.Stream.{not_space, not_newline}
use lspt_evaluation.Text.Decimal.{is_digit, to_string, stoul}
use lspt_evaluation.Text.Decimal.RoundTrip.{to_string-digits, stoul-to_string}
use lspt_evaluation.Text.{is_space, find, uint_mod}
use mathlib.Core.List.{append_assoc}

abbrev pub starts_visible : Bytes → Bool
starts_visible [] = false
starts_visible (x ∷ xs) = not_space x

pub record IsReply (r : HttpResponse) : Type 0 where
  pub version_word : all not_space r.version ≡ true
  pub version_ne : is_empty r.version ≡ false
  pub code_positive : 0 < r.code
  pub code_fits : r.code < uint_mod
  pub status_line : all not_newline r.status ≡ true
  pub status_start : starts_visible r.status ≡ true
  pub headers_fit : AreHeaders r.headers
  pub body_visible : (r.body ≡ []) ⊎ (any not_space r.body ≡ true)

-- What a response becomes on its way.
abbrev pub replied : HttpResponse → HttpResponse
replied r = record r { headers = received [] r.headers }

all-append :
    (p : ℕ → Bool) (xs ys : Bytes) → all p xs ≡ true → all p ys ≡ true → all p (xs ++ ys) ≡ true
all-append p [] ys h k = k
all-append p (x ∷ xs) ys h k = ground (arith, all-append p xs ys)

word_line : (w : Bytes) → all not_space w ≡ true → all not_newline w ≡ true
word_line [] h = refl
word_line (x ∷ w) h = ground (arith, word_line w)

digits_word : (w : Bytes) → all is_digit w ≡ true → all not_space w ≡ true
digits_word [] h = refl
digits_word (x ∷ w) h = ground (arith, digits_word w)

find_newline :
    (p : Bytes) → all not_newline p ≡ true → find b'\n' (p ++ b'\n' ∷ []) ≡ some (length p)
unfolding find
find_newline [] h = refl
find_newline (x ∷ p) h = ground (arith, find_newline p)

ends_at_newline-append :
    (p : Bytes) → all not_newline p ≡ true → ends_at_newline (p ++ b'\n' ∷ []) ≡ true
unfolding ends_at_newline
ends_at_newline-append [] h = unfold find in refl
ends_at_newline-append (x ∷ p) h =
    let e = length-append p (b'\n' ∷ []) in
    let f : (suc (length p) == length (p ++ b'\n' ∷ [])) ≡ true = ground (arith, e) in
    ap (λ (o : Option ℕ). elim o [ none ↦ false | some i ↦ i == length (p ++ b'\n' ∷ []) ])
      (find_newline (x ∷ p) h)
    ∙ f

-- The rest of the first line, behind the blank.
status-cursor :
    (before l rest : Bytes)
    → all not_newline l ≡ true
    → starts_visible l ≡ true
    → next_line true (cursor before (32 ∷ (l ++ (b'\r' ∷ b'\n' ∷ rest))))
      ≡ ok (l, cursor (((before ++ 32 ∷ []) ++ (l ++ b'\r' ∷ [])) ++ b'\n' ∷ []) rest)
unfolding next_line over_newline
status-cursor before [] rest h s = absurd cc
status-cursor before (x ∷ l) rest h s =
    let seen : is_space x ≡ false = ground arith in
    let (t, d) =
      take_while_stop not_newline (x ∷ (l ++ b'\r' ∷ [])) b'\n' rest (all-concat_cr (x ∷ l) h)
        refl in
    let split : l ++ (b'\r' ∷ b'\n' ∷ rest) ≡ (l ++ b'\r' ∷ []) ++ b'\n' ∷ rest =
      sym (append_assoc l (b'\r' ∷ []) (b'\n' ∷ rest)) in
    rw split (rw seen (rw (t, d) (rw (pop_cr-concat (x ∷ l)))))

abbrev made : Bytes → Bytes → ℕ → Headers → Bytes → HttpResponse
made version status n headers body = record {
  version = version;
  code = n;
  status = status;
  headers = headers;
  body = body;
}

-- What follows a first line that is complete.
abbrev read_rest : Bytes → Bytes → ℕ → Headers × Cursor → Outcome (Option HttpResponse × Cursor)
read_rest version status n r = do
  (body, c) ← parse_body text_reader r.1
  ok (some (made version status n r.0 body), c)

abbrev check_line : ℕ → Bytes → ℕ → Bytes × Cursor → Outcome (Option HttpResponse × Cursor)
check_line fuel version n x =
    if not (ends_at_newline x.1.before) || (is_empty version || (n % uint_mod == 0 || is_empty x.0))
    then ok (none, x.1)
    else parse_headers text_reader fuel [] x.1 >>= read_rest version x.0 (n % uint_mod)

parse_code_lem :
    (fuel n : ℕ) (version : Bytes) (c : Cursor)
    → parse_code text_reader fuel version (some n) c
      ≡ (text_reader.next_line true c >>= check_line fuel version n)
unfolding parse_code
parse_code_lem fuel n version c = unfold text_reader in refl

-- The headers and the body behind a first line that is complete.
parse_code-cursor :
    (fuel n : ℕ) (z : ℕ) (v status : Bytes) (hs : Headers) (body before : Bytes)
    → all not_newline before ≡ true
    → 0 < n
    → n < uint_mod
    → all not_newline status ≡ true
    → starts_visible status ≡ true
    → AreHeaders hs
    → (body ≡ []) ⊎ (any not_space body ≡ true)
    → length hs < fuel
    → value (
        parse_code text_reader fuel
          (z ∷ v)
          (some n)
          (cursor before (32 ∷ (status ++ (b'\r' ∷ b'\n' ∷ header_lines hs body)))))
      ≡ ok (
          some (record {
            version = z ∷ v;
            code = n;
            status = status;
            headers = received [] hs;
            body = body;
          }))
unfolding text_reader
parse_code-cursor fuel n z v status hs body before clean positive small line seen fit visible_body
      h =
    let whole = (before ++ 32 ∷ []) ++ (status ++ b'\r' ∷ []) in
    let run = status-cursor before status (header_lines hs body) line seen in
    let clean2 =
      all-append not_newline (before ++ 32 ∷ []) (status ++ b'\r' ∷ [])
        (all-append not_newline before (32 ∷ []) clean refl) (all-concat_cr status line) in
    let ends = ends_at_newline-append whole clean2 in
    let (c, headers_are, body_is) =
      parse_tail fuel [] hs body (whole ++ b'\n' ∷ []) fit visible_body h in
    let same : n % uint_mod ≡ n = omega arith in
    let zero_no : (n == 0) ≡ false = ground arith in
    let full : is_empty status ≡ false = nonempty status seen in
    ap (λ out. value out)
      (parse_code_lem fuel n (z ∷ v)
        (cursor before (32 ∷ (status ++ (b'\r' ∷ b'\n' ∷ header_lines hs body)))))
    ∙ ap (λ out. value (out >>= check_line fuel (z ∷ v) n)) run
    ∙ rw (ends, same, zero_no, full)
        (ap (λ out. value (out >>= read_rest (z ∷ v) status n)) headers_are
          ∙ with_body (parse_body text_reader c) body_is)
  where
    nonempty : (s : Bytes) → starts_visible s ≡ true → is_empty s ≡ false
    nonempty [] e = absurd cc
    nonempty (x ∷ s) e = refl

    with_body :
        (out : Outcome (Bytes × Cursor))
        → value out ≡ ok body
        → value (out >>= λ b. ok (some (made (z ∷ v) status n (received [] hs) b.0), b.1))
          ≡ ok (some (made (z ∷ v) status n (received [] hs) body))
    with_body (ok (b, c)) e =
        ap (λ o. o >>= λ x. ok (some (made (z ∷ v) status n (received [] hs) x))) e
    with_body out e = cc

-- The two words of the first line.
parse_two :
    (fuel z : ℕ) (v : Bytes) (x : ℕ) (w tail : Bytes)
    → all not_space (z ∷ v) ≡ true
    → all not_space (x ∷ w) ≡ true
    → parse_response text_reader fuel (start ((z ∷ v) ++ (32 ∷ ((x ∷ w) ++ (32 ∷ tail)))))
      ≡ parse_code text_reader fuel
          (z ∷ v)
          (stoul (x ∷ w))
          (cursor (((z ∷ v) ++ 32 ∷ []) ++ x ∷ w) (32 ∷ tail))
unfolding parse_response start text_reader
parse_two fuel z v x w tail a b =
    let run1 = next_word-cursor [] [] z v 32 ((x ∷ w) ++ (32 ∷ tail)) refl a refl in
    let run2 = next_word-cursor (z ∷ v) (32 ∷ []) x w 32 tail refl b refl in
    ap (λ out. out >>= λ r. next_word r.1 >>= λ q. parse_code text_reader fuel r.0 (stoul q.0) q.1)
      run1
    ∙ ap (λ out. out >>= λ q. parse_code text_reader fuel (z ∷ v) (stoul q.0) q.1) run2

-- What `to_string` writes of a response, `parseResponse` reads back as the same response but with
-- its header names in lower case and the last value of a name that is given twice, where the
-- version is a word, the code is neither 0 nor above 32 bits, the status is one line that starts
-- with a visible byte, header lines hold no newline, names no colon, values start with no white
-- space, the body is empty or holds a visible byte, and the fuel is above the number of headers.
pub parse_response-to_string :
    (fuel : ℕ) (r : HttpResponse)
    → IsReply r
    → length r.headers < fuel
    → parse_response_text fuel (response_to_string r) ≡ ok (some (replied r))
unfolding parse_response_text response_to_string
parse_response-to_string fuel r s h =
    let (z, v, version_is) = nonempty r.version s.version_ne in
    let (digits, ne) = to_string-digits r.code in
    let (x, w, code_is) = nonempty (to_string r.code) ne in
    let tail = r.status ++ (b'\r' ∷ b'\n' ∷ header_lines r.headers r.body) in
    let version_word : all not_space (z ∷ v) ≡ true = rw version_is at s.version_word in
    let code_word : all not_space (x ∷ w) ≡ true =
      rw code_is at (digits_word (to_string r.code) digits) in
    let number : stoul (x ∷ w) ≡ some r.code =
      rw (← code_is) (stoul-to_string r.code (omega (arith, s.code_fits))) in
    let run = parse_two fuel z v x w tail version_word code_word in
    let clean =
      all-append not_newline ((z ∷ v) ++ 32 ∷ []) (x ∷ w)
        (all-append not_newline (z ∷ v) (32 ∷ []) (word_line (z ∷ v) version_word) refl)
        (word_line (x ∷ w) code_word) in
    let last =
      parse_code-cursor fuel r.code z v r.status r.headers r.body (((z ∷ v) ++ 32 ∷ []) ++ x ∷ w)
        clean s.code_positive s.code_fits s.status_line s.status_start s.headers_fit s.body_visible
        h in
    let number_is =
      ap
        (λ o.
          parse_code text_reader fuel (z ∷ v) o
            (cursor (((z ∷ v) ++ 32 ∷ []) ++ x ∷ w) (32 ∷ tail)))
        number in
    simp (version_is, code_is) (ap (λ out. value out) (run ∙ number_is) ∙ last)
