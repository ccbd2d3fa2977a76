-- ===== src/Http/RoundTrip.antt =====
-- A request that was written by `to_string` and read back by `parseRequest`.
mod Body
use lspt_evaluation.Common.{
  ℕ, zero, suc, ◌<◌, ◌≡◌, refl, sym, ap, ◌∙◌, Bool, true, false, not, ◌||◌, ◌&&◌, ◌⊎◌, inl, inr, [],
  ◌∷◌, ◌++◌, map, Option, some, Bytes, arith, length, all, any, is_empty, drop, take-append,
  drop_while, Outcome, ok, ◌>>=◌, ◌==◌,
}
use lspt_evaluation.Http.Delivery.{value, parse_request_text}
use lspt_evaluation.Http.Parser.{
  header_of, has_newline, on_header, on_line, on_more, parse_headers, parse_body, parse_rest,
  parse_request, check_words, accept_line, is_unknown,
}
use lspt_evaluation.Http.{
  Method, get, head, post, put, delete, connect, options, trace, patch, unknown, Headers,
  HttpRequest, string_to_method, method_to_string, set_header, request_to_string, header_lines,
}
use lspt_evaluation.Stream.Cursor.{Cursor, start, text_reader, next_word, next_line}
use lspt_evaluation.Stream.Reads.{cursor, next_word-cursor, next_line-cursor, any-append, visible}
use lspt_evaluation.Stream.{not_space, not_newline}
use lspt_evaluation.Text.{is_space, to_lower, find}
use mathlib.Core.List.{append_assoc}
use Body.{header_lines-cons, header_lines-nil}
pub use Body.{parse_tail, IsHeader, AreHeaders, received, name_byte}

pub record IsSendable (r : HttpRequest) : Type 0 where
  pub known : is_unknown r.method ≡ false
  pub resource_word : all not_space r.resource ≡ true
  pub resource_ne : is_empty r.resource ≡ false
  pub version_word : all not_space r.version ≡ true
  pub version_ne : is_empty r.version ≡ false
  pub headers_fit : AreHeaders r.headers
  pub body_visible : (r.body ≡ []) ⊎ (any not_space r.body ≡ true)

-- `stringToMethod` reads every method back that `methodToString` writes.
pub string_to_method-to_string : (m : Method) → string_to_method (method_to_string m) ≡ m
unfolding string_to_method method_to_string
string_to_method-to_string get = refl
string_to_method-to_string head = refl
string_to_method-to_string post = refl
string_to_method-to_string put = refl
string_to_method-to_string delete = refl
string_to_method-to_string connect = refl
string_to_method-to_string options = refl
string_to_method-to_string trace = refl
string_to_method-to_string patch = refl
string_to_method-to_string unknown = refl

method_word :
    (m : Method)
    → (x : ℕ) × (w : Bytes) × (method_to_string m ≡ x ∷ w) × (all not_space (x ∷ w) ≡ true)
unfolding method_to_string
method_word get = (_, _, refl, refl)
method_word head = (_, _, refl, refl)
method_word post = (_, _, refl, refl)
method_word put = (_, _, refl, refl)
method_word delete = (_, _, refl, refl)
method_word connect = (_, _, refl, refl)
method_word options = (_, _, refl, refl)
method_word trace = (_, _, refl, refl)
method_word patch = (_, _, refl, refl)
method_word unknown = (_, _, refl, refl)

-- What a request becomes on its way.
abbrev pub delivered : HttpRequest → HttpRequest
delivered r = record r { headers = received [] r.headers }

parse_rest-tail :
    (fuel : ℕ) (m : Method) (resource version : Bytes) (hs : Headers) (body before : Bytes)
    → AreHeaders hs
    → (body ≡ []) ⊎ (any not_space body ≡ true)
    → length hs < fuel
    → value (parse_rest text_reader fuel m resource version (cursor before (header_lines hs body)))
      ≡ ok (
          some (record {
            method = m;
            resource = resource;
            version = version;
            headers = received [] hs;
            body = body;
          }))
unfolding parse_rest
parse_rest-tail fuel m resource version hs body before fit visible_body h =
    let (c, run, body_is) = parse_tail fuel [] hs body before fit visible_body h in
    ap (λ out. value (out >>= k)) run ∙ with_body (parse_body text_reader c) body_is
  where
    made : Headers → Bytes → HttpRequest
    made headers b = record {
      method = m;
      resource = resource;
      version = version;
      headers = headers;
      body = b;
    }

    k : Headers × Cursor → Outcome (Option HttpRequest × Cursor)
    k r = parse_body text_reader r.1 >>= λ b. ok (some (made r.0 b.0), b.1)

    with_body :
        (out : Outcome (Bytes × Cursor))
        → value out ≡ ok body
        → value (out >>= λ b. ok (some (made (received [] hs) b.0), b.1))
          ≡ ok (some (made (received [] hs) body))
    with_body (ok (b, c)) e = ap (λ o. o >>= λ x. ok (some (made (received [] hs) x))) e
    with_body out e = cc

word_has_no_newline : (w : Bytes) → all not_space w ≡ true → has_newline w ≡ false
unfolding has_newline
word_has_no_newline [] h = refl
word_has_no_newline (x ∷ w) h = ground (arith, word_has_no_newline w)

has_newline-append :
    (a b : Bytes) → has_newline a ≡ false → has_newline b ≡ false → has_newline (a ++ b) ≡ false
unfolding has_newline
has_newline-append a b h k = rw (any-append (λ c. c == b'\n') a b, h, k)

one_blank : has_newline (32 ∷ []) ≡ false
unfolding has_newline
one_blank = refl

three_words :
    (a b c : Bytes)
    → all not_space a ≡ true
    → all not_space b ≡ true
    → all not_space c ≡ true
    → has_newline ((((a ++ 32 ∷ []) ++ b) ++ 32 ∷ []) ++ c) ≡ false
three_words a b c h k l =
    let blank : has_newline (32 ∷ []) ≡ false = one_blank in
    has_newline-append _ c
      (has_newline-append _ (32 ∷ [])
        (has_newline-append _ b (has_newline-append a (32 ∷ []) (word_has_no_newline a h) blank)
          (word_has_no_newline b k))
        blank)
      (word_has_no_newline c l)

check_words-cursor :
    (fuel : ℕ) (m : Method) (y : ℕ) (u : Bytes) (z : ℕ) (v : Bytes) (hs : Headers)
    (body before : Bytes)
    → has_newline before ≡ false
    → is_unknown m ≡ false
    → AreHeaders hs
    → (body ≡ []) ⊎ (any not_space body ≡ true)
    → length hs < fuel
    → value (
        check_words text_reader fuel m
          (y ∷ u)
          (z ∷ v)
          (cursor before (b'\r' ∷ b'\n' ∷ header_lines hs body)))
      ≡ ok (
          some (record {
            method = m;
            resource = y ∷ u;
            version = z ∷ v;
            headers = received [] hs;
            body = body;
          }))
unfolding check_words accept_line text_reader
check_words-cursor fuel m y u z v hs body before n known fit visible_body h =
    let (b, run) = next_line-cursor before [] (header_lines hs body) refl in
    rw n (
      ap (λ out. value (out >>= λ r. accept_line text_reader fuel m (y ∷ u) (z ∷ v) r.0 r.1)) run
      ∙ rw known (parse_rest-tail fuel m (y ∷ u) (z ∷ v) hs body b fit visible_body h))

-- The three words of the first line, and all that follows it.
parse_words :
    (fuel : ℕ) (x : ℕ) (w : Bytes) (y : ℕ) (u : Bytes) (z : ℕ) (v : Bytes) (tail : Bytes)
    → all not_space (x ∷ w) ≡ true
    → all not_space (y ∷ u) ≡ true
    → all not_space (z ∷ v) ≡ true
    → (before : Bytes) × (has_newline before ≡ false)
      × (parse_request text_reader fuel
            (start ((x ∷ w) ++ (32 ∷ ((y ∷ u) ++ (32 ∷ ((z ∷ v) ++ (b'\r' ∷ tail)))))))
          ≡ check_words text_reader fuel
              (string_to_method (x ∷ w))
              (y ∷ u)
              (z ∷ v)
              (cursor before (b'\r' ∷ tail)))
unfolding parse_request start text_reader
parse_words fuel x w y u z v tail a b c =
    let b1 = x ∷ w in
    let b2 = (b1 ++ 32 ∷ []) ++ y ∷ u in
    let b3 = (b2 ++ 32 ∷ []) ++ z ∷ v in
    let run1 =
      next_word-cursor [] [] x w 32 ((y ∷ u) ++ (32 ∷ ((z ∷ v) ++ (b'\r' ∷ tail)))) refl a refl in
    let run2 = next_word-cursor b1 (32 ∷ []) y u 32 ((z ∷ v) ++ (b'\r' ∷ tail)) refl b refl in
    let run3 = next_word-cursor b2 (32 ∷ []) z v b'\r' tail refl c refl in
    let m = string_to_method (x ∷ w) in
    let last = λ (res : Bytes) (q : Bytes × Cursor). check_words text_reader fuel m res q.0 q.1 in
    let second = λ (q : Bytes × Cursor). next_word q.1 >>= last q.0 in
    (
      b3,
      three_words (x ∷ w) (y ∷ u) (z ∷ v) a b c,
      ap
            (λ out. out >>= λ r. next_word r.1 >>= λ q. next_word q.1 >>= λ p.
              check_words text_reader fuel (string_to_method r.0) q.0 p.0 p.1)
            run1
          ∙ ap (λ out. out >>= second) run2
          ∙ ap (λ out. out >>= last (y ∷ u)) run3,
    )

pub nonempty : (w : Bytes) → is_empty w ≡ false → (x : ℕ) × (u : Bytes) × (w ≡ x ∷ u)
nonempty [] h = absurd cc
nonempty (x ∷ u) h = (x, u, refl)

-- What `to_string` writes of a request, `parseRequest` reads back as the same request but with its
-- header names in lower case and the last value of a name that is given twice, where the method is
-- known, resource and version are words, header lines hold no newline, names no colon, values
-- start with no white space, the body is empty or holds a visible byte, and the fuel is above the
-- number of headers.
pub parse_request-to_string :
    (fuel : ℕ) (r : HttpRequest)
    → IsSendable r
    → length r.headers < fuel
    → parse_request_text fuel (request_to_string r) ≡ ok (some (delivered r))
unfolding parse_request_text request_to_string
parse_request-to_string fuel r s h =
    let (x, w, method_is, a) = method_word r.method in
    let (y, u, resource_is) = nonempty r.resource s.resource_ne in
    let (z, v, version_is) = nonempty r.version s.version_ne in
    let tail = b'\n' ∷ header_lines r.headers r.body in
    let (before, n, run) =
      parse_words fuel x w y u z v tail a (rw resource_is at s.resource_word)
        (rw version_is at s.version_word) in
    let m : string_to_method (x ∷ w) ≡ r.method =
      rw (← method_is) (string_to_method-to_string r.method) in
    simp (method_is, resource_is, version_is)
      (ap (λ out. value out) run
        ∙ check_words-cursor fuel (string_to_method (x ∷ w)) y u z v r.headers r.body before n
            (rw m s.known) s.headers_fit s.body_visible h
        ∙ (λ i. ok (
            some (record {
              method = m i;
              resource = y ∷ u;
              version = z ∷ v;
              headers = received [] r.headers;
              body = r.body;
            }))))
