-- ===== src/Http/Parser.antt =====
-- `HTTPWorker::parseRequest` and `parseResponse` of Code/evaluation/src/HTTPServer.cpp, over the
-- interface of the stream. The loop over the header lines takes fuel, above the number of lines.
use lspt_evaluation.Common.{
  ℕ, zero, suc, ◌%◌, Bool, true, false, not, ◌||◌, [], ◌∷◌, Option, none, some, map, Bytes, ◌==◌,
  if◌then◌else◌, length, take, drop, drop_while, any, is_empty, Outcome, ok, no_fuel, ◌>>=◌,
}
use lspt_evaluation.Http.{
  Method, unknown, string_to_method, Headers, set_header, HttpRequest, HttpResponse,
}
use lspt_evaluation.Reader.{Reader}
use lspt_evaluation.Text.{is_space, to_lower, find, uint_mod}
use lspt_evaluation.Text.Decimal.{stoul}
use mathlib.Core.Option

-- A header line: the name in lower case, and the value from its first visible byte on.
unfoldable pub header_of : Bytes → Option (Bytes × Bytes)
header_of line =
    Option.map
      (λ delim_pos.
        (map to_lower (take delim_pos line), drop_while is_space (drop (suc delim_pos) line)))
      (find b':' line)

abbrev pub is_unknown : Method → Bool
is_unknown unknown = true
is_unknown _ = false

-- `find('\n') != std::string::npos`, and `find('\n') != length() - 1`: an empty text has no newline,
-- and its length less one is `npos`.
unfoldable pub has_newline : Bytes → Bool
has_newline = any (λ c. c == b'\n')

unfoldable pub ends_at_newline : Bytes → Bool
ends_at_newline [] = true
ends_at_newline (x ∷ xs) = elim (find b'\n' (x ∷ xs)) [ none ↦ false | some i ↦ i == length xs ]

module _ {S : Type 0} (rd : Reader S) where
  -- The body of the loop over the header lines, behind `hasNext`, `nextLine` and `find`; `again` is
  -- the next round, and a line without a colon or an empty one ends the loop.
  unfoldable pub on_header :
      (Headers → S → Outcome (Headers × S))
      → Headers
      → Option (Bytes × Bytes)
      → S
      → Outcome (Headers × S)
  on_header again hs none s = ok (hs, s)
  on_header again hs (some (k, v)) s = again (set_header k v hs) s

  unfoldable pub on_line :
      (Headers → S → Outcome (Headers × S)) → Headers → Bytes → S → Outcome (Headers × S)
  unfolding on_header
  on_line again hs [] s = ok (hs, s)
  on_line again hs (x ∷ line) s = on_header again hs (header_of (x ∷ line)) s

  unfoldable pub on_more :
      (Headers → S → Outcome (Headers × S)) → Headers → Bool → S → Outcome (Headers × S)
  unfolding on_line
  on_more again hs false s = ok (hs, s)
  on_more again hs true s = do (line, s') ← rd.next_line false s; on_line again hs line s'

  -- `while (ss.hasNext() && !(line = ss.nextLine()).empty())`
  unfoldable pub parse_headers : ℕ → Headers → S → Outcome (Headers × S)
  unfolding on_more
  parse_headers zero hs s = no_fuel
  parse_headers (suc f) hs s = do (more, s') ← rd.has_next s; on_more (parse_headers f) hs more s'

  -- `if (ss.hasNext()) { body = ss.remaining(); }`
  unfoldable pub parse_body : S → Outcome (Bytes × S)
  parse_body s = do (more, s1) ← rd.has_next s; if more then rd.remaining s1 else ok ([], s1)

  -- Headers and body, behind the first line of a request.
  unfoldable pub parse_rest : ℕ → Method → Bytes → Bytes → S → Outcome (Option HttpRequest × S)
  unfolding parse_headers parse_body
  parse_rest fuel method resource version s = do
    (headers, s1) ← parse_headers fuel [] s
    (body, s2) ← parse_body s1
    ok (
      some (record {
        method = method;
        resource = resource;
        version = version;
        headers = headers;
        body = body;
      }),
      s2,
    )

  -- What is left of the first line has to be white space, and the method known.
  unfoldable pub accept_line :
      ℕ → Method → Bytes → Bytes → Bytes → S → Outcome (Option HttpRequest × S)
  unfolding parse_rest
  accept_line fuel method resource version line s =
      if any (λ c. not (is_space c)) line || is_unknown method
      then ok (none, s)
      else parse_rest fuel method resource version s

  -- The first line has to hold all three words.
  unfoldable pub check_words : ℕ → Method → Bytes → Bytes → S → Outcome (Option HttpRequest × S)
  unfolding accept_line has_newline
  check_words fuel method resource version s =
      if has_newline (rd.passed_buffer s) || (is_empty resource || is_empty version)
      then ok (none, s)
      else (do (line, s') ← rd.next_line false s; accept_line fuel method resource version line s')

  unfoldable pub parse_request : ℕ → S → Outcome (Option HttpRequest × S)
  unfolding check_words
  parse_request fuel s = do
    (word, s1) ← rd.next_word s
    (resource, s2) ← rd.next_word s1
    (version, s3) ← rd.next_word s2
    check_words fuel (string_to_method word) resource version s3

  -- `unsigned int code = std::stoul(…)`, whose exception is caught.
  unfoldable pub parse_code : ℕ → Bytes → Option ℕ → S → Outcome (Option HttpResponse × S)
  unfolding parse_headers parse_body ends_at_newline
  parse_code fuel version none s = ok (none, s)
  parse_code fuel version (some n) s = do
    (status, s1) ← rd.next_line true s
    if not (ends_at_newline (rd.passed_buffer s1))
          || (is_empty version || (n % uint_mod == 0 || is_empty status))
        then ok (none, s1)
        else (do
          (headers, s2) ← parse_headers fuel [] s1
          (body, s3) ← parse_body s2
          ok (
            some (record {
              version = version;
              code = n % uint_mod;
              status = status;
              headers = headers;
              body = body;
            }),
            s3,
          ))

  unfoldable pub parse_response : ℕ → S → Outcome (Option HttpResponse × S)
  unfolding parse_code
  parse_response fuel s = do
    (version, s1) ← rd.next_word s
    (word, s2) ← rd.next_word s1
    parse_code fuel version (stoul word) s2
