-- ===== src/Http/RoundTrip/Body.antt =====
-- The header lines and the body that `to_string` wrote, read back.
use lspt_evaluation.Common.{
  ℕ, zero, suc, ◌<◌, ◌≡◌, refl, sym, ap, ◌∙◌, Bool, true, false, not, ◌||◌, ◌&&◌, ◌⊎◌, inl, inr, [],
  ◌∷◌, ◌++◌, map, some, Bytes, arith, length, all, any, drop, take-append, drop_while, Outcome, ok,
  ◌>>=◌, ◌==◌,
}
use lspt_evaluation.Http.Delivery.{value}
use lspt_evaluation.Http.Parser.{header_of, on_header, on_line, on_more, parse_headers, parse_body}
use lspt_evaluation.Http.{Headers, set_header, header_lines}
use lspt_evaluation.Stream.Cursor.{Cursor, text_reader, next_line}
use lspt_evaluation.Stream.Reads.{cursor, next_line-cursor, visible}
use lspt_evaluation.Stream.{not_space, not_newline}
use lspt_evaluation.Text.{is_space, to_lower, find}
use mathlib.Core.List.{append_assoc}

-- A byte that a header's name may hold.
abbrev pub name_byte : ℕ → Bool
name_byte c = not (c == b':') && not_newline c

-- A header that survives: no colon in the name, no newline, and no white space before the value.
pub record IsHeader (name value : Bytes) : Type 0 where
  pub name_bytes : all name_byte name ≡ true
  pub value_bytes : all not_newline value ≡ true
  pub value_start : drop_while is_space value ≡ value

abbrev pub AreHeaders : Headers → Type 0
AreHeaders [] = Unit {0}
AreHeaders ((k, v) ∷ hs) = IsHeader k v × AreHeaders hs

-- What the server makes of header lines: each name in lower case, the last value of a name.
abbrev pub received : Headers → Headers → Headers
received acc [] = acc
received acc ((k, v) ∷ hs) = received (set_header (map to_lower k) v acc) hs

find-name :
    (k rest : Bytes) → all name_byte k ≡ true → find b':' (k ++ b':' ∷ rest) ≡ some (length k)
unfolding find
find-name [] rest h = refl
find-name (x ∷ k) rest h = ground (arith, find-name k rest)

line_bytes :
    (k v : Bytes)
    → all name_byte k ≡ true
    → all not_newline v ≡ true
    → all not_newline (k ++ (b':' ∷ 32 ∷ v)) ≡ true
line_bytes [] v h e = e
line_bytes (x ∷ k) v h e = ground (arith, line_bytes k v)

drop-suc : (k : Bytes) (x : ℕ) (rest : Bytes) → drop (suc (length k)) (k ++ x ∷ rest) ≡ rest
drop-suc [] x rest = refl
drop-suc (y ∷ k) x rest = drop-suc k x rest

header_of-line :
    (k v : Bytes) → IsHeader k v → header_of (k ++ (b':' ∷ 32 ∷ v)) ≡ some (map to_lower k, v)
unfolding header_of
header_of-line k v h =
    rw (find-name k (32 ∷ v) h.name_bytes)
      (rw (take-append k (b':' ∷ 32 ∷ v), drop-suc k b':' (32 ∷ v)) (rw h.value_start))

-- One header line: its bytes are read, and it is not taken for the blank line.
abbrev header_line : Bytes → Bytes → Bytes
header_line k v = k ++ (b':' ∷ 32 ∷ v)

pub header_lines-cons :
    (k v : Bytes) (hs : Headers) (body : Bytes)
    → header_lines ((k, v) ∷ hs) body ≡ header_line k v ++ (b'\r' ∷ b'\n' ∷ header_lines hs body)
unfolding header_lines
header_lines-cons k v hs body =
    sym (append_assoc k (b':' ∷ 32 ∷ v) (b'\r' ∷ b'\n' ∷ header_lines hs body))

pub header_lines-nil : (body : Bytes) → header_lines [] body ≡ b'\r' ∷ b'\n' ∷ body
unfolding header_lines
header_lines-nil body = refl

line_visible : (k v rest : Bytes) → any not_space (header_line k v ++ rest) ≡ true
line_visible [] v rest = refl
line_visible (x ∷ k) v rest = rw (line_visible k v rest) (or_true (not_space x))
  where
    or_true : (b : Bool) → b || true ≡ true
    or_true true = refl
    or_true false = refl

on_line-header :
    (again : Headers → Cursor → Outcome (Headers × Cursor)) (acc : Headers) (k v : Bytes)
    (c : Cursor)
    → IsHeader k v
    → on_line text_reader again acc (header_line k v) c
      ≡ again (set_header (map to_lower k) v acc) c
unfolding on_line on_header
on_line-header again acc [] v c h = rw (header_of-line [] v h)
on_line-header again acc (x ∷ k) v c h = rw (header_of-line (x ∷ k) v h)

on_line-blank :
    (again : Headers → Cursor → Outcome (Headers × Cursor)) (acc : Headers) (c : Cursor)
    → on_line text_reader again acc [] c ≡ ok (acc, c)
unfolding on_line
on_line-blank again acc c = refl

-- A round of the loop where something visible is ahead, and where nothing is.
round_on :
    (f : ℕ) (acc : Headers) (before ahead : Bytes)
    → any not_space ahead ≡ true
    → parse_headers text_reader (suc f) acc (cursor before ahead) ≡ (
        next_line false (cursor before ahead) >>= λ r.
        on_line text_reader (parse_headers text_reader f) acc r.0 r.1)
unfolding parse_headers text_reader
round_on f acc before ahead h =
    ap (λ more. on_more text_reader (parse_headers text_reader f) acc more (cursor before ahead))
      (visible ahead ∙ h)

round_off :
    (f : ℕ) (acc : Headers) (before ahead : Bytes)
    → any not_space ahead ≡ false
    → parse_headers text_reader (suc f) acc (cursor before ahead) ≡ ok (acc, cursor before ahead)
unfolding parse_headers text_reader
round_off f acc before ahead h =
    ap (λ more. on_more text_reader (parse_headers text_reader f) acc more (cursor before ahead))
      (visible ahead ∙ h)

body_on :
    (before body : Bytes)
    → any not_space body ≡ true
    → value (parse_body text_reader (cursor before body)) ≡ ok body
unfolding parse_body text_reader
body_on before body h = rw (visible body, h)

body_off :
    (before ahead : Bytes)
    → any not_space ahead ≡ false
    → value (parse_body text_reader (cursor before ahead)) ≡ ok []
unfolding parse_body text_reader
body_off before ahead h = rw (visible ahead, h)

-- The header lines, the blank line and the body, from any place.
pub parse_tail :
    (f : ℕ) (acc hs : Headers) (body before : Bytes)
    → AreHeaders hs
    → (body ≡ []) ⊎ (any not_space body ≡ true)
    → length hs < f
    → (c : Cursor) × (parse_headers text_reader f acc (cursor before (header_lines hs body))
        ≡ ok (received acc hs, c))
      × (value (parse_body text_reader c) ≡ ok body)
parse_tail zero acc hs body before fit visible_body h = elim h [ ]
parse_tail (suc f) acc [] body before fit (inl e) h = (
  cursor before (b'\r' ∷ b'\n' ∷ []),
  rw (header_lines-nil body, e) (round_off f acc before (b'\r' ∷ b'\n' ∷ []) refl),
  rw e (body_off before (b'\r' ∷ b'\n' ∷ []) refl),
)
parse_tail (suc f) acc [] body before fit (inr e) h =
    let (b, run) = next_line-cursor before [] body refl in
    (
      cursor b body,
      rw (header_lines-nil body) (
          round_on f acc before (b'\r' ∷ b'\n' ∷ body) e
          ∙ ap (λ m. m >>= λ r. on_line text_reader (parse_headers text_reader f) acc r.0 r.1) run
          ∙ on_line-blank _ acc (cursor b body)),
      body_on b body e,
    )
parse_tail (suc f) acc ((k, v) ∷ hs) body before (fit, fits) visible_body h =
    let (b, run) =
      next_line-cursor before (header_line k v) (header_lines hs body)
        (line_bytes k v fit.name_bytes fit.value_bytes) in
    let (c, rest, body_is) =
      parse_tail f (set_header (map to_lower k) v acc) hs body b fits visible_body (omega arith) in
    let here = line_visible k v (b'\r' ∷ b'\n' ∷ header_lines hs body) in
    (
      c,
      rw (header_lines-cons k v hs body) (
          round_on f acc before _ here
          ∙ ap (λ m. m >>= λ r. on_line text_reader (parse_headers text_reader f) acc r.0 r.1) run
          ∙ on_line-header _ acc k v (cursor b (header_lines hs body)) fit
          ∙ rest),
      body_is,
    )
