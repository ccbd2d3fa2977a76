-- ===== src/Stream/Cursor.antt =====
-- The text of a connection as one string with a place in it: what SocketStream gives its clients,
-- with no buffer, no sockets and no fuel.
use lspt_evaluation.Common.{
  ℕ, Bool, true, false, not, [], ◌∷◌, ◌++◌, Bytes, if◌then◌else◌, is_empty, take_while, drop_while,
  Outcome, ok, out_of_range, ◌>>=◌,
}
use lspt_evaluation.Reader.{Reader}
use lspt_evaluation.Stream.{not_space, not_newline, pop_cr}
use lspt_evaluation.Text.{is_space}

-- `past` after a line that ended with the text and not with a newline: one behind the end.
pub record Cursor : Type 0 where
  pub before : Bytes
  pub ahead : Bytes
  pub past : Bool

unfoldable pub start : Bytes → Cursor
start t = record { before = []; ahead = t; past = false }

abbrev pub skip : (ℕ → Bool) → Cursor → Cursor
skip test c = record c {
  before = c.before ++ take_while test c.ahead;
  ahead = drop_while test c.ahead;
}

-- Over the newline at the place, or behind the end.
unfoldable pub over_newline : Cursor → Bytes → Cursor
over_newline c [] = record c { past = true }
over_newline c (x ∷ r) = record c { before = c.before ++ x ∷ []; ahead = r }

unfoldable pub next_word : Cursor → Outcome (Bytes × Cursor)
next_word c =
    let c1 = skip is_space c in
    if c.past then out_of_range else ok (take_while not_space c1.ahead, skip not_space c1)

unfoldable pub next_line : Bool → Cursor → Outcome (Bytes × Cursor)
next_line skip_whitespace c =
    let c1 = if skip_whitespace then skip is_space c else c in
    let c2 = skip not_newline c1 in
    if c.past
    then out_of_range
    else (do line ← pop_cr (take_while not_newline c1.ahead); ok (line, over_newline c2 c2.ahead))

unfoldable pub remaining : Cursor → Outcome (Bytes × Cursor)
remaining c =
    if c.past
    then out_of_range
    else ok (c.ahead, record c { before = c.before ++ c.ahead; ahead = [] })

unfoldable pub text_reader : Reader Cursor
unfolding next_word next_line remaining over_newline
text_reader = record {
  has_next = λ c. ok (not (is_empty (drop_while is_space c.ahead)), c);
  next_word = next_word;
  next_line = next_line;
  remaining = remaining;
  passed_buffer = λ c. c.before;
}
