-- ===== src/Logger/Lines.antt =====
-- The widths of the columns, and the loops of `Worker::log` in Code/evaluation/src/Logger.cpp over the text of a message.
use lspt_evaluation.Common.{
  ℕ, zero, suc, ◌+◌, [], ◌∷◌, ◌++◌, Bytes, text, ◌==◌, if◌then◌else◌, is_empty,
}

abbrev pub level_fmt_width : ℕ
level_fmt_width = 8

abbrev pub time_fmt_width : ℕ
time_fmt_width = 25

abbrev pub full_header_width : ℕ
full_header_width = 100

abbrev pub replicate : ℕ → ℕ → Bytes
replicate zero c = []
replicate (suc n) c = c ∷ replicate n c

abbrev pub spaces : ℕ → Bytes
spaces n = replicate n 32

-- `while (msg.back() == '\n') { msg.remove_suffix(1); }`. `back()` of an empty text is undefined;
-- here the loop ends there. A message of the class never gets there, since it starts with `[`.
unfoldable pub trim_newlines : Bytes → Bytes
trim_newlines [] = []
trim_newlines (c ∷ cs) =
    let rest = trim_newlines cs in
    if c == b'\n' then (if is_empty rest then [] else c ∷ rest) else c ∷ rest

-- The arrow in front of each line behind the first, as wide as what stands before the first.
abbrev pub continuation : Bytes
continuation = spaces (time_fmt_width + level_fmt_width + 3) ++ text "-> "

-- The loop over the lines: each is written with its newline, and the next, if anything is left,
-- with an arrow in front.
unfoldable pub log_lines : Bytes → Bytes
log_lines [] = []
log_lines (c ∷ cs) =
    if c == b'\n'
    then c ∷ (if is_empty cs then [] else continuation ++ log_lines cs)
    else c ∷ log_lines cs
