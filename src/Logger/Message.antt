-- ===== src/Logger/Message.antt =====
-- A whole log message, from the macro `LOG` to the streams of the workers.
use lspt_evaluation.Common.{
  ℕ, ◌≡◌, refl, ap, ◌∙◌, Bool, true, false, not, inl, inr, [], ◌∷◌, ◌++◌, Option, none, some, Bytes,
  ltb, ◌==◌, if◌then◌else◌, all, is_empty, Bool-cases, arith,
}
use lspt_evaluation.Logger.Levels.{LogLevel, level_number}
use lspt_evaluation.Logger.Lines.{trim_newlines}
use lspt_evaluation.Logger.Output.{arrow, join, lines, log_lines-trim_newlines}
use lspt_evaluation.Logger.Registry.{lookup, lookup-log}
use lspt_evaluation.Logger.{
  Worker, Workers, worker_log, formatted, log_time, worker_color, reset_color, erase_cr, prefix,
  log_message,
}
use mathlib.Core.Option

abbrev pub not_cr : ℕ → Bool
not_cr c = not (c == b'\r')

erase_cr-all : (s : Bytes) → all not_cr (erase_cr s) ≡ true
unfolding erase_cr
erase_cr-all [] = refl
erase_cr-all (c ∷ s) = elim (Bool-cases (c == b'\r')) [
  | inl e ↦ rw e (erase_cr-all s)
  | inr e ↦ rw (e, e) (erase_cr-all s)
]

trim_newlines-all :
    (test : ℕ → Bool) (s : Bytes) → all test s ≡ true → all test (trim_newlines s) ≡ true
unfolding trim_newlines
trim_newlines-all test [] h = refl
trim_newlines-all test (c ∷ s) h = ground (arith, trim_newlines-all test s)

-- The text of a message: what is gathered, without CRs and without newlines at its end.
abbrev pub message_text : LogLevel → Bytes → Bytes → Bytes → Bytes → Bytes
message_text level file_name line function msg =
    trim_newlines (erase_cr (prefix level file_name line function ++ msg))

-- It starts with the bracket in front of the level.
message_text-start :
    (level : LogLevel) (file_name line function msg : Bytes)
    → is_empty (message_text level file_name line function msg) ≡ false
unfolding prefix erase_cr trim_newlines
message_text-start level file_name line function msg = refl

-- What one worker makes of a message.
abbrev pub written : Bytes → LogLevel → Bytes → Worker → Worker
written now level t w = if ltb (level_number w.level) (level_number level) then w else record w {
  stream =
      w.stream
      ++ (log_time now
          ++ (worker_color w.is_console level
              ++ (join arrow (lines t) ++ (reset_color w.is_console ++ b'\n' ∷ []))));
}

worker_log-written :
    (now : Bytes) (level : LogLevel) (msg : Bytes) (w : Worker)
    → worker_log now level msg w ≡ written now level (trim_newlines msg) w
unfolding worker_log formatted
worker_log-written now level msg w = rw ((log_lines-trim_newlines msg).0, worker_log) refl

-- `LOG(level) << msg` writes to the worker at every path, where its level admits the message: the
-- time, the colour of a console, the lines of the message with an arrow in front of each behind
-- the first, the reset of the colour and a newline; other workers keep what they have. The message
-- starts with its level and place, holds no CR, and is not empty where `back()` is called on it.
pub lookup-log_message :
    (now : Bytes) (level : LogLevel) (file_name line function msg path : Bytes) (ws : Workers)
    → (lookup path (log_message now level file_name line function msg ws)
        ≡ Option.map
            (written now level (message_text level file_name line function msg))
            (lookup path ws))
      × (all not_cr (message_text level file_name line function msg) ≡ true)
      × (is_empty (message_text level file_name line function msg) ≡ false)
unfolding log_message
lookup-log_message now level file_name line function msg path ws =
    let t = erase_cr (prefix level file_name line function ++ msg) in
    (
      lookup-log now level t path ws ∙ each t (lookup path ws),
      trim_newlines-all not_cr t (erase_cr-all (prefix level file_name line function ++ msg)),
      message_text-start level file_name line function msg,
    )
  where
    each :
        (t : Bytes) (o : Option Worker)
        → Option.map (worker_log now level t) o ≡ Option.map (written now level (trim_newlines t)) o
    each t none = refl
    each t (some w) = ap some (worker_log-written now level t w)
