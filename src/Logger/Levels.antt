-- ===== src/Logger/Levels.antt =====
-- The levels of Code/evaluation/src/Logger.h, their names and their colours.
use lspt_evaluation.Common.{ℕ, [], ◌∷◌, Bytes, text}

pub data LogLevel : Type 0 where
  critical error warn info debug trace : LogLevel

-- The value of the enum, by which levels are compared.
abbrev pub level_number : LogLevel → ℕ
level_number critical = 0
level_number error = 1
level_number warn = 2
level_number info = 3
level_number debug = 4
level_number trace = 5

unfoldable pub to_str : LogLevel → Bytes
to_str critical = text "CRITICAL"
to_str error = text "ERROR"
to_str warn = text "WARN"
to_str info = text "INFO"
to_str debug = text "DEBUG"
to_str trace = text "TRACE"

-- The escape sequences of a console; the byte 27 is "\033".
unfoldable pub log_color : LogLevel → Bytes
log_color critical = 27 ∷ text "[31;1m"
log_color error = 27 ∷ text "[31m"
log_color warn = 27 ∷ text "[33m"
log_color info = []
log_color debug = 27 ∷ text "[2m"
log_color trace = 27 ∷ text "[2;3m"
