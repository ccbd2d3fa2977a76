-- ===== src/Logger.antt =====
-- The class Logger of Code/evaluation/src/Logger.h and Logger.cpp: its workers, the levels, and the
-- text that a message becomes. A worker's stream is what has been written to it; `now` is what
-- `current_time()` gives. The locks are that a call runs alone.
pub mod Levels
pub mod Lines
pub mod Message
pub mod Output
pub mod Registry
pub mod Scoped
use lspt_evaluation.Common.{
  ℕ, zero, suc, ◌+◌, ◌-◌, ◌<◌, Bool, true, false, not, ◌&&◌, List, [], ◌∷◌, ◌++◌, Option, none,
  some, Bytes, text, equal, ltb, ◌==◌, if◌then◌else◌, length, is_empty,
}
use lspt_evaluation.System.{FileCalls}
use Lines.{
  level_fmt_width, time_fmt_width, full_header_width, trim_newlines, log_lines, spaces, replicate,
}
use Levels.{LogLevel, to_str, log_color, level_number}

pub record Worker : Type 0 where
  pub is_console : Bool
  pub level : LogLevel
  pub stream : Bytes

-- `workers()`: a map from a path, which is empty for the console.
abbrev pub Workers : Type 0
Workers = List (Bytes × Worker)

abbrev pub log_time : Bytes → Bytes
log_time now = now ++ text " | "

unfoldable pub opening_message : Bytes → LogLevel → Bytes → Bytes
opening_message now level location =
    replicate time_fmt_width b'-'
    ++ (b'\n'
        ∷ (log_time now
            ++ (replicate (full_header_width - time_fmt_width) b'-'
                ++ (b'\n'
                    ∷ (log_time now
                        ++ (text "Opening \""
                            ++ (location
                                ++ (text "\" for logging at level "
                                    ++ (to_str level ++ b'\n' ∷ [])))))))))

-- The constructors of ConsoleWorker, and of FileWorker over what its file holds.
unfoldable pub new_console_worker : Bytes → LogLevel → Worker
unfolding opening_message
new_console_worker now level = record {
  is_console = true;
  level = level;
  stream = opening_message now level (text "Console");
}

unfoldable pub new_file_worker : Bytes → Bytes → LogLevel → Bytes → Worker
unfolding opening_message
new_file_worker now path level existing = record {
  is_console = false;
  level = level;
  stream = existing ++ opening_message now level path;
}

unfoldable pub new_worker : Bytes → Bytes → LogLevel → Bytes → Worker
unfolding new_console_worker new_file_worker
new_worker now path level existing =
    if is_empty path then new_console_worker now level else new_file_worker now path level existing

-- A second worker for a path is made, and writes its opening message to the same file or to the
-- console, before `try_emplace` drops it.
unfoldable pub reopened : Bytes → Bytes → LogLevel → Worker → Worker
unfolding opening_message
reopened now path level w = record w {
  stream = w.stream ++ opening_message now level (if is_empty path then text "Console" else path);
}

-- `addWorker`; `try_emplace` keeps a worker that is there.
unfoldable pub add_worker : Bytes → Bytes → LogLevel → Bytes → Workers → Workers
unfolding new_worker reopened
add_worker now path level existing [] = (path, new_worker now path level existing) ∷ []
add_worker now path level existing ((p, w) ∷ ws) =
    if equal p path
    then (p, reopened now path level w) ∷ ws
    else (p, w) ∷ add_worker now path level existing ws

unfoldable pub remove_worker : Bytes → Workers → Workers
remove_worker path [] = []
remove_worker path ((p, w) ∷ ws) = if equal p path then ws else (p, w) ∷ remove_worker path ws

-- The file-system calls of FileWorker's constructor, with what the file holds before. A stream that is
-- not good is only reported.
unfoldable pub open_log : {W : Type 0} → FileCalls W → Bytes → W → Bytes × W
open_log files path w =
    let parent = files.parent_path path in
    let made =
      if not (files.exists path w) && not (is_empty parent)
      then files.create_directories parent w
      else w in
    files.open_append path made

-- `addFile`, `addConsole`, `removeFile` and `removeConsole`.
unfoldable pub add_file :
    {W : Type 0} → FileCalls W → Bytes → Bytes → LogLevel → Workers → W → Workers × W
unfolding open_log
add_file files now path level ws w =
    let (existing, w') = open_log files path w in
    if is_empty path
    then (add_worker now path level [] ws, w)
    else (add_worker now path level existing ws, w')

abbrev pub add_console : Bytes → LogLevel → Workers → Workers
add_console now level ws = add_worker now [] level [] ws

abbrev pub remove_file : Bytes → Workers → Workers
remove_file path ws = remove_worker path ws

abbrev pub remove_console : Workers → Workers
remove_console ws = remove_worker [] ws

-- The constructor and the destructor of ScopedConsoleLogger.
abbrev pub begin_scope : Bytes → LogLevel → Workers → Workers
begin_scope now level ws = add_console now level ws

abbrev pub end_scope : Workers → Workers
end_scope ws = remove_console ws

unfoldable pub set_worker_level : Bytes → LogLevel → Worker → Worker
set_worker_level now level w = record w {
  level = level;
  stream =
      w.stream
      ++ (log_time now
          ++ (text "Changing log level from "
              ++ (to_str w.level ++ (text " to " ++ (to_str level ++ b'\n' ∷ [])))));
}

unfoldable pub cons_worker : Bytes × Worker → Option Workers → Option Workers
cons_worker w none = none
cons_worker w (some ws) = some (w ∷ ws)

-- `setLevel`; `none` is the exception of `at`.
unfoldable pub set_level : Bytes → Bytes → LogLevel → Workers → Option Workers
unfolding set_worker_level cons_worker
set_level now path level [] = none
set_level now path level ((p, w) ∷ ws) =
    if equal p path
    then some ((p, set_worker_level now level w) ∷ ws)
    else cons_worker (p, w) (set_level now path level ws)

abbrev pub set_console_level : Bytes → LogLevel → Workers → Option Workers
set_console_level now level ws = set_level now [] level ws

-- The virtual functions `log_color` and `reset_color`, which ConsoleWorker overrides.
abbrev pub worker_color : Bool → LogLevel → Bytes
worker_color is_console level = if is_console then log_color level else []

abbrev pub reset_color : Bool → Bytes
reset_color is_console = if is_console then 27 ∷ text "[0m" else []

-- What `Worker::log` writes: the time, the colour, the lines, and the colour reset.
unfoldable pub formatted : Bytes → Bool → LogLevel → Bytes → Bytes
formatted now is_console level msg =
    log_time now
    ++ (worker_color is_console level
        ++ (log_lines (trim_newlines msg) ++ (reset_color is_console ++ b'\n' ∷ [])))

unfoldable pub worker_log : Bytes → LogLevel → Bytes → Worker → Worker
unfolding formatted
worker_log now level msg w =
    if ltb (level_number w.level) (level_number level)
    then w
    else record w { stream = w.stream ++ formatted now w.is_console level msg }

-- `Workers::log`.
unfoldable pub log : Bytes → LogLevel → Bytes → Workers → Workers
unfolding worker_log
log now level msg [] = []
log now level msg ((p, w) ∷ ws) = (p, worker_log now level msg w) ∷ log now level msg ws

-- `std::erase(msg_str, '\r')`.
unfoldable pub erase_cr : Bytes → Bytes
erase_cr [] = []
erase_cr (c ∷ cs) = if c == b'\r' then erase_cr cs else c ∷ erase_cr cs

-- What the constructor writes to the buffer: the level, padded to LEVEL_FMT_WIDTH, and the place.
unfoldable pub prefix : LogLevel → Bytes → Bytes → Bytes → Bytes
prefix level file_name line function =
    b'['
    ∷ (spaces (level_fmt_width - length (to_str level))
        ++ (to_str level
            ++ (text "] "
                ++ (file_name ++ (b':' ∷ (line ++ (text " in " ++ (function ++ text "(): "))))))))

-- The object that gathers one message.
pub record Logger : Type 0 where
  pub level : LogLevel
  pub buffer : Bytes

-- Its constructor, what `<<` on its `stream()` does, and its destructor.
unfoldable pub new_logger : LogLevel → Bytes → Bytes → Bytes → Logger
unfolding prefix
new_logger level file_name line function = record {
  level = level;
  buffer = prefix level file_name line function;
}

abbrev pub stream_out : Bytes → Logger → Logger
stream_out msg logger = record logger { buffer = logger.buffer ++ msg }

unfoldable pub end_logger : Bytes → Logger → Workers → Workers
unfolding log erase_cr
end_logger now logger ws = log now logger.level (erase_cr logger.buffer) ws

-- `LOG(level) << msg` at a place of the program.
unfoldable pub log_message : Bytes → LogLevel → Bytes → Bytes → Bytes → Bytes → Workers → Workers
unfolding new_logger end_logger
log_message now level file_name line function msg ws =
    end_logger now (stream_out msg (new_logger level file_name line function)) ws
