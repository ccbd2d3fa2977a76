-- ===== src/Main.antt =====
-- The start of the program, its command line and its exit in Code/evaluation/src/main.cpp. What
-- `getopt_long` reads from `argv` is a list. `now` is what `current_time()` gives while the loggers
-- are added.
pub mod Cleanup
pub mod Exit
pub mod Loggers
pub mod Owned
pub mod Service
pub mod Shutdown
pub mod Signals
use lspt_evaluation.Common.{
  ℕ, suc, ◌-◌, ◌%◌, Bool, true, false, not, [], ◌∷◌, List, Option, none, some, Bytes, leb, ◌==◌,
  if◌then◌else◌, text, drop_while, take_while, is_empty, Outcome, ok, ◌>>=◌,
}
use lspt_evaluation.Common.Int.{ℤ, pos, negsuc}
use lspt_evaluation.Json.{JsonLibrary}
use lspt_evaluation.Logger.{Workers, add_file, add_console}
use lspt_evaluation.Logger.Levels.{info, trace}
use lspt_evaluation.Server
use lspt_evaluation.Server.{new_server}
use lspt_evaluation.Socket.{destroy}
use lspt_evaluation.System.{System, SignalCalls, FileCalls}
use lspt_evaluation.Text.{is_space}
use lspt_evaluation.Text.Decimal.{is_digit, digits_value, stoul}
use lspt_evaluation.Worker.{Host}
use Signals.{SignalState, no_signals, set_up_signal_handling, run_at_exit}

-- What one call of `getopt_long` gives: 'p', 'b' or 'c' with `optarg`, '?', ':', or another value.
pub data Argument : Type 0 where
  port backlog : Bytes → Argument
  console invalid missing unexpected : Argument

pub record Options : Type 0 where
  pub listener_port : ℕ
  pub backlog_size : ℤ
  pub workers : Workers

-- DEFAULT_LISTENER_PORT, DEFAULT_BACKLOG_SIZE and DEFAULT_LOG_CONSOLE.
abbrev pub default_listener_port : ℕ
default_listener_port = 8080

abbrev pub default_backlog_size : ℤ
default_backlog_size = pos 10

abbrev pub default_log_console : Bool
default_log_console = false

abbrev pub defaults : Workers → Options
defaults ws = record {
  listener_port = default_listener_port;
  backlog_size = default_backlog_size;
  workers = ws;
}

abbrev pub info_path : Bytes
info_path = text "log/info.log"

abbrev pub trace_path : Bytes
trace_path = text "log/trace.log"

-- The loggers that `main` adds first.
unfoldable pub start_logging : {W : Type 0} → FileCalls W → Bytes → Workers → W → Workers × W
unfolding add_file
start_logging files now ws w =
    let ws0 = if default_log_console then add_console now trace ws else ws in
    let (ws1, w1) = add_file files now info_path info ws0 w in
    add_file files now trace_path trace ws1 w1

-- `std::stoi`: `none` is an exception, without a digit or outside of 32 bits.
abbrev signed_int : Bool → ℕ → Option ℤ
signed_int false n = if leb 2147483648 n then none else some (pos n)
signed_int true n =
    if leb 2147483649 n then none else if n == 0 then some (pos 0) else some (negsuc (n - 1))

abbrev int_digits : Bool → Bytes → Option ℤ
int_digits negative ds = if is_empty ds then none else signed_int negative (digits_value 0 ds)

int_after_sign : Bytes → Option ℤ
int_after_sign [] = none
int_after_sign (c ∷ cs) =
    if c == b'-'
    then int_digits true (take_while is_digit cs)
    else if c == b'+'
    then int_digits false (take_while is_digit cs)
    else int_digits false (take_while is_digit (c ∷ cs))

unfoldable pub stoi : Bytes → Option ℤ
unfolding int_after_sign
stoi s = int_after_sign (drop_while is_space s)

-- The assignments in the `switch`; `none` is the exception that the `catch` turns into a failure.
-- A backlog below 1 is logged and kept.
unfoldable pub set_port : Options → Option ℕ → Option Options
set_port o none = none
set_port o (some n) = some (record o { listener_port = n % 65536 })

unfoldable pub set_backlog : Options → Option ℤ → Option Options
set_backlog o none = none
set_backlog o (some b) = some (record o { backlog_size = b })

-- The log line in front of the switch also writes `optarg`, which is null for `-c` and where an argument
-- is missing; that is undefined, and left out here with the other log lines.
unfoldable pub read_argument : Bytes → Options → Argument → Option Options
unfolding set_port set_backlog
read_argument now o (port optarg) = set_port o (stoul optarg)
read_argument now o (backlog optarg) = set_backlog o (stoi optarg)
read_argument now o console =
    some (if default_log_console then o else record o { workers = add_console now trace o.workers })
read_argument now o invalid = none
read_argument now o missing = none
read_argument now o unexpected = none

-- The loop over the arguments; `none` is EXIT_FAILURE.
abbrev pub maybe_go_on : Option Options → (Options → Option Options) → Option Options
maybe_go_on none k = none
maybe_go_on (some o) k = k o

unfoldable pub read_arguments : Bytes → Options → List Argument → Option Options
unfolding read_argument
read_arguments now o [] = some o
read_arguments now o (a ∷ rest) =
    maybe_go_on (read_argument now o a) (λ o'. read_arguments now o' rest)

abbrev pub exit_success : ℕ
exit_success = 0

abbrev pub exit_failure : ℕ
exit_failure = 1

module _ {W J : Type 0} (sys : System W) (calls : SignalCalls W) (json : JsonLibrary J)
    (fuel rounds : ℕ) where
  abbrev exit_status : Bool → ℕ
  exit_status true = exit_success
  exit_status false = exit_failure

  -- The server's own destructor closes the listener.
  unfoldable pub start_server : Options → SignalState → Host W → Outcome (ℕ × SignalState × Host W)
  start_server o signals host = do
    (result, server, host') ←
        Server.run sys json fuel rounds signals.shutdown_pipe.0
          (new_server o.listener_port o.backlog_size) host
    ok (
      exit_status result,
      signals,
      record host' { net = destroy sys server.listener_socket host'.net },
    )

  unfoldable pub main_after :
      Option Options → SignalState → Host W → Outcome (ℕ × SignalState × Host W)
  unfolding start_server set_up_signal_handling
  main_after none signals host = ok (exit_failure, signals, host)
  main_after (some o) signals host =
      let (done, signals', w) = set_up_signal_handling sys calls signals host.net.world in
      let host' = record host { net = record host.net { world = w } } in
      if not done then ok (exit_failure, signals', host') else start_server o signals' host'

  unfoldable pub main :
      Bytes → FileCalls W → List Argument → Host W → Outcome (ℕ × SignalState × Host W)
  unfolding main_after read_arguments start_logging
  main now files arguments host =
      let (ws, w) = start_logging files now [] host.net.world in
      main_after (read_arguments now (defaults ws) arguments) no_signals
        (record host { net = record host.net { world = w } })

  -- The whole program: `main`, and what runs at the exit behind it.
  unfoldable pub program : Bytes → FileCalls W → List Argument → Host W → Outcome (ℕ × Host W)
  unfolding main run_at_exit
  program now files arguments host = do
    (status, signals, host') ← main now files arguments host
    ok (
      status,
      record host' {
        net = record host'.net { world = run_at_exit sys calls signals host'.net.world };
      },
    )
