-- ===== src/Tests/Program.antt =====
-- The theorems about the program's start and end, and about its times, at concrete inputs.
use lspt_evaluation.Common.{
  ◌≡◌, refl, inr, List, ◌⊎◌, Bool, any, all, true, false, [], ◌∷◌, none, some, text, arith, length,
  ok,
}
use lspt_evaluation.Tests.Fixtures.{World, the_system, plain_json, two_pieces, the_host}
use lspt_evaluation.Common.Int.{pos}
use lspt_evaluation.Main.Exit.{
  is_acceptable, given_port, given_backlog, or_else, last_value, read_arguments-last_value,
}
use lspt_evaluation.Main.Loggers.{LogsTo, is_console_argument, start_logging-LogsTo}
use lspt_evaluation.Main.Owned.{program-Owned}
use lspt_evaluation.Main.Shutdown.{Pipe, interrupted, polled_once, serve-sigint}
use lspt_evaluation.Main.Signals.{SignalState, set_up_signal_handling}
use lspt_evaluation.TimeUtil.Fields.{fields, numbers, fields-current_time}
use lspt_evaluation.TimeUtil.Program.{in_path, after_calls, program_time-first}
use lspt_evaluation.TimeUtil.{LocalTime, current_time, program_time}
use lspt_evaluation.Main.{
  Argument, Options, program, port, backlog, console, read_arguments, defaults, start_logging,
}
use lspt_evaluation.Server
use lspt_evaluation.Server.{HttpServer, new_server, shut_down, serve, round, on_events, init}
use lspt_evaluation.Socket.Owned.{Owned}
use lspt_evaluation.Socket.{destroy, create, bind, listen, contains, emplace}
use lspt_evaluation.Worker.{Host}
use lspt_evaluation.System.{SignalCalls, FileCalls, poll_error}

abbrev large_port : List Argument
large_port = port (text "80") ∷ port (text "70000") ∷ backlog (text "5") ∷ []

read_arguments-last_value_example :
    ((all is_acceptable large_port ≡ false)
      × (read_arguments (text "now") (defaults []) large_port ≡ none))
    ⊎ ((all is_acceptable large_port ≡ true)
        × (o : Options) × (read_arguments (text "now") (defaults []) large_port ≡ some o)
        × (o.listener_port ≡ or_else (last_value given_port large_port) 8080)
        × (o.backlog_size
            ≡ or_else (last_value given_backlog large_port) (defaults []).backlog_size))
read_arguments-last_value_example = read_arguments-last_value (text "now") large_port (defaults [])

-- A directory of logs that is there, with empty files.
abbrev a_directory : FileCalls World
a_directory = record {
  exists = λ path w. true;
  parent_path = λ path. text "log";
  create_directories = λ path w. w;
  open_append = λ path w. ([], w);
}

start_logging-LogsTo_example : LogsTo (any is_console_argument (port (text "80") ∷ console ∷ [])) (
    read_arguments
      (text "now")
      (defaults (start_logging a_directory (text "now") [] ([], [])).0)
      (port (text "80") ∷ console ∷ []))
start_logging-LogsTo_example =
    start_logging-LogsTo a_directory (text "now") ([], []) (port (text "80") ∷ console ∷ [])

-- Descriptors 7 and 8 are the pipe; a write to 8 goes through at once.
abbrev a_setup : SignalCalls World
a_setup = record {
  pipe = λ w. (some (7, 8), w);
  atexit = λ w. (true, w);
  sigaction = λ w. (true, w);
  write = λ fd b w. (some (length b), w);
}

abbrev set_up : SignalState
set_up = record { shutdown_pipe = (7, 8); at_exit = true }

abbrev a_pipe : Pipe the_system a_setup (7, 8)
a_pipe = record {
  HasInput = λ w. Unit {0};
  writes = λ b w h. tt;
  polls = λ l w h. inr (1, 0, refl, refl);
}

serve-sigint_example :
    (b : Bool) × (serve the_system plain_json 9 1 7
        (new_server 8080 (pos 10))
        (interrupted the_system a_setup plain_json 9 set_up a_pipe the_host)
      ≡ ok (
        b,
        polled_once the_system a_setup plain_json 9 set_up a_pipe
            (new_server 8080 (pos 10))
            the_host,
      ))
    × ((b ≡ false)
        → (the_system.poll
            (some 7)
            (new_server 8080 (pos 10)).listener_socket.socket
            (interrupted the_system a_setup plain_json 9 set_up a_pipe the_host).net.world).0
          ≡ poll_error)
serve-sigint_example =
    serve-sigint the_system a_setup plain_json 9 set_up a_pipe 0 (new_server 8080 (pos 10)) the_host

-- A host that has no port in use yet.
abbrev fresh_host : Host World
fresh_host = record { net = record two_pieces { ports_in_use = [] }; query_id = 0 }

program-Owned_example : Owned the_system (7 ∷ 8 ∷ []) two_pieces.world [] two_pieces.world
unfolding program read_arguments set_up_signal_handling init create bind listen contains emplace
    new_server Server.run destroy serve round on_events text
program-Owned_example =
    program-Owned the_system a_setup plain_json 9 1 (text "now") a_directory []
      (defaults (start_logging a_directory (text "now") [] fresh_host.net.world).0) true set_up
      two_pieces.world fresh_host fresh_host 0 refl refl refl refl

abbrev a_time : LocalTime
a_time = record {
  year = 2024;
  month = 11;
  day = 5;
  hour = 9;
  minute = 30;
  second = 7;
  usec = 41999;
}

fields-current_time_example : fields (current_time true a_time) ≡ numbers a_time
fields-current_time_example = fields-current_time true a_time (record {
  year_from = omega arith;
  year_to = omega arith;
  month_to = omega arith;
  day_to = omega arith;
  hour_to = omega arith;
  minute_to = omega arith;
  second_to = omega arith;
  usec_to = omega arith;
})

abbrev later : LocalTime
later = record a_time { second = 8 }

program_time-first_example :
    ((program_time true later (after_calls ((false, a_time) ∷ (true, later) ∷ []) none)).0
      ≡ current_time true a_time)
    × (all in_path
          (program_time true later (after_calls ((false, a_time) ∷ (true, later) ∷ []) none)).0
        ≡ true)
program_time-first_example = program_time-first false a_time ((true, later) ∷ []) true later
