-- ===== src/Tests/Parts.antt =====
-- The theorems about sockets, the loop of the server and the logger, at concrete inputs.
use lspt_evaluation.Common.{
  is_empty, all, false, ℕ, ◌≤◌, ◌≡◌, ◌≢◌, refl, ◌⊎◌, true, false, not, ◌&&◌, ◌||◌, [], ◌∷◌, ◌++◌,
  none, some, text, equal, arith, ◌==◌, if◌then◌else◌, length, take,
}
use lspt_evaluation.Tests.Fixtures.{
  World, the_system, takes, peer, plain_json, two_pieces, the_host,
}
use lspt_evaluation.Common.Int.{pos}
use lspt_evaluation.Logger.Levels.{debug, info, trace, to_str}
use lspt_evaluation.Logger.Lines.{trim_newlines, log_lines, replicate}
use lspt_evaluation.Logger.Output.{join, arrow, lines, log_lines-trim_newlines}
use lspt_evaluation.Logger.Message.{not_cr, message_text, written, lookup-log_message}
use lspt_evaluation.Logger.Registry.{lookup, lookup-add_worker, lookup-set_level}
use lspt_evaluation.Logger.Scoped.{IsMap, end_scope-log}
use lspt_evaluation.Logger.{
  log_message, begin_scope, end_scope, Worker, Workers, add_worker, opening_message, log_time, log,
  worker_log, set_level,
}
use lspt_evaluation.Server.Ready.{init_ready}
use lspt_evaluation.Server.Loop.{Ended, serve-Ended}
use lspt_evaluation.Server.{HttpServer, new_server, shut_down, serve, round, on_events, init}
use lspt_evaluation.Socket.Ownership.{destroy-close, destroy-move_assign}
use lspt_evaluation.Socket.Timeouts.{other, set_timeout_twice}
use lspt_evaluation.Socket.Ports.{bind-ports, close-ports}
use lspt_evaluation.Socket.Sending.{Stops, send-wire}
use lspt_evaluation.Socket.{
  emplace, TcpSocket, Net, closed, destroy, erase, move_assign, forget_port, set_timeout,
  current_timeout, create, of_fd, bind, close, contains, send, listen, connect, accept,
}
use lspt_evaluation.TestUtil.Pair.{Connected, get_server_and_client-Connected}
use lspt_evaluation.TestUtil.{get_server_and_client}
use lspt_evaluation.System.{rcvtimeo}
use mathlib.Core.Option

send-wire_example :
    (k : ℕ) × (net' : Net World) × (send the_system 20 peer (text "HTTP/1.1 200") true two_pieces
      ≡ some (k == length (text "HTTP/1.1 200"), net'))
    × (k ≤ length (text "HTTP/1.1 200"))
    × (takes.wire net'.world ≡ takes.wire two_pieces.world ++ take k (text "HTTP/1.1 200"))
    × (net'.ports_in_use ≡ two_pieces.ports_in_use)
    × Stops the_system 5 takes (text "HTTP/1.1 200") two_pieces.world k net'.world
unfolding text
send-wire_example =
    send-wire the_system 5 takes peer 20 (text "HTTP/1.1 200") two_pieces refl (omega arith)
      (omega arith)

bind-ports_example :
    ((bind the_system peer 8080 two_pieces).0 ≡ true)
      × (contains 8080 two_pieces.ports_in_use ≡ false)
      × (contains 9000 (bind the_system peer 8080 two_pieces).1.ports_in_use
          ≡ (8080 == 9000 || contains 9000 two_pieces.ports_in_use))
    ⊎ ((bind the_system peer 8080 two_pieces).0 ≡ false)
      × ((bind the_system peer 8080 two_pieces).1.ports_in_use ≡ two_pieces.ports_in_use)
bind-ports_example = bind-ports the_system peer 8080 9000 two_pieces

-- The peer came from the listener, and takes its port along.
close-ports_example :
    contains 8080 (close the_system peer two_pieces).2.ports_in_use
    ≡ not (8080 == 8080) && contains 8080 two_pieces.ports_in_use
close-ports_example = close-ports the_system peer 5 8080 8080 two_pieces refl refl

abbrev the_server : HttpServer
the_server = record { listener_port = 8080; backlog_size = pos 10; listener_socket = of_fd 3 }

serve-Ended_example : Ended the_system plain_json 9 7 the_server the_host shut_down
unfolding serve round on_events
serve-Ended_example = serve-Ended the_system plain_json 9 7 the_server 1 the_host the_host true refl

log_lines-trim_newlines_example :
    (log_lines (trim_newlines (text "two\nlines\n"))
      ≡ join arrow (lines (trim_newlines (text "two\nlines\n"))))
    × ((k : ℕ) × (text "two\nlines\n" ≡ trim_newlines (text "two\nlines\n") ++ replicate k 10))
log_lines-trim_newlines_example = log_lines-trim_newlines (text "two\nlines\n")

abbrev console_worker : Worker
console_worker = record { is_console = true; level = info; stream = [] }

abbrev two_workers : Workers
two_workers =
    ([], console_worker) ∷ (text "trace.log", record console_worker { is_console = false }) ∷ []

lookup-log_message_example :
    (lookup [] (
        log_message
          (text "now")
          debug
          (text "main.cpp")
          (text "7")
          (text "main")
          (text "hi")
          two_workers)
      ≡ Option.map
          (written
            (text "now")
            debug
            (message_text debug (text "main.cpp") (text "7") (text "main") (text "hi")))
          (lookup [] two_workers))
    × (all not_cr (message_text debug (text "main.cpp") (text "7") (text "main") (text "hi"))
        ≡ true)
    × (is_empty (message_text debug (text "main.cpp") (text "7") (text "main") (text "hi")) ≡ false)
lookup-log_message_example =
    lookup-log_message (text "now") debug (text "main.cpp") (text "7") (text "main") (text "hi") []
      two_workers

lookup-add_worker_example :
    lookup (text "trace.log") (add_worker (text "now") (text "trace.log") trace [] two_workers)
    ≡ elim (lookup (text "trace.log") two_workers) [
      | none ↦
          if equal (text "trace.log") (text "trace.log")
          then some (record {
            is_console = is_empty (text "trace.log");
            level = trace;
            stream =
                (if is_empty (text "trace.log") then [] else [])
                ++ opening_message
                    (text "now")
                    trace
                    (if is_empty (text "trace.log") then text "Console" else text "trace.log");
          })
          else none
      | some w ↦
          if equal (text "trace.log") (text "trace.log")
          then some (record {
            is_console = w.is_console;
            level = w.level;
            stream =
                w.stream
                ++ opening_message
                    (text "now")
                    trace
                    (if is_empty (text "trace.log") then text "Console" else text "trace.log");
          })
          else some w
    ]
lookup-add_worker_example =
    lookup-add_worker (text "now") (text "trace.log") trace [] (text "trace.log") two_workers

lookup-set_level_example :
    ((set_level (text "now") [] trace two_workers ≡ none) × (lookup [] two_workers ≡ none))
    ⊎ ((ws : Workers) × (set_level (text "now") [] trace two_workers ≡ some ws)
        × (lookup [] ws
            ≡ Option.map
                (λ w.
                  if equal [] []
                  then record {
                    is_console = w.is_console;
                    level = trace;
                    stream =
                        w.stream
                        ++ (log_time (text "now")
                            ++ (text "Changing log level from "
                                ++ (to_str w.level
                                    ++ (text " to " ++ (to_str trace ++ b'\n' ∷ [])))));
                  }
                  else w)
                (lookup [] two_workers)))
lookup-set_level_example = lookup-set_level (text "now") [] trace [] two_workers

end_scope-log_example :
    (lookup
        (text "log/a.log")
        (log (text "now") debug (text "hi") (begin_scope (text "now") trace two_workers))
      ≡ (if equal [] (text "log/a.log")
          then some (
              worker_log
                (text "now")
                debug
                (text "hi")
                (elim (lookup (text "log/a.log") two_workers) as (λ x. Worker) [
                  | none ↦ record {
                    is_console = true;
                    level = trace;
                    stream = opening_message (text "now") trace (text "Console");
                  }
                  | some w ↦ record {
                    is_console = w.is_console;
                    level = w.level;
                    stream = w.stream ++ opening_message (text "now") trace (text "Console");
                  }
                ]))
          else Option.map
              (worker_log (text "now") debug (text "hi"))
              (lookup (text "log/a.log") two_workers)))
    × (lookup (text "log/a.log") (
          end_scope
            (log (text "now") debug (text "hi") (begin_scope (text "now") trace two_workers)))
        ≡ (if equal [] (text "log/a.log")
            then none
            else Option.map
                (worker_log (text "now") debug (text "hi"))
                (lookup (text "log/a.log") two_workers)))
    × IsMap (log (text "now") debug (text "hi") (begin_scope (text "now") trace two_workers))
unfolding text equal
end_scope-log_example =
    end_scope-log (text "now") trace debug (text "hi") (text "log/a.log") two_workers
      (refl, (refl, tt))

abbrev timed_peer : TcpSocket
timed_peer = record peer { recv_timeout = 10 }

set_timeout_twice_example :
    (set_timeout the_system timed_peer 10 rcvtimeo two_pieces ≡ (true, timed_peer, two_pieces))
    × (current_timeout the_system timed_peer rcvtimeo ≡ 10)
    × (current_timeout the_system timed_peer (other rcvtimeo)
        ≡ current_timeout the_system peer (other rcvtimeo))
    × (timed_peer.socket ≡ peer.socket)
unfolding set_timeout
set_timeout_twice_example =
    set_timeout_twice the_system peer timed_peer 10 rcvtimeo two_pieces two_pieces refl

abbrev freed : Net World
freed = record two_pieces { ports_in_use = [] }

destroy-close_example :
    (close the_system closed freed ≡ (false, closed, freed))
    × (destroy the_system closed freed ≡ freed)
unfolding close forget_port erase
destroy-close_example = destroy-close the_system peer closed two_pieces freed refl

destroy-move_assign_example :
    ((move_assign the_system (of_fd 3) peer two_pieces).0 ≡ peer)
    × ((move_assign the_system (of_fd 3) peer two_pieces).2
        ≡ destroy the_system (of_fd 3) two_pieces)
    × (destroy the_system
          (move_assign the_system (of_fd 3) peer two_pieces).1
          (move_assign the_system (of_fd 3) peer two_pieces).2
        ≡ (move_assign the_system (of_fd 3) peer two_pieces).2)
destroy-move_assign_example = destroy-move_assign the_system (of_fd 3) peer two_pieces

abbrev free_ports : Net World
free_ports = record two_pieces { ports_in_use = [] }

init_ready_example :
    (the_server.listener_socket.socket ≢ none)
    × (contains 8080 free_ports.ports_in_use ≡ false)
    × (contains 8080 two_pieces.ports_in_use ≡ true)
    × (the_server.listener_port ≡ (new_server 8080 (pos 10)).listener_port)
unfolding init create bind listen new_server contains emplace
init_ready_example =
    init_ready the_system plain_json 9 (new_server 8080 (pos 10)) the_server free_ports two_pieces
      refl

-- A network without ports in use.
abbrev no_ports : Net World
no_ports = record two_pieces { ports_in_use = [] }

get_server_and_client-Connected_example :
    Connected the_system 8080 no_ports (get_server_and_client the_system 8080 no_ports)
unfolding get_server_and_client create bind listen connect accept contains emplace
get_server_and_client-Connected_example =
    get_server_and_client-Connected the_system 8080 no_ports refl
