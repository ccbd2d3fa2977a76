-- ===== src/Main/Service.antt =====
-- The whole program of Code/evaluation/src/main.cpp over a sequence of clients, to its exit.
use lspt_evaluation.Common.{ℕ, ◌<◌, ◌≡◌, Bool, List, some, Option, Bytes, length, if◌then◌else◌}
use lspt_evaluation.Json.{JsonLibrary}
use lspt_evaluation.Main.Signals.{SignalState}
use lspt_evaluation.Main.{exit_success, exit_failure}
use lspt_evaluation.Server.Traffic.Attended.{Attended, HasEmptyLine}
use lspt_evaluation.Server.Traffic.{Traffic}
use lspt_evaluation.Server.{HttpServer}
use lspt_evaluation.Socket.Sending.{Takes}
use lspt_evaluation.System.{System, SignalCalls}
use lspt_evaluation.Text.{uint_mod}
use lspt_evaluation.Worker.Service.Limits.{ShortDumps, message_room}
use lspt_evaluation.Worker.{Host}

module _ {W J : Type 0} (sys : System W) (calls : SignalCalls W) (json : JsonLibrary J)
    (fuel rounds room size : ℕ) (dumps : ShortDumps json room)
    (fits : message_room room size < uint_mod) (fuelled : message_room room size < fuel)
    (links : (fd : ℕ) → Takes sys fd) (server : HttpServer) (listener_fd : ℕ)
    (listening : server.listener_socket.socket ≡ some listener_fd) (signals : SignalState)
    (es : List (Option Bytes)) (enough : length es < rounds) where
  abbrev EmptyLine : Type 0
  EmptyLine =
      HasEmptyLine sys json fuel room size dumps fits fuelled links server signals.shutdown_pipe.0
        listener_fd listening es

  -- The clients are attended to from a state on, and the status tells how the loop ended.
  abbrev pub Exits : Host W → ℕ → Type 0
  Exits host status =
      (b : Bool) × (host' : Host W) × Attended sys json fuel room size dumps fits fuelled links
        server signals.shutdown_pipe.0 listener_fd listening es host (b, host')
      × (status ≡ (if b then exit_success else exit_failure))

  -- The loop ends with this result.
  abbrev Reaches : Host W → Bool → Type 0
  Reaches host b =
      (host' : Host W) × Attended sys json fuel room size dumps fits fuelled links server
        signals.shutdown_pipe.0 listener_fd listening es host (b, host')

  abbrev Coming : W → Type 1
  Coming w = Traffic sys server signals.shutdown_pipe.0 listener_fd links size es w
