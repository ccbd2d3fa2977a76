-- ===== src/Server/Traffic.antt =====
-- Who comes to the server, as a sequence of clients, and what `poll` and `accept` tell of them.
pub mod Attended
pub mod Rounds
use lspt_evaluation.Common.{
  ℕ, zero, suc, ◌/◌, ◌*◌, ◌≤◌, ◌<◌, ◌≡◌, refl, sym, ap, subst, ◌∙◌, Bool, true, false, List, [],
  ◌∷◌, ◌++◌, Option, none, some, Bytes, arith, length, take, if◌then◌else◌, Outcome, ok, no_fuel,
  empty_back, ◌>>=◌, Finishes, finishes, >>=-Finishes, Finishes-undefined, Finishes-weaken,
  Finishes-value, Finishes-Leaves, Leaves, ok-Finishes,
}
use lspt_evaluation.Http.Parser.{parse_request}
use lspt_evaluation.Http.{HttpResponse, response_to_string}
use lspt_evaluation.Json.{JsonLibrary}
use lspt_evaluation.Server.Bounds.{round-CountsUint}
use lspt_evaluation.Server.Service.{Served, text_of}
use lspt_evaluation.Server.{
  HttpServer, Round, shut_down, failed, next_round, has_pollin, serve_client, on_events, round,
  after_round, serve,
}
use lspt_evaluation.Socket.Peer.{Peer}
use lspt_evaluation.Socket.Sending.{Takes}
use lspt_evaluation.Socket.{TcpSocket, Net, of_fd, accept, set_timeout}
use lspt_evaluation.Stream.Cursor.{start, text_reader}
use lspt_evaluation.Stream.Follows.{Delivers}
use lspt_evaluation.System.{System, Polled, poll_error, timed_out, events, rcvtimeo}
use lspt_evaluation.Text.{uint_mod}
use lspt_evaluation.Worker.Answer.{ready}
use lspt_evaluation.Worker.Bounds.{CountsUint}
use lspt_evaluation.Worker.Service.Limits.{ShortDumps, Refuses, message_room}
use lspt_evaluation.Worker.{Host}
use mathlib.Core.List.{Memᴰ}
use mathlib.Core.List.Memᴰ.{head, tail}

-- `poll` fails, or reports input on the shutdown descriptor.
pub data Ends : Polled → Type 0 where
  by_error : Ends poll_error
  by_shutdown : (s l : ℕ) → has_pollin s ≡ true → Ends (events s l)

-- `poll` reports a client and no shutdown.
pub data Waits : Polled → Type 0 where
  waits : (s l : ℕ) → has_pollin s ≡ false → has_pollin l ≡ true → Waits (events s l)

module _ {W : Type 0} (sys : System W) (server : HttpServer) (shutdown_fd : ℕ) where
  abbrev pub poll_at : W → Polled × W
  poll_at w = sys.poll (some shutdown_fd) server.listener_socket.socket w

module _ {W : Type 0} (sys : System W) (server : HttpServer) (shutdown_fd listener_fd : ℕ) where
  -- A round without a client, from one world to the next: a time-out, another event, or an
  -- `accept` that gives no client.
  pub data Idle (w : W) : W → Type 0 where
    no_event :
        (poll_at sys server shutdown_fd w).0 ≡ timed_out
        → Idle w (poll_at sys server shutdown_fd w).1
    other_event :
        (s l : ℕ)
        → (poll_at sys server shutdown_fd w).0 ≡ events s l
        → has_pollin s ≡ false
        → has_pollin l ≡ false
        → Idle w (poll_at sys server shutdown_fd w).1
    no_client :
        Waits (poll_at sys server shutdown_fd w).0
        → (sys.accept listener_fd (poll_at sys server shutdown_fd w).1).0 ≡ none
        → Idle w (sys.accept listener_fd (poll_at sys server shutdown_fd w).1).1

  module _ (links : (fd : ℕ) → Takes sys fd) (size : ℕ) where
    -- Who comes to the server, from a world on: in each round nobody, or a client who sends a text of
    -- at most `size` bytes over a connection, which stands open until its close; and what comes then
    -- does not depend on how the client was answered. Then `poll` ends it.
    pub data Traffic : List (Option Bytes) → W → Type 1 where
      over : {w : W} → Ends (poll_at sys server shutdown_fd w).0 → Traffic [] w
      nobody :
          {es : List (Option Bytes)} {w w' : W} → Idle w w' → Traffic es w' → Traffic (none ∷ es) w
      client :
          {es : List (Option Bytes)} {w : W} (t : Bytes) (fd : ℕ) (p : Peer sys fd)
          (d : Delivers sys fd)
          → length t ≤ size
          → Waits (poll_at sys server shutdown_fd w).0
          → (sys.accept listener_fd (poll_at sys server shutdown_fd w).1).0 ≡ some fd
          → ((v : W) → (p.links fd).wire v ≡ (links fd).wire v)
          → p.IsOpen (sys.accept listener_fd (poll_at sys server shutdown_fd w).1).1
          → d.incoming
              (sys.setsockopt fd rcvtimeo 0 10000
                (sys.accept listener_fd (poll_at sys server shutdown_fd w).1).1).1
            ≡ t
          → ((v : W) → p.IsOpen v → Traffic es (sys.close fd v).1)
          → Traffic (some t ∷ es) w
