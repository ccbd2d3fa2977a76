-- ===== src/Server/Traffic/Attended.antt =====
-- The server's loop over a whole sequence of clients.
use lspt_evaluation.Common.{
  ℕ, ◌<◌, ◌≡◌, Bool, List, [], ◌∷◌, ◌++◌, Option, none, some, Bytes, take, if◌then◌else◌, Outcome,
  ok, empty_back, Finishes,
}
use lspt_evaluation.Http.Parser.{parse_request}
use lspt_evaluation.Http.{HttpRequest, HttpResponse, response_to_string}
use lspt_evaluation.Json.{JsonLibrary}
use lspt_evaluation.Server.{HttpServer, Round, shut_down, failed, next_round}
use lspt_evaluation.Socket.Peer.{Peer}
use lspt_evaluation.Socket.Sending.{Takes}
use lspt_evaluation.Stream.Cursor.{Cursor, start, text_reader}
use lspt_evaluation.System.{System}
use lspt_evaluation.Text.{uint_mod}
use lspt_evaluation.Worker.Bounds.{CountsUint}
use lspt_evaluation.Socket.Peer.Sends.{GoesOut}
use lspt_evaluation.Worker.Expected.{expected}
use lspt_evaluation.Worker.Service.Limits.{ShortDumps, Refuses, message_room}
use lspt_evaluation.Worker.{Host}
use mathlib.Core.List.{Memᴰ}
use lspt_evaluation.Server.Traffic.{poll_at, Traffic}
use lspt_evaluation.Server.Traffic.Rounds

module _ {W J : Type 0} (sys : System W) (json : JsonLibrary J) (fuel room size : ℕ)
    (dumps : ShortDumps json room) (fits : message_room room size < uint_mod)
    (fuelled : message_room room size < fuel) (links : (fd : ℕ) → Takes sys fd)
    (server : HttpServer) (shutdown_fd listener_fd : ℕ)
    (listening : server.listener_socket.socket ≡ some listener_fd) where
  abbrev one_round : Host W → Outcome (Round × Host W)
  one_round host = Rounds.one_round sys json fuel server shutdown_fd listener_fd listening host

  abbrev behind_accept : Host W → W
  behind_accept host =
      Rounds.behind_accept sys json fuel server shutdown_fd listener_fd listening host

  -- How a sequence is attended to: each client by one round, in which the response to its text goes
  -- to the wire of the connection that `accept` gave, and nothing else: the whole of it, or what
  -- went out until the system refused the rest.
  pub data Attended : List (Option Bytes) → Host W → Bool × Host W → Type 0 where
    ended :
        {host host' : Host W} (b : Bool)
        → one_round host ≡ ok (if b then shut_down else failed, host')
        → Attended [] host (b, host')
    passed :
        {es : List (Option Bytes)} {host host' : Host W} {q : Bool × Host W}
        → one_round host ≡ ok (next_round, host')
        → Attended es host' q
        → Attended (none ∷ es) host q
    answered :
        {es : List (Option Bytes)} {host host' : Host W} {q : Bool × Host W} (t : Bytes) (fd : ℕ)
        (o : Option HttpRequest) (c : Cursor) (r : HttpResponse) (k : ℕ)
        → (sys.accept listener_fd (poll_at sys server shutdown_fd host.net.world).1).0 ≡ some fd
        → one_round host ≡ ok (next_round, host')
        → parse_request text_reader fuel (start t) ≡ ok (o, c)
        → expected json o host.query_id ≡ some r
        → GoesOut sys fd (links fd) ((links fd).wire (behind_accept host)) (response_to_string r) k
        → (links fd).wire host'.net.world
          ≡ (links fd).wire (behind_accept host) ++ take k (response_to_string r)
        → Attended es host' q
        → Attended (some t ∷ es) host q

  -- The parser meets an empty line in the text of one of the clients.
  abbrev pub HasEmptyLine : List (Option Bytes) → Type 0
  HasEmptyLine es =
      (t : Bytes) × Memᴰ (some t) es × (parse_request text_reader fuel (start t) ≡ empty_back)

  abbrev Ending : List (Option Bytes) → Host W → Outcome (Bool × Host W) → Type 0
  Ending es host out = Finishes (HasEmptyLine es) (Refuses json) (Attended es host) out

  -- What a client's round leaves behind.
  record Answer (host : Host W) (t : Bytes) (fd : ℕ) (p : Peer sys fd) (q : Round × Host W)
      : Type 0 where
    goes : q.0 ≡ next_round
    request : Option HttpRequest
    rest : Cursor
    response : HttpResponse
    front : ℕ
    parsed : parse_request text_reader fuel (start t) ≡ ok (request, rest)
    is_expected : expected json request host.query_id ≡ some response
    out :
        GoesOut sys fd
          (links fd)
          ((links fd).wire (behind_accept host))
          (response_to_string response)
          front
    sent :
        (links fd).wire q.1.net.world
        ≡ (links fd).wire (behind_accept host) ++ take front (response_to_string response)
    before : W
    still_open : p.IsOpen before
    at : q.1.net.world ≡ (sys.close fd before).1
    counter : CountsUint q.1
