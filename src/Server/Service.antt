-- ===== src/Server/Service.antt =====
-- One round of the server's loop for a client that waits: the whole way from `poll` to the close.
use lspt_evaluation.Common.{
  ℕ, ◌<◌, ◌≡◌, Option, some, ok, Bytes, take, ◌++◌, Outcome, empty_back, Finishes,
}
use lspt_evaluation.Http.Parser.{parse_request}
use lspt_evaluation.Http.{HttpRequest, HttpResponse, response_to_string}
use lspt_evaluation.Json.{JsonLibrary}
use lspt_evaluation.Server.Loop.{behind_poll}
use lspt_evaluation.Server.{HttpServer, Round, next_round}
use lspt_evaluation.Socket.Peer.{Peer}
use lspt_evaluation.Socket.{of_fd, accept}
use lspt_evaluation.Stream.Cursor.{Cursor, start, text_reader}
use lspt_evaluation.Stream.Follows.{Delivers}
use lspt_evaluation.System.{System}
use lspt_evaluation.Text.{uint_mod}
use lspt_evaluation.Worker.Answer.{ready}
use lspt_evaluation.Socket.Peer.Sends.{GoesOut}
use lspt_evaluation.Worker.Expected.{expected}
use lspt_evaluation.Worker.Service.Limits.{ShortDumps, Refuses, message_room}
use lspt_evaluation.Worker.{Host}
use lspt_evaluation.Worker

module _ {W J : Type 0} (sys : System W) (json : JsonLibrary J) (fuel : ℕ) (fd : ℕ)
    (p : Peer sys fd) (room size : ℕ) (dumps : ShortDumps json room)
    (fits : message_room room size < uint_mod) (fuelled : message_room room size < fuel)
    (d : Delivers sys fd) where
  -- The text that a client sends, as it stands when the worker begins to read.
  abbrev pub text_of : Host W → Bytes
  text_of host = d.incoming (ready sys json fuel (of_fd fd) host).2.world

  -- Behind what was on the client's wire there is the response to the client's text and nothing
  -- else, the whole of it or what went out until the system refused the rest; and the last call
  -- closed the connection, which was open.
  abbrev pub Served : Host W → Round × Host W → Type 0
  Served host q =
      (q.0 ≡ next_round)
      × ((o : Option HttpRequest) × (c : Cursor) × (parse_request text_reader fuel
              (start (text_of host))
            ≡ ok (o, c))
          × (r : HttpResponse) × (expected json o host.query_id ≡ some r)
          × (k : ℕ) × GoesOut sys fd (p.links fd) ((p.links fd).wire host.net.world)
              (response_to_string r) k
          × ((p.links fd).wire q.1.net.world
              ≡ (p.links fd).wire host.net.world ++ take k (response_to_string r)))
      × ((w : W) × p.IsOpen w × (q.1.net.world ≡ (sys.close fd w).1))

  abbrev pub ServesOne : Host W → Outcome (Round × Host W) → Type 0
  ServesOne host out =
      Finishes (parse_request text_reader fuel (start (text_of host)) ≡ empty_back) (Refuses json)
        (Served host) out

  module _ (shutdown_fd listener_fd : ℕ) (server : HttpServer) where
    -- The state behind `poll` and `accept`.
    abbrev pub accepted : Host W → Host W
    accepted host =
        let h = behind_poll sys json fuel shutdown_fd server host in
        record h { net = record h.net { world = (sys.accept listener_fd h.net.world).1 } }
