-- ===== src/Server.antt =====
-- The class HTTPServer of Code/evaluation/src/HTTPServer.h and HTTPServer.cpp: the listener, and the
-- loop that polls it together with the shutdown pipe. `m_handlers` is used by nothing and left out.
pub mod Bounds
pub mod Loop
pub mod Owned
pub mod Ready
pub mod Service
pub mod Traffic
use lspt_evaluation.Common.{
  ℕ, zero, suc, ◌%◌, Bool, true, false, not, Option, none, some, ◌==◌, if◌then◌else◌, Outcome, ok,
  no_fuel, ◌>>=◌,
}
use lspt_evaluation.Common.Int.{ℤ}
use lspt_evaluation.Json.{JsonLibrary}
use lspt_evaluation.Socket.{TcpSocket, Net, closed, create, bind, listen, accept, destroy}
use lspt_evaluation.System.{System, Polled, poll_error, timed_out, events}
use lspt_evaluation.Worker.{Host}
use lspt_evaluation.Worker

pub record HttpServer : Type 0 where
  pub listener_port : ℕ
  pub backlog_size : ℤ
  pub listener_socket : TcpSocket

-- The constructor.
unfoldable pub new_server : ℕ → ℤ → HttpServer
new_server port backlog = record {
  listener_port = port;
  backlog_size = backlog;
  listener_socket = closed;
}

-- `(static_cast<uint8_t>(revents) & static_cast<uint8_t>(POLLIN)) != 0`, POLLIN being 1.
abbrev pub has_pollin : ℕ → Bool
has_pollin revents = not (revents % 256 % 2 == 0)

-- How one round of the loop ends: by `return true`, by `return false`, or by the next round.
pub data Round : Type 0 where
  shut_down failed next_round : Round

module _ {W J : Type 0} (sys : System W) (json : JsonLibrary J) (fuel : ℕ) where
  unfoldable pub init : HttpServer → Net W → Bool × HttpServer × Net W
  init server net =
      let (made, sock, net1) = create sys server.listener_socket net in
      let (bound, net2) = bind sys sock server.listener_port net1 in
      let (listening, net3) = listen sys sock server.backlog_size net2 in
      let server' = record server { listener_socket = sock } in
      if not made
      then (false, server', net1)
      else if not bound
      then (false, server', net2)
      else (listening, server', net3)

  -- A client is answered by a worker. At the end the worker's socket is closed, and the one that it
  -- was moved from has nothing to close.
  unfoldable pub serve_client : Option TcpSocket → Host W → Outcome (Round × Host W)
  unfolding Worker.new_worker
  serve_client none host = ok (next_round, host)
  serve_client (some client) host = do
    let (worker, left) = Worker.new_worker client
    (sock, host') ← Worker.run sys json fuel worker.socket host
    let net = destroy sys sock host'.net
    ok (next_round, record host' { net = destroy sys left net })

  unfoldable pub on_events : HttpServer → Polled → Host W → Outcome (Round × Host W)
  unfolding serve_client
  on_events server poll_error host = ok (failed, host)
  on_events server timed_out host = ok (next_round, host)
  on_events server (events shutdown listener) host =
      let (client, net) = accept sys server.listener_socket host.net in
      if has_pollin shutdown
      then ok (shut_down, host)
      else if not (has_pollin listener)
      then ok (next_round, host)
      else serve_client client (record host { net = net })

  -- One round of `while (true)`.
  unfoldable pub round : ℕ → HttpServer → Host W → Outcome (Round × Host W)
  unfolding on_events
  round shutdown_fd server host =
      let (polled, w) = sys.poll (some shutdown_fd) server.listener_socket.socket host.net.world in
      on_events server polled (record host { net = record host.net { world = w } })

  abbrev pub after_round :
      (Host W → Outcome (Bool × Host W)) → Round × Host W → Outcome (Bool × Host W)
  after_round again (shut_down, host) = ok (true, host)
  after_round again (failed, host) = ok (false, host)
  after_round again (next_round, host) = again host

  -- The loop, for at most so many rounds.
  unfoldable pub serve : ℕ → ℕ → HttpServer → Host W → Outcome (Bool × Host W)
  unfolding round
  serve zero shutdown_fd server host = no_fuel
  serve (suc rounds) shutdown_fd server host = do
    r ← round shutdown_fd server host
    after_round (serve rounds shutdown_fd server) r

  -- `run`. Where `init` fails, EXIT_FAILURE is returned as a `bool`, and it is 1.
  unfoldable pub run : ℕ → ℕ → HttpServer → Host W → Outcome (Bool × HttpServer × Host W)
  unfolding init serve
  run rounds shutdown_fd server host =
      let (ready, server', net) = init server host.net in
      if not ready then ok (true, server', record host { net = net }) else (do
        (result, host') ← serve rounds shutdown_fd server' (record host { net = net })
        ok (result, server', host'))
