-- ===== src/Server/Bounds.antt =====
-- The counter of query ids over a round of the server's loop.
use lspt_evaluation.Common.{ℕ, not, Option, none, some, Leaves, leaves, >>=-Leaves, if-Leaves}
use lspt_evaluation.Json.{JsonLibrary}
use lspt_evaluation.Server.{HttpServer, Round, has_pollin, serve_client, on_events, round}
use lspt_evaluation.Socket.{TcpSocket, accept}
use lspt_evaluation.System.{System, Polled, poll_error, timed_out, events}
use lspt_evaluation.Worker.Bounds.{CountsUint, run-CountsUint}
use lspt_evaluation.Worker.{Host}
use lspt_evaluation.Worker

module _ {W J : Type 0} (sys : System W) (json : JsonLibrary J) (fuel shutdown_fd : ℕ)
    (server : HttpServer) where
  serve_client-CountsUint :
      (client : Option TcpSocket) (host : Host W)
      → CountsUint host
      → Leaves (λ (q : Round × Host W). CountsUint q.1) (serve_client sys json fuel client host)
  unfolding serve_client Worker.new_worker
  serve_client-CountsUint none host h = leaves _ h
  serve_client-CountsUint (some client) host h =
      >>=-Leaves _ _ (run-CountsUint sys json fuel client host h) (λ q k. leaves _ k)

  on_events-CountsUint :
      (polled : Polled) (host : Host W)
      → CountsUint host
      → Leaves (λ (q : Round × Host W). CountsUint q.1) (on_events sys json fuel server polled host)
  unfolding on_events
  on_events-CountsUint poll_error host h = leaves _ h
  on_events-CountsUint timed_out host h = leaves _ h
  on_events-CountsUint (events s l) host h = if-Leaves _ (has_pollin s) (leaves _ h) (
      if-Leaves _ (not (has_pollin l)) (leaves _ h)
        (serve_client-CountsUint (accept sys server.listener_socket host.net).0 _ h))

  pub round-CountsUint :
      (host : Host W)
      → CountsUint host
      → Leaves
          (λ (q : Round × Host W). CountsUint q.1)
          (round sys json fuel shutdown_fd server host)
  unfolding round
  round-CountsUint host h =
      let polled = sys.poll (some shutdown_fd) server.listener_socket.socket host.net.world in
      on_events-CountsUint polled.0 (record host { net = record host.net { world = polled.1 } }) h
