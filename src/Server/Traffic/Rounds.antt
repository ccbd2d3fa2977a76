-- ===== src/Server/Traffic/Rounds.antt =====
-- Single rounds of the server's loop, by what `poll` and `accept` tell.
use lspt_evaluation.Common.{
  ℕ, ◌≡◌, refl, Bool, true, false, none, some, Bytes, if◌then◌else◌, Outcome, ok,
}
use lspt_evaluation.Json.{JsonLibrary}
use lspt_evaluation.Server.{
  HttpServer, Round, shut_down, failed, next_round, serve_client, on_events, round,
}
use lspt_evaluation.Socket.{Net, of_fd, accept, set_timeout}
use lspt_evaluation.System.{System, Polled, rcvtimeo}
use lspt_evaluation.Worker.Answer.{ready}
use lspt_evaluation.Worker.{Host}
use lspt_evaluation.Server.Traffic.{
  poll_at, Ends, by_error, by_shutdown, Waits, waits, Idle, no_event, other_event, no_client,
}

module _ {W J : Type 0} (sys : System W) (json : JsonLibrary J) (fuel : ℕ) (server : HttpServer)
    (shutdown_fd listener_fd : ℕ)
    (listening : server.listener_socket.socket ≡ some listener_fd) where
  abbrev pub one_round : Host W → Outcome (Round × Host W)
  one_round host = round sys json fuel shutdown_fd server host

  -- The world behind `poll` and `accept`.
  abbrev pub behind_accept : Host W → W
  behind_accept host = (sys.accept listener_fd (poll_at sys server shutdown_fd host.net.world).1).1

  -- The state at another world.
  abbrev pub at_world : Host W → W → Host W
  at_world host w = record host { net = record host.net { world = w } }

  pub round-Ends :
      (host : Host W)
      → Ends (poll_at sys server shutdown_fd host.net.world).0
      → (b : Bool) × (one_round host
          ≡ ok (
            if b then shut_down else failed,
            at_world host (poll_at sys server shutdown_fd host.net.world).1,
          ))
  unfolding round on_events
  round-Ends host x = go _ refl x
    where
      go :
          (p : Polled)
          → (poll_at sys server shutdown_fd host.net.world).0 ≡ p
          → Ends p
          → (b : Bool) × (one_round host
              ≡ ok (
                if b then shut_down else failed,
                at_world host (poll_at sys server shutdown_fd host.net.world).1,
              ))
      go _ e by_error = (false, rw e refl)
      go _ e (by_shutdown s l has) = (true, rw (e, has) refl)

  accept-nobody :
      (net : Net W)
      → (sys.accept listener_fd net.world).0 ≡ none
      → accept sys server.listener_socket net
        ≡ (none, record net { world = (sys.accept listener_fd net.world).1 })
  unfolding accept
  accept-nobody net e = rw (accept, listening, e) refl

  -- A round without a client goes on, and only the world has changed.
  pub round-Idle :
      (host : Host W) (w : W)
      → Idle sys server shutdown_fd listener_fd host.net.world w
      → one_round host ≡ ok (next_round, at_world host w)
  unfolding round on_events serve_client
  round-Idle host w (no_event e) = rw e refl
  round-Idle host w (other_event s l e quiet empty) = rw (e, quiet, empty) refl
  round-Idle host w (no_client x none_came) = go _ refl x
    where
      go :
          (p : Polled)
          → (poll_at sys server shutdown_fd host.net.world).0 ≡ p
          → Waits p
          → one_round host ≡ ok (next_round, at_world host (behind_accept host))
      go _ e (waits s l quiet full) =
          rw
            (
              e,
              accept-nobody (at_world host (poll_at sys server shutdown_fd host.net.world).1).net
                  none_came,
              quiet,
              full,
            )
            refl

  -- The text of a client, when the worker begins to read.
  pub incoming-ready :
      (incoming : W → Bytes) (host : Host W) (fd : ℕ)
      → incoming (ready sys json fuel (of_fd fd) host).2.world
        ≡ incoming (sys.setsockopt fd rcvtimeo 0 10000 host.net.world).1
  unfolding set_timeout
  incoming-ready incoming host fd = refl
