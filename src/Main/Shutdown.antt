-- ===== src/Main/Shutdown.antt =====
-- How SIGINT ends the server: the handler writes to the pipe, and the loop's next `poll` sees it.
use lspt_evaluation.Common.{
  ℕ, suc, ◌<◌, ◌≡◌, refl, ◌⊎◌, inl, inr, Bool, true, false, [], ◌∷◌, Option, some, Bytes, length,
  arith, ok,
}
use lspt_evaluation.Json.{JsonLibrary}
use lspt_evaluation.Main.Signals.{SignalState, sigint, signal_handler}
use lspt_evaluation.Server.{HttpServer, has_pollin, round, on_events, serve}
use lspt_evaluation.System.{System, SignalCalls, poll_error, events}
use lspt_evaluation.Worker.{Host}

-- What is assumed of a pipe. A `write` that may block leaves input in it; and while there is input, a
-- call of `poll` reports it at the reading end, or is interrupted.
pub record Pipe {W : Type 0} (sys : System W) (calls : SignalCalls W) (fds : ℕ × ℕ) : Type 1 where
  pub HasInput : W → Type 0
  pub writes : (b : Bytes) (w : W) → 0 < length b → HasInput (calls.write fds.1 b w).1
  pub polls :
      (listener : Option ℕ) (w : W)
      → HasInput w
      → ((sys.poll (some fds.0) listener w).0 ≡ poll_error)
        ⊎ ((s : ℕ) × (l : ℕ) × ((sys.poll (some fds.0) listener w).0 ≡ events s l)
            × (has_pollin s ≡ true))

module _ {W J : Type 0} (sys : System W) (calls : SignalCalls W) (json : JsonLibrary J) (fuel : ℕ)
    (signals : SignalState) (pipe : Pipe sys calls signals.shutdown_pipe) where
  -- Host with another world.
  abbrev pub with_world : Host W → W → Host W
  with_world host w = record host { net = record host.net { world = w } }

  -- The state when the handler of SIGINT has run.
  abbrev pub interrupted : Host W → Host W
  interrupted host = with_world host (signal_handler sys calls sigint signals host.net.world)

  -- That behind the next call of `poll`.
  abbrev pub polled_once : HttpServer → Host W → Host W
  polled_once server host =
      with_world host
        (sys.poll (some signals.shutdown_pipe.0) server.listener_socket.socket
          (interrupted host).net.world).1

  -- Once the handler of SIGINT has run, the server's loop ends in its next round, behind one call
  -- of `poll`, and accepts nobody: with true, or with false where that call was interrupted.
  pub serve-sigint :
      (rounds : ℕ) (server : HttpServer) (host : Host W)
      → (b : Bool) × (serve sys json fuel
            (suc rounds)
            signals.shutdown_pipe.0
            server
            (interrupted host)
          ≡ ok (b, polled_once server host))
        × ((b ≡ false)
            → (sys.poll
                (some signals.shutdown_pipe.0)
                server.listener_socket.socket
                (interrupted host).net.world).0
              ≡ poll_error)
  unfolding serve round on_events signal_handler
  serve-sigint rounds server host =
      let full = pipe.writes (b'1' ∷ []) host.net.world (omega arith) in
      elim (pipe.polls server.listener_socket.socket _ full) [
        | inl e ↦ (false, rw e refl, λ _. e)
        | inr (s, l, e, has) ↦ (true, rw (e, has) refl, λ q. absurd cc)
      ]
