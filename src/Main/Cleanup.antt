-- ===== src/Main/Cleanup.antt =====
-- What the program closes at its exit.
use lspt_evaluation.Common.{
  ℕ, ◌≡◌, refl, sym, ap, subst, ◌∙◌, Bool, true, not, [], List, some, Bytes, Outcome, ok, Leaves,
  leaves, Leaves-any, Leaves-ok, >>=-Leaves, if-Leaves,
}
use lspt_evaluation.Json.{JsonLibrary}
use lspt_evaluation.Main.Signals.{
  SignalState, no_signals, set_up_signal_handling, close_shutdown_pipe, run_at_exit,
}
use lspt_evaluation.Main.{
  Argument, Options, read_arguments, defaults, start_logging, start_server, main_after, main,
  program, exit_status,
}
use lspt_evaluation.Server
use lspt_evaluation.Server.{HttpServer, new_server}
use lspt_evaluation.Socket.{destroy}
use lspt_evaluation.System.{System, SignalCalls, FileCalls}
use lspt_evaluation.Worker.{Host}

module _ {W J : Type 0} (sys : System W) (calls : SignalCalls W) (json : JsonLibrary J)
    (fuel rounds : ℕ) where
  -- Where the call ends, it gives the signals as they were set up.
  abbrev KeepsSignals : SignalState → Outcome (ℕ × SignalState × Host W) → Type 0
  KeepsSignals signals out = Leaves (λ (q : ℕ × SignalState × Host W). q.1 ≡ signals) out

  start_server-KeepsSignals :
      (o : Options) (signals : SignalState) (host : Host W)
      → KeepsSignals signals (start_server sys calls json fuel rounds o signals host)
  unfolding start_server
  start_server-KeepsSignals o signals host =
      >>=-Leaves _ (λ (q : ℕ × SignalState × Host W). q.1 ≡ signals)
        (Leaves-any (
          Server.run sys json fuel rounds signals.shutdown_pipe.0
            (new_server o.listener_port o.backlog_size) host))
        (λ (result, server, h) _.
          leaves
            (
              exit_status sys calls json fuel rounds result,
              signals,
              record h { net = destroy sys server.listener_socket h.net },
            )
            refl)

  main_after-KeepsSignals :
      (o : Options) (before : SignalState) (host : Host W)
      → KeepsSignals
          (set_up_signal_handling sys calls before host.net.world).1
          (main_after sys calls json fuel rounds (some o) before host)
  unfolding main_after
  main_after-KeepsSignals o before host =
      if-Leaves _ (not (set_up_signal_handling sys calls before host.net.world).0) (leaves _ refl)
        (start_server-KeepsSignals o _ _)

  run_at_exit-closes :
      (t signals : SignalState) (w : W)
      → t ≡ signals
      → signals.at_exit ≡ true
      → run_at_exit sys calls t w
        ≡ (sys.close signals.shutdown_pipe.1 (sys.close signals.shutdown_pipe.0 w).1).1
  unfolding run_at_exit close_shutdown_pipe
  run_at_exit-closes t signals w e registered =
      ap (λ (x : SignalState). run_at_exit sys calls x w) e ∙ rw (run_at_exit, registered) refl

  -- Where the command line is accepted, and the pipe and its clean-up are set up, both ends of the
  -- pipe are closed at the end of the program, the reading end first and behind everything else:
  -- on every path on which it ends, the failures of `sigaction` and of the server included.
  pub program-close_shutdown_pipe :
      (now : Bytes) (files : FileCalls W) (arguments : List Argument) (o : Options) (done : Bool)
      (signals : SignalState) (w : W) (host host' : Host W) (status : ℕ)
      → read_arguments now (defaults (start_logging files now [] host.net.world).0) arguments
        ≡ some o
      → set_up_signal_handling sys calls no_signals (start_logging files now [] host.net.world).1
        ≡ (done, signals, w)
      → signals.at_exit ≡ true
      → program sys calls json fuel rounds now files arguments host ≡ ok (status, host')
      → (w0 : W) × (host'.net.world
          ≡ (sys.close signals.shutdown_pipe.1 (sys.close signals.shutdown_pipe.0 w0).1).1)
  unfolding program main
  program-close_shutdown_pipe now files arguments o done signals w host host' status accepted set_up
        registered ended =
      let Closed = λ (q : ℕ × Host W).
        (w0 : W) × (q.1.net.world
          ≡ (sys.close signals.shutdown_pipe.1 (sys.close signals.shutdown_pipe.0 w0).1).1) in
      let start = record host {
        net = record host.net { world = (start_logging files now [] host.net.world).1 };
      } in
      let kept : KeepsSignals signals
          (main_after sys calls json fuel rounds (some o) no_signals start) =
        subst
          (λ t. KeepsSignals t (main_after sys calls json fuel rounds (some o) no_signals start))
          (ap (λ (x : Bool × SignalState × W). x.1) set_up)
          (main_after-KeepsSignals o no_signals start) in
      let whole : KeepsSignals signals (main sys calls json fuel rounds now files arguments host) =
        subst (λ r. KeepsSignals signals (main_after sys calls json fuel rounds r no_signals start))
          (sym accepted) kept in
      Leaves-ok Closed (status, host')
        (>>=-Leaves (λ (q : ℕ × SignalState × Host W). q.1 ≡ signals) Closed whole
          (λ q e.
            leaves _ (q.2.net.world, run_at_exit-closes q.1 signals q.2.net.world e registered)))
        ended
