-- ===== src/Main/Owned.antt =====
-- The descriptors of the whole program of Code/evaluation/src/main.cpp, from the shutdown pipe to its
-- end.
use lspt_evaluation.Common.{
  ℕ, ◌+◌, ◌≤◌, arith, ◌≡◌, refl, sym, subst, Bool, true, not, [], ◌∷◌, List, some, Bytes, ok,
  Leaves, leaves, Leaves-ok, >>=-Leaves, if-Leaves,
}
use lspt_evaluation.Json.{JsonLibrary}
use lspt_evaluation.Main.Signals.{
  SignalState, no_signals, set_up_signal_handling, close_shutdown_pipe, run_at_exit,
}
use lspt_evaluation.Main.{
  Argument, Options, read_arguments, defaults, start_logging, start_server, main_after, main,
  program,
}
use lspt_evaluation.Server.Owned.{run-Owned}
use lspt_evaluation.Server.{new_server}
use lspt_evaluation.Socket.Owned.Methods.{destroy-Owned}
use lspt_evaluation.Socket.Owned.Open.{Descriptors, times_held, Owned-times_open}
use lspt_evaluation.Socket.Owned.{Owned, begin, closing}
use lspt_evaluation.System.{System, SignalCalls, FileCalls}
use lspt_evaluation.Worker.{Host}
use mathlib.Core.List.Memᴰ.{head}

module _ {W J : Type 0} (sys : System W) (calls : SignalCalls W) (json : JsonLibrary J)
    (fuel rounds : ℕ) where
  -- Both ends of the pipe, the reading end last opened.
  abbrev pub ends : SignalState → List ℕ
  ends signals = signals.shutdown_pipe.0 ∷ signals.shutdown_pipe.1 ∷ []

  -- The signals are as they were set up, and what was held then is held.
  abbrev Back : SignalState → W → ℕ × SignalState × Host W → Type 0
  Back signals w q = (q.1 ≡ signals) × Owned sys (ends signals) w (ends signals) q.2.net.world

  start_server-Back :
      (o : Options) (signals : SignalState) (host : Host W)
      → Leaves
          (Back signals host.net.world)
          (start_server sys calls json fuel rounds o signals host)
  unfolding start_server
  start_server-Back o signals host =
      let w = host.net.world in
      >>=-Leaves _ (Back signals w)
        (run-Owned sys json fuel (ends signals) w signals.shutdown_pipe.0 (ends signals) (head refl)
          rounds (new_server o.listener_port o.backlog_size) host begin)
        (λ q h. leaves _ (refl, destroy-Owned sys (ends signals) w q.1.listener_socket q.2.net h))

  main_after-Back :
      (o : Options) (before : SignalState) (host : Host W) (done : Bool) (signals : SignalState)
      (w : W)
      → set_up_signal_handling sys calls before host.net.world ≡ (done, signals, w)
      → Leaves (Back signals w) (main_after sys calls json fuel rounds (some o) before host)
  unfolding main_after
  main_after-Back o before host done signals w e =
      rw e (if-Leaves _ (not done) (leaves _ (refl, begin)) (start_server-Back o signals _))

  run_at_exit-Owned :
      (t signals : SignalState) (w0 w : W)
      → t ≡ signals
      → signals.at_exit ≡ true
      → Owned sys (ends signals) w0 (ends signals) w
      → Owned sys (ends signals) w0 [] (run_at_exit sys calls t w)
  unfolding run_at_exit close_shutdown_pipe
  run_at_exit-Owned t signals w0 w e registered h =
      subst (λ u. Owned sys (ends signals) w0 [] (run_at_exit sys calls u w)) (sym e)
        (rw (run_at_exit, registered) (closing (closing h)))

  -- Where the command line is accepted, and the pipe and its clean-up are set up, the program
  -- closes the pipe and every descriptor of a socket that it gets from then on, on every path on
  -- which it ends: whichever calls fail, and whatever clients send. It calls the system only with
  -- descriptors that it holds at that time, closes each once, the one opened last first, and holds
  -- none at its end.
  pub program-Owned :
      (now : Bytes) (files : FileCalls W) (arguments : List Argument) (o : Options) (done : Bool)
      (signals : SignalState) (w : W) (host host' : Host W) (status : ℕ)
      → read_arguments now (defaults (start_logging files now [] host.net.world).0) arguments
        ≡ some o
      → set_up_signal_handling sys calls no_signals (start_logging files now [] host.net.world).1
        ≡ (done, signals, w)
      → signals.at_exit ≡ true
      → program sys calls json fuel rounds now files arguments host ≡ ok (status, host')
      → Owned sys (ends signals) w [] host'.net.world
  unfolding program main
  program-Owned now files arguments o done signals w host host' status accepted set_up registered
        ended =
      let start = record host {
        net = record host.net { world = (start_logging files now [] host.net.world).1 };
      } in
      let whole : Leaves (Back signals w)
          (main sys calls json fuel rounds now files arguments host) =
        subst
          (λ r. Leaves (Back signals w) (main_after sys calls json fuel rounds r no_signals start))
          (sym accepted) (main_after-Back o no_signals start done signals w set_up) in
      Leaves-ok (λ (q : ℕ × Host W). Owned sys (ends signals) w [] q.1.net.world) (status, host')
        (>>=-Leaves (Back signals w)
          (λ (q : ℕ × Host W). Owned sys (ends signals) w [] q.1.net.world) whole
          (λ q h. leaves _ (run_at_exit-Owned q.1 signals w q.2.net.world h.0 registered h.1)))
        ended

  -- However the system keeps its open descriptors, where `socket` and `accept` open the one that
  -- they give, `close` of an open one closes it, whatever it answers, and no other call opens or
  -- closes any: where the command line is accepted, and the pipe and its clean-up are set up, each
  -- descriptor is open at the end of the program as often as it was when the pipe had been made,
  -- less the two ends of the pipe, which were open then; on every path on which the program ends.
  pub program-times_open :
      (d : Descriptors sys) (now : Bytes) (files : FileCalls W) (arguments : List Argument)
      (o : Options) (done : Bool) (signals : SignalState) (w : W) (host host' : Host W) (status : ℕ)
      → read_arguments now (defaults (start_logging files now [] host.net.world).0) arguments
        ≡ some o
      → set_up_signal_handling sys calls no_signals (start_logging files now [] host.net.world).1
        ≡ (done, signals, w)
      → signals.at_exit ≡ true
      → ((n : ℕ) → times_held n (ends signals) ≤ d.times_open n w)
      → program sys calls json fuel rounds now files arguments host ≡ ok (status, host')
      → (n : ℕ) → d.times_open n host'.net.world + times_held n (ends signals) ≡ d.times_open n w
  program-times_open d now files arguments o done signals w host host' status accepted set_up
        registered are_open ended n =
      let way =
        program-Owned now files arguments o done signals w host host' status accepted set_up
          registered ended in
      omega (arith, Owned-times_open sys d (ends signals) w are_open [] host'.net.world way n)
