-- ===== src/Main/Signals.antt =====
-- The shutdown pipe and the signal handler of Code/evaluation/src/main.cpp.
use lspt_evaluation.Common.{ℕ, Bool, false, [], ◌∷◌, none, some, ◌==◌, if◌then◌else◌}
use lspt_evaluation.System.{System, SignalCalls}

-- SIGINT of <csignal>.
abbrev pub sigint : ℕ
sigint = 2

-- The static `shutdown_pipe`, its reading end first, and whether `close_shutdown_pipe` is registered
-- to run at the program's exit.
pub record SignalState : Type 0 where
  pub shutdown_pipe : ℕ × ℕ
  pub at_exit : Bool

-- At the start of the program.
abbrev pub no_signals : SignalState
no_signals = record { shutdown_pipe = (0, 0); at_exit = false }

module _ {W : Type 0} (sys : System W) (calls : SignalCalls W) where
  -- The results of both `close` are only logged.
  unfoldable pub close_shutdown_pipe : SignalState → W → W
  close_shutdown_pipe signals w =
      let (closed, w1) = sys.close signals.shutdown_pipe.0 w in
      (sys.close signals.shutdown_pipe.1 w1).1

  unfoldable pub signal_handler : ℕ → SignalState → W → W
  signal_handler signum signals w =
      if signum == sigint then (calls.write signals.shutdown_pipe.1 (b'1' ∷ []) w).1 else w

  -- A failing `atexit` is only logged.
  unfoldable pub set_up_signal_handling : SignalState → W → Bool × SignalState × W
  set_up_signal_handling signals w =
      let (made, w1) = calls.pipe w in
      elim made [
        | none ↦ (false, signals, w1)
        | some fds ↦
            let (registered, w2) = calls.atexit w1 in
            let (handled, w3) = calls.sigaction w2 in
            (handled, record { shutdown_pipe = fds; at_exit = registered }, w3)
      ]

  -- What `exit` runs behind `main`.
  unfoldable pub run_at_exit : SignalState → W → W
  unfolding close_shutdown_pipe
  run_at_exit signals w = if signals.at_exit then close_shutdown_pipe signals w else w
