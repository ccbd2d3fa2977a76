-- ===== src/Tests/Descriptors.antt =====
-- The program on a system that keeps the open descriptors, and reports a shutdown at once.
use lspt_evaluation.Common.{
  ℕ, ◌+◌, ◌<◌, ◌≡◌, refl, true, inl, inr, Bool-cases, List, [], ◌∷◌, Option, none, some, text,
  arith, ◌==◌, if◌then◌else◌, length,
}
use lspt_evaluation.Main.Owned.{ends, program-times_open}
use lspt_evaluation.Main.Signals.{SignalState, set_up_signal_handling}
use lspt_evaluation.Main.{program, read_arguments, defaults, start_logging}
use lspt_evaluation.Server
use lspt_evaluation.Server.{new_server, serve, round, on_events, init}
use lspt_evaluation.Socket.Owned.Open.{Descriptors, one, times_held}
use lspt_evaluation.Socket.Owned.{
  Call, on_send, on_recv, on_reuse_address, on_setsockopt, on_getsockname, on_bind, on_listen,
  on_connect,
}
use lspt_evaluation.Socket.{create, bind, listen, destroy, contains, emplace}
use lspt_evaluation.System.{System, SignalCalls, FileCalls, address, entry, events}
use lspt_evaluation.Tests.Fixtures.{plain_json}
use lspt_evaluation.Worker.{Host}

abbrev without : ℕ → List ℕ → List ℕ
without fd [] = []
without fd (x ∷ xs) = if fd == x then xs else x ∷ without fd xs

abbrev keeper : System (List ℕ)
keeper = record {
  socket = λ w. (some 3, 3 ∷ w);
  close = λ fd w. (true, without fd w);
  send = λ fd b w. (some (length b), w);
  recv = λ fd n w. (none, w);
  reuse_address = λ fd w. (true, w);
  setsockopt = λ fd o s u w. (true, w);
  getsockname = λ fd w. (some 8080, w);
  bind = λ fd q w. (true, w);
  listen = λ fd b w. (true, w);
  accept = λ fd w. (some 5, 5 ∷ w);
  inet_pton = λ ip. address 0;
  connect = λ fd a q w. (true, w);
  getaddrinfo = λ d q w. (entry (text "127.0.0.1"), w);
  poll = λ a b w. (events 1 0, w);
}

times_held-without :
    (n fd : ℕ) (w : List ℕ)
    → 0 < times_held fd w
    → times_held n w ≡ one n fd + times_held n (without fd w)
times_held-without n fd [] h = absurd (omega arith)
times_held-without n fd (x ∷ xs) h = elim (Bool-cases (fd == x)) [
  | inl e ↦ let same : fd ≡ x = ground arith in rw (e, same) refl
  | inr e ↦
      let k = (rw e at h) in
      let h' : 0 < times_held fd xs = omega (arith, k) in
      rw e (omega (arith, times_held-without n fd xs h'))
]

abbrev kept : Descriptors keeper
kept = record {
  times_open = times_held;
  on_call = at_call;
  on_getaddrinfo = λ n d q w. refl;
  on_poll = λ n fd l w. refl;
  no_socket = λ n w e. absurd (some_none e);
  new_socket = λ n fd w e. added n fd 3 w (some_inj e);
  no_client = λ n l w e. absurd (some_none e);
  new_client = λ n l fd w e. added n fd 5 w (some_inj e);
  on_close = times_held-without;
}
  where
    some_none : {i : ℕ} → ◌≡◌ {A = Option ℕ} (some i) none → ⊥
    some_none e = absurd cc

    some_inj : {i j : ℕ} → ◌≡◌ {A = Option ℕ} (some i) (some j) → i ≡ j
    some_inj e = cc

    added : (n fd i : ℕ) (w : List ℕ) → i ≡ fd → times_held n (i ∷ w) ≡ one n fd + times_held n w
    added n fd i w e = rw e refl

    at_call : (n fd : ℕ) (w w' : List ℕ) → Call keeper fd w w' → times_held n w' ≡ times_held n w
    at_call n fd w _ (on_send b) = refl
    at_call n fd w _ (on_recv m) = refl
    at_call n fd w _ on_reuse_address = refl
    at_call n fd w _ (on_setsockopt o s u) = refl
    at_call n fd w _ on_getsockname = refl
    at_call n fd w _ (on_bind q) = refl
    at_call n fd w _ (on_listen b) = refl
    at_call n fd w _ (on_connect a q) = refl

abbrev piped : SignalCalls (List ℕ)
piped = record {
  pipe = λ w. (some (7, 8), 7 ∷ 8 ∷ w);
  atexit = λ w. (true, w);
  sigaction = λ w. (true, w);
  write = λ fd b w. (some (length b), w);
}

abbrev no_files : FileCalls (List ℕ)
no_files = record {
  exists = λ path w. true;
  parent_path = λ path. text "log";
  create_directories = λ path w. w;
  open_append = λ path w. ([], w);
}

abbrev the_signals : SignalState
the_signals = record { shutdown_pipe = (7, 8); at_exit = true }

abbrev nothing_open : Host (List ℕ)
nothing_open = record { net = record { ports_in_use = []; world = [] }; query_id = 0 }

program-times_open_example :
    times_held 7 [] + times_held 7 (ends keeper piped plain_json 9 1 the_signals)
    ≡ times_held 7 (7 ∷ 8 ∷ [])
unfolding program read_arguments set_up_signal_handling init create bind listen contains emplace
    new_server Server.run destroy serve round on_events text
program-times_open_example =
    program-times_open keeper piped plain_json 9 1 kept (text "now") no_files []
      (defaults (start_logging no_files (text "now") [] []).0) true the_signals (7 ∷ 8 ∷ [])
      nothing_open nothing_open 0 refl refl refl (λ n. omega arith) refl 7
