-- ===== src/System.antt =====
-- What the sources take from the operating system: sockets, `poll` and name resolution. The
-- system is a parameter of the model. A call takes the state of the outside world and gives its
-- result with the new state; a descriptor of -1, an error, is `none`.
use lspt_evaluation.Common.{ℕ, Bool, Option, Bytes}
use lspt_evaluation.Common.Int.{ℤ}

-- The `option` argument of a timeout's `setsockopt`, at the two values that the sources use.
pub data TimeoutOption : Type 0 where
  rcvtimeo sndtimeo : TimeoutOption

-- What `inet_pton` answers: 1 with an address, 0, or -1.
pub data ParsedAddress : Type 0 where
  address : ℕ → ParsedAddress
  not_an_address : ParsedAddress
  unsupported : ParsedAddress

-- What `getaddrinfo` answers: a status other than 0, no entry, or the first entry as `inet_ntop`
-- writes it.
pub data Lookup : Type 0 where
  lookup_error : Lookup
  no_entry : Lookup
  entry : Bytes → Lookup

-- What `poll` answers over two descriptors: -1, 0, or a count with both `revents`.
pub data Polled : Type 0 where
  poll_error : Polled
  timed_out : Polled
  events : ℕ → ℕ → Polled

-- `reuse_address` is `setsockopt` with SO_REUSEADDR, and `getsockname` gives the local port.
pub record System (W : Type 0) : Type 0 where
  pub socket : W → Option ℕ × W
  pub close : ℕ → W → Bool × W
  pub send : ℕ → Bytes → W → Option ℕ × W
  pub recv : ℕ → ℕ → W → Option Bytes × W
  pub reuse_address : ℕ → W → Bool × W
  pub setsockopt : ℕ → TimeoutOption → ℕ → ℕ → W → Bool × W
  pub getsockname : ℕ → W → Option ℕ × W
  pub bind : ℕ → ℕ → W → Bool × W
  pub listen : ℕ → ℤ → W → Bool × W
  pub accept : ℕ → W → Option ℕ × W
  pub inet_pton : Bytes → ParsedAddress
  pub connect : ℕ → ℕ → ℕ → W → Bool × W
  pub getaddrinfo : Bytes → Bytes → W → Lookup × W
  pub poll : Option ℕ → Option ℕ → W → Polled × W

-- What `main` takes beside that for its shutdown: `pipe` with both descriptors, `atexit` of
-- `close_shutdown_pipe`, `sigaction` of `signal_handler` for SIGINT, and `write`.
pub record SignalCalls (W : Type 0) : Type 0 where
  pub pipe : W → Option (ℕ × ℕ) × W
  pub atexit : W → Bool × W
  pub sigaction : W → Bool × W
  pub write : ℕ → Bytes → W → Option ℕ × W

-- What the logger takes of <filesystem> and of an `ofstream` that appends: `open_append` gives what
-- the file holds before.
pub record FileCalls (W : Type 0) : Type 0 where
  pub exists : Bytes → W → Bool
  pub parent_path : Bytes → Bytes
  pub create_directories : Bytes → W → W
  pub open_append : Bytes → W → Bytes × W
