-- ===== src/Socket/Owned.antt =====
-- The descriptors that the program holds, and what it may do with them, call by call.
pub mod Methods
pub mod Open
use lspt_evaluation.Common.{ℕ, ◌≡◌, List, ◌∷◌, Option, none, some, Bytes}
use lspt_evaluation.Common.Int.{ℤ}
use lspt_evaluation.System.{System, TimeoutOption}
use mathlib.Core.List.{Memᴰ}

-- A call on a descriptor, which stays open.
pub data Call {W : Type 0} (sys : System W) (fd : ℕ) (w : W) : W → Type 0 where
  on_send : (b : Bytes) → Call sys fd w (sys.send fd b w).1
  on_recv : (n : ℕ) → Call sys fd w (sys.recv fd n w).1
  on_reuse_address : Call sys fd w (sys.reuse_address fd w).1
  on_setsockopt :
      (option : TimeoutOption) (sec usec : ℕ)
      → Call sys fd w (sys.setsockopt fd option sec usec w).1
  on_getsockname : Call sys fd w (sys.getsockname fd w).1
  on_bind : (port : ℕ) → Call sys fd w (sys.bind fd port w).1
  on_listen : (backlog : ℤ) → Call sys fd w (sys.listen fd backlog w).1
  on_connect : (a port : ℕ) → Call sys fd w (sys.connect fd a port w).1

-- The way from the world `w0`, with the descriptors `held`, to a later world with others: only a
-- descriptor that is held is used, `socket` and `accept` add the one that they give, and `close`
-- takes away the one that was added last.
pub data Owned {W : Type 0} (sys : System W) (held : List ℕ) (w0 : W) : List ℕ → W → Type 0 where
  begin : Owned sys held w0 held w0
  call :
      {fds : List ℕ} {w w' : W} {fd : ℕ}
      → Memᴰ fd fds
      → Call sys fd w w'
      → Owned sys held w0 fds w
      → Owned sys held w0 fds w'
  look_up :
      {fds : List ℕ} {w : W} (domain port : Bytes)
      → Owned sys held w0 fds w
      → Owned sys held w0 fds (sys.getaddrinfo domain port w).1
  await :
      {fds : List ℕ} {w : W} {fd listener : ℕ}
      → Memᴰ fd fds
      → Memᴰ listener fds
      → Owned sys held w0 fds w
      → Owned sys held w0 fds (sys.poll (some fd) (some listener) w).1
  no_socket :
      {fds : List ℕ} {w : W}
      → (sys.socket w).0 ≡ none
      → Owned sys held w0 fds w
      → Owned sys held w0 fds (sys.socket w).1
  opened :
      {fds : List ℕ} {w : W} {fd : ℕ}
      → (sys.socket w).0 ≡ some fd
      → Owned sys held w0 fds w
      → Owned sys held w0 (fd ∷ fds) (sys.socket w).1
  no_client :
      {fds : List ℕ} {w : W} {listener : ℕ}
      → Memᴰ listener fds
      → (sys.accept listener w).0 ≡ none
      → Owned sys held w0 fds w
      → Owned sys held w0 fds (sys.accept listener w).1
  accepted :
      {fds : List ℕ} {w : W} {listener fd : ℕ}
      → Memᴰ listener fds
      → (sys.accept listener w).0 ≡ some fd
      → Owned sys held w0 fds w
      → Owned sys held w0 (fd ∷ fds) (sys.accept listener w).1
  closing :
      {fds : List ℕ} {w : W} {fd : ℕ}
      → Owned sys held w0 (fd ∷ fds) w
      → Owned sys held w0 fds (sys.close fd w).1
