-- ===== src/Socket/Owned/Open.antt =====
-- What a program's way along its descriptors means for those that are open in the system.
use lspt_evaluation.Common.{
  ℕ, ◌+◌, ◌≤◌, ◌<◌, ◌≡◌, refl, List, [], ◌∷◌, none, some, Bytes, ◌==◌, if◌then◌else◌, arith,
}
use lspt_evaluation.Socket.Owned.{
  Owned, Call, begin, call, look_up, await, no_socket, opened, no_client, accepted, closing,
}
use lspt_evaluation.System.{System}

-- One for the descriptor itself, and how often it is held.
abbrev pub one : ℕ → ℕ → ℕ
one n fd = if n == fd then 1 else 0

abbrev pub times_held : ℕ → List ℕ → ℕ
times_held n [] = 0
times_held n (fd ∷ fds) = one n fd + times_held n fds

-- What is assumed of the system: `socket` and `accept` open the descriptor that they give, `close` of an
-- open one closes it, whatever it answers, and no other call opens or closes any.
pub record Descriptors {W : Type 0} (sys : System W) : Type 0 where
  pub times_open : ℕ → W → ℕ
  pub on_call : (n fd : ℕ) (w w' : W) → Call sys fd w w' → times_open n w' ≡ times_open n w
  pub on_getaddrinfo :
      (n : ℕ) (domain port : Bytes) (w : W)
      → times_open n (sys.getaddrinfo domain port w).1 ≡ times_open n w
  pub on_poll :
      (n fd listener : ℕ) (w : W)
      → times_open n (sys.poll (some fd) (some listener) w).1 ≡ times_open n w
  pub no_socket :
      (n : ℕ) (w : W) → (sys.socket w).0 ≡ none → times_open n (sys.socket w).1 ≡ times_open n w
  pub new_socket :
      (n fd : ℕ) (w : W)
      → (sys.socket w).0 ≡ some fd
      → times_open n (sys.socket w).1 ≡ one n fd + times_open n w
  pub no_client :
      (n listener : ℕ) (w : W)
      → (sys.accept listener w).0 ≡ none
      → times_open n (sys.accept listener w).1 ≡ times_open n w
  pub new_client :
      (n listener fd : ℕ) (w : W)
      → (sys.accept listener w).0 ≡ some fd
      → times_open n (sys.accept listener w).1 ≡ one n fd + times_open n w
  pub on_close :
      (n fd : ℕ) (w : W)
      → 0 < times_open fd w
      → times_open n w ≡ one n fd + times_open n (sys.close fd w).1

module _ {W : Type 0} (sys : System W) (d : Descriptors sys) (held : List ℕ) (w0 : W)
    (are_open : (n : ℕ) → times_held n held ≤ d.times_open n w0) where
  one_self : (n : ℕ) → one n n ≡ 1
  one_self n = ground arith

  -- What is held and what is open change alike.
  pub Owned-times_open :
      (fds : List ℕ) (w : W)
      → Owned sys held w0 fds w
      → (n : ℕ) → d.times_open n w + times_held n held ≡ d.times_open n w0 + times_held n fds
  Owned-times_open fds w begin n = refl
  Owned-times_open fds w' (call {w = w} {fd = fd} m c h) n =
      omega (arith, d.on_call n fd w w' c, Owned-times_open fds w h n)
  Owned-times_open fds _ (look_up {w = w} domain port h) n =
      omega (arith, d.on_getaddrinfo n domain port w, Owned-times_open fds w h n)
  Owned-times_open fds _ (await {w = w} {fd = fd} {listener = l} m m' h) n =
      omega (arith, d.on_poll n fd l w, Owned-times_open fds w h n)
  Owned-times_open fds _ (no_socket {w = w} e h) n =
      omega (arith, d.no_socket n w e, Owned-times_open fds w h n)
  Owned-times_open _ _ (opened {fds} {w} {fd = fd} e h) n =
      omega (arith, d.new_socket n fd w e, Owned-times_open fds w h n)
  Owned-times_open fds _ (no_client {w = w} {listener = l} m e h) n =
      omega (arith, d.no_client n l w e, Owned-times_open fds w h n)
  Owned-times_open _ _ (accepted {fds} {w} {listener = l} {fd = fd} m e h) n =
      omega (arith, d.new_client n l fd w e, Owned-times_open fds w h n)
  Owned-times_open fds _ (closing {w = w} {fd = fd} h) n =
      let is_open : 0 < d.times_open fd w =
        omega (arith, are_open fd, one_self fd, Owned-times_open (fd ∷ fds) w h fd) in
      omega (arith, d.on_close n fd w is_open, Owned-times_open (fd ∷ fds) w h n)
