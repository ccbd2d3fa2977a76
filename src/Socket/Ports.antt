-- ===== src/Socket/Ports.antt =====
-- The set of ports that TCPSocket keeps, and what `bind` and `close` do to it.
use lspt_evaluation.Common.{
  ℕ, ◌≡◌, refl, subst, ◌⊎◌, inl, inr, true, false, not, ◌&&◌, ◌||◌, List, [], ◌∷◌, some, arith,
  ◌==◌, Bool-cases,
}
use lspt_evaluation.Socket.{TcpSocket, Net, contains, erase, emplace, forget_port, close, bind}
use lspt_evaluation.System.{System}

pub contains-erase :
    (p q : ℕ) (qs : List ℕ) → contains p (erase q qs) ≡ not (p == q) && contains p qs
unfolding contains erase
contains-erase p q [] = ground arith
contains-erase p q (x ∷ xs) = ground (arith, contains-erase p q xs)

pub contains-emplace :
    (p q : ℕ) (qs : List ℕ) → contains p (emplace q qs) ≡ (q == p || contains p qs)
unfolding emplace contains
contains-emplace p q qs = elim (Bool-cases (contains q qs)) [
  | inl e ↦ elim (Bool-cases (q == p)) [
    | inl same ↦
        let q_is : q ≡ p = ground arith in
        let there : contains p qs ≡ true = subst (λ x. contains x qs ≡ true) q_is e in
        rw (e, same) there
    | inr other ↦ rw (e, other) refl
  ]
  | inr e ↦ rw e refl
]

module _ {W : Type 0} (sys : System W) where
  -- `bind` returns true only on a port that is not in use, and then adds that port to those in use
  -- and no other; where it returns false, the ports in use stay as they were.
  pub bind-ports :
      (sock : TcpSocket) (port p : ℕ) (net : Net W)
      → ((bind sys sock port net).0 ≡ true)
          × (contains port net.ports_in_use ≡ false)
          × (contains p (bind sys sock port net).1.ports_in_use
              ≡ (port == p || contains p net.ports_in_use))
        ⊎ ((bind sys sock port net).0 ≡ false)
          × ((bind sys sock port net).1.ports_in_use ≡ net.ports_in_use)
  unfolding bind
  bind-ports sock port p net = let e = contains-emplace p port net.ports_in_use in ground (arith, e)

  -- `close` of an open socket takes the port that `getsockname` names off the ports in use,
  -- whichever socket bound it, and no other port.
  pub close-ports :
      (sock : TcpSocket) (fd port p : ℕ) (net : Net W)
      → sock.socket ≡ some fd
      → (sys.getsockname fd net.world).0 ≡ some port
      → contains p (close sys sock net).2.ports_in_use
        ≡ not (p == port) && contains p net.ports_in_use
  unfolding close forget_port
  close-ports sock fd port p net opened named =
      let e = contains-erase p port net.ports_in_use in ground (arith, e)
