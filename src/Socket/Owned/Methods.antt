-- ===== src/Socket/Owned/Methods.antt =====
-- What the methods of TCPSocket do with the descriptors that the program holds.
use lspt_evaluation.Common.{
  ℕ, ◌≡◌, ◌/◌, ◌*◌, refl, sym, subst, Bool, true, false, List, ◌∷◌, Option, none, some, Bytes, ◌==◌,
  inl, inr, Bool-cases, Option-cases, arith,
}
use lspt_evaluation.Common.Int.{ℤ}
use lspt_evaluation.Socket.Owned.{
  Owned, call, look_up, no_socket, opened, no_client, accepted, closing, on_send, on_recv,
  on_reuse_address, on_setsockopt, on_getsockname, on_bind, on_listen, on_connect,
}
use lspt_evaluation.Socket.Peer.Sends.{send_kept}
use lspt_evaluation.Socket.{
  TcpSocket, Net, recv_room, create, forget_port, close, destroy, bind, listen, accept, connect,
  get_ip, set_timeout, recv, send, current_timeout, contains, of_fd,
}
use lspt_evaluation.Text.Decimal.{to_string}
use lspt_evaluation.System.{
  System, TimeoutOption, ParsedAddress, address, not_an_address, unsupported,
}
use mathlib.Core.List.{Memᴰ}
use mathlib.Core.List.Memᴰ.{head, tail}

-- What is held with a socket beside the others.
abbrev pub holding : TcpSocket → List ℕ → List ℕ
holding sock fds = elim sock.socket [ none ↦ fds | some fd ↦ fd ∷ fds ]

pub holding-head :
    (sock : TcpSocket) (fd : ℕ) (fds : List ℕ) → sock.socket ≡ some fd → Memᴰ fd (holding sock fds)
holding-head sock fd fds e = rw (holding, e) (head refl)

pub holding-tail :
    (sock : TcpSocket) {fd : ℕ} {fds : List ℕ} → Memᴰ fd fds → Memᴰ fd (holding sock fds)
holding-tail sock {fd} {fds} has = elim (Option-cases sock.socket) [
  | inl e ↦ rw (holding, e) has
  | inr (fd', e) ↦ rw (holding, e) (tail has)
]

module _ {W : Type 0} (sys : System W) (held : List ℕ) (w0 : W) where
  moved : {fds : List ℕ} {w w' : W} → w' ≡ w → Owned sys held w0 fds w → Owned sys held w0 fds w'
  moved {fds} e h = subst (Owned sys held w0 fds) (sym e) h

  -- What is held behind an `accept`.
  abbrev pub OwnedClient : List ℕ → Option TcpSocket × Net W → Type 0
  OwnedClient fds (none, net) = Owned sys held w0 fds net.world
  OwnedClient fds (some client, net) =
      (c : ℕ) × (client ≡ of_fd c) × Owned sys held w0 (c ∷ fds) net.world

  -- The methods on a socket whose descriptor is held.
  module _ (sock : TcpSocket) (fd : ℕ) (opens : sock.socket ≡ some fd) {fds : List ℕ}
      (has : Memᴰ fd fds) where
    pub recv-Owned :
        (net : Net W)
        → Owned sys held w0 fds net.world
        → Owned sys held w0 fds (recv sys sock net).1.world
    recv-Owned net h =
        let at : (recv sys sock net).1.world ≡ (sys.recv fd recv_room net.world).1 =
          (unfold recv in ground arith) in
        moved at (call has (on_recv recv_room) h)

    pub send-Owned :
        (fuel : ℕ) (val : Bytes) (net net' : Net W) (b : Bool)
        → send sys fuel sock val true net ≡ some (b, net')
        → Owned sys held w0 fds net.world
        → Owned sys held w0 fds net'.world
    send-Owned fuel val net net' b e h =
        send_kept sys (Owned sys held w0 fds) fd (λ c w i. call has (on_send c) i) sock fuel val net
          net' b opens e h

    pub set_timeout-Owned :
        (ms : ℕ) (option : TimeoutOption) (net : Net W)
        → Owned sys held w0 fds net.world
        → Owned sys held w0 fds (set_timeout sys sock ms option net).2.world
    set_timeout-Owned ms option net h = elim (Bool-cases (current_timeout sys sock option == ms)) [
      | inl same ↦
          let at : (set_timeout sys sock ms option net).2.world ≡ net.world =
            (unfold set_timeout in ground arith) in
          moved at h
      | inr other ↦
          let at : (set_timeout sys sock ms option net).2.world
              ≡ (sys.setsockopt fd option (ms / 1000) (ms * 1000) net.world).1 =
            (unfold set_timeout in ground arith) in
          moved at (call has (on_setsockopt option (ms / 1000) (ms * 1000)) h)
    ]

    pub bind-Owned :
        (port : ℕ) (net : Net W)
        → Owned sys held w0 fds net.world
        → Owned sys held w0 fds (bind sys sock port net).1.world
    bind-Owned port net h = elim (Bool-cases (contains port net.ports_in_use)) [
      | inl e ↦
          let at : (bind sys sock port net).1.world ≡ net.world = (unfold bind in ground arith) in
          moved at h
      | inr e ↦
          let at : (bind sys sock port net).1.world ≡ (sys.bind fd port net.world).1 =
            (unfold bind in ground arith) in
          moved at (call has (on_bind port) h)
    ]

    pub listen-Owned :
        (backlog : ℤ) (net : Net W)
        → Owned sys held w0 fds net.world
        → Owned sys held w0 fds (listen sys sock backlog net).1.world
    listen-Owned backlog net h =
        let at : (listen sys sock backlog net).1.world ≡ (sys.listen fd backlog net.world).1 =
          (unfold listen in ground arith) in
        moved at (call has (on_listen backlog) h)

    pub connect-Owned :
        (ip : Bytes) (port : ℕ) (net : Net W)
        → Owned sys held w0 fds net.world
        → Owned sys held w0 fds (connect sys sock ip port net).1.world
    connect-Owned ip port net h = found (sys.inet_pton ip) refl
      where
        found :
            (r : ParsedAddress)
            → sys.inet_pton ip ≡ r
            → Owned sys held w0 fds (connect sys sock ip port net).1.world
        found (address a) q =
            let at : (connect sys sock ip port net).1.world ≡ (sys.connect fd a port net.world).1 =
              (unfold connect in ground arith) in
            moved at (call has (on_connect a port) h)
        found not_an_address q =
            let at : (connect sys sock ip port net).1.world ≡ net.world =
              (unfold connect in ground arith) in
            moved at h
        found unsupported q =
            let at : (connect sys sock ip port net).1.world ≡ net.world =
              (unfold connect in ground arith) in
            moved at h

    -- `accept` adds the client's descriptor.
    pub accept-Owned :
        (net : Net W) → Owned sys held w0 fds net.world → OwnedClient fds (accept sys sock net)
    unfolding accept
    accept-Owned net h = elim (Option-cases (sys.accept fd net.world).0) [
      | inl e ↦
          let at : accept sys sock net
              ≡ (none, record net { world = (sys.accept fd net.world).1 }) =
            rw (accept, opens, e) refl in
          subst (OwnedClient fds) (sym at) (no_client has e h)
      | inr (c, e) ↦
          let at : accept sys sock net
              ≡ (some (of_fd c), record net { world = (sys.accept fd net.world).1 }) =
            rw (accept, opens, e) refl in
          subst (OwnedClient fds) (sym at) (c, refl, accepted has e h)
    ]

  pub get_ip-Owned :
      {fds : List ℕ} (domain : Bytes) (port : ℕ) (net : Net W)
      → Owned sys held w0 fds net.world
      → Owned sys held w0 fds (get_ip sys domain port net).1.world
  get_ip-Owned domain port net h = unfold get_ip in look_up domain (to_string port) h

  -- `create` adds the socket's descriptor, where there is one.
  pub create-Owned :
      {fds : List ℕ} (sock : TcpSocket) (net : Net W)
      → Owned sys held w0 fds net.world
      → Owned sys held w0 (holding (create sys sock net).1 fds) (create sys sock net).2.world
  unfolding create
  create-Owned sock net h = elim (Option-cases (sys.socket net.world).0) [
    | inl e ↦ rw (create, e) (no_socket e h)
    | inr (fd, e) ↦ rw (create, e) (call (head refl) on_reuse_address (opened e h))
  ]

  -- A `create` that gives no descriptor tells so.
  pub create-closed :
      (sock : TcpSocket) (net : Net W)
      → (create sys sock net).1.socket ≡ none
      → (create sys sock net).0 ≡ false
  unfolding create
  create-closed sock net e = ground arith

  -- The destructor takes the socket's descriptor away.
  pub destroy-Owned :
      {fds : List ℕ} (sock : TcpSocket) (net : Net W)
      → Owned sys held w0 (holding sock fds) net.world
      → Owned sys held w0 fds (destroy sys sock net).world
  destroy-Owned {fds} sock net h = elim (Option-cases sock.socket) [
    | inl e ↦
        let at : (destroy sys sock net).world ≡ net.world = (unfold destroy in ground arith) in
        moved at (rw e at h)
    | inr (fd, e) ↦
        let named : (forget_port sys fd net).world ≡ (sys.getsockname fd net.world).1 =
          (unfold forget_port in ground arith) in
        let at : (destroy sys sock net).world ≡ (sys.close fd (sys.getsockname fd net.world).1).1 =
          (unfold destroy close forget_port in ground arith) in
        let h1 : Owned sys held w0 (fd ∷ fds) net.world = (rw e at h) in
        moved at (closing (call (head refl) on_getsockname h1))
  ]
