-- ===== src/Socket/Peer.antt =====
-- A connection that stands open beside the other sockets: what is assumed of the system, and that
-- the calls of TCPSocket on other sockets leave it alone.
pub mod Sends
use lspt_evaluation.Common.{
  ℕ, zero, suc, ◌≡◌, ◌≢◌, ◌⊎◌, ◌/◌, ◌*◌, refl, sym, ap, subst, ◌∙◌, Bool, true, false, ◌&&◌, Option,
  none, some, Bytes, ltb, ◌==◌, if◌then◌else◌, length, drop, inl, inr, Bool-cases, Option-cases,
  arith,
}
use lspt_evaluation.Socket.Sending.{Takes}
use lspt_evaluation.Socket.{
  TcpSocket, Net, recv_room, create, forget_port, close, destroy, connect, get_ip, set_timeout,
  recv, send, send_loop, after_send, current_timeout,
}
use lspt_evaluation.Text.Decimal.{to_string}
use lspt_evaluation.System.{
  System, TimeoutOption, ParsedAddress, address, not_an_address, unsupported,
}

-- A call that moves the world from `w` to `w'` puts nothing on the wire, and does not close.
abbrev pub Quiet : {W : Type 0} → (W → Bytes) → (W → Type 0) → W → W → Type 0
Quiet wire IsOpen w w' = (wire w' ≡ wire w) × (IsOpen w → IsOpen w')

-- What is assumed of the system about the connection with descriptor `fd`. Only `send` on it puts
-- something on its wire, no call but its own `close` closes it, and while it is open no new socket
-- has its descriptor. `links` says for every connection what its `send` takes.
pub record Peer {W : Type 0} (sys : System W) (fd : ℕ) : Type 1 where
  pub IsOpen : W → Type 0
  pub links : (fd' : ℕ) → Takes sys fd'
  pub fresh : (w : W) → IsOpen w → (sys.socket w).0 ≢ some fd
  pub own_send : (b : Bytes) (w : W) → IsOpen w → IsOpen (sys.send fd b w).1
  pub other_send :
      (fd' : ℕ) (b : Bytes) (w : W) → fd' ≢ fd → Quiet (links fd).wire IsOpen w (sys.send fd' b w).1
  pub other_close :
      (fd' : ℕ) (w : W) → fd' ≢ fd → Quiet (links fd).wire IsOpen w (sys.close fd' w).1
  pub own_close : (w : W) → (links fd).wire (sys.close fd w).1 ≡ (links fd).wire w
  pub on_socket : (w : W) → Quiet (links fd).wire IsOpen w (sys.socket w).1
  pub on_recv : (fd' n : ℕ) (w : W) → Quiet (links fd).wire IsOpen w (sys.recv fd' n w).1
  pub on_reuse_address :
      (fd' : ℕ) (w : W) → Quiet (links fd).wire IsOpen w (sys.reuse_address fd' w).1
  pub on_setsockopt :
      (fd' : ℕ) (option : TimeoutOption) (sec usec : ℕ) (w : W)
      → Quiet (links fd).wire IsOpen w (sys.setsockopt fd' option sec usec w).1
  pub on_getsockname : (fd' : ℕ) (w : W) → Quiet (links fd).wire IsOpen w (sys.getsockname fd' w).1
  pub on_connect :
      (fd' address port : ℕ) (w : W)
      → Quiet (links fd).wire IsOpen w (sys.connect fd' address port w).1
  pub on_getaddrinfo :
      (domain port : Bytes) (w : W)
      → Quiet (links fd).wire IsOpen w (sys.getaddrinfo domain port w).1

module _ {W : Type 0} (sys : System W) (fd : ℕ) (p : Peer sys fd) (sent : Bytes) where
  -- The connection is open, and this is on its wire.
  pub record Holds (w : W) : Type 0 where
    pub wire_is : (p.links fd).wire w ≡ sent
    pub is_open : p.IsOpen w

  Holds-Quiet : (w w' : W) → Quiet (p.links fd).wire p.IsOpen w w' → Holds w → Holds w'
  Holds-Quiet w w' (same, open_still) h = record {
    wire_is = same ∙ h.wire_is;
    is_open = open_still h.is_open;
  }

  moved : {w w' : W} → w' ≡ w → Holds w → Holds w'
  moved e h = subst Holds (sym e) h

  pub recv-Holds :
      (sock : TcpSocket) (net : Net W) → Holds net.world → Holds (recv sys sock net).1.world
  recv-Holds sock net h = elim (Option-cases sock.socket) [
    | inl e ↦
        let at : (recv sys sock net).1.world ≡ net.world = (unfold recv in ground arith) in
        moved at h
    | inr (fd', e) ↦
        let at : (recv sys sock net).1.world ≡ (sys.recv fd' recv_room net.world).1 =
          (unfold recv in ground arith) in
        moved at (Holds-Quiet _ _ (p.on_recv fd' recv_room net.world) h)
  ]

  pub set_timeout-Holds :
      (sock : TcpSocket) (ms : ℕ) (option : TimeoutOption) (net : Net W)
      → Holds net.world
      → Holds (set_timeout sys sock ms option net).2.world
  set_timeout-Holds sock ms option net h = elim (Option-cases sock.socket) [
    | inl e ↦
        let at : (set_timeout sys sock ms option net).2.world ≡ net.world =
          (unfold set_timeout in ground arith) in
        moved at h
    | inr (fd', e) ↦ elim (Bool-cases (current_timeout sys sock option == ms)) [
      | inl same ↦
          let at : (set_timeout sys sock ms option net).2.world ≡ net.world =
            (unfold set_timeout in ground arith) in
          moved at h
      | inr other ↦
          let at : (set_timeout sys sock ms option net).2.world
              ≡ (sys.setsockopt fd' option (ms / 1000) (ms * 1000) net.world).1 =
            (unfold set_timeout in ground arith) in
          moved at
            (Holds-Quiet _ _ (p.on_setsockopt fd' option (ms / 1000) (ms * 1000) net.world) h)
    ]
  ]

  pub get_ip-Holds :
      (domain : Bytes) (port : ℕ) (net : Net W)
      → Holds net.world
      → Holds (get_ip sys domain port net).1.world
  get_ip-Holds domain port net h =
      unfold get_ip in Holds-Quiet _ _ (p.on_getaddrinfo domain (to_string port) net.world) h

  -- A new socket has another descriptor.
  pub create-Holds :
      (sock : TcpSocket) (net : Net W)
      → Holds net.world
      → Holds (create sys sock net).2.world × ((create sys sock net).1.socket ≢ some fd)
  create-Holds sock net h =
      let h1 = Holds-Quiet _ _ (p.on_socket net.world) h in
      let other = p.fresh net.world h.is_open in
      elim (Option-cases (sys.socket net.world).0) [
        | inl e ↦
            let at : (create sys sock net).2.world ≡ (sys.socket net.world).1 =
              (unfold create in ground arith) in
            let closed_is : (create sys sock net).1.socket ≡ none =
              (unfold create in ground arith) in
            (moved at h1, λ q. absurd (cc))
        | inr (fd', e) ↦
            let at : (create sys sock net).2.world
                ≡ (sys.reuse_address fd' (sys.socket net.world).1).1 =
              (unfold create in ground arith) in
            let opened : (create sys sock net).1.socket ≡ some fd' =
              (unfold create in ground arith) in
            (
              moved at (Holds-Quiet _ _ (p.on_reuse_address fd' (sys.socket net.world).1) h1),
              λ q. other (e ∙ sym opened ∙ q),
            )
      ]

  -- `connect` leaves the world as it is, or calls the system.
  connect-world :
      (sock : TcpSocket) (ip : Bytes) (port : ℕ) (net : Net W)
      → ((connect sys sock ip port net).1.world ≡ net.world)
        ⊎ ((fd' : ℕ) × (a : ℕ) × ((connect sys sock ip port net).1.world
              ≡ (sys.connect fd' a port net.world).1))
  unfolding connect
  connect-world sock ip port net = elim (Option-cases sock.socket) [
    | inl e ↦ inl (ground arith)
    | inr (fd', e) ↦ found fd' e (sys.inet_pton ip) refl
  ]
    where
      found :
          (fd' : ℕ)
          → sock.socket ≡ some fd'
          → (r : ParsedAddress) → sys.inet_pton ip ≡ r
          → ((connect sys sock ip port net).1.world ≡ net.world)
            ⊎ ((fd' : ℕ) × (a : ℕ) × ((connect sys sock ip port net).1.world
                  ≡ (sys.connect fd' a port net.world).1))
      found fd' e (address a) q = inr (fd', a, ground arith)
      found fd' e not_an_address q = inl (ground arith)
      found fd' e unsupported q = inl (ground arith)

  pub connect-Holds :
      (sock : TcpSocket) (ip : Bytes) (port : ℕ) (net : Net W)
      → Holds net.world
      → Holds (connect sys sock ip port net).1.world
  connect-Holds sock ip port net h = elim (connect-world sock ip port net) [
    | inl at ↦ moved at h
    | inr (fd', a, at) ↦ moved at (Holds-Quiet _ _ (p.on_connect fd' a port net.world) h)
  ]

  pub destroy-Holds :
      (sock : TcpSocket) (net : Net W)
      → sock.socket ≢ some fd
      → Holds net.world
      → Holds (destroy sys sock net).world
  destroy-Holds sock net other h = elim (Option-cases sock.socket) [
    | inl e ↦
        let at : (destroy sys sock net).world ≡ net.world = (unfold destroy in ground arith) in
        moved at h
    | inr (fd', e) ↦
        let named : (forget_port sys fd' net).world ≡ (sys.getsockname fd' net.world).1 =
          (unfold forget_port in ground arith) in
        let at : (destroy sys sock net).world
            ≡ (sys.close fd' (sys.getsockname fd' net.world).1).1 =
          (unfold destroy close forget_port in ground arith) in
        moved at (
          Holds-Quiet _ _ (p.other_close fd' _ (λ q. other (e ∙ ap some q)))
            (Holds-Quiet _ _ (p.on_getsockname fd' net.world) h))
  ]

  -- The connection's own destructor closes it, and puts nothing on its wire.
  pub own_destroy-close :
      (sock : TcpSocket) (net : Net W)
      → sock.socket ≡ some fd
      → Holds net.world
      → (w : W) × Holds w × ((destroy sys sock net).world ≡ (sys.close fd w).1)
  own_destroy-close sock net e h =
      let named : (forget_port sys fd net).world ≡ (sys.getsockname fd net.world).1 =
        (unfold forget_port in ground arith) in
      let at : (destroy sys sock net).world ≡ (sys.close fd (sys.getsockname fd net.world).1).1 =
        (unfold destroy close forget_port in ground arith) in
      (_, Holds-Quiet _ _ (p.on_getsockname fd net.world) h, at)

  pub close-wire : (w w' : W) → w' ≡ (sys.close fd w).1 → Holds w → (p.links fd).wire w' ≡ sent
  close-wire w w' at h = ap (p.links fd).wire at ∙ p.own_close w ∙ h.wire_is
