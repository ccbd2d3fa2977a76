-- ===== src/TestUtil/Pair.antt =====
-- The pair of connected sockets that the unit tests work on.
use lspt_evaluation.Common.{
  ℕ, ◌≡◌, refl, sym, ap, subst, ◌∙◌, Bool, true, false, List, [], ◌∷◌, Option, none, some,
  Option-cases, inl, inr, Bytes, all, arith, text,
}
use lspt_evaluation.Common.Int.{pos}
use lspt_evaluation.Socket.{
  TcpSocket, Net, closed, of_fd, create, bind, listen, accept, connect, forget_port, close, destroy,
  move_assign,
}
use lspt_evaluation.System.{System, ParsedAddress, not_an_address, unsupported, address}
use lspt_evaluation.TestUtil.{Sockets, join_sockets, has_value, get_server_and_client}
use mathlib.Core.Option

-- Every expectation holds.
abbrev pub AllHold : List Bool → Type 0
AllHold bs = all (λ b. b) bs ≡ true

module _ {W : Type 0} (sys : System W) where
  created-socket :
      (sock : TcpSocket) (net : Net W)
      → (create sys sock net).0 ≡ true
      → (fd : ℕ) × ((sys.socket net.world).0 ≡ some fd) × ((create sys sock net).1.socket ≡ some fd)
  unfolding create
  created-socket sock net h = elim (Option-cases (sys.socket net.world).0) [
    | inl e ↦ absurd (let k = (rw (create, e) at h) in cc)
    | inr (fd, e) ↦ (fd, e, rw (create, e) refl)
  ]

  accepted-of_fd :
      (sock m : TcpSocket) (net : Net W)
      → (accept sys sock net).0 ≡ some m
      → (fd c : ℕ) × (m ≡ of_fd c)
        × (sock.socket ≡ some fd)
        × ((sys.accept fd net.world).0 ≡ some c)
  unfolding accept
  accepted-of_fd sock m net h = elim (Option-cases sock.socket) [
    | inl e ↦ absurd (let k = (rw (accept, e) at h) in cc)
    | inr (fd, e) ↦
        let (c, is, came) = mapped (sys.accept fd net.world).0 (rw (accept, e) at h) in
        (fd, c, is, e, came)
  ]
    where
      mapped : (o : Option ℕ) → Option.map of_fd o ≡ some m → (c : ℕ) × (m ≡ of_fd c) × (o ≡ some c)
      mapped none k = absurd cc
      mapped (some c) k = (c, cc, refl)

  connected-fd :
      (sock : TcpSocket) (ip : Bytes) (port : ℕ) (net : Net W)
      → (connect sys sock ip port net).0 ≡ true
      → (d a : ℕ) × (sock.socket ≡ some d)
        × (sys.inet_pton ip ≡ address a)
        × ((sys.connect d a port net.world).0 ≡ true)
  unfolding connect
  connected-fd sock ip port net h = go sock.socket refl h
    where
      with_address :
          (fd : ℕ) (x : ParsedAddress)
          → (elim x as (λ y. Bool × Net W) [
            | not_an_address ↦ (false, net)
            | unsupported ↦ (false, net)
            | address a ↦
                let (done, w) = sys.connect fd a port net.world in (done, record net { world = w })
          ]).0
            ≡ true
          → (a : ℕ) × (x ≡ address a) × ((sys.connect fd a port net.world).0 ≡ true)
      with_address fd not_an_address k = absurd cc
      with_address fd unsupported k = absurd cc
      with_address fd (address a) k = (a, refl, k)

      go :
          (o : Option ℕ)
          → sock.socket ≡ o
          → (elim o as (λ y. Bool × Net W) [
            | none ↦ (false, net)
            | some fd ↦ elim (sys.inet_pton ip) as (λ y. Bool × Net W) [
              | not_an_address ↦ (false, net)
              | unsupported ↦ (false, net)
              | address a ↦
                  let (done, w) = sys.connect fd a port net.world in
                  (done, record net { world = w })
            ]
          ]).0
            ≡ true
          → (d a : ℕ) × (sock.socket ≡ some d)
            × (sys.inet_pton ip ≡ address a)
            × ((sys.connect d a port net.world).0 ≡ true)
      go none e k = absurd cc
      go (some d) e k =
          let (a, parsed, done) = with_address d (sys.inet_pton ip) k in (d, a, e, parsed, done)

  joined :
      (expected : List Bool) (first second m : TcpSocket) (net : Net W) (l : ℕ)
      → first.socket ≡ some l
      → ((join_sockets sys expected first second (some m) net).pair ≡ some (m, second))
        × ((w : W) × ((join_sockets sys expected first second (some m) net).net.world
              ≡ (sys.close l w).1))
  unfolding join_sockets move_assign destroy close
  joined expected first second m net l e = (rw e refl, ((forget_port sys l net).world, rw e refl))

  expected-is :
      (expected : List Bool) (first second : TcpSocket) (o : Option TcpSocket) (net : Net W)
      → (join_sockets sys expected first second o net).expected ≡ expected
  unfolding join_sockets
  expected-is expected first second none net = refl
  expected-is expected first second (some m) net = refl

  -- The first socket is the one that the system's `accept` gave on the listener; the second is
  -- another one that the system gave, and was connected to this port of "127.0.0.1"; and the last
  -- call closed the listener, the first descriptor that the system gave.
  abbrev pub Connected : ℕ → Net W → Sockets W → Type 0
  Connected port net result =
      (listener c d a : ℕ) × (client : TcpSocket) × (made joined came w : W) × ((sys.socket
          net.world).0
        ≡ some listener)
      × ((sys.socket made).0 ≡ some d)
      × (client.socket ≡ some d)
      × (sys.inet_pton (text "127.0.0.1") ≡ address a)
      × ((sys.connect d a port joined).0 ≡ true)
      × ((sys.accept listener came).0 ≡ some c)
      × (result.pair ≡ some (of_fd c, client))
      × (result.net.world ≡ (sys.close listener w).1)

  joined-some :
      (expected : List Bool) (first second : TcpSocket) (net : Net W) (o : Option TcpSocket) (l : ℕ)
      → first.socket ≡ some l
      → has_value o ≡ true
      → (m : TcpSocket) × (o ≡ some m)
        × ((join_sockets sys expected first second o net).pair ≡ some (m, second))
        × ((w : W) × ((join_sockets sys expected first second o net).net.world ≡ (sys.close l w).1))
  joined-some expected first second net none l opens came = absurd cc
  joined-some expected first second net (some m) l opens came =
      let (pair_is, at) = joined expected first second m net l opens in (m, refl, pair_is, at)

  -- Where every expectation of `get_server_and_client` holds, its first socket is the one that
  -- `accept` gave on the listener, and its second one a socket that was made and then connected to
  -- that port of "127.0.0.1"; and its last call closes the listener's descriptor, the first that
  -- the system gave it.
  pub get_server_and_client-Connected :
      (port : ℕ) (net : Net W)
      → AllHold (get_server_and_client sys port net).expected
      → Connected port net (get_server_and_client sys port net)
  unfolding get_server_and_client
  get_server_and_client-Connected port net h =
      let first = create sys closed net in
      let bound = bind sys first.1 port first.2 in
      let listening = listen sys first.1 (pos 1) bound.1 in
      let second = create sys closed listening.1 in
      let connected = connect sys second.1 (text "127.0.0.1") port second.2 in
      let came = accept sys first.1 connected.1 in
      let expected =
        first.0 ∷ bound.0 ∷ listening.0 ∷ second.0 ∷ connected.0 ∷ has_value came.0 ∷ [] in
      let (a, b, c, e) =
        needed first.0 bound.0 listening.0 second.0 connected.0 (has_value came.0)
          (ap (all (λ x. x)) (sym (expected-is expected first.1 second.1 came.0 came.1)) ∙ h) in
      let (l, got, opens) = created-socket closed net a in
      let (d, made, opened) = created-socket closed listening.1 b in
      let (d', ip, opened', parsed, done) =
        connected-fd second.1 (text "127.0.0.1") port second.2 e in
      let (m, is, pair_is, (w, at)) =
        joined-some expected first.1 second.1 came.1 came.0 l opens c in
      let (l', fd, m_is, listens, accepted) = accepted-of_fd first.1 m connected.1 is in
      let same_d : d' ≡ d = some_inj (sym opened' ∙ opened) in
      let same_l : l' ≡ l = some_inj (sym listens ∙ opens) in
      (
        l,
        fd,
        d,
        ip,
        second.1,
        listening.1.world,
        second.2.world,
        connected.1.world,
        w,
        got,
        made,
        opened,
        parsed,
        subst (λ i. (sys.connect i ip port second.2.world).0 ≡ true) same_d done,
        subst (λ i. (sys.accept i connected.1.world).0 ≡ some fd) same_l accepted,
        pair_is ∙ ap (λ x. some (x, second.1)) m_is,
        at,
      )
    where
      some_inj : {i j : ℕ} → ◌≡◌ {A = Option ℕ} (some i) (some j) → i ≡ j
      some_inj e = cc

      needed :
          (a b c d e f : Bool)
          → all (λ x. x) (a ∷ b ∷ c ∷ d ∷ e ∷ f ∷ []) ≡ true
          → (a ≡ true) × (d ≡ true) × (f ≡ true) × (e ≡ true)
      needed a b c d e f h = ground arith
