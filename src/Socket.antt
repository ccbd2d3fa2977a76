-- ===== src/Socket.antt =====
-- The class TCPSocket of Code/evaluation/src/TCPSocket.h and TCPSocket.cpp, as its Makefile
-- builds it, with REUSEADDR. Log lines are left out, and the lock of `ports_mutex` is that no other
-- thread runs.
pub mod Owned
pub mod Ownership
pub mod Peer
pub mod Ports
pub mod Sending
pub mod Timeouts
use lspt_evaluation.Common.{
  ℕ, zero, suc, ◌+◌, ◌-◌, ◌*◌, ◌/◌, ◌%◌, Bool, true, false, ◌&&◌, ◌||◌, List, [], ◌∷◌, Option, none,
  some, Bytes, ltb, ◌==◌, if◌then◌else◌, length, drop,
}
use lspt_evaluation.Common.Int.{ℤ}
use lspt_evaluation.System.{
  System, TimeoutOption, rcvtimeo, sndtimeo, address, not_an_address, unsupported, lookup_error,
  no_entry, entry,
}
use mathlib.Core.Option
use lspt_evaluation.Text.{uint_mod}
use lspt_evaluation.Text.Decimal.{to_string}

-- `m_socket` is `none` where it is -1.
pub record TcpSocket : Type 0 where
  pub socket : Option ℕ
  pub send_timeout : ℕ
  pub recv_timeout : ℕ

-- The default constructor, and a socket that was moved from.
abbrev pub closed : TcpSocket
closed = record { socket = none; send_timeout = 0; recv_timeout = 0 }

-- The private constructor.
abbrev pub of_fd : ℕ → TcpSocket
of_fd fd = record { socket = some fd; send_timeout = 0; recv_timeout = 0 }

abbrev pub recv_buffer_size : ℕ
recv_buffer_size = 4096

-- The bytes that `recv` asks for, with room for a NUL behind them.
abbrev pub recv_room : ℕ
recv_room = recv_buffer_size - 1

-- What the class shares with all sockets, `ports_in_use`, beside the world outside.
pub record Net (W : Type 0) : Type 0 where
  pub ports_in_use : List ℕ
  pub world : W

-- `contains`, `erase` and `emplace` of the set of ports.
unfoldable pub contains : ℕ → List ℕ → Bool
contains p [] = false
contains p (q ∷ qs) = q == p || contains p qs

unfoldable pub erase : ℕ → List ℕ → List ℕ
erase p [] = []
erase p (q ∷ qs) = if q == p then erase p qs else q ∷ erase p qs

unfoldable pub emplace : ℕ → List ℕ → List ℕ
unfolding contains
emplace p qs = if contains p qs then qs else p ∷ qs

-- The move constructor gives the new socket and what is left of the old one.
unfoldable pub move_from : TcpSocket → TcpSocket × TcpSocket
move_from sock = (sock, closed)

module _ {W : Type 0} (sys : System W) where
  -- The result of `setsockopt` for SO_REUSEADDR is only logged.
  unfoldable pub create : TcpSocket → Net W → Bool × TcpSocket × Net W
  create sock net =
      let (made, w) = sys.socket net.world in
      elim made [
        | none ↦ (false, record sock { socket = none }, record net { world = w })
        | some fd ↦ (
          true,
          record sock { socket = some fd },
          record net { world = (sys.reuse_address fd w).1 },
        )
      ]

  -- `getsockname`, and the port taken off `ports_in_use`.
  unfoldable pub forget_port : ℕ → Net W → Net W
  unfolding erase
  forget_port fd net =
      let (named, w) = sys.getsockname fd net.world in
      elim named [
        | none ↦ record net { world = w }
        | some port ↦ record { ports_in_use = erase port net.ports_in_use; world = w }
      ]

  unfoldable pub close : TcpSocket → Net W → Bool × TcpSocket × Net W
  unfolding forget_port
  close sock net = elim sock.socket [
    | none ↦ (false, sock, net)
    | some fd ↦
        let freed = forget_port fd net in
        let (done, w) = sys.close fd freed.world in
        (done, if done then closed else sock, record freed { world = w })
  ]

  -- `operator=` on two sockets gives the target and what is left of the source.
  unfoldable pub move_assign : TcpSocket → TcpSocket → Net W → TcpSocket × TcpSocket × Net W
  unfolding close
  move_assign target sock net = elim target.socket [
    | none ↦ (sock, closed, net)
    | some fd ↦ (sock, closed, (close target net).2)
  ]

  -- The destructor.
  unfoldable pub destroy : TcpSocket → Net W → Net W
  unfolding close
  destroy sock net = elim sock.socket [ none ↦ net | some fd ↦ (close sock net).2 ]

  -- One round of the loop of `send`, behind the system's call, whose result is -1 or a count.
  unfoldable pub after_send :
      (ℕ → W → Option (ℕ × W)) → Bytes → Bool → ℕ → Option ℕ → W → Option (ℕ × W)
  after_send again val full_msg sent none w = some (sent, w)
  after_send again val full_msg sent (some n) w =
      let sent' = (sent + n) % uint_mod in
      let rest = again sent' w in
      if ltb sent' (length val) && full_msg then rest else some (sent', w)

  -- The `do … while` loop of `send`: `sent` bytes of `val` are out. The fuel bounds the rounds, and
  -- `none` is no end within them.
  unfoldable pub send_loop : ℕ → ℕ → Bytes → Bool → ℕ → W → Option (ℕ × W)
  unfolding after_send
  send_loop zero fd val full_msg sent w = none
  send_loop (suc f) fd val full_msg sent w =
      let (result, w') = sys.send fd (drop sent val) w in
      after_send (send_loop f fd val full_msg) val full_msg sent result w'

  sent_all : Bytes → Net W → Option (ℕ × W) → Option (Bool × Net W)
  sent_all val net none = none
  sent_all val net (some (sent, w)) = some (sent == length val, record net { world = w })

  unfoldable pub send : ℕ → TcpSocket → Bytes → Bool → Net W → Option (Bool × Net W)
  unfolding sent_all
  send fuel sock val full_msg net = elim sock.socket [
    | none ↦ some (false, net)
    | some fd ↦ sent_all val net (send_loop fuel fd val full_msg 0 net.world)
  ]

  -- An error of the system's call gives the empty string too.
  unfoldable pub recv : TcpSocket → Net W → Bytes × Net W
  recv sock net = elim sock.socket [
    | none ↦ ([], net)
    | some fd ↦
        let (got, w) = sys.recv fd recv_room net.world in
        elim got [ none ↦ ([], record net { world = w }) | some b ↦ (b, record net { world = w }) ]
  ]

  abbrev pub current_timeout : TcpSocket → TimeoutOption → ℕ
  current_timeout sock rcvtimeo = sock.recv_timeout
  current_timeout sock sndtimeo = sock.send_timeout

  abbrev pub with_timeout : TcpSocket → TimeoutOption → ℕ → TcpSocket
  with_timeout sock rcvtimeo ms = record sock { recv_timeout = ms }
  with_timeout sock sndtimeo ms = record sock { send_timeout = ms }

  -- `tv_sec` is `timeout_ms / 1000` in 32 bits, and `tv_usec` the signed 64-bit `timeout_ms * 1000`.
  unfoldable pub set_timeout : TcpSocket → ℕ → TimeoutOption → Net W → Bool × TcpSocket × Net W
  set_timeout sock ms option net = elim sock.socket [
    | none ↦ (false, sock, net)
    | some fd ↦
        let (done, w) = sys.setsockopt fd option (ms / 1000) (ms * 1000) net.world in
        if current_timeout sock option == ms
        then (true, sock, net)
        else (done, if done then with_timeout sock option ms else sock, record net { world = w })
  ]

  unfoldable pub bind : TcpSocket → ℕ → Net W → Bool × Net W
  unfolding contains emplace
  bind sock port net = elim sock.socket [
    | none ↦ (false, net)
    | some fd ↦
        let (bound, w) = sys.bind fd port net.world in
        if contains port net.ports_in_use
        then (false, net)
        else if bound
        then (true, record { ports_in_use = emplace port net.ports_in_use; world = w })
        else (false, record net { world = w })
  ]

  unfoldable pub listen : TcpSocket → ℤ → Net W → Bool × Net W
  listen sock backlog net = elim sock.socket [
    | none ↦ (false, net)
    | some fd ↦ let (done, w) = sys.listen fd backlog net.world in (done, record net { world = w })
  ]

  unfoldable pub accept : TcpSocket → Net W → Option TcpSocket × Net W
  accept sock net = elim sock.socket [
    | none ↦ (none, net)
    | some fd ↦
        let (client, w) = sys.accept fd net.world in
        (Option.map of_fd client, record net { world = w })
  ]

  unfoldable pub connect : TcpSocket → Bytes → ℕ → Net W → Bool × Net W
  connect sock ip port net = elim sock.socket [
    | none ↦ (false, net)
    | some fd ↦ elim (sys.inet_pton ip) [
      | not_an_address ↦ (false, net)
      | unsupported ↦ (false, net)
      | address a ↦
          let (done, w) = sys.connect fd a port net.world in (done, record net { world = w })
    ]
  ]

  -- `getIP`; the NULs that pad an address to 16 bytes are left out, which `c_str()` drops.
  unfoldable pub get_ip : Bytes → ℕ → Net W → Bytes × Net W
  get_ip domain port net =
      let (found, w) = sys.getaddrinfo domain (to_string port) net.world in
      (elim found [ lookup_error ↦ [] | no_entry ↦ [] | entry ip ↦ ip ], record net { world = w })
