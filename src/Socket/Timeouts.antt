-- ===== src/Socket/Timeouts.antt =====
-- What `TCPSocket::setTimeout` of Code/evaluation/src/TCPSocket.cpp remembers.
use lspt_evaluation.Common.{ℕ, ◌≡◌, true, arith}
use lspt_evaluation.Socket.{TcpSocket, Net, set_timeout, current_timeout}
use lspt_evaluation.System.{System, TimeoutOption, rcvtimeo, sndtimeo}

abbrev pub other : TimeoutOption → TimeoutOption
other rcvtimeo = sndtimeo
other sndtimeo = rcvtimeo

module _ {W : Type 0} (sys : System W) where
  -- After a `setTimeout` that returned true, the timeout of that option is the one asked for, the
  -- other option's timeout and the descriptor are as before, and the same call again returns true
  -- and changes nothing.
  pub set_timeout_twice :
      (sock sock' : TcpSocket) (ms : ℕ) (option : TimeoutOption) (net net' : Net W)
      → set_timeout sys sock ms option net ≡ (true, sock', net')
      → (set_timeout sys sock' ms option net' ≡ (true, sock', net'))
        × (current_timeout sys sock' option ≡ ms)
        × (current_timeout sys sock' (other option) ≡ current_timeout sys sock (other option))
        × (sock'.socket ≡ sock.socket)
  unfolding set_timeout
  set_timeout_twice sock sock' ms rcvtimeo net net' e = ground arith
  set_timeout_twice sock sock' ms sndtimeo net net' e = ground arith
