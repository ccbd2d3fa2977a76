-- ===== src/Socket/Ownership.antt =====
-- Who closes the descriptor of a TCPSocket of Code/evaluation/src/TCPSocket.cpp.
use lspt_evaluation.Common.{◌≡◌, true, false, arith}
use lspt_evaluation.Socket.{TcpSocket, Net, close, destroy, move_assign}
use lspt_evaluation.System.{System}

module _ {W : Type 0} (sys : System W) where
  -- After a `close` that returned true, a second `close` returns false and changes nothing, and
  -- the destructor does nothing: no descriptor is closed twice.
  pub destroy-close :
      (sock sock' : TcpSocket) (net net' : Net W)
      → close sys sock net ≡ (true, sock', net')
      → (close sys sock' net' ≡ (false, sock', net')) × (destroy sys sock' net' ≡ net')
  unfolding close destroy
  destroy-close sock sock' net net' e = ground arith

  -- Move assignment gives the target the source's socket, leaves the system as the destructor of
  -- the old target would, and leaves a source whose destructor does nothing.
  pub destroy-move_assign :
      (target sock : TcpSocket) (net : Net W)
      → ((move_assign sys target sock net).0 ≡ sock)
        × ((move_assign sys target sock net).2 ≡ destroy sys target net)
        × (destroy sys (move_assign sys target sock net).1 (move_assign sys target sock net).2
            ≡ (move_assign sys target sock net).2)
  unfolding move_assign destroy close
  destroy-move_assign target sock net = ground arith
