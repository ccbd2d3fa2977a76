-- ===== src/TestUtil.antt =====
-- The helpers of the unit tests in Code/unittest/TestUtil.hpp. An expectation that fails is recorded, and
-- the code goes on.
pub mod Compare
pub mod Pair
use lspt_evaluation.Common.{
  ℕ, Bool, true, false, ◌&&◌, List, [], ◌∷◌, Option, none, some, Bytes, text, equal, ◌==◌, length,
  all,
}
use lspt_evaluation.Common.Int.{pos}
use lspt_evaluation.Http.{Headers, get_header, HttpResponse}
use lspt_evaluation.Socket.{
  TcpSocket, Net, closed, create, bind, listen, accept, connect, destroy, move_assign,
}
use lspt_evaluation.System.{System}

-- The expectations, in their order; the pair, where no exception ended the call; and the system.
pub record Sockets (W : Type 0) : Type 0 where
  pub expected : List Bool
  pub pair : Option (TcpSocket × TcpSocket)
  pub net : Net W

abbrev pub has_value : Option TcpSocket → Bool
has_value none = false
has_value (some _) = true

module _ {W : Type 0} (sys : System W) where
  -- The end of `get_server_and_client`. Without a client, `value()` throws, and the pair is destroyed,
  -- its second member first. What is left of the client's socket is destroyed behind its move.
  unfoldable pub join_sockets :
      List Bool → TcpSocket → TcpSocket → Option TcpSocket → Net W → Sockets W
  join_sockets expected first second none net = record {
    expected = expected;
    pair = none;
    net = destroy sys first (destroy sys second net);
  }
  join_sockets expected first second (some messager) net =
      let (moved, left, net') = move_assign sys first messager net in
      record { expected = expected; pair = some (moved, second); net = destroy sys left net' }

  unfoldable pub get_server_and_client : ℕ → Net W → Sockets W
  unfolding join_sockets
  get_server_and_client port net =
      let (created, first, net1) = create sys closed net in
      let (bound, net2) = bind sys first port net1 in
      let (listening, net3) = listen sys first (pos 1) net2 in
      let (made, second, net4) = create sys closed net3 in
      let (connected, net5) = connect sys second (text "127.0.0.1") port net4 in
      let (messager, net6) = accept sys first net5 in
      join_sockets (created ∷ bound ∷ listening ∷ made ∷ connected ∷ has_value messager ∷ []) first
        second messager net6

-- `==` of two maps of headers.
unfoldable pub has_header : Headers → Bytes × Bytes → Bool
has_header hs (k, v) = elim (get_header k hs) [ none ↦ false | some w ↦ equal v w ]

unfoldable pub same_headers : Headers → Headers → Bool
unfolding has_header
same_headers h1 h2 = (length h1 == length h2) && all (has_header h2) h1

-- The results of the expectations.
unfoldable pub compare_http_responses : HttpResponse → HttpResponse → List Bool
unfolding same_headers
compare_http_responses h1 h2 =
    equal h1.version h2.version
    ∷ (h1.code == h2.code)
    ∷ equal h1.status h2.status
    ∷ same_headers h1.headers h2.headers
    ∷ equal h1.body h2.body
    ∷ []
