-- ===== src/Server/Ready.antt =====
-- What `HTTPServer::init` has done where it returns true.
use lspt_evaluation.Common.{ℕ, ◌≡◌, ◌≢◌, true, false, none, arith}
use lspt_evaluation.Json.{JsonLibrary}
use lspt_evaluation.Server.{HttpServer, init}
use lspt_evaluation.Socket.Ports.{contains-emplace}
use lspt_evaluation.Socket.{Net, create, bind, listen, contains}
use lspt_evaluation.System.{System}

module _ {W J : Type 0} (sys : System W) (json : JsonLibrary J) (fuel : ℕ) where
  -- Where `init` returns true, the listening socket is open, its port was not in use before and is
  -- in use now, and the server's port is as it was.
  pub init_ready :
      (server server' : HttpServer) (net net' : Net W)
      → init sys json fuel server net ≡ (true, server', net')
      → (server'.listener_socket.socket ≢ none)
        × (contains server.listener_port net.ports_in_use ≡ false)
        × (contains server.listener_port net'.ports_in_use ≡ true)
        × (server'.listener_port ≡ server.listener_port)
  unfolding init create bind listen
  init_ready server server' net net' e =
      let c = contains-emplace server.listener_port server.listener_port net.ports_in_use in
      ground (arith, c)
