-- ===== src/Tests/Traffic.antt =====
-- The server's loop over one client with a click, and then a shutdown.
use lspt_evaluation.Common.{
  ℕ, length, ◌≡◌, refl, Bool, true, false, [], ◌∷◌, some, Bytes, text, if◌then◌else◌,
}
use lspt_evaluation.Common.Int.{pos}
use lspt_evaluation.Main.Signals.{SignalState}
use lspt_evaluation.Socket.{of_fd, bind, listen}
use lspt_evaluation.Server.Traffic.Attended.{Attended}
use lspt_evaluation.Server.Traffic.{Traffic}
use lspt_evaluation.Server.{HttpServer}
use lspt_evaluation.Socket.Peer.{Peer}
use lspt_evaluation.Socket.Sending.{Takes}
use lspt_evaluation.Stream.Follows.{Delivers}
use lspt_evaluation.System.{System, SignalCalls, FileCalls, events}
use lspt_evaluation.Tests.Wires.{
  Wires, wires, wires_take, peer_of_wires, delivers_wires, all_of, clicking,
}
use lspt_evaluation.Worker.{Host}

-- Whether the client has come, beside its connection.
abbrev Scene : Type 0
Scene = Bool × Wires

abbrev lift : {R : Type 0} → (Wires → R × Wires) → Scene → R × Scene
lift f x = ((f x.1).0, (x.0, (f x.1).1))

-- One client comes, and then the shutdown.
abbrev scenes : System Scene
scenes = record {
  socket = lift wires.socket;
  close = λ fd. lift (wires.close fd);
  send = λ fd b. lift (wires.send fd b);
  recv = λ fd n. lift (wires.recv fd n);
  reuse_address = λ fd. lift (wires.reuse_address fd);
  setsockopt = λ fd o s u. lift (wires.setsockopt fd o s u);
  getsockname = λ fd. lift (wires.getsockname fd);
  bind = λ fd q. lift (wires.bind fd q);
  listen = λ fd b. lift (wires.listen fd b);
  accept = λ fd x. (some 5, (true, x.1));
  inet_pton = wires.inet_pton;
  connect = λ fd a q. lift (wires.connect fd a q);
  getaddrinfo = λ d q. lift (wires.getaddrinfo d q);
  poll = λ a b x. (if x.0 then events 1 0 else events 0 1, x);
}

abbrev scenes_take : (fd : ℕ) → Takes scenes fd
scenes_take fd = record {
  wire = λ x. (wires_take fd).wire x.1;
  taken = λ b x. (wires_take fd).taken b x.1;
  refused = λ b x. (wires_take fd).refused b x.1;
}

abbrev peer_of_scenes : Peer scenes 5
peer_of_scenes = record {
  IsOpen = λ x. x.0 ≡ true;
  links = scenes_take;
  fresh = λ x h. peer_of_wires.fresh x.1 tt;
  own_send = λ b x h. h;
  other_send = λ fd b x ne. ((peer_of_wires.other_send fd b x.1 ne).0, λ h. h);
  other_close = λ fd x ne. (refl, λ h. h);
  own_close = λ x. refl;
  on_socket = λ x. (refl, λ h. h);
  on_recv = λ fd n x. ((peer_of_wires.on_recv fd n x.1).0, λ h. h);
  on_reuse_address = λ fd x. (refl, λ h. h);
  on_setsockopt = λ fd o s u x. (refl, λ h. h);
  on_getsockname = λ fd x. (refl, λ h. h);
  on_connect = λ fd a q x. (refl, λ h. h);
  on_getaddrinfo = λ d q x. (refl, λ h. h);
}

abbrev delivers_scenes : Delivers scenes 5
delivers_scenes = record {
  incoming = λ x. delivers_wires.incoming x.1;
  unfolds = λ x. delivers_wires.unfolds x.1;
}

abbrev a_click : Bytes
a_click = all_of clicking.net.world.inbox

abbrev opening : Host Scene
opening = record {
  net = record { ports_in_use = 8080 ∷ []; world = (false, clicking.net.world) };
  query_id = 0;
}

-- The program on the same system, whose `socket` gives descriptor 7 to the listener.
abbrev calls : SignalCalls Scene
calls = record {
  pipe = λ x. (some (8, 9), x);
  atexit = λ x. (true, x);
  sigaction = λ x. (true, x);
  write = λ fd b x. (some (length b), x);
}

abbrev files : FileCalls Scene
files = record {
  exists = λ path x. true;
  parent_path = λ path. text "log";
  create_directories = λ path x. x;
  open_append = λ path x. ([], x);
}

abbrev signals : SignalState
signals = record { shutdown_pipe = (8, 9); at_exit = true }

abbrev server : HttpServer
server = record { listener_port = 8080; backlog_size = pos 10; listener_socket = of_fd 7 }

abbrev starting : Host Scene
starting = record { net = record opening.net { ports_in_use = [] }; query_id = 0 }
