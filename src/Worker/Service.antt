-- ===== src/Worker/Service.antt =====
-- `HTTPWorker::run` as a service over a whole connection.
pub mod Sizes
pub mod Limits
pub mod Forwarding
pub mod Replies
pub mod Handlers
pub mod Guards
use lspt_evaluation.Common.{ℕ, ◌+◌, ◌<◌, ◌≡◌, ◌∙◌, Bool, some, Bytes, ◌>>=◌}
use lspt_evaluation.Http.Ends.Loops.{Ends}
use lspt_evaluation.Json.{JsonLibrary}
use lspt_evaluation.Socket.Peer.{Peer}
use lspt_evaluation.Socket.{TcpSocket, Net, set_timeout}
use lspt_evaluation.Stream.Cursor.{Cursor}
use lspt_evaluation.Stream.Follows.{Delivers}
use lspt_evaluation.Stream.Place.{Follows}
use lspt_evaluation.Stream.{socket_reader}
use lspt_evaluation.System.{System}
use lspt_evaluation.Text.{uint_mod, uint_mod}
use lspt_evaluation.Worker.Answer.{ready}
use lspt_evaluation.Worker.{Host, respond}
use Guards.{IsWithin}
use Limits.{ShortDumps, message_room}

module _ {W J : Type 0} (sys : System W) (json : JsonLibrary J) (fuel : ℕ) (fd : ℕ)
    (p : Peer sys fd) (room size : ℕ) (dumps : ShortDumps json room)
    (fits : message_room room size < uint_mod) (fuelled : message_room room size < fuel)
    (sock : TcpSocket) (opened : sock.socket ≡ some fd) (sent : Bytes) (host : Host W)
    (d : Delivers sys fd) where
  -- The socket and the network behind the setting of the timeout.
  abbrev behind : Bool × TcpSocket × Net W
  behind = ready sys json fuel sock host
