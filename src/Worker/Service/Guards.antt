-- ===== src/Worker/Service/Guards.antt =====
-- `HTTPWorker::run` behind its parsing, and what it sends for a request or for a text that is none.
use lspt_evaluation.Common.{ℕ, ◌≤◌, ◌≡◌, Option, none, some, Bytes, text, length}
use lspt_evaluation.Http.{HttpRequest, get_header}
use lspt_evaluation.Socket.Peer.{Peer}
use lspt_evaluation.System.{System}

-- The parts of a request that come back in an answer are no longer than `size` bytes.
pub record IsWithin (size : ℕ) (r : HttpRequest) : Type 0 where
  pub body_within : length r.body ≤ size
  pub length_within :
      (given : Bytes)
      → get_header (text "content-length") r.headers ≡ some given
      → length given ≤ size

abbrev pub AllWithin : ℕ → Option HttpRequest → Type 0
AllWithin size none = Unit {0}
AllWithin size (some r) = IsWithin size r
