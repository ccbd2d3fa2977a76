-- ===== src/Reader.antt =====
-- The interface between the parsers of HTTPServer.cpp and the class SocketStream of TCPSocket.h: the
-- operations that the parsers call, over any state of the stream.
pub mod Itself
pub mod Simulates
use lspt_evaluation.Common.{Bool, Bytes, Outcome}

pub record Reader (S : Type 0) : Type 0 where
  pub has_next : S → Outcome (Bool × S)
  pub next_word : S → Outcome (Bytes × S)
  pub next_line : Bool → S → Outcome (Bytes × S)
  pub remaining : S → Outcome (Bytes × S)
  pub passed_buffer : S → Bytes
