-- ===== src/Stream.antt =====
-- The class SocketStream of Code/evaluation/src/TCPSocket.h and TCPSocket.cpp.
-- A position is an unsigned int. Each loop takes fuel, above the number of its rounds.
pub mod Cursor
pub mod Follows
pub mod Advance
pub mod Place
pub mod Words
pub mod Lines
pub mod Keeps
pub mod Refine
pub mod Reads
use lspt_evaluation.Common.{
  ℕ, zero, suc, ◌+◌, ◌-◌, ◌%◌, Bool, true, false, not, ◌&&◌, ◌||◌, [], ◌∷◌, ◌++◌, Option, none,
  some, Bytes, ltb, ◌==◌, if◌then◌else◌, length, take, get_elem?, is_empty, Outcome, ok, empty_back,
  no_fuel, ◌>>=◌,
}
use lspt_evaluation.Reader.{Reader}
use lspt_evaluation.Socket.{TcpSocket, Net, recv}
use lspt_evaluation.System.{System}
use lspt_evaluation.Text.{is_space, substr, substr_from, uint_mod}

-- The object, with the state behind the socket that it refers to.
pub record SocketStream (W : Type 0) : Type 0 where
  pub buffer : Bytes
  pub pos : ℕ
  pub timed_out : Bool
  pub net : Net W

unfoldable pub open_stream : {W : Type 0} → Net W → SocketStream W
open_stream net = record { buffer = []; pos = 0; timed_out = false; net = net }

abbrev pub not_space : ℕ → Bool
not_space c = not (is_space c)

abbrev pub not_newline : ℕ → Bool
not_newline c = not (c == b'\n')

-- `++pos` and `end - start` on unsigned ints.
abbrev pub inc : ℕ → ℕ
inc p = (p + 1) % uint_mod

abbrev pub sub_uint : ℕ → ℕ → ℕ
sub_uint a b = (a + uint_mod - b) % uint_mod

-- The test of a loop: `pos < m_buffer.length()`, and the byte there passes.
abbrev pub passes_at : (ℕ → Bool) → Bytes → ℕ → Bool
passes_at test buffer p = elim (get_elem? buffer p) [ none ↦ false | some c ↦ test c ]

-- A line without the CR at its end; `back()` of an empty line is undefined.
unfoldable pub chomp : Bytes → Bytes
chomp [] = []
chomp (x ∷ []) = if x == b'\r' then [] else x ∷ []
chomp (x ∷ y ∷ r) = x ∷ chomp (y ∷ r)

unfoldable pub pop_cr : Bytes → Outcome Bytes
unfolding chomp
pop_cr [] = empty_back
pop_cr (x ∷ r) = ok (chomp (x ∷ r))

module _ {W : Type 0} (sys : System W) (sock : TcpSocket) where
  pub grab : SocketStream W → SocketStream W
  grab s =
      let (next, net') = recv sys sock s.net in
      record {
        buffer = s.buffer ++ next;
        pos = s.pos;
        timed_out = s.timed_out || is_empty next;
        net = net';
      }

  pub grab_if_needed : ℕ → SocketStream W → SocketStream W
  grab_if_needed p s = if p == length s.buffer && not s.timed_out then grab s else s

  -- `while (pos < m_buffer.length() && test(m_buffer[pos])) grab_if_needed(++pos);`
  pub advance : (ℕ → Bool) → ℕ → ℕ → SocketStream W → Outcome (ℕ × SocketStream W)
  advance test zero p s = no_fuel
  advance test (suc f) p s =
      let rest = advance test f (inc p) (grab_if_needed (inc p) s) in
      if passes_at test s.buffer p then rest else ok (p, s)

  -- The same loop on `m_pos` itself.
  pub move : (ℕ → Bool) → ℕ → SocketStream W → Outcome (SocketStream W)
  move test fuel s = do (p, s') ← advance test fuel s.pos s; ok (record s' { pos = p })

  -- The loop of `remaining`.
  pub drain : ℕ → SocketStream W → Outcome (SocketStream W)
  drain zero s = no_fuel
  drain (suc f) s =
      let end = length s.buffer % uint_mod in
      let rest = drain f (grab_if_needed end (record s { pos = end })) in
      if ltb s.pos (length s.buffer) then rest else ok s

  pub has_next : ℕ → SocketStream W → Outcome (Bool × SocketStream W)
  has_next fuel s = do
    (p, s') ← advance is_space fuel s.pos (grab_if_needed s.pos s)
    ok (ltb p (length s'.buffer), s')

  pub next_word : ℕ → SocketStream W → Outcome (Bytes × SocketStream W)
  next_word fuel s = do
    s1 ← move is_space fuel (grab_if_needed s.pos s)
    s2 ← move not_space fuel s1
    word ← substr s2.buffer s1.pos (sub_uint s2.pos s1.pos)
    ok (word, s2)

  pub next_line : ℕ → Bool → SocketStream W → Outcome (Bytes × SocketStream W)
  next_line fuel skip_whitespace s = do
    let s0 = grab_if_needed s.pos s
    s1 ← (if skip_whitespace then move is_space fuel s0 else ok s0)
    s2 ← move not_newline fuel s1
    line ← substr s2.buffer s1.pos (sub_uint s2.pos s1.pos)
    line' ← pop_cr line
    ok (line', record s2 { pos = inc s2.pos })

  pub remaining : ℕ → SocketStream W → Outcome (Bytes × SocketStream W)
  remaining fuel s = do
    let s0 = grab_if_needed s.pos s
    s1 ← drain fuel s0
    rest ← substr_from s1.buffer s0.pos
    ok (rest, s1)

  unfoldable pub socket_reader : ℕ → Reader (SocketStream W)
  unfolding has_next next_word next_line remaining advance move drain grab_if_needed grab
  socket_reader fuel = record {
    has_next = has_next fuel;
    next_word = next_word fuel;
    next_line = next_line fuel;
    remaining = remaining fuel;
    passed_buffer = λ s. take s.pos s.buffer;
  }
