-- ===== src/Stream/Follows.antt =====
-- When a SocketStream stands at a place of a text, over a call of the socket too.
use lspt_evaluation.Common.{
  ℕ, ◌<◌, ◌≡◌, refl, ◌∙◌, true, false, not, ◌&&◌, ◌||◌, [], ◌∷◌, ◌++◌, Option, none, some, Bytes,
  arith, ◌==◌, if◌then◌else◌, length, get_elem?, head?, is_empty, get_elem?-append, length-append,
  Bool-cases, inl, inr,
}
use lspt_evaluation.Socket.{TcpSocket, Net, recv, recv_room}
use lspt_evaluation.Stream.{SocketStream, grab, grab_if_needed}
use lspt_evaluation.System.{System}
use mathlib.Core.List.{append-nil}

abbrev pub bytes_of : Option Bytes → Bytes
bytes_of none = []
bytes_of (some b) = b

-- What is assumed of the system: the peer sends a finite text. `incoming w` is all that calls of
-- `recv` from `w` on will hand over, up to the first that hands over nothing.
pub record Delivers {W : Type 0} (sys : System W) (fd : ℕ) : Type 0 where
  pub incoming : W → Bytes
  pub unfolds :
      (w : W)
      → incoming w
        ≡ bytes_of (sys.recv fd recv_room w).0
          ++ (if is_empty (bytes_of (sys.recv fd recv_room w).0)
              then []
              else incoming (sys.recv fd recv_room w).1)

pub recv_lem :
    {W : Type 0} (sys : System W) (sock : TcpSocket) (fd : ℕ) (net : Net W)
    → sock.socket ≡ some fd
    → recv sys sock net ≡ (
      bytes_of (sys.recv fd recv_room net.world).0,
      record net { world = (sys.recv fd recv_room net.world).1 },
    )
unfolding recv
recv_lem sys sock fd net e = ground arith

ne_by_lt : (a b : ℕ) → a < b → (a == b) ≡ false
ne_by_lt a b h = ground arith

eq_self : (a : ℕ) → (a == a) ≡ true
eq_self a = ground arith

module _ {W : Type 0} (sys : System W) (sock : TcpSocket) (fd : ℕ) (opened : sock.socket ≡ some fd)
    (d : Delivers sys fd) where
  -- What the stream has yet to receive.
  abbrev pub future : SocketStream W → Bytes
  future s = if s.timed_out then [] else d.incoming s.net.world

  pub record Near (s : SocketStream W) (before ahead : Bytes) : Type 0 where
    pub more : Bytes
    pub buffer_is : s.buffer ≡ before ++ more
    pub ahead_is : ahead ≡ more ++ future s

  -- The next byte of the text, if there is one, is in the buffer.
  pub record Ready (s : SocketStream W) (before ahead : Bytes) : Type 0 where
    pub near : Near s before ahead
    pub settled : near.more ≡ [] → ahead ≡ []

  pub head-Ready :
      (s : SocketStream W) (before ahead : Bytes)
      → Ready s before ahead
      → get_elem? s.buffer (length before) ≡ head? ahead
  head-Ready s before ahead r = go r.near.more r.near.buffer_is r.near.ahead_is r.settled
    where
      go :
          (m : Bytes)
          → s.buffer ≡ before ++ m
          → ahead ≡ m ++ future s
          → (m ≡ [] → ahead ≡ [])
          → get_elem? s.buffer (length before) ≡ head? ahead
      go [] b a t = rw (b, get_elem?-append before [], t refl)
      go (x ∷ m) b a t = rw (b, get_elem?-append before (x ∷ m), a)

  abbrev next : SocketStream W → Bytes
  next s = bytes_of (sys.recv fd recv_room s.net.world).0

  grab_lem :
      (s : SocketStream W)
      → grab sys sock s ≡ record {
        buffer = s.buffer ++ next s;
        pos = s.pos;
        timed_out = s.timed_out || is_empty (next s);
        net = record s.net { world = (sys.recv fd recv_room s.net.world).1 };
      }
  unfolding grab
  grab_lem s = rw (recv_lem sys sock fd s.net opened)

  grab-Ready :
      (s : SocketStream W) (before ahead : Bytes)
      → s.timed_out ≡ false
      → s.buffer ≡ before
      → ahead ≡ d.incoming s.net.world
      → Ready (grab sys sock s) before ahead
  grab-Ready s before ahead live b a =
      rw (grab_lem s, live)
        (record {
          near = record { more = next s; buffer_is = rw b; ahead_is = a ∙ d.unfolds s.net.world };
          settled = λ e. a ∙ d.unfolds s.net.world ∙ rw e;
        })

  pub grab_if_needed-Ready :
      (s : SocketStream W) (before ahead : Bytes)
      → Near s before ahead
      → Ready (grab_if_needed sys sock (length before) s) before ahead
  unfolding grab_if_needed
  grab_if_needed-Ready s before ahead n = go n.more n.buffer_is n.ahead_is
    where
      go :
          (m : Bytes)
          → s.buffer ≡ before ++ m
          → ahead ≡ m ++ future s
          → Ready
              (if length before == length s.buffer && not s.timed_out then grab sys sock s else s)
              before
              ahead
      go (x ∷ m) b a =
          let longer : (length before == length s.buffer) ≡ false =
            rw b (ne_by_lt _ _ (omega (arith, length-append before (x ∷ m)))) in
          rw longer (record {
            near = record { more = x ∷ m; buffer_is = b; ahead_is = a };
            settled = λ e. cc;
          })
      go [] b a =
          let whole : s.buffer ≡ before = b ∙ append-nil before in
          let ended : (length before == length s.buffer) ≡ true = rw whole (eq_self _) in
          elim (Bool-cases s.timed_out) [
            | inl over ↦
                simp (ended, over)
                  (record {
                    near = record { more = []; buffer_is = b; ahead_is = a };
                    settled = λ e. a ∙ rw over;
                  })
            | inr live ↦ simp (ended, live) (grab-Ready s before ahead live whole (a ∙ rw live))
          ]
