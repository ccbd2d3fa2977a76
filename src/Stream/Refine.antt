-- ===== src/Stream/Refine.antt =====
-- `remaining` from a place of the text, and a SocketStream over a socket that delivers a finite text
-- beside a cursor in that text.
use lspt_evaluation.Common.{
  ℕ, zero, suc, ◌+◌, ◌≤◌, ◌<◌, ◌≡◌, refl, ap, ◌∙◌, false, [], ◌∷◌, ◌++◌, some, Bytes, arith, length,
  length-append, Bool-cases, if_false, inl, inr, ok, out_of_range, ltb, take, take-append,
  drop-append,
}
use lspt_evaluation.Reader.Simulates.{Agrees, Agrees-ok, Agrees_out_of_range, Simulates}
use lspt_evaluation.Socket.{TcpSocket}
use lspt_evaluation.Stream.Advance.{drain_lem}
use lspt_evaluation.Stream.Cursor
use lspt_evaluation.Stream.Cursor.{Cursor, skip, text_reader, over_newline}
use lspt_evaluation.Stream.Follows.{Delivers, Ready}
use lspt_evaluation.Stream.Place.{
  Follows, behind, grab_behind, whole_behind, at_place, Ready-grab, has_next-Agrees,
}
use lspt_evaluation.Stream.{SocketStream, grab_if_needed, drain, remaining, socket_reader}
use lspt_evaluation.System.{System}
use lspt_evaluation.Text.{substr_from}
use native.Mathlib.Numerals.{add-one}
use lspt_evaluation.Stream.Words.{stand, grabbed_pos, next_word-Agrees}
use lspt_evaluation.Stream.Lines.{next_line-Agrees}

substr_from_behind : (b : Bytes) (i : ℕ) → i ≡ length b + 1 → substr_from b i ≡ out_of_range
unfolding substr_from
substr_from_behind b i e = ground arith

from_place :
    (b before ahead : Bytes) (i : ℕ)
    → i ≡ length before
    → b ≡ before ++ ahead
    → substr_from b i ≡ ok ahead
unfolding substr_from
from_place b before ahead i p e =
    let inside : ltb (length b) i ≡ false =
      rw (p, e) (ltb_ge _ _ (omega (arith, length-append before ahead))) in
    rw inside (rw (p, e) (ap ok (drop-append before ahead)))
  where
    ltb_ge : (x y : ℕ) → y ≤ x → ltb x y ≡ false
    ltb_ge x y k = ground arith

take_all : (b : Bytes) → take (length b + 1) b ≡ b
take_all b = rw add-one (go b)
  where
    go : (l : Bytes) → take (suc (length l)) l ≡ l
    go [] = refl
    go (x ∷ l) = ap (◌∷◌ x) (go l)

drain_behind :
    {W : Type 0} (sys : System W) (sock : TcpSocket) (f : ℕ) (s : SocketStream W)
    → s.pos ≡ length s.buffer + 1
    → 0 < f
    → drain sys sock f s ≡ ok s
unfolding drain
drain_behind sys sock zero s e h = elim h [ ]
drain_behind sys sock (suc f) s e h =
    let no_more : ltb s.pos (length s.buffer) ≡ false = ltb_after _ _ e in simp no_more
  where
    ltb_after : (x y : ℕ) → x ≡ y + 1 → ltb x y ≡ false
    ltb_after x y k = ground arith

module _ {W : Type 0} (sys : System W) (sock : TcpSocket) (fd : ℕ) (opened : sock.socket ≡ some fd)
    (d : Delivers sys fd) (fuel : ℕ) where
  abbrev F : SocketStream W → Cursor → Type 0
  F = Follows sys sock fd opened d fuel

  abbrev IsReady : SocketStream W → Bytes → Bytes → Type 0
  IsReady = Ready sys sock fd opened d

  remaining_inside :
      (s s1 : SocketStream W) (c : Cursor)
      → (grab_if_needed sys sock s.pos s).pos ≡ length c.before
      → drain sys sock fuel (grab_if_needed sys sock s.pos s) ≡ ok s1
      → s1.buffer ≡ c.before ++ c.ahead
      → remaining sys sock fuel s ≡ ok (c.ahead, s1)
  unfolding remaining
  remaining_inside s s1 c p run all_in = simp (run, whole)
    where
      whole : substr_from s1.buffer (grab_if_needed sys sock s.pos s).pos ≡ ok c.ahead
      whole = from_place s1.buffer c.before c.ahead _ p all_in

  remaining_behind :
      (s : SocketStream W)
      → s.pos ≡ length s.buffer + 1
      → 0 < fuel
      → remaining sys sock fuel s ≡ out_of_range
  unfolding remaining
  remaining_behind s e h = simp (
    grab_behind sys sock fd opened d fuel s e,
    drain_behind sys sock fuel s e h,
    substr_from_behind s.buffer s.pos e,
  )

  remaining-Agrees :
      (s : SocketStream W) (c : Cursor)
      → F s c
      → Agrees F (remaining sys sock fuel s) (Cursor.remaining c)
  unfolding Cursor.remaining
  remaining-Agrees s c f = elim (Bool-cases c.past) [
    | inl e ↦
        Agrees_out_of_range
          (remaining_behind s (behind sys sock fd opened d fuel s c f e) (omega (arith, f.fuelled)))
          (simp e)
    | inr e ↦
        let place = grabbed_pos sys sock fd opened d fuel s c f e in
        let (s1, run, r1, all_in, end) =
          drain_lem sys sock fd opened d fuel (grab_if_needed sys sock s.pos s) c.before c.ahead
            (Ready-grab sys sock fd opened d fuel s c f e) place f.fuelled
            (omega (arith, f.fits)) in
        Agrees-ok c.ahead s1 (record c { before = c.before ++ c.ahead; ahead = [] })
          (remaining_inside s s1 c place run all_in) (if_false c.past _ _ e)
          (stand sys sock fd opened d fuel s1
            (record c { before = c.before ++ c.ahead; ahead = [] }) e r1.near end
            (omega (arith, length-append c.before c.ahead, f.fits)) (omega (arith, f.fuelled)))
  ]

  passed_buffer_lem : (s : SocketStream W) (c : Cursor) → F s c → take s.pos s.buffer ≡ c.before
  passed_buffer_lem s c f = elim (Bool-cases c.past) [
    | inl e ↦
        ap (λ p. take p s.buffer) (behind sys sock fd opened d fuel s c f e)
        ∙ take_all s.buffer
        ∙ whole_behind sys sock fd opened d fuel s c f e
    | inr e ↦
        ap (λ p. take p s.buffer) (at_place sys sock fd opened d fuel s c f e)
        ∙ ap (take (length c.before)) f.near.buffer_is
        ∙ take-append c.before f.near.more
  ]

  -- Each operation of SocketStream on an open socket answers as the same operation of a cursor
  -- over the whole text that the peer sends, faults included, and leaves the two in places that
  -- belong together.
  pub socket_reader-Simulates : Simulates F (socket_reader sys sock fuel) text_reader
  unfolding socket_reader text_reader
  socket_reader-Simulates = record {
    has_next = has_next-Agrees sys sock fd opened d fuel;
    next_word = next_word-Agrees sys sock fd opened d fuel;
    next_line = next_line-Agrees sys sock fd opened d fuel;
    remaining = remaining-Agrees;
    passed_buffer = passed_buffer_lem;
  }
