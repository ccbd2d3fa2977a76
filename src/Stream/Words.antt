-- ===== src/Stream/Words.antt =====
-- `nextWord` from a place of the text, and the scans that the operations share.
use lspt_evaluation.Common.{
  ℕ, ◌+◌, ◌<◌, ◌≡◌, sym, ap, ◌∙◌, Bool, false, [], ◌++◌, some, Bytes, arith, length, length-append,
  Bool-cases, inl, inr, Outcome, ok, out_of_range, take_while, drop_while,
}
use lspt_evaluation.Reader.Simulates.{Agrees, Agrees-ok, Agrees_out_of_range}
use lspt_evaluation.Socket.{TcpSocket}
use lspt_evaluation.Stream.Advance.{grab_if_needed-pos, move_lem}
use lspt_evaluation.Stream.Cursor
use lspt_evaluation.Stream.Cursor.{Cursor, skip, text_reader, over_newline}
use lspt_evaluation.Stream.Follows.{Delivers, Near, Ready}
use lspt_evaluation.Stream.Place.{
  substr_between, scan_length, over, Follows, behind, grab_behind, move_behind, at_place,
  Ready-grab,
}
use lspt_evaluation.Stream.{SocketStream, grab_if_needed, move, next_word, sub_uint, not_space}
use lspt_evaluation.System.{System}
use lspt_evaluation.Text.{is_space, substr, uint_mod}
use native.Mathlib.Nat.{add-zero}

substr_at :
    (b before w more : Bytes) (i j : ℕ)
    → i ≡ length before
    → j ≡ length (before ++ w)
    → b ≡ (before ++ w) ++ more
    → length before + length w < uint_mod
    → substr b i (sub_uint j i) ≡ ok w
substr_at b before w more i j p q e h = rw (p, q) (substr_between b before w more e h)

pub substr_behind : (b : Bytes) (i n : ℕ) → i ≡ length b + 1 → substr b i n ≡ out_of_range
unfolding substr
substr_behind b i n e = ground arith

module _ {W : Type 0} (sys : System W) (sock : TcpSocket) (fd : ℕ) (opened : sock.socket ≡ some fd)
    (d : Delivers sys fd) (fuel : ℕ) where
  abbrev F : SocketStream W → Cursor → Type 0
  F = Follows sys sock fd opened d fuel

  abbrev IsReady : SocketStream W → Bytes → Bytes → Type 0
  IsReady = Ready sys sock fd opened d

  next_word_is :
      (s s1 s2 : SocketStream W) (w : Bytes)
      → move sys sock is_space fuel (grab_if_needed sys sock s.pos s) ≡ ok s1
      → move sys sock not_space fuel s1 ≡ ok s2
      → substr s2.buffer s1.pos (sub_uint s2.pos s1.pos) ≡ ok w
      → next_word sys sock fuel s ≡ ok (w, s2)
  unfolding next_word
  next_word_is s s1 s2 w p q r = simp (p, q, r)

  next_word_behind :
      (s : SocketStream W)
      → s.pos ≡ length s.buffer + 1
      → 0 < fuel
      → next_word sys sock fuel s ≡ out_of_range
  unfolding next_word
  next_word_behind s e h = simp (
    grab_behind sys sock fd opened d fuel s e,
    move_behind sys sock fd opened d fuel is_space fuel s e h,
    move_behind sys sock fd opened d fuel not_space fuel s e h,
    substr_behind s.buffer s.pos (sub_uint s.pos s.pos) e,
  )

  pub stand :
      (s : SocketStream W) (c : Cursor)
      → c.past ≡ false
      → Near sys sock fd opened d s c.before c.ahead
      → s.pos ≡ length c.before
      → length c.before + length c.ahead + 1 < uint_mod
      → length c.ahead < fuel
      → F s c
  stand s c e n p b h = record {
    near = n;
    pos_is = p ∙ sym (ap (λ (x : Bool). length c.before + over x) e ∙ add-zero _);
    past_end = λ k. absurd (let t = sym k ∙ e in cc);
    fits = b;
    fuelled = h;
  }

  pub scan_fits :
      (test : ℕ → Bool) (before ahead : Bytes)
      → length before + length ahead + 1 < uint_mod
      → length (before ++ take_while test ahead) + length (drop_while test ahead) + 1 < uint_mod
  scan_fits test before ahead h = omega (arith, scan_length test before ahead)

  pub scan_fuelled :
      (test : ℕ → Bool) (ahead : Bytes)
      → length ahead < fuel
      → length (drop_while test ahead) < fuel
  scan_fuelled test ahead h = omega (arith, scan_length test [] ahead)

  -- A loop over `m_pos` from the place of a cursor moves both alike.
  abbrev pub Moved : Outcome (SocketStream W) → Cursor → Type 0
  Moved out c =
      (s' : SocketStream W) × (out ≡ ok s')
      × IsReady s' c.before c.ahead
      × (s'.pos ≡ length c.before)

  pub skip_lem :
      (test : ℕ → Bool) (s : SocketStream W) (c : Cursor)
      → IsReady s c.before c.ahead
      → s.pos ≡ length c.before
      → length c.ahead < fuel
      → length c.before + length c.ahead + 1 < uint_mod
      → Moved (move sys sock test fuel s) (skip test c)
  skip_lem test s c r e h b =
      move_lem sys sock fd opened d test fuel s c.before c.ahead r e h (omega (arith, b))

  pub grabbed_pos :
      (s : SocketStream W) (c : Cursor)
      → F s c
      → c.past ≡ false
      → (grab_if_needed sys sock s.pos s).pos ≡ length c.before
  grabbed_pos s c f e =
      grab_if_needed-pos sys sock s.pos s ∙ at_place sys sock fd opened d fuel s c f e

  pub between :
      (s1 s2 : SocketStream W) (test : ℕ → Bool) (c : Cursor)
      → s1.pos ≡ length c.before
      → s2.pos ≡ length (skip test c).before
      → IsReady s2 (skip test c).before (skip test c).ahead
      → length c.before + length c.ahead + 1 < uint_mod
      → substr s2.buffer s1.pos (sub_uint s2.pos s1.pos) ≡ ok (take_while test c.ahead)
  between s1 s2 test c p q r b =
      substr_at s2.buffer c.before (take_while test c.ahead) r.near.more s1.pos s2.pos p q
        r.near.buffer_is
        (omega (
          arith,
          b,
          scan_length test c.before c.ahead,
          length-append c.before (take_while test c.ahead),
        ))

  next_word_inside :
      (s : SocketStream W) (c : Cursor)
      → F s c
      → c.past ≡ false
      → Agrees F (next_word sys sock fuel s) (Cursor.next_word c)
  unfolding Cursor.next_word
  next_word_inside s c f e =
      let c1 = skip is_space c in
      let c2 = skip not_space c1 in
      let fits1 = scan_fits is_space c.before c.ahead f.fits in
      let fuelled1 = scan_fuelled is_space c.ahead f.fuelled in
      let (s1, run1, r1, p1) =
        skip_lem is_space (grab_if_needed sys sock s.pos s) c
          (Ready-grab sys sock fd opened d fuel s c f e) (grabbed_pos s c f e) f.fuelled f.fits in
      let (s2, run2, r2, p2) = skip_lem not_space s1 c1 r1 p1 fuelled1 fits1 in
      Agrees-ok (take_while not_space c1.ahead) s2 c2
        (next_word_is s s1 s2 _ run1 run2 (between s1 s2 not_space c1 p1 p2 r2 fits1)) (simp e)
        (stand s2 c2 e r2.near p2 (scan_fits not_space c1.before c1.ahead fits1)
          (scan_fuelled not_space c1.ahead fuelled1))

  pub next_word-Agrees :
      (s : SocketStream W) (c : Cursor)
      → F s c
      → Agrees F (next_word sys sock fuel s) (Cursor.next_word c)
  unfolding Cursor.next_word
  next_word-Agrees s c f = elim (Bool-cases c.past) [
    | inl e ↦
        Agrees_out_of_range
          (next_word_behind s (behind sys sock fd opened d fuel s c f e) (omega (arith, f.fuelled)))
          (simp e)
    | inr e ↦ next_word_inside s c f e
  ]
