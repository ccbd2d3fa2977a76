-- ===== src/Stream/Lines.antt =====
-- `nextLine` from a place of the text.
use lspt_evaluation.Common.{
  ℕ, ◌+◌, ◌<◌, ◌≡◌, refl, sym, ap, ◌∙◌, Bool, true, false, [], ◌∷◌, some, Bytes, arith,
  if◌then◌else◌, length, length-append, Bool-cases, if_false, inl, inr, Outcome, ok, out_of_range,
  empty_back, json_error, no_fuel, ◌>>=◌, take_while,
}
use lspt_evaluation.Reader.Simulates.{
  Agrees, agree, Agrees_out_of_range, out_of_range_both, empty_back_both, json_error_both,
  no_fuel_both,
}
use lspt_evaluation.Socket.{TcpSocket}
use lspt_evaluation.Stream.Advance.{Ready-step, Near-pos}
use lspt_evaluation.Stream.Cursor
use lspt_evaluation.Stream.Cursor.{Cursor, skip, text_reader, over_newline}
use lspt_evaluation.Stream.Follows.{Delivers, Ready}
use lspt_evaluation.Stream.Place.{over, Follows, behind, grab_behind, move_behind, Ready-grab}
use lspt_evaluation.Stream.{
  SocketStream, grab_if_needed, move, next_line, sub_uint, inc, not_newline, pop_cr,
}
use lspt_evaluation.System.{System}
use lspt_evaluation.Text.{is_space, substr, uint_mod}
use lspt_evaluation.Stream.Words.{
  substr_behind, scan_fits, scan_fuelled, skip_lem, grabbed_pos, between, Moved,
}

pop-Agrees :
    {S C : Type 0} {R : S → C → Type 0} (m : Outcome Bytes) (s : S) (c : C)
    → R s c
    → Agrees R (m >>= λ line. ok (line, s)) (m >>= λ line. ok (line, c))
pop-Agrees (ok line) s c r = agree r
pop-Agrees out_of_range s c r = out_of_range_both
pop-Agrees empty_back s c r = empty_back_both
pop-Agrees json_error s c r = json_error_both
pop-Agrees no_fuel s c r = no_fuel_both

module _ {W : Type 0} (sys : System W) (sock : TcpSocket) (fd : ℕ) (opened : sock.socket ≡ some fd)
    (d : Delivers sys fd) (fuel : ℕ) where
  abbrev F : SocketStream W → Cursor → Type 0
  F = Follows sys sock fd opened d fuel

  abbrev IsReady : SocketStream W → Bytes → Bytes → Type 0
  IsReady = Ready sys sock fd opened d

  -- The line ends at a newline, or behind the end of the text.
  newline_lem :
      (s : SocketStream W) (c : Cursor) (xs : Bytes)
      → c.ahead ≡ xs
      → c.past ≡ false
      → IsReady s c.before xs
      → s.pos ≡ length c.before
      → length c.before + length xs + 1 < uint_mod
      → length xs < fuel
      → F (record s { pos = inc s.pos }) (over_newline c xs)
  unfolding over_newline
  newline_lem s c [] none_left e r p b h = record {
    near = Near-pos sys sock fd opened d s (inc s.pos) c.before c.ahead (rw none_left r.near);
    pos_is = omega arith;
    past_end = λ _. none_left;
    fits = rw none_left b;
    fuelled = rw none_left h;
  }
  newline_lem s c (y ∷ r') split e r p b h = record {
    near =
        Near-pos sys sock fd opened d s (inc s.pos) _ _
          (Ready-step sys sock fd opened d s c.before y r' r);
    pos_is = omega (arith, length-append c.before (y ∷ []), ap over e);
    past_end = λ k. absurd (let t = sym k ∙ e in cc);
    fits = omega (arith, length-append c.before (y ∷ []));
    fuelled = omega arith;
  }

  next_line_is :
      (skip_whitespace : Bool) (s s1 s2 : SocketStream W) (w : Bytes)
      → (if skip_whitespace
          then move sys sock is_space fuel (grab_if_needed sys sock s.pos s)
          else ok (grab_if_needed sys sock s.pos s))
        ≡ ok s1
      → move sys sock not_newline fuel s1 ≡ ok s2
      → substr s2.buffer s1.pos (sub_uint s2.pos s1.pos) ≡ ok w
      → next_line sys sock fuel skip_whitespace s
        ≡ (pop_cr w >>= λ line. ok (line, record s2 { pos = inc s2.pos }))
  unfolding next_line
  next_line_is b s s1 s2 w p q r = simp (p, q, r)

  next_line_behind :
      (b : Bool) (s : SocketStream W)
      → s.pos ≡ length s.buffer + 1
      → 0 < fuel
      → next_line sys sock fuel b s ≡ out_of_range
  unfolding next_line
  next_line_behind true s e h = simp (
    grab_behind sys sock fd opened d fuel s e,
    move_behind sys sock fd opened d fuel is_space fuel s e h,
    move_behind sys sock fd opened d fuel not_newline fuel s e h,
    substr_behind s.buffer s.pos (sub_uint s.pos s.pos) e,
  )
  next_line_behind false s e h = simp (
    grab_behind sys sock fd opened d fuel s e,
    move_behind sys sock fd opened d fuel not_newline fuel s e h,
    substr_behind s.buffer s.pos (sub_uint s.pos s.pos) e,
  )

  -- The white space that `nextLine(true)` skips first.
  first_stage :
      (b : Bool) (s : SocketStream W) (c : Cursor)
      → IsReady s c.before c.ahead
      → s.pos ≡ length c.before
      → length c.ahead < fuel
      → length c.before + length c.ahead + 1 < uint_mod
      → Moved sys sock fd opened d fuel
          (if b then move sys sock is_space fuel s else ok s)
          (if b then skip is_space c else c)
  first_stage true s c r p h b = skip_lem sys sock fd opened d fuel is_space s c r p h b
  first_stage false s c r p h b = (s, refl, r, p)

  stage_keeps :
      (b : Bool) (c : Cursor)
      → c.past ≡ false
      → length c.ahead < fuel
      → length c.before + length c.ahead + 1 < uint_mod
      → ((if b then skip is_space c else c).past ≡ false)
        × (length (if b then skip is_space c else c).ahead < fuel)
        × (length (if b then skip is_space c else c).before
              + length (if b then skip is_space c else c).ahead
              + 1
            < uint_mod)
  stage_keeps true c e h b = (
    e,
    scan_fuelled sys sock fd opened d fuel is_space c.ahead h,
    scan_fits sys sock fd opened d fuel is_space c.before c.ahead b,
  )
  stage_keeps false c e h b = (e, h, b)

  next_line_from :
      (b : Bool) (s s1 : SocketStream W) (c1 : Cursor)
      → (if b
          then move sys sock is_space fuel (grab_if_needed sys sock s.pos s)
          else ok (grab_if_needed sys sock s.pos s))
        ≡ ok s1
      → IsReady s1 c1.before c1.ahead
      → s1.pos ≡ length c1.before
      → c1.past ≡ false
      → length c1.ahead < fuel
      → length c1.before + length c1.ahead + 1 < uint_mod
      → Agrees F (next_line sys sock fuel b s) (
          pop_cr (take_while not_newline c1.ahead) >>= λ line.
          ok (line, over_newline (skip not_newline c1) (skip not_newline c1).ahead))
  next_line_from b s s1 c1 run1 r1 p1 e h fits1 =
      let c2 = skip not_newline c1 in
      let (s2, run2, r2, p2) = skip_lem sys sock fd opened d fuel not_newline s1 c1 r1 p1 h fits1 in
      rw
        (next_line_is b s s1 s2 _ run1 run2
          (between sys sock fd opened d fuel s1 s2 not_newline c1 p1 p2 r2 fits1))
        (pop-Agrees (pop_cr (take_while not_newline c1.ahead)) _ _ (
          newline_lem s2 c2 c2.ahead refl e r2 p2
            (scan_fits sys sock fd opened d fuel not_newline c1.before c1.ahead fits1)
            (scan_fuelled sys sock fd opened d fuel not_newline c1.ahead h)))

  pub next_line-Agrees :
      (b : Bool) (s : SocketStream W) (c : Cursor)
      → F s c
      → Agrees F (next_line sys sock fuel b s) (Cursor.next_line b c)
  unfolding Cursor.next_line
  next_line-Agrees b s c f = elim (Bool-cases c.past) [
    | inl e ↦
        Agrees_out_of_range
          (next_line_behind b s (behind sys sock fd opened d fuel s c f e)
            (omega (arith, f.fuelled)))
          (simp e)
    | inr e ↦
        let (s1, run1, r1, p1) =
          first_stage b (grab_if_needed sys sock s.pos s) c
            (Ready-grab sys sock fd opened d fuel s c f e)
            (grabbed_pos sys sock fd opened d fuel s c f e) f.fuelled f.fits in
        let (e1, h1, fits1) = stage_keeps b c e f.fuelled f.fits in
        rw (if_false c.past _ _ e)
          (next_line_from b s s1 (if b then skip is_space c else c) run1 r1 p1 e1 h1 fits1)
  ]
