-- ===== src/Stream/Place.antt =====
-- When a SocketStream over a socket stands where a cursor stands in the text, behind the end of the
-- text included, and the first operation, `hasNext`, from there.
use lspt_evaluation.Common.{
  ℕ, zero, suc, ◌+◌, ◌≤◌, ◌<◌, ◌≡◌, refl, sym, ap, ◌∙◌, subst, Bool, true, false, not, [], ◌∷◌,
  ◌++◌, none, some, Bytes, arith, ◌==◌, if◌then◌else◌, length, get_elem?, is_empty, length-append,
  Bool-cases, inl, inr, ok, ◌>>=◌, take_while, drop_while, ltb, drop, take-append, drop-append,
  take_while-append-drop_while,
}
use lspt_evaluation.Reader.Simulates.{Agrees, Agrees-ok}
use lspt_evaluation.Socket.{TcpSocket}
use lspt_evaluation.Stream.Advance.{grab_if_needed-pos, advance_lem}
use lspt_evaluation.Stream.Cursor.{Cursor, text_reader}
use lspt_evaluation.Stream.Follows.{Delivers, Near, Ready, grab_if_needed-Ready, future}
use lspt_evaluation.Stream.{
  SocketStream, grab_if_needed, advance, move, has_next, sub_uint, passes_at,
}
use lspt_evaluation.System.{System}
use lspt_evaluation.Text.{is_space, substr, uint_mod}
use native.Mathlib.Nat.{add-zero}
use native.Mathlib.Numerals.{add-one}
use mathlib.Core.List.{append-nil, append_assoc}

-- The piece of a buffer between two places.
pub substr_between :
    (b before w more : Bytes)
    → b ≡ (before ++ w) ++ more
    → length before + length w < uint_mod
    → substr b (length before) (sub_uint (length (before ++ w)) (length before)) ≡ ok w
unfolding substr
substr_between b before w more e h =
    let size = length-append before w in
    let total = length-append (before ++ w) more in
    let count : sub_uint (length (before ++ w)) (length before) ≡ length w = omega (arith, size) in
    let inside : ltb (length b) (length before) ≡ false =
      rw e (ltb_ge _ _ (omega (arith, size, total))) in
    let tail : drop (length before) b ≡ w ++ more =
      rw (e, append_assoc) (drop-append before (w ++ more)) in
    rw (inside, count, tail) (ap ok (take-append w more))
  where
    ltb_ge : (x y : ℕ) → y ≤ x → ltb x y ≡ false
    ltb_ge x y k = ground arith

passes_at_end : (test : ℕ → Bool) (b : Bytes) → passes_at test b (length b + 1) ≡ false
passes_at_end test b = rw (add-one, beyond b, passes_at)
  where
    beyond : (l : Bytes) → get_elem? l (suc (length l)) ≡ none
    beyond [] = refl
    beyond (x ∷ l) = beyond l

ltb_self : (a : ℕ) → ltb a a ≡ false
ltb_self a = ground arith

ltb_lt : (a b : ℕ) → a < b → ltb a b ≡ true
ltb_lt a b h = ground arith

ltb_beyond : (a : ℕ) → ltb (a + 1) a ≡ false
ltb_beyond a = ground arith

pub scan_length :
    (test : ℕ → Bool) (before ahead : Bytes)
    → length (before ++ take_while test ahead) + length (drop_while test ahead)
      ≡ length before + length ahead
scan_length test before ahead = omega (
  arith,
  length-append before (take_while test ahead),
  ap length (take_while-append-drop_while test ahead),
  length-append (take_while test ahead) (drop_while test ahead),
)

abbrev pub over : Bool → ℕ
over b = if b then 1 else 0

module _ {W : Type 0} (sys : System W) (sock : TcpSocket) (fd : ℕ) (opened : sock.socket ≡ some fd)
    (d : Delivers sys fd) (fuel : ℕ) where
  pub record Follows (s : SocketStream W) (c : Cursor) : Type 0 where
    pub near : Near sys sock fd opened d s c.before c.ahead
    pub pos_is : s.pos ≡ length c.before + over c.past
    pub past_end : c.past ≡ true → c.ahead ≡ []
    pub fits : length c.before + length c.ahead + 1 < uint_mod
    pub fuelled : length c.ahead < fuel

  -- Where the cursor is behind the end, the buffer holds the whole text, and no operation moves the
  -- stream.
  pub whole_behind :
      (s : SocketStream W) (c : Cursor) → Follows s c → c.past ≡ true → s.buffer ≡ c.before
  whole_behind s c f e = go f.near.more f.near.buffer_is f.near.ahead_is
    where
      go :
          (m : Bytes)
          → s.buffer ≡ c.before ++ m
          → c.ahead ≡ m ++ future sys sock fd opened d s
          → s.buffer ≡ c.before
      go [] b a = b ∙ append-nil c.before
      go (y ∷ m) b a = absurd (let none_left = sym (f.past_end e) ∙ a in cc)

  pub behind :
      (s : SocketStream W) (c : Cursor) → Follows s c → c.past ≡ true → s.pos ≡ length s.buffer + 1
  behind s c f e =
      f.pos_is ∙ ap (λ (x : Bool). length c.before + over x) e ∙ rw (whole_behind s c f e)

  pub grab_behind :
      (s : SocketStream W) → s.pos ≡ length s.buffer + 1 → grab_if_needed sys sock s.pos s ≡ s
  unfolding grab_if_needed
  grab_behind s e = let differs : (s.pos == length s.buffer) ≡ false = apart _ _ e in simp differs
    where
      apart : (a b : ℕ) → a ≡ b + 1 → (a == b) ≡ false
      apart a b h = ground arith

  advance_behind :
      (test : ℕ → Bool) (f : ℕ) (s : SocketStream W)
      → s.pos ≡ length s.buffer + 1
      → 0 < f
      → advance sys sock test f s.pos s ≡ ok (s.pos, s)
  unfolding advance
  advance_behind test zero s e h = elim h [ ]
  advance_behind test (suc f) s e h =
      let none_there : passes_at test s.buffer s.pos ≡ false =
        ap (λ (p : ℕ). passes_at test s.buffer p) e ∙ passes_at_end test s.buffer in
      simp none_there

  pub move_behind :
      (test : ℕ → Bool) (f : ℕ) (s : SocketStream W)
      → s.pos ≡ length s.buffer + 1
      → 0 < f
      → move sys sock test f s ≡ ok s
  unfolding move
  move_behind test f s e h = simp (advance_behind test f s e h)

  pub at_place :
      (s : SocketStream W) (c : Cursor) → Follows s c → c.past ≡ false → s.pos ≡ length c.before
  at_place s c f e = f.pos_is ∙ ap (λ (x : Bool). length c.before + over x) e ∙ add-zero _

  pub Ready-grab :
      (s : SocketStream W) (c : Cursor)
      → Follows s c
      → c.past ≡ false
      → Ready sys sock fd opened d (grab_if_needed sys sock s.pos s) c.before c.ahead
  Ready-grab s c f e =
      subst (λ p. Ready sys sock fd opened d (grab_if_needed sys sock p s) c.before c.ahead)
        (sym (at_place s c f e))
        (grab_if_needed-Ready sys sock fd opened d s c.before c.ahead f.near)

  ltb-Ready :
      (s : SocketStream W) (before ahead : Bytes)
      → Ready sys sock fd opened d s before ahead
      → ltb (length before) (length s.buffer) ≡ not (is_empty ahead)
  ltb-Ready s before ahead r = go r.near.more r.near.buffer_is r.near.ahead_is r.settled
    where
      go :
          (m : Bytes)
          → s.buffer ≡ before ++ m
          → ahead ≡ m ++ future sys sock fd opened d s
          → (m ≡ [] → ahead ≡ [])
          → ltb (length before) (length s.buffer) ≡ not (is_empty ahead)
      go [] b a t = rw (b, t refl, append-nil) (ltb_self (length before))
      go (y ∷ m) b a t = rw (b, a) (ltb_lt _ _ (omega (arith, length-append before (y ∷ m))))

  Near-back :
      (s : SocketStream W) (before w ahead : Bytes)
      → Near sys sock fd opened d s (before ++ w) ahead
      → Near sys sock fd opened d s before (w ++ ahead)
  Near-back s before w ahead n = record {
    more = w ++ n.more;
    buffer_is = n.buffer_is ∙ append_assoc before w n.more;
    ahead_is = ap (◌++◌ w) n.ahead_is ∙ sym (append_assoc w n.more _);
  }

  has_next_behind :
      (s : SocketStream W)
      → s.pos ≡ length s.buffer + 1
      → 0 < fuel
      → has_next sys sock fuel s ≡ ok (false, s)
  unfolding has_next
  has_next_behind s e h =
      let no_more : ltb s.pos (length s.buffer) ≡ false =
        ap (λ (p : ℕ). ltb p (length s.buffer)) e ∙ ltb_beyond (length s.buffer) in
      simp (grab_behind s e, advance_behind is_space fuel s e h, no_more)

  has_next_inside :
      (s : SocketStream W) (c : Cursor)
      → Follows s c
      → c.past ≡ false
      → Agrees Follows (has_next sys sock fuel s) (text_reader.has_next c)
  unfolding text_reader has_next
  has_next_inside s c f e =
      let (s', run, there, kept) =
        advance_lem sys sock fd opened d is_space fuel (grab_if_needed sys sock s.pos s) c.before
          c.ahead (Ready-grab s c f e) f.fuelled (omega (arith, f.fits)) in
      let found =
        ap (λ (p : ℕ). advance sys sock is_space fuel p (grab_if_needed sys sock s.pos s))
          (at_place s c f e)
        ∙ run in
      Agrees-ok (not (is_empty (drop_while is_space c.ahead))) s' c
        (ap (λ m. m >>= λ (q : ℕ × SocketStream W). ok (ltb q.0 (length q.1.buffer), q.1)) found
          ∙ ap (λ (b : Bool). ok (b, s')) (ltb-Ready s' _ _ there))
        refl
        (record {
          near =
              rw (take_while-append-drop_while is_space c.ahead) at
                (Near-back s' c.before _ _ there.near);
          pos_is = kept ∙ grab_if_needed-pos sys sock s.pos s ∙ f.pos_is;
          past_end = f.past_end;
          fits = f.fits;
          fuelled = f.fuelled;
        })

  pub has_next-Agrees :
      (s : SocketStream W) (c : Cursor)
      → Follows s c
      → Agrees Follows (has_next sys sock fuel s) (text_reader.has_next c)
  unfolding text_reader
  has_next-Agrees s c f = elim (Bool-cases c.past) [
    | inl e ↦
        Agrees-ok false s c (has_next_behind s (behind s c f e) (omega (arith, f.fuelled)))
          (rw (f.past_end e)) f
    | inr e ↦ has_next_inside s c f e
  ]
