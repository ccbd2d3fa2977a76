-- ===== src/Stream/Advance.antt =====
-- The loops of SocketStream at a place of a text, beside a scan of the text.
use lspt_evaluation.Common.{
  ℕ, zero, suc, ◌+◌, ◌%◌, ◌<◌, ◌≡◌, refl, sym, ap, ◌∙◌, Bool, true, false, [], ◌∷◌, ◌++◌, none,
  some, Bytes, arith, length, get_elem?, length-append, Bool-cases, inl, inr, Outcome, ok,
  take_while, drop_while, ltb,
}
use lspt_evaluation.Socket.{TcpSocket}
use lspt_evaluation.Stream.Follows.{Delivers, Near, Ready, head-Ready, grab_if_needed-Ready, future}
use lspt_evaluation.Stream.{
  SocketStream, grab, grab_if_needed, advance, move, drain, inc, passes_at,
}
use lspt_evaluation.System.{System}
use lspt_evaluation.Text.{uint_mod}
use mathlib.Core.List.{append-nil, append_assoc}

pub grab_if_needed-pos :
    {W : Type 0} (sys : System W) (sock : TcpSocket) (p : ℕ) (s : SocketStream W)
    → (grab_if_needed sys sock p s).pos ≡ s.pos
unfolding grab_if_needed grab
grab_if_needed-pos sys sock p s = ground arith

stops : (test : ℕ → Bool) (b : Bytes) (p : ℕ) → get_elem? b p ≡ none → passes_at test b p ≡ false
stops test b p e = rw (e, passes_at)

passes :
    (test : ℕ → Bool) (b : Bytes) (p x : ℕ) → get_elem? b p ≡ some x → passes_at test b p ≡ test x
passes test b p x e = rw (e, passes_at)

lt_self : (a : ℕ) → ltb a a ≡ false
lt_self a = ground arith

lt_ltb : (a b : ℕ) → a < b → ltb a b ≡ true
lt_ltb a b h = ground arith

inc_lem : (n : ℕ) → n + 1 < uint_mod → inc n ≡ n + 1
inc_lem n h = omega arith

module _ {W : Type 0} (sys : System W) (sock : TcpSocket) (fd : ℕ) (opened : sock.socket ≡ some fd)
    (d : Delivers sys fd) where
  abbrev IsNear : SocketStream W → Bytes → Bytes → Type 0
  IsNear = Near sys sock fd opened d

  abbrev IsReady : SocketStream W → Bytes → Bytes → Type 0
  IsReady = Ready sys sock fd opened d

  pub Ready-step :
      (s : SocketStream W) (before : Bytes) (x : ℕ) (r : Bytes)
      → IsReady s before (x ∷ r)
      → IsNear s (before ++ x ∷ []) r
  Ready-step s before x r k = go k.near.more k.near.buffer_is k.near.ahead_is k.settled
    where
      go :
          (m : Bytes)
          → s.buffer ≡ before ++ m
          → x ∷ r ≡ m ++ future sys sock fd opened d s
          → (m ≡ [] → x ∷ r ≡ [])
          → IsNear s (before ++ x ∷ []) r
      go [] b a t = absurd (let e = t refl in cc)
      go (y ∷ m) b a t = record {
        more = m;
        buffer_is = b ∙ let e : y ≡ x = cc in rw (e, append_assoc);
        ahead_is = cc;
      }

  pub advance_lem :
      (test : ℕ → Bool) (f : ℕ) (s : SocketStream W) (before ahead : Bytes)
      → IsReady s before ahead
      → length ahead < f
      → length before + length ahead < uint_mod
      → (s' : SocketStream W) × (advance sys sock test f (length before) s
          ≡ ok (length (before ++ take_while test ahead), s'))
        × IsReady s' (before ++ take_while test ahead) (drop_while test ahead)
        × (s'.pos ≡ s.pos)
  unfolding advance
  advance_lem test zero s before ahead r h k = elim h [ ]
  advance_lem test (suc f) s before [] r h k = (
    s,
    rw (stops test s.buffer _ (head-Ready sys sock fd opened d s before [] r), append-nil),
    rw append-nil r,
    refl,
  )
  advance_lem test (suc f) s before (x ∷ r) k h b =
      let here = passes test s.buffer _ x (head-Ready sys sock fd opened d s before (x ∷ r) k) in
      elim (Bool-cases (test x)) [
        | inl hit ↦
            let s1 = grab_if_needed sys sock (length (before ++ x ∷ [])) s in
            let grown : length (before ++ x ∷ []) ≡ length before + 1 =
              length-append before (x ∷ []) in
            let (s', run, there, kept) =
              advance_lem test f s1 (before ++ x ∷ []) r
                (grab_if_needed-Ready sys sock fd opened d s _ r (Ready-step s before x r k))
                (omega arith) (omega (arith, grown)) in
            let next : inc (length before) ≡ length (before ++ x ∷ []) =
              inc_lem (length before) (omega arith) ∙ sym grown in
            (
              s',
              rw (here, hit, next) (run ∙ rw append_assoc),
              rw hit (rw append_assoc at there),
              kept ∙ grab_if_needed-pos sys sock _ s,
            )
        | inr miss ↦ (s, rw (here, miss, append-nil), rw (miss, append-nil) k, refl)
      ]

  pub Near-pos :
      (s : SocketStream W) (p : ℕ) (before ahead : Bytes)
      → IsNear s before ahead
      → IsNear (record s { pos = p }) before ahead
  Near-pos s p before ahead n = record {
    more = n.more;
    buffer_is = n.buffer_is;
    ahead_is = n.ahead_is;
  }

  Ready-pos :
      (s : SocketStream W) (p : ℕ) (before ahead : Bytes)
      → IsReady s before ahead
      → IsReady (record s { pos = p }) before ahead
  unfolding Near-pos
  Ready-pos s p before ahead r = record {
    near = Near-pos s p before ahead r.near;
    settled = r.settled;
  }

  pub move_lem :
      (test : ℕ → Bool) (f : ℕ) (s : SocketStream W) (before ahead : Bytes)
      → IsReady s before ahead
      → s.pos ≡ length before
      → length ahead < f
      → length before + length ahead < uint_mod
      → (s' : SocketStream W) × (move sys sock test f s ≡ ok s')
        × IsReady s' (before ++ take_while test ahead) (drop_while test ahead)
        × (s'.pos ≡ length (before ++ take_while test ahead))
  unfolding move
  move_lem test f s before ahead r e h b =
      let (s', run, there, kept) = advance_lem test f s before ahead r h b in
      (
        record s' { pos = length (before ++ take_while test ahead) },
        simp (e, run),
        Ready-pos s' _ _ _ there,
        refl,
      )

  -- The buffer holds the whole text `t`, and the place is its end.
  abbrev pub Drained : Outcome (SocketStream W) → Bytes → Type 0
  Drained out t =
      (s' : SocketStream W) × (out ≡ ok s')
      × IsReady s' t []
      × (s'.buffer ≡ t)
      × (s'.pos ≡ length t)

  drain_next :
      (f : ℕ) (s : SocketStream W)
      → s.pos < length s.buffer
      → length s.buffer < uint_mod
      → drain sys sock (suc f) s
        ≡ drain sys sock f
            (grab_if_needed sys sock (length s.buffer) (record s { pos = length s.buffer }))
  unfolding drain
  drain_next f s h b =
      let narrow : length s.buffer % uint_mod ≡ length s.buffer = omega arith in
      simp (lt_ltb _ _ h, narrow)

  drain_step :
      (f : ℕ) (s : SocketStream W) (before ahead m : Bytes)
      → s.buffer ≡ before ++ m
      → ahead ≡ m ++ future sys sock fd opened d s
      → (m ≡ [] → ahead ≡ [])
      → s.pos ≡ length before
      → length ahead < suc f
      → length before + length ahead < uint_mod
      → (length (future sys sock fd opened d s) < f
          → Drained
              (drain sys sock f
                (grab_if_needed sys sock (length s.buffer) (record s { pos = length s.buffer })))
              (s.buffer ++ future sys sock fd opened d s))
      → IsReady s before ahead
      → Drained (drain sys sock (suc f) s) (before ++ ahead)
  unfolding drain
  drain_step f s before ahead [] bu a t e h b rest r =
      let whole : s.buffer ≡ before = bu ∙ append-nil before in
      let none_left : ahead ≡ [] = t refl in
      let stop : ltb s.pos (length s.buffer) ≡ false = rw (e, whole) (lt_self (length before)) in
      (
        s,
        rw stop,
        rw (none_left, append-nil) (rw none_left at r),
        rw (none_left, append-nil) whole,
        rw (none_left, append-nil) e,
      )
  drain_step f s before ahead (y ∷ m) bu a t e h b rest r =
      let size : length s.buffer ≡ length before + suc (length m) =
        ap length bu ∙ length-append before (y ∷ m) in
      let split : length ahead ≡ suc (length m) + length (future sys sock fd opened d s) =
        ap length a ∙ length-append (y ∷ m) (future sys sock fd opened d s) in
      let whole : s.buffer ++ future sys sock fd opened d s ≡ before ++ ahead =
        rw (bu, a) (append_assoc before (y ∷ m) _) in
      let (s', run, there, all_in, end) = rest (omega (arith, split)) in
      (
        s',
        drain_next f s (omega (arith, size)) (omega (arith, size, split)) ∙ run,
        rw whole at there,
        all_in ∙ whole,
        end ∙ ap length whole,
      )

  pub drain_lem :
      (f : ℕ) (s : SocketStream W) (before ahead : Bytes)
      → IsReady s before ahead
      → s.pos ≡ length before
      → length ahead < f
      → length before + length ahead < uint_mod
      → Drained (drain sys sock f s) (before ++ ahead)
  drain_lem zero s before ahead r e h b = elim h [ ]
  drain_lem (suc f) s before ahead r e h b =
      let size = ap length r.near.buffer_is ∙ length-append before r.near.more in
      let split =
        ap length r.near.ahead_is ∙ length-append r.near.more (future sys sock fd opened d s) in
      drain_step f s before ahead r.near.more r.near.buffer_is r.near.ahead_is r.settled e h b
        (λ h'.
          drain_lem f _ s.buffer (future sys sock fd opened d s)
            (grab_if_needed-Ready sys sock fd opened d (record s { pos = length s.buffer }) s.buffer
              _ (record { more = []; buffer_is = sym (append-nil s.buffer); ahead_is = refl }))
            (grab_if_needed-pos sys sock _ _) h' (omega (arith, size, split)))
        r
