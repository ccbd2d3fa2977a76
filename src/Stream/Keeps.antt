-- ===== src/Stream/Keeps.antt =====
-- What a SocketStream leaves alone of the network: whatever `recv` leaves alone.
use lspt_evaluation.Common.{
  ℕ, zero, suc, ◌%◌, Bool, not, ◌&&◌, Bytes, ◌==◌, ltb, length, inl, inr, Bool-cases, Outcome,
  Leaves, leaves, at_no_fuel, Leaves-any, >>=-Leaves, if-Leaves,
}
use lspt_evaluation.Reader.Simulates.{
  Agrees, agree, out_of_range_both, empty_back_both, json_error_both, no_fuel_both, Simulates,
}
use lspt_evaluation.Reader.{Reader}
use lspt_evaluation.Socket.{TcpSocket, Net, recv}
use lspt_evaluation.Stream.{
  SocketStream, not_space, not_newline, grab, grab_if_needed, passes_at, inc, sub_uint, advance,
  move, drain, has_next, next_word, next_line, remaining, pop_cr, socket_reader,
}
use lspt_evaluation.System.{System}
use lspt_evaluation.Text.{is_space, substr, uint_mod}

-- A relation of states may carry what one side of it leaves alone.
Agrees-Leaves :
    {S C A : Type 0} (R : S → C → Type 0) (K : S → Type 0) {m : Outcome (A × S)}
    {n : Outcome (A × C)}
    → Agrees R m n
    → Leaves (λ q. K q.1) m
    → Agrees (λ s c. R s c × K s) m n
Agrees-Leaves R K (agree r) (leaves _ k) = agree (r, k)
Agrees-Leaves R K out_of_range_both k = out_of_range_both
Agrees-Leaves R K empty_back_both k = empty_back_both
Agrees-Leaves R K json_error_both k = json_error_both
Agrees-Leaves R K no_fuel_both k = no_fuel_both

module _ {W : Type 0} (sys : System W) (sock : TcpSocket) (K : Net W → Type 0)
    (recv_keeps : (net : Net W) → K net → K (recv sys sock net).1) where
  abbrev Kept : {A : Type 0} → A × SocketStream W → Type 0
  Kept q = K q.1.net

  grab_if_needed-keeps :
      (p : ℕ) (s : SocketStream W) → K s.net → K (grab_if_needed sys sock p s).net
  unfolding grab_if_needed grab
  grab_if_needed-keeps p s k = elim (Bool-cases (p == length s.buffer && not s.timed_out)) [
    | inl e ↦ simp e (recv_keeps s.net k)
    | inr e ↦ simp e k
  ]

  advance-Leaves :
      (test : ℕ → Bool) (fuel p : ℕ) (s : SocketStream W)
      → K s.net
      → Leaves (λ (q : ℕ × SocketStream W). K q.1.net) (advance sys sock test fuel p s)
  unfolding advance
  advance-Leaves test zero p s k = at_no_fuel
  advance-Leaves test (suc f) p s k =
      if-Leaves _ (passes_at test s.buffer p)
        (advance-Leaves test f (inc p) (grab_if_needed sys sock (inc p) s)
          (grab_if_needed-keeps (inc p) s k))
        (leaves (p, s) k)

  move-Leaves :
      (test : ℕ → Bool) (fuel : ℕ) (s : SocketStream W)
      → K s.net
      → Leaves (λ (t : SocketStream W). K t.net) (move sys sock test fuel s)
  unfolding move
  move-Leaves test fuel s k =
      >>=-Leaves (λ (q : ℕ × SocketStream W). K q.1.net) (λ (t : SocketStream W). K t.net)
        (advance-Leaves test fuel s.pos s k) (λ q h. leaves (record q.1 { pos = q.0 }) h)

  drain-Leaves :
      (fuel : ℕ) (s : SocketStream W)
      → K s.net
      → Leaves (λ (t : SocketStream W). K t.net) (drain sys sock fuel s)
  unfolding drain
  drain-Leaves zero s k = at_no_fuel
  drain-Leaves (suc f) s k =
      let end = length s.buffer % uint_mod in
      if-Leaves _ (ltb s.pos (length s.buffer))
        (drain-Leaves f (grab_if_needed sys sock end (record s { pos = end }))
          (grab_if_needed-keeps end (record s { pos = end }) k))
        (leaves s k)

  abbrev AnyBytes : Bytes → Type 0
  AnyBytes _ = Unit {0}

  abbrev KeptStream : SocketStream W → Type 0
  KeptStream s = K s.net

  has_next-Leaves :
      (fuel : ℕ) (s : SocketStream W)
      → K s.net
      → Leaves (λ (q : Bool × SocketStream W). K q.1.net) (has_next sys sock fuel s)
  unfolding has_next
  has_next-Leaves fuel s k =
      >>=-Leaves (λ (q : ℕ × SocketStream W). K q.1.net) (λ (q : Bool × SocketStream W). K q.1.net)
        (advance-Leaves is_space fuel s.pos (grab_if_needed sys sock s.pos s)
          (grab_if_needed-keeps s.pos s k))
        (λ q h. leaves (ltb q.0 (length q.1.buffer), q.1) h)

  next_word-Leaves :
      (fuel : ℕ) (s : SocketStream W)
      → K s.net
      → Leaves (λ (q : Bytes × SocketStream W). K q.1.net) (next_word sys sock fuel s)
  unfolding next_word
  next_word-Leaves fuel s k =
      let Q = λ (q : Bytes × SocketStream W). K q.1.net in
      >>=-Leaves KeptStream Q
        (move-Leaves is_space fuel (grab_if_needed sys sock s.pos s)
          (grab_if_needed-keeps s.pos s k))
        (λ s1 k1.
          >>=-Leaves KeptStream Q (move-Leaves not_space fuel s1 k1)
            (λ s2 k2. >>=-Leaves AnyBytes Q (Leaves-any _) (λ word _. leaves (word, s2) k2)))

  next_line-Leaves :
      (fuel : ℕ) (skip_whitespace : Bool) (s : SocketStream W)
      → K s.net
      → Leaves
          (λ (q : Bytes × SocketStream W). K q.1.net)
          (next_line sys sock fuel skip_whitespace s)
  unfolding next_line
  next_line-Leaves fuel skip_whitespace s k =
      let Q = λ (q : Bytes × SocketStream W). K q.1.net in
      let k0 = grab_if_needed-keeps s.pos s k in
      >>=-Leaves KeptStream Q
        (if-Leaves KeptStream skip_whitespace
          (move-Leaves is_space fuel (grab_if_needed sys sock s.pos s) k0)
          (leaves (grab_if_needed sys sock s.pos s) k0))
        (λ s1 k1. >>=-Leaves KeptStream Q (move-Leaves not_newline fuel s1 k1) (λ s2 k2.
          >>=-Leaves AnyBytes Q (Leaves-any (substr s2.buffer s1.pos (sub_uint s2.pos s1.pos)))
            (λ line _.
              >>=-Leaves AnyBytes Q (Leaves-any (pop_cr line))
                (λ line' _. leaves (line', record s2 { pos = inc s2.pos }) k2))))

  remaining-Leaves :
      (fuel : ℕ) (s : SocketStream W)
      → K s.net
      → Leaves (λ (q : Bytes × SocketStream W). K q.1.net) (remaining sys sock fuel s)
  unfolding remaining
  remaining-Leaves fuel s k =
      let Q = λ (q : Bytes × SocketStream W). K q.1.net in
      >>=-Leaves KeptStream Q
        (drain-Leaves fuel (grab_if_needed sys sock s.pos s) (grab_if_needed-keeps s.pos s k))
        (λ s1 k1. >>=-Leaves AnyBytes Q (Leaves-any _) (λ rest _. leaves (rest, s1) k1))

  -- A simulation of the stream carries what the stream leaves alone.
  pub Simulates-keeps :
      {C : Type 0} (R : SocketStream W → C → Type 0) (rc : Reader C) (fuel : ℕ)
      → Simulates R (socket_reader sys sock fuel) rc
      → Simulates (λ s c. R s c × K s.net) (socket_reader sys sock fuel) rc
  unfolding socket_reader
  Simulates-keeps R rc fuel sim = record {
    has_next =
        λ s c (r, k). Agrees-Leaves R KeptStream (sim.has_next s c r) (has_next-Leaves fuel s k);
    next_word =
        λ s c (r, k). Agrees-Leaves R KeptStream (sim.next_word s c r) (next_word-Leaves fuel s k);
    next_line = λ b s c (r, k).
        Agrees-Leaves R KeptStream (sim.next_line b s c r) (next_line-Leaves fuel b s k);
    remaining =
        λ s c (r, k). Agrees-Leaves R KeptStream (sim.remaining s c r) (remaining-Leaves fuel s k);
    passed_buffer = λ s c (r, k). sim.passed_buffer s c r;
  }
