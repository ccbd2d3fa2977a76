-- ===== src/Socket/Peer/Sends.antt =====
-- `TCPSocket::send` and an open connection: on its own socket, and on another.
use lspt_evaluation.Common.{
  ℕ, zero, suc, ◌+◌, ◌%◌, ◌<◌, ◌≤◌, ◌⊎◌, inl, inr, ◌≡◌, ◌≢◌, sym, ap, subst, ◌∙◌, Bool, true, false,
  ◌&&◌, Option, none, some, Bytes, ltb, ◌==◌, if◌then◌else◌, length, drop, take, ◌++◌,
}
use lspt_evaluation.Socket.Peer.{Peer, Holds, Holds-Quiet}
use lspt_evaluation.Socket.Sending.{Takes, send-wire}
use lspt_evaluation.Socket.{TcpSocket, Net, after_send, send_loop, send, sent_all}
use lspt_evaluation.System.{System}
use lspt_evaluation.Text.{uint_mod}

abbrev Then : {W : Type 0} → (W → Type 0) → Option (ℕ × W) → Type 0
Then I none = Unit {0}
Then I (some (n, w)) = I w

-- What every call of the system's `send` on a descriptor preserves, `TCPSocket::send` preserves.
module _ {W : Type 0} (sys : System W) (I : W → Type 0) (fd : ℕ)
    (kept : (b : Bytes) (w : W) → I w → I (sys.send fd b w).1) where
  after_send-Then :
      (again : ℕ → W → Option (ℕ × W)) (val : Bytes) (full_msg : Bool) (sent : ℕ)
      (result : Option ℕ) (w : W)
      → ((m : ℕ) → Then I (again m w))
      → I w
      → Then I (after_send sys again val full_msg sent result w)
  unfolding after_send
  after_send-Then again val full_msg sent none w rest i = i
  after_send-Then again val full_msg sent (some n) w rest i =
      go (ltb ((sent + n) % uint_mod) (length val) && full_msg)
    where
      go :
          (b : Bool)
          → Then I (if b then again ((sent + n) % uint_mod) w else some ((sent + n) % uint_mod, w))
      go true = rest ((sent + n) % uint_mod)
      go false = i

  send_loop-Then :
      (fuel : ℕ) (val : Bytes) (full_msg : Bool) (sent : ℕ) (w : W)
      → I w
      → Then I (send_loop sys fuel fd val full_msg sent w)
  unfolding send_loop
  send_loop-Then zero val full_msg sent w i = tt
  send_loop-Then (suc f) val full_msg sent w i =
      let i' = kept (drop sent val) w i in
      after_send-Then (send_loop sys f fd val full_msg) val full_msg sent _ _
        (λ m. send_loop-Then f val full_msg m _ i') i'

  pub send_kept :
      (sock : TcpSocket) (fuel : ℕ) (val : Bytes) (net net' : Net W) (b : Bool)
      → sock.socket ≡ some fd
      → send sys fuel sock val true net ≡ some (b, net')
      → I net.world
      → I net'.world
  unfolding send sent_all
  send_kept sock fuel val net net' b e run i =
      go (send_loop sys fuel fd val true 0 net.world) (rw e at run)
        (send_loop-Then fuel val true 0 net.world i)
    where
      go : (o : Option (ℕ × W)) → sent_all sys val net o ≡ some (b, net') → Then I o → I net'.world
      go none k i' = absurd cc
      go (some (n, w)) k i' = let at : w ≡ net'.world = cc in subst I at i'

-- `k` bytes of a message go out behind `sent`: all of them, or the system refuses the rest, where so
-- much of it is on the wire.
abbrev pub GoesOut :
    {W : Type 0} (sys : System W) (fd : ℕ) (link : Takes sys fd) → Bytes → Bytes → ℕ → Type 0
GoesOut {W} sys fd link sent val k =
    (k ≡ length val)
    ⊎ ((k ≤ length val)
        × ((v : W) × (link.wire v ≡ sent ++ take k val) × ((sys.send fd (drop k val) v).0 ≡ none)))

-- The same as another reading of the wire tells it.
pub GoesOut-same :
    {W : Type 0} (sys : System W) (fd : ℕ) (link link' : Takes sys fd)
    → ((v : W) → link.wire v ≡ link'.wire v)
    → (w : W) (val : Bytes) (k : ℕ) → GoesOut sys fd link (link.wire w) val k
    → GoesOut sys fd link' (link'.wire w) val k
GoesOut-same sys fd link link' same w val k (inl e) = inl e
GoesOut-same sys fd link link' same w val k (inr (le, (v, wire_v, refused))) =
    inr (le, (v, sym (same v) ∙ wire_v ∙ ap (λ s. s ++ take k val) (same w), refused))

module _ {W : Type 0} (sys : System W) (fd : ℕ) (p : Peer sys fd) (sent : Bytes) where
  -- `send` on another open socket ends, and leaves the connection alone.
  pub send_other-Holds :
      (sock : TcpSocket) (fd' fuel : ℕ) (val : Bytes) (net : Net W)
      → sock.socket ≡ some fd'
      → fd' ≢ fd
      → length val < uint_mod
      → length val < fuel
      → Holds sys fd p sent net.world
      → (b : Bool) × (net' : Net W) × (send sys fuel sock val true net ≡ some (b, net'))
        × Holds sys fd p sent net'.world
  send_other-Holds sock fd' fuel val net e other short fuelled h =
      let (k, net', run, _, _, _, _) =
        send-wire sys fd' (p.links fd') sock fuel val net e short fuelled in
      (
        k == length val,
        net',
        run,
        send_kept sys (Holds sys fd p sent) fd'
            (λ b w. Holds-Quiet sys fd p sent _ _ (p.other_send fd' b w other)) sock fuel val net
            net' _ e run h,
      )

  -- `send` on the connection ends, and puts a front of the message on its wire.
  pub send_own-Holds :
      (sock : TcpSocket) (fuel : ℕ) (val : Bytes) (net : Net W)
      → sock.socket ≡ some fd
      → length val < uint_mod
      → length val < fuel
      → Holds sys fd p sent net.world
      → (k : ℕ) × (net' : Net W) × (send sys fuel sock val true net ≡ some (k == length val, net'))
        × Holds sys fd p (sent ++ take k val) net'.world
        × GoesOut sys fd (p.links fd) sent val k
  send_own-Holds sock fuel val net e short fuelled h =
      let (k, net', run, le, wire_is, _, stops) =
        send-wire sys fd (p.links fd) sock fuel val net e short fuelled in
      (
        k,
        net',
        run,
        record {
          wire_is = wire_is ∙ ap (λ s. s ++ take k val) h.wire_is;
          is_open = send_kept sys p.IsOpen fd p.own_send sock fuel val net net' _ e run h.is_open;
        },
        elim stops [
          | inl e' ↦ inl e'
          | inr (v, wire_v, refused, _) ↦
              inr (le, (v, wire_v ∙ ap (λ s. s ++ take k val) h.wire_is, refused))
        ],
      )
