-- ===== src/Socket/Sending.antt =====
-- `TCPSocket::send`: what of a message is handed to the system, and what the result says of it.
use lspt_evaluation.Common.{
  ℕ, zero, suc, ◌+◌, ◌%◌, ◌≤◌, ◌<◌, ◌≡◌, refl, sym, ap, ◌∙◌, Bool, true, false, inl, inr, [], ◌∷◌,
  ◌++◌, Option, none, some, Bytes, arith, ◌&&◌, ltb, ◌==◌, if◌then◌else◌, length, length-append,
  ◌⊎◌, take, drop, drop-append, take-append-drop, Option-cases, Bool-cases,
}
use lspt_evaluation.Socket.{TcpSocket, Net, after_send, send_loop, send}
use native.Mathlib.Nat.{add-zero, zero-add}
use lspt_evaluation.System.{System}
use lspt_evaluation.Text.{uint_mod}
use mathlib.Core.List.{append-nil, append_assoc}

-- What is assumed of the system's `send` on a connection that blocks: it takes a front of what it is
-- given, and at least one byte if there is one, or takes nothing and reports an error. `wire w` is
-- what it has taken so far.
pub record Takes {W : Type 0} (sys : System W) (fd : ℕ) : Type 0 where
  pub wire : W → Bytes
  pub taken :
      (b : Bytes) (w : W) (n : ℕ)
      → (sys.send fd b w).0 ≡ some n
      → (n ≤ length b) × (wire (sys.send fd b w).1 ≡ wire w ++ take n b) × (0 < length b → 0 < n)
  pub refused : (b : Bytes) (w : W) → (sys.send fd b w).0 ≡ none → wire (sys.send fd b w).1 ≡ wire w

take-nil : (n : ℕ) → take {A = ℕ} n [] ≡ []
take-nil zero = refl
take-nil (suc n) = refl

take-add : (n j : ℕ) (xs : Bytes) → take n xs ++ take j (drop n xs) ≡ take (n + j) xs
take-add zero j xs = let e : j ≡ zero + j = omega arith in ap (λ (m : ℕ). take m xs) e
take-add (suc n) j [] = ap (◌++◌ []) (take-nil j) ∙ sym (take-nil (suc n + j))
take-add (suc n) j (x ∷ xs) =
    let e : suc (n + j) ≡ suc n + j = omega arith in
    ap (◌∷◌ x) (take-add n j xs) ∙ ap (λ (m : ℕ). take m (x ∷ xs)) e

drop-nil : (n : ℕ) → drop {A = ℕ} n [] ≡ []
drop-nil zero = refl
drop-nil (suc n) = refl

drop-add : (n j : ℕ) (xs : Bytes) → drop j (drop n xs) ≡ drop (n + j) xs
drop-add zero j xs = let e : j ≡ zero + j = omega arith in ap (λ (m : ℕ). drop m xs) e
drop-add (suc n) j [] = drop-nil j ∙ sym (drop-nil (suc n + j))
drop-add (suc n) j (x ∷ xs) =
    let e : suc (n + j) ≡ suc n + j = omega arith in
    drop-add n j xs ∙ ap (λ (m : ℕ). drop m (x ∷ xs)) e

length-take-drop : (n : ℕ) (xs : Bytes) → length (take n xs) + length (drop n xs) ≡ length xs
length-take-drop n xs =
    sym (length-append (take n xs) (drop n xs)) ∙ ap length (take-append-drop n xs)

length-take_le : (n : ℕ) (xs : Bytes) → n ≤ length xs → length (take n xs) ≡ n
length-take_le zero xs h = refl
length-take_le (suc n) [] h = absurd (omega arith)
length-take_le (suc n) (x ∷ xs) h = ap suc (length-take_le n xs (omega arith))

ltb_lt : (a b : ℕ) → ltb a b ≡ true → a < b
ltb_lt a b h = ground arith

ltb_ge : (a b : ℕ) → ltb a b ≡ false → b ≤ a
ltb_ge a b h = ground arith

module _ {W : Type 0} (sys : System W) (fd : ℕ) (t : Takes sys fd) where
  -- `j` bytes of `rest` are taken between the two worlds: all of them, or the system then refuses
  -- what is left.
  abbrev pub Stops : Bytes → W → ℕ → W → Type 0
  Stops rest w j w' =
      (j ≡ length rest)
      ⊎ ((v : W) × (t.wire v ≡ t.wire w ++ take j rest)
          × ((sys.send fd (drop j rest) v).0 ≡ none)
          × ((sys.send fd (drop j rest) v).1 ≡ w'))

  -- From `done` on: `j` more bytes are taken, and the loop ends with the count of all.
  abbrev Sent : Bytes → Bytes → W → Option (ℕ × W) → Type 0
  Sent done rest w out =
      (j : ℕ) × (w' : W) × (out ≡ some (length done + j, w'))
      × (j ≤ length rest)
      × (t.wire w' ≡ t.wire w ++ take j rest)
      × Stops rest w j w'

  -- One round, where the system refuses, and where it takes `n` bytes.
  round_refused :
      (f : ℕ) (val rest : Bytes) (sent : ℕ) (w : W)
      → drop sent val ≡ rest
      → (sys.send fd rest w).0 ≡ none
      → send_loop sys (suc f) fd val true sent w ≡ some (sent, (sys.send fd rest w).1)
  unfolding send_loop
  round_refused f val rest sent w tail stop =
      ap (λ b. after_send sys again val true sent (sys.send fd b w).0 (sys.send fd b w).1) tail
      ∙ ap (λ r. after_send sys again val true sent r (sys.send fd rest w).1) stop
    where
      again : ℕ → W → Option (ℕ × W)
      again = send_loop sys f fd val true

  round_taken :
      (f : ℕ) (val rest : Bytes) (sent sent' n : ℕ) (w : W)
      → drop sent val ≡ rest
      → (sys.send fd rest w).0 ≡ some n
      → (sent + n) % uint_mod ≡ sent'
      → send_loop sys (suc f) fd val true sent w ≡ (
          if ltb sent' (length val)
          then send_loop sys f fd val true sent' (sys.send fd rest w).1
          else some (sent', (sys.send fd rest w).1))
  unfolding send_loop
  round_taken f val rest sent sent' n w tail went sum =
      ap (λ b. after_send sys again val true sent (sys.send fd b w).0 (sys.send fd b w).1) tail
      ∙ ap (λ r. after_send sys again val true sent r (sys.send fd rest w).1) went
      ∙ ap test sum
      ∙ ap
          (λ b.
            if b then again sent' (sys.send fd rest w).1 else some (sent', (sys.send fd rest w).1))
          (and_true (ltb sent' (length val)))
    where
      again : ℕ → W → Option (ℕ × W)
      again = send_loop sys f fd val true

      test : ℕ → Option (ℕ × W)
      test m =
          if ltb m (length val) && true
          then again m (sys.send fd rest w).1
          else some (m, (sys.send fd rest w).1)

      and_true : (b : Bool) → b && true ≡ b
      and_true true = refl
      and_true false = refl

  joined :
      (n j : ℕ) (rest : Bytes) (w w' : W)
      → t.wire w' ≡ t.wire w ++ take n rest
      → t.wire w' ++ take j (drop n rest) ≡ t.wire w ++ take (n + j) rest
  joined n j rest w w' wire_is =
      ap (λ b. b ++ take j (drop n rest)) wire_is
      ∙ append_assoc (t.wire w) (take n rest) (take j (drop n rest))
      ∙ ap (◌++◌ (t.wire w)) (take-add n j rest)

  send_loop-Sent :
      (f : ℕ) (val done rest : Bytes) (w : W)
      → val ≡ done ++ rest
      → length val < uint_mod
      → length rest < f
      → Sent done rest w (send_loop sys f fd val true (length done) w)
  send_loop-Sent zero val done rest w e b h = elim h [ ]
  send_loop-Sent (suc f) val done rest w e b h =
      let tail : drop (length done) val ≡ rest = rw e (drop-append done rest) in
      let size : length val ≡ length done + length rest = ap length e ∙ length-append done rest in
      elim (Option-cases (sys.send fd rest w).0) [
        | inl stop ↦ (
          0,
          (sys.send fd rest w).1,
          round_refused f val rest (length done) w tail stop
              ∙ ap (λ (m : ℕ). some (m, (sys.send fd rest w).1)) (sym (add-zero _)),
          omega arith,
          t.refused rest w stop ∙ sym (append-nil _),
          inr (w, sym (append-nil _), stop, refl),
        )
        | inr (n, went) ↦
            let w' = (sys.send fd rest w).1 in
            let (le, wire_is, some_went) = t.taken rest w n went in
            let sum : (length done + n) % uint_mod ≡ length (done ++ take n rest) =
              omega (arith, size, length-append done (take n rest), length-take_le n rest le) in
            let split = length-take-drop n rest in
            let front = length-take_le n rest le in
            let count : length (done ++ take n rest) ≡ length done + n =
              omega (arith, length-append done (take n rest), front) in
            let step = round_taken f val rest (length done) _ n w tail went sum in
            elim (Bool-cases (ltb (length (done ++ take n rest)) (length val))) [
              | inl more ↦
                  let (j, w2, run, jle, wire2, stops) =
                    send_loop-Sent f val (done ++ take n rest) (drop n rest) w'
                      (e
                        ∙ ap (◌++◌ done) (sym (take-append-drop n rest))
                        ∙ sym (append_assoc done (take n rest) (drop n rest)))
                      b (omega (arith, split, front, ltb_lt _ _ more, some_went, count, size)) in
                  let all_out : length (done ++ take n rest) + j ≡ length done + (n + j) =
                    omega (arith, count) in
                  (
                    n + j,
                    w2,
                    step ∙ rw more (run ∙ ap (λ (m : ℕ). some (m, w2)) all_out),
                    omega (arith, split, jle),
                    wire2 ∙ joined n j rest w w' wire_is,
                    elim stops [
                      | inl e' ↦ inl (omega (arith, split, front, e'))
                      | inr (v, wire_v, refused, at) ↦
                          let tail_is = drop-add n j rest in
                          inr (
                            v,
                            wire_v ∙ joined n j rest w w' wire_is,
                            ap (λ b. (sys.send fd b v).0) (sym tail_is) ∙ refused,
                            ap (λ b. (sys.send fd b v).1) (sym tail_is) ∙ at,
                          )
                    ],
                  )
              | inr last ↦ (
                n,
                w',
                step ∙ rw last (ap (λ (m : ℕ). some (m, w')) count),
                le,
                wire_is,
                inl (omega (arith, size, split, front, count, ltb_ge _ _ last)),
              )
            ]
      ]

  -- `send` of a whole message on an open socket ends, where the message is shorter than 2^32 and
  -- than the fuel: it hands over a front of the message, returns true exactly when that is all of
  -- it, and touches no port; where less went out, its last call of the system's `send` was
  -- refused, on the rest of the message.
  pub send-wire :
      (sock : TcpSocket) (fuel : ℕ) (val : Bytes) (net : Net W)
      → sock.socket ≡ some fd
      → length val < uint_mod
      → length val < fuel
      → (k : ℕ) × (net' : Net W) × (send sys fuel sock val true net ≡ some (k == length val, net'))
        × (k ≤ length val)
        × (t.wire net'.world ≡ t.wire net.world ++ take k val)
        × (net'.ports_in_use ≡ net.ports_in_use)
        × Stops val net.world k net'.world
  unfolding send
  send-wire sock fuel val net opened b h =
      let (k, w', run, le, wire_is, stops) = send_loop-Sent fuel val [] val net.world refl b h in
      let run' : send_loop sys fuel fd val true 0 net.world ≡ some (k, w') =
        run ∙ ap (λ (m : ℕ). some (m, w')) (zero-add k) in
      (k, record net { world = w' }, ground (arith, run'), le, wire_is, refl, stops)
