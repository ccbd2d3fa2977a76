-- ===== src/Logger/Output.antt =====
-- What the loops of `Worker::log` make of a message, against a reading of it as lines.
use lspt_evaluation.Common.{
  ℕ, suc, ◌≡◌, refl, ap, ◌∙◌, ◌⊎◌, inl, inr, true, false, List, [], ◌∷◌, ◌++◌, Bytes, arith, ◌==◌,
  if◌then◌else◌, is_empty, Bool-cases,
}
use lspt_evaluation.Logger.Lines.{replicate, trim_newlines, log_lines, continuation}

-- The lines of a text, of which the last has no newline.
abbrev push : ℕ → List Bytes → List Bytes
push c [] = (c ∷ []) ∷ []
push c (l ∷ ls) = (c ∷ l) ∷ ls

abbrev pub lines : Bytes → List Bytes
lines [] = [] ∷ []
lines (c ∷ cs) = if c == b'\n' then [] ∷ lines cs else push c (lines cs)

abbrev pub join : Bytes → List Bytes → Bytes
join sep [] = []
join sep (l ∷ []) = l
join sep (l ∷ m ∷ ls) = l ++ (sep ++ join sep (m ∷ ls))

lines-nonempty : (s : Bytes) → (l : Bytes) × (ls : List Bytes) × (lines s ≡ l ∷ ls)
lines-nonempty [] = (_, _, refl)
lines-nonempty (c ∷ cs) = elim (Bool-cases (c == b'\n')) [
  | inl e ↦ ([], lines cs, rw e refl)
  | inr e ↦ let (l, ls, q) = lines-nonempty cs in (c ∷ l, ls, rw (e, q) refl)
]

join-push :
    (sep : Bytes) (c : ℕ) (l : Bytes) (ls : List Bytes)
    → join sep (push c (l ∷ ls)) ≡ c ∷ join sep (l ∷ ls)
join-push sep c l [] = refl
join-push sep c l (m ∷ ls) = refl

abbrev pub arrow : Bytes
arrow = b'\n' ∷ continuation

-- One more byte in front of a text that is as it should be.
log_lines-cons :
    (c : ℕ) (t : Bytes)
    → (is_empty t ≡ false ⊎ (c == b'\n') ≡ false)
    → log_lines t ≡ join arrow (lines t)
    → log_lines (c ∷ t) ≡ join arrow (lines (c ∷ t))
unfolding log_lines
log_lines-cons c t h k = elim (Bool-cases (c == b'\n')) [
  | inl e ↦
      let (l, ls, q) = lines-nonempty t in
      let full : is_empty t ≡ false = ground (arith, h) in
      rw (e, full, q)
        (ap (λ (x : Bytes). c ∷ (continuation ++ x)) (k ∙ ap (join arrow) q)
          ∙ ap (λ (x : ℕ). x ∷ (continuation ++ join arrow (l ∷ ls))) (newline e))
  | inr e ↦
      let (l, ls, q) = lines-nonempty t in
      rw (e, q, join-push arrow c l ls) (ap (◌∷◌ c) (k ∙ ap (join arrow) q))
]
  where
    newline : (c == b'\n') ≡ true → c ≡ b'\n'
    newline x = ground arith

trim_newlines-lines :
    (msg : Bytes) → log_lines (trim_newlines msg) ≡ join arrow (lines (trim_newlines msg))
unfolding trim_newlines
trim_newlines-lines [] = unfold log_lines in refl
trim_newlines-lines (c ∷ cs) = elim (Bool-cases (c == b'\n')) [
  | inl e ↦ elim (Bool-cases (is_empty (trim_newlines cs))) [
    | inl f ↦ rw (e, f) (unfold log_lines in refl)
    | inr f ↦ rw (e, f) (log_lines-cons c (trim_newlines cs) (inl f) (trim_newlines-lines cs))
  ]
  | inr e ↦ rw e (log_lines-cons c (trim_newlines cs) (inr e) (trim_newlines-lines cs))
]

trim_newlines-rest : (msg : Bytes) → (k : ℕ) × (msg ≡ trim_newlines msg ++ replicate k b'\n')
unfolding trim_newlines
trim_newlines-rest [] = (0, refl)
trim_newlines-rest (c ∷ cs) =
    let (k, q) = trim_newlines-rest cs in
    elim (Bool-cases (c == b'\n')) [
      | inl e ↦ elim (Bool-cases (is_empty (trim_newlines cs))) [
        | inl f ↦
            let c_is : c ≡ b'\n' = ground arith in
            let front : trim_newlines cs ≡ [] = nothing (trim_newlines cs) f in
            (
              suc k,
              rw (e, f)
                  (ap (λ (x : ℕ). x ∷ cs) c_is
                    ∙ ap (◌∷◌ b'\n') (q ∙ ap (λ (x : Bytes). x ++ replicate k b'\n') front)),
            )
        | inr f ↦ (k, rw (e, f) (ap (◌∷◌ c) q))
      ]
      | inr e ↦ (k, rw e (ap (◌∷◌ c) q))
    ]
  where
    nothing : (x : Bytes) → is_empty x ≡ true → x ≡ []
    nothing [] f = refl
    nothing (y ∷ ys) f = absurd cc

-- A log message is written as its lines with a newline and an arrow between each two, without the
-- newlines at its end, and nothing but those newlines is cut off.
pub log_lines-trim_newlines :
    (msg : Bytes)
    → (log_lines (trim_newlines msg) ≡ join arrow (lines (trim_newlines msg)))
      × ((k : ℕ) × (msg ≡ trim_newlines msg ++ replicate k b'\n'))
log_lines-trim_newlines msg = (trim_newlines-lines msg, trim_newlines-rest msg)
