-- ===== src/Http/Ends/Loops.antt =====
-- How the operations of the text reader, and the loops of the parsers over it, end.
use lspt_evaluation.Common.{
  ℕ, zero, suc, ◌-◌, ◌≤◌, ◌<◌, ◌≡◌, refl, sym, ap, ◌∙◌, Bool, true, false, not, inl, inr, [], ◌∷◌,
  Option, none, some, Bytes, arith, length, is_empty, all, take_while, drop_while, if◌then◌else◌,
  if_false, Bool-cases, Outcome, ok, out_of_range, empty_back, json_error, no_fuel, ◌>>=◌,
  length-append, take_while-append-drop_while,
}
use lspt_evaluation.Http.Parser.{header_of, on_header, on_line, on_more, parse_headers, parse_body}
use lspt_evaluation.Http.{Headers, set_header}
use lspt_evaluation.Stream.Cursor.{Cursor, skip, over_newline, text_reader}
use lspt_evaluation.Stream.{not_space, not_newline, pop_cr}
use lspt_evaluation.Text.{is_space}

-- The call ends with a value and a state that satisfy `P`, or with the undefined `back()`.
abbrev pub Ends : {A : Type 0} → (A → Cursor → Type 0) → Outcome (A × Cursor) → Type 0
Ends P (ok (a, c)) = P a c
Ends P out_of_range = ⊥
Ends P empty_back = Unit
Ends P json_error = ⊥
Ends P no_fuel = ⊥

pub >>=-Ends :
    {A B : Type 0} (P : A → Cursor → Type 0) (Q : B → Cursor → Type 0) (m : Outcome (A × Cursor))
    (f : A × Cursor → Outcome (B × Cursor))
    → Ends P m
    → ((a : A) (c : Cursor) → P a c → Ends Q (f (a, c)))
    → Ends Q (m >>= f)
>>=-Ends P Q (ok (a, c)) f h k = k a c h
>>=-Ends P Q out_of_range f h k = absurd h
>>=-Ends P Q empty_back f h k = tt
>>=-Ends P Q json_error f h k = absurd h
>>=-Ends P Q no_fuel f h k = absurd h

pub if-Ends :
    {A : Type 0} (P : A → Cursor → Type 0) (b : Bool) (m n : Outcome (A × Cursor))
    → (b ≡ true → Ends P m)
    → (b ≡ false → Ends P n)
    → Ends P (if b then m else n)
if-Ends P true m n h k = h refl
if-Ends P false m n h k = k refl

-- The cursor is behind the end only where nothing is ahead, and at most `n` bytes are.
pub record Within (n : ℕ) (c : Cursor) : Type 0 where
  pub ended : c.past ≡ true → c.ahead ≡ []
  pub bounded : length c.ahead ≤ n

pub record Standing (n : ℕ) (c : Cursor) : Type 0 where
  pub inside : c.past ≡ false
  pub bounded : length c.ahead ≤ n

pub length-drop_while : (test : ℕ → Bool) (xs : Bytes) → length (drop_while test xs) ≤ length xs
length-drop_while test xs = omega (
  arith,
  ap length (take_while-append-drop_while test xs),
  length-append (take_while test xs) (drop_while test xs),
)

all-take_while : (test : ℕ → Bool) (xs : Bytes) → all test (take_while test xs) ≡ true
all-take_while test [] = refl
all-take_while test (x ∷ xs) = ground (arith, all-take_while test xs)

-- A word holds no white space.
abbrev pub IsWord : Bytes → Type 0
IsWord w = all not_space w ≡ true

pub next_word-Ends :
    (n : ℕ) (c : Cursor)
    → Standing n c
    → Ends (λ w c'. IsWord w × Standing n c') (text_reader.next_word c)
unfolding text_reader
next_word-Ends n c s = rw (if_false c.past _ _ s.inside) (
  all-take_while not_space (drop_while is_space c.ahead),
  record {
    inside = s.inside;
    bounded = omega (
      arith,
      s.bounded,
      length-drop_while not_space (drop_while is_space c.ahead),
      length-drop_while is_space c.ahead,
    );
  },
)

over_newline-bound :
    (c : Cursor) (xs : Bytes)
    → c.ahead ≡ xs
    → c.past ≡ false
    → ((over_newline c xs).past ≡ true → (over_newline c xs).ahead ≡ [])
      × (length (over_newline c xs).ahead ≤ length xs - 1)
unfolding over_newline
over_newline-bound c [] e p = (λ _. e, omega (arith, ap length e))
over_newline-bound c (x ∷ xs) e p = (λ q. absurd (let t = sym q ∙ p in cc), omega arith)

-- A line takes something off what is ahead.
abbrev pub Shorter : Cursor → Cursor → Type 0
Shorter c c' = 0 < length c.ahead → length c'.ahead < length c.ahead

pop_cr-Ends :
    (P : Bytes → Cursor → Type 0) (w : Bytes) (c : Cursor)
    → ((line : Bytes) → P line c)
    → Ends P (pop_cr w >>= λ line. ok (line, c))
unfolding pop_cr
pop_cr-Ends P [] c h = tt
pop_cr-Ends P (x ∷ w) c h = h _

pub next_line-Ends :
    (n : ℕ) (c : Cursor)
    → Standing n c
    → Ends (λ _ c'. Within n c' × Shorter c c') (text_reader.next_line false c)
unfolding text_reader
next_line-Ends n c s =
    let c2 = skip not_newline c in
    let (ends, shorter) = over_newline-bound c2 c2.ahead refl s.inside in
    rw (if_false c.past _ _ s.inside) (
      pop_cr-Ends (λ _ c'. Within n c' × Shorter c c') (take_while not_newline c.ahead) _
        (λ line. (
          record {
            ended = ends;
            bounded = omega (arith, s.bounded, shorter, length-drop_while not_newline c.ahead);
          },
          λ h. omega (arith, shorter, length-drop_while not_newline c.ahead),
        )))

pub next_line_behind-Ends :
    (n : ℕ) (c : Cursor) → Standing n c → Ends (λ _ c'. Within n c') (text_reader.next_line true c)
unfolding text_reader
next_line_behind-Ends n c s = weaken (text_reader.next_line true c) (
    next_line-Ends n (skip is_space c) (record {
      inside = s.inside;
      bounded = omega (arith, s.bounded, length-drop_while is_space c.ahead);
    }))
  where
    weaken :
        (m : Outcome (Bytes × Cursor))
        → Ends (λ _ c'. Within n c' × Shorter (skip is_space c) c') m
        → Ends (λ _ c'. Within n c') m
    weaken (ok (a, c')) h = h.0
    weaken out_of_range h = h
    weaken empty_back h = h
    weaken json_error h = h
    weaken no_fuel h = h

-- Where something visible is ahead, the cursor is not behind the end.
pub has_next-Standing :
    (n : ℕ) (c : Cursor)
    → Within n c
    → not (is_empty (drop_while is_space c.ahead)) ≡ true
    → Standing n c × (0 < length c.ahead)
has_next-Standing n c w h = elim (Bool-cases c.past) [
  | inl e ↦ absurd (let t = ap (λ xs. not (is_empty (drop_while is_space xs))) (w.ended e) in cc)
  | inr e ↦ (record { inside = e; bounded = w.bounded }, some_ahead c.ahead h)
]
  where
    some_ahead : (xs : Bytes) → not (is_empty (drop_while is_space xs)) ≡ true → 0 < length xs
    some_ahead [] k = absurd cc
    some_ahead (x ∷ xs) k = omega arith

module _ (n : ℕ) (again : Headers → Cursor → Outcome (Headers × Cursor)) (c : Cursor)
    (next : (hs : Headers) (c' : Cursor)
      → Within n c'
      → length c'.ahead < length c.ahead
      → Ends (λ _ c''. Within n c'') (again hs c')) where
  on_line-Ends :
      (hs : Headers) (line : Bytes) (c' : Cursor)
      → Within n c'
      → length c'.ahead < length c.ahead
      → Ends (λ _ c''. Within n c'') (on_line text_reader again hs line c')
  unfolding on_line
  on_line-Ends hs [] c' w h = w
  on_line-Ends hs (x ∷ line) c' w h = found (header_of (x ∷ line))
    where
      found :
          (o : Option (Bytes × Bytes))
          → Ends (λ _ c''. Within n c'') (on_header text_reader again hs o c')
      found none = w
      found (some (k, v)) = next (set_header k v hs) c' w h

  on_more-Ends :
      (hs : Headers) (more : Bool)
      → Within n c
      → (more ≡ true → Standing n c × (0 < length c.ahead))
      → Ends (λ _ c''. Within n c'') (on_more text_reader again hs more c)
  unfolding on_more
  on_more-Ends hs false w h = w
  on_more-Ends hs true w h =
      let (s, visible) = h refl in
      >>=-Ends (λ _ c'. Within n c' × Shorter c c') _ (text_reader.next_line false c) _
        (next_line-Ends n c s) λ line c' (w', shorter). on_line-Ends hs line c' w' (shorter visible)

pub parse_headers-Ends :
    (f n : ℕ) (hs : Headers) (c : Cursor)
    → Within n c
    → length c.ahead < f
    → Ends (λ _ c'. Within n c') (parse_headers text_reader f hs c)
unfolding parse_headers text_reader
parse_headers-Ends zero n hs c w h = elim h [ ]
parse_headers-Ends (suc f) n hs c w h =
    on_more-Ends n (parse_headers text_reader f) c
      (λ hs' c' w' shorter. parse_headers-Ends f n hs' c' w' (omega arith)) hs _ w
      (has_next-Standing n c w)

pub parse_body-Ends :
    (n : ℕ) (c : Cursor) → Within n c → Ends (λ _ _. Unit {0}) (parse_body text_reader c)
unfolding parse_body text_reader
parse_body-Ends n c w =
    if-Ends (λ _ _. Unit {0}) (not (is_empty (drop_while is_space c.ahead))) _ _
      (λ h. rw (if_false c.past _ _ (has_next-Standing n c w h).0.inside) tt) (λ _. tt)
