-- ===== src/Stream/Reads.antt =====
-- What the operations of a cursor read off a text that is put together of words and lines.
use lspt_evaluation.Common.{
  ℕ, ◌≡◌, refl, sym, ap, Bool, true, false, not, ◌||◌, ◌&&◌, [], ◌∷◌, ◌++◌, Bytes, arith, is_empty,
  all, any, drop_while, take_while_stop, if◌then◌else◌, ok,
}
use lspt_evaluation.Stream.Cursor.{Cursor, next_word, next_line, over_newline}
use lspt_evaluation.Stream.{not_space, not_newline, pop_cr, chomp}
use lspt_evaluation.Text.{is_space}
use mathlib.Core.List.{append_assoc}

abbrev pub cursor : Bytes → Bytes → Cursor
cursor before ahead = record { before = before; ahead = ahead; past = false }

word-stops :
    (x : ℕ) (w : Bytes)
    → all not_space (x ∷ w) ≡ true
    → (is_space x ≡ false) × (all not_space w ≡ true)
word-stops x w h = go (is_space x) h
  where
    go : (b : Bool) → not b && all not_space w ≡ true → (b ≡ false) × (all not_space w ≡ true)
    go false k = (refl, k)
    go true k = absurd cc

-- A word behind some white space, in front of a byte of white space.
pub next_word-cursor :
    (before gap : Bytes) (x : ℕ) (w : Bytes) (y : ℕ) (rest : Bytes)
    → all is_space gap ≡ true
    → all not_space (x ∷ w) ≡ true
    → is_space y ≡ true
    → next_word (cursor before (gap ++ ((x ∷ w) ++ y ∷ rest)))
      ≡ ok (x ∷ w, cursor ((before ++ gap) ++ x ∷ w) (y ∷ rest))
unfolding next_word
next_word-cursor before gap x w y rest g h e =
    let (t1, d1) = take_while_stop is_space gap x (w ++ y ∷ rest) g (word-stops x w h).0 in
    let (t2, d2) = take_while_stop not_space (x ∷ w) y rest h (ap not e) in
    rw (t1, d1) (rw (t2, d2))

chomp-concat : (l : Bytes) → chomp (l ++ b'\r' ∷ []) ≡ l
unfolding chomp
chomp-concat [] = refl
chomp-concat (x ∷ []) = refl
chomp-concat (x ∷ y ∷ l) = ap (◌∷◌ x) (chomp-concat (y ∷ l))

pub pop_cr-concat : (l : Bytes) → pop_cr (l ++ b'\r' ∷ []) ≡ ok l
unfolding pop_cr
pop_cr-concat [] = refl
pop_cr-concat (x ∷ l) = ap ok (chomp-concat (x ∷ l))

pub all-concat_cr :
    (l : Bytes) → all not_newline l ≡ true → all not_newline (l ++ b'\r' ∷ []) ≡ true
all-concat_cr [] h = refl
all-concat_cr (x ∷ l) h = ground (arith, all-concat_cr l)

-- A line that ends with CR and LF.
pub next_line-cursor :
    (before l rest : Bytes)
    → all not_newline l ≡ true
    → (b : Bytes) × (next_line false (cursor before (l ++ (b'\r' ∷ b'\n' ∷ rest)))
        ≡ ok (l, cursor b rest))
unfolding next_line over_newline
next_line-cursor before l rest h =
    let (t, d) =
      take_while_stop not_newline (l ++ b'\r' ∷ []) b'\n' rest (all-concat_cr l h) refl in
    let split : l ++ (b'\r' ∷ b'\n' ∷ rest) ≡ (l ++ b'\r' ∷ []) ++ b'\n' ∷ rest =
      sym (append_assoc l (b'\r' ∷ []) (b'\n' ∷ rest)) in
    ((before ++ (l ++ b'\r' ∷ [])) ++ b'\n' ∷ [], rw split (rw (t, d) (rw (pop_cr-concat l))))

pub any-append : (p : ℕ → Bool) (xs ys : Bytes) → any p (xs ++ ys) ≡ any p xs || any p ys
any-append p [] ys = refl
any-append p (x ∷ xs) ys = ground (arith, any-append p xs ys)

-- `hasNext` looks for a byte that is no white space.
pub visible : (xs : Bytes) → not (is_empty (drop_while is_space xs)) ≡ any not_space xs
visible [] = refl
visible (x ∷ xs) = go (is_space x) (visible xs)
  where
    go :
        (b : Bool)
        → not (is_empty (drop_while is_space xs)) ≡ any not_space xs
        → not (is_empty (if b then drop_while is_space xs else x ∷ xs)) ≡ not b || any not_space xs
    go true h = h
    go false h = refl
