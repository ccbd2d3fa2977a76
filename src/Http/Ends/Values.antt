-- ===== src/Http/Ends/Values.antt =====
-- The lengths of lines, of what a header line holds, and of the values of headers.
use lspt_evaluation.Common.{
  ℕ, zero, suc, ◌≤◌, ◌≡◌, ap, Bool, [], ◌∷◌, Option, none, some, Bytes, arith, length, equal, map,
  take, drop, take_while, drop_while, Bool-cases, inl, inr, length-append,
  take_while-append-drop_while,
}
use lspt_evaluation.Http.Ends.Loops.{length-drop_while}
use lspt_evaluation.Http.Parser.{header_of}
use lspt_evaluation.Http.{Headers, set_header, get_header}
use lspt_evaluation.Stream.{chomp}
use lspt_evaluation.Text.{is_space, find, to_lower}
use mathlib.Core.Option

abbrev pub ShortValues : ℕ → Headers → Type 0
ShortValues n [] = Unit {0}
ShortValues n ((k, v) ∷ hs) = (length v ≤ n) × ShortValues n hs

pub set_header-ShortValues :
    (n : ℕ) (k v : Bytes) (hs : Headers)
    → length v ≤ n
    → ShortValues n hs
    → ShortValues n (set_header k v hs)
unfolding set_header
set_header-ShortValues n k v [] h a = (h, tt)
set_header-ShortValues n k v ((j, w) ∷ hs) h (b, a) = elim (Bool-cases (equal j k)) [
  | inl e ↦ rw e (h, a)
  | inr e ↦ rw e (b, set_header-ShortValues n k v hs h a)
]

pub get_header-ShortValues :
    (n : ℕ) (k v : Bytes) (hs : Headers)
    → ShortValues n hs
    → get_header k hs ≡ some v
    → length v ≤ n
unfolding get_header
get_header-ShortValues n k v [] a e = absurd cc
get_header-ShortValues n k v ((j, w) ∷ hs) (b, a) e = elim (Bool-cases (equal j k)) [
  | inl f ↦
      let g : some w ≡ some v = (rw f at e) in let q : w ≡ v = cc in omega (arith, b, ap length q)
  | inr f ↦ get_header-ShortValues n k v hs a (rw f at e)
]

pub length-drop : (n : ℕ) (xs : Bytes) → length (drop n xs) ≤ length xs
length-drop zero xs = omega arith
length-drop (suc n) [] = omega arith
length-drop (suc n) (x ∷ xs) = omega (arith, length-drop n xs)

pub length-take_while : (test : ℕ → Bool) (xs : Bytes) → length (take_while test xs) ≤ length xs
length-take_while test xs = omega (
  arith,
  ap length (take_while-append-drop_while test xs),
  length-append (take_while test xs) (drop_while test xs),
)

pub length-chomp : (xs : Bytes) → length (chomp xs) ≤ length xs
unfolding chomp
length-chomp [] = omega arith
length-chomp (x ∷ []) = ground arith
length-chomp (x ∷ y ∷ r) = omega (arith, length-chomp (y ∷ r))

abbrev pub ShortHeader : ℕ → Option (Bytes × Bytes) → Type 0
ShortHeader n none = Unit {0}
ShortHeader n (some (k, v)) = length v ≤ n

pub header_of-ShortHeader : (line : Bytes) → ShortHeader (length line) (header_of line)
unfolding header_of
header_of-ShortHeader line = go (find b':' line)
  where
    go :
        (o : Option ℕ)
        → ShortHeader (length line) (
            Option.map
              (λ delim_pos. (
                map to_lower (take delim_pos line),
                drop_while is_space (drop (suc delim_pos) line),
              ))
              o)
    go none = tt
    go (some i) =
        omega (arith, length-drop_while is_space (drop (suc i) line), length-drop (suc i) line)
