-- ===== src/Main/Exit.antt =====
-- What the command line sets.
use lspt_evaluation.Common.{
  ℕ, ◌%◌, ◌≡◌, refl, ap, ◌∙◌, Bool, true, false, inl, inr, ◌⊎◌, Bytes, [], ◌∷◌, List, Option, none,
  some, all,
}
use lspt_evaluation.Common.Int.{ℤ}
use lspt_evaluation.Main.{
  Argument, port, backlog, console, invalid, missing, unexpected, Options, set_port, set_backlog,
  read_argument, read_arguments, stoi,
}
use lspt_evaluation.Text.Decimal.{stoul}
use mathlib.Core.Option

-- Whether an option is a known one, and its number can be read.
abbrev pub is_some : {A : Type 0} → Option A → Bool
is_some none = false
is_some (some _) = true

abbrev pub is_acceptable : Argument → Bool
is_acceptable (port s) = is_some (stoul s)
is_acceptable (backlog s) = is_some (stoi s)
is_acceptable console = true
is_acceptable invalid = false
is_acceptable missing = false
is_acceptable unexpected = false

-- What an option says of the port and of the backlog.
abbrev pub given_port : Argument → Option ℕ
given_port (port s) = Option.map (λ n. n % 65536) (stoul s)
given_port _ = none

abbrev pub given_backlog : Argument → Option ℤ
given_backlog (backlog s) = stoi s
given_backlog _ = none

abbrev pub or_else : {A : Type 0} → Option A → A → A
or_else none other = other
or_else (some a) other = a

-- The last value that one of the options gives.
abbrev first_of : {A : Type 0} → Option A → Option A → Option A
first_of none other = other
first_of (some a) other = some a

abbrev pub last_value : {A : Type 0} → (Argument → Option A) → List Argument → Option A
last_value f [] = none
last_value f (a ∷ rest) = first_of (last_value f rest) (f a)

or_else-first_of :
    {A : Type 0} (x y : Option A) (a : A) → or_else x (or_else y a) ≡ or_else (first_of x y) a
or_else-first_of none y a = refl
or_else-first_of (some b) y a = refl

-- One option, or all of them, as it was read.
abbrev Reads : Bool → Option ℕ → Option ℤ → Options → Option Options → Type 0
Reads ok p b o result =
    ((ok ≡ false) × (result ≡ none))
    ⊎ ((ok ≡ true)
        × (o' : Options) × (result ≡ some o')
        × (o'.listener_port ≡ or_else p o.listener_port)
        × (o'.backlog_size ≡ or_else b o.backlog_size))

read_argument-Reads :
    (now : Bytes) (o : Options) (a : Argument)
    → Reads (is_acceptable a) (given_port a) (given_backlog a) o (read_argument now o a)
unfolding read_argument set_port set_backlog
read_argument-Reads now o (port s) = go (stoul s)
  where
    go : (n : Option ℕ) → Reads (is_some n) (Option.map (λ n. n % 65536) n) none o (set_port o n)
    go none = inl (refl, refl)
    go (some n) = inr (refl, _, refl, refl, refl)
read_argument-Reads now o (backlog s) = go (stoi s)
  where
    go : (b : Option ℤ) → Reads (is_some b) none b o (set_backlog o b)
    go none = inl (refl, refl)
    go (some b) = inr (refl, _, refl, refl, refl)
read_argument-Reads now o console = inr (refl, _, refl, refl, refl)
read_argument-Reads now o invalid = inl (refl, refl)
read_argument-Reads now o missing = inl (refl, refl)
read_argument-Reads now o unexpected = inl (refl, refl)

-- The command line is refused where one of its options is not known or has a number that cannot be
-- read. Otherwise the port is the number of the last `-p`, of which only the lowest 16 bits count,
-- and the backlog that of the last `-b`, whatever its sign; without such an option both stay as
-- they were.
pub read_arguments-last_value :
    (now : Bytes) (arguments : List Argument) (o : Options)
    → ((all is_acceptable arguments ≡ false) × (read_arguments now o arguments ≡ none))
      ⊎ ((all is_acceptable arguments ≡ true)
          × (o' : Options) × (read_arguments now o arguments ≡ some o')
          × (o'.listener_port ≡ or_else (last_value given_port arguments) o.listener_port)
          × (o'.backlog_size ≡ or_else (last_value given_backlog arguments) o.backlog_size))
unfolding read_arguments
read_arguments-last_value now [] o = inr (refl, o, refl, refl, refl)
read_arguments-last_value now (a ∷ rest) o = elim (read_argument-Reads now o a) [
  | inl (bad, e) ↦ inl (rw bad refl, rw e refl)
  | inr (good, o1, e, p, b) ↦ elim (read_arguments-last_value now rest o1) [
    | inl (bad, e') ↦ inl (rw (good, bad) refl, rw e e')
    | inr (good', o', e', p', b') ↦ inr (
      rw (good, good') refl,
      o',
      rw e e',
      p'
          ∙ ap (or_else (last_value given_port rest)) p
          ∙ or_else-first_of (last_value given_port rest) (given_port a) o.listener_port,
      b'
          ∙ ap (or_else (last_value given_backlog rest)) b
          ∙ or_else-first_of (last_value given_backlog rest) (given_backlog a) o.backlog_size,
    )
  ]
]
