-- ===== src/Main/Loggers.antt =====
-- The loggers of the program: which workers there are once the command line is read.
use lspt_evaluation.Common.{
  ◌≡◌, refl, ap, subst, ◌∙◌, Bool, true, false, ◌||◌, [], ◌∷◌, List, Option, none, some, Bytes, any,
  text, equal, if◌then◌else◌, Bool-cases, inl, inr, is_empty, ℕ,
}
use lspt_evaluation.Logger.Levels.{LogLevel, info, trace}
use lspt_evaluation.Logger.Registry.{lookup, lookup-reopened}
use lspt_evaluation.Logger.{Worker, Workers, add_worker, add_console, new_worker, reopened}
use lspt_evaluation.Main.{
  Argument, port, backlog, console, invalid, missing, unexpected, Options, set_port, set_backlog,
  read_argument, read_arguments, maybe_go_on, start_logging, info_path, trace_path, defaults, stoi,
}
use lspt_evaluation.System.{FileCalls}
use lspt_evaluation.Text.Decimal.{stoul}
use mathlib.Core.Option
use lspt_evaluation.Common.Int.{ℤ}

abbrev pub level_at : Bytes → Workers → Option LogLevel
level_at path ws = Option.map (λ (w : Worker). w.level) (lookup path ws)

new_worker-level :
    (now path : Bytes) (level : LogLevel) (existing : Bytes)
    → (new_worker now path level existing).level ≡ level
unfolding new_worker
new_worker-level now path level existing = elim (Bool-cases (is_empty path)) [
  | inl e ↦ rw e refl
  | inr e ↦ rw e refl
]

-- A worker that is there keeps its level.
level_at-add_worker :
    (now path : Bytes) (level : LogLevel) (existing other : Bytes) (ws : Workers)
    → level_at other (add_worker now path level existing ws) ≡ elim (level_at other ws) [
      | none ↦ if equal path other then some level else none
      | some l ↦ some l
    ]
unfolding reopened
level_at-add_worker now path level existing other ws =
    ap (Option.map (λ (w : Worker). w.level)) (lookup-reopened now path level existing other ws)
    ∙ go (lookup other ws) (equal path other)
  where
    go :
        (o : Option Worker) (b : Bool)
        → Option.map
            (λ (w : Worker). w.level)
            (elim o [
              | none ↦ if b then some (new_worker now path level existing) else none
              | some x ↦ some (if b then reopened now path level x else x)
            ])
          ≡ elim (Option.map (λ (w : Worker). w.level) o) [
            | none ↦ if b then some level else none
            | some l ↦ some l
          ]
    go none true = ap some (new_worker-level now path level existing)
    go none false = refl
    go (some x) true = refl
    go (some x) false = refl

abbrev pub is_console_argument : Argument → Bool
is_console_argument console = true
is_console_argument _ = false

-- The files log at INFO and at TRACE; the console, where it is there, at TRACE.
abbrev pub Levels : Bool → Workers → Type 0
Levels with_console ws =
    (level_at info_path ws ≡ some info)
    × (level_at trace_path ws ≡ some trace)
    × (level_at [] ws ≡ (if with_console then some trace else none))

start_logging-Levels :
    {W : Type 0} (files : FileCalls W) (now : Bytes) (w : W)
    → Levels false (start_logging files now [] w).0
unfolding start_logging add_worker new_worker equal text
start_logging-Levels files now w = (refl, refl, refl)

add_console-Levels :
    (now : Bytes) (b : Bool) (ws : Workers) → Levels b ws → Levels true (add_console now trace ws)
unfolding text equal
add_console-Levels now b ws (i, t, c) = (
  level_at-add_worker now [] trace [] info_path ws ∙ rw i refl,
  level_at-add_worker now [] trace [] trace_path ws ∙ rw t refl,
  level_at-add_worker now [] trace [] [] ws ∙ console_at b c,
)
  where
    console_at :
        (b : Bool)
        → level_at [] ws ≡ (if b then some trace else none)
        → elim (level_at [] ws) [ none ↦ some trace | some l ↦ some l ] ≡ some trace
    console_at true e = rw e refl
    console_at false e = rw e refl

abbrev pub LogsTo : Bool → Option Options → Type 0
LogsTo b none = Unit {0}
LogsTo b (some o) = Levels b o.workers

set_port-LogsTo :
    (b : Bool) (o : Options) (n : Option ℕ) → Levels b o.workers → LogsTo b (set_port o n)
unfolding set_port
set_port-LogsTo b o none h = tt
set_port-LogsTo b o (some n) h = h

set_backlog-LogsTo :
    (b : Bool) (o : Options) (n : Option ℤ) → Levels b o.workers → LogsTo b (set_backlog o n)
unfolding set_backlog
set_backlog-LogsTo b o none h = tt
set_backlog-LogsTo b o (some n) h = h

or_false : (b : Bool) → b || false ≡ b
or_false true = refl
or_false false = refl

or_assoc : (a b c : Bool) → (a || b) || c ≡ a || (b || c)
or_assoc true b c = refl
or_assoc false b c = refl

or_true : (b : Bool) → b || true ≡ true
or_true true = refl
or_true false = refl

read_argument-LogsTo :
    (now : Bytes) (a : Argument) (b : Bool) (o : Options)
    → Levels b o.workers
    → LogsTo (b || is_console_argument a) (read_argument now o a)
unfolding read_argument
read_argument-LogsTo now (port s) b o h = rw (or_false b) (set_port-LogsTo b o (stoul s) h)
read_argument-LogsTo now (backlog s) b o h = rw (or_false b) (set_backlog-LogsTo b o (stoi s) h)
read_argument-LogsTo now console b o h = rw (or_true b) (add_console-Levels now b o.workers h)
read_argument-LogsTo now invalid b o h = tt
read_argument-LogsTo now missing b o h = tt
read_argument-LogsTo now unexpected b o h = tt

maybe_go_on-LogsTo :
    (b c : Bool) (r : Option Options) (k : Options → Option Options)
    → LogsTo b r
    → ((o : Options) → Levels b o.workers → LogsTo c (k o))
    → LogsTo c (maybe_go_on r k)
maybe_go_on-LogsTo b c none k h again = tt
maybe_go_on-LogsTo b c (some o) k h again = again o h

read_arguments-Levels :
    (now : Bytes) (arguments : List Argument) (b : Bool) (o : Options)
    → Levels b o.workers
    → LogsTo (b || any is_console_argument arguments) (read_arguments now o arguments)
unfolding read_arguments
read_arguments-Levels now [] b o h = rw (or_false b) h
read_arguments-Levels now (a ∷ rest) b o h =
    maybe_go_on-LogsTo (b || is_console_argument a) _ (read_argument now o a) _
      (read_argument-LogsTo now a b o h)
      (λ o' h'.
        subst (λ c. LogsTo c (read_arguments now o' rest))
          (or_assoc b (is_console_argument a) (any is_console_argument rest))
          (read_arguments-Levels now rest (b || is_console_argument a) o' h'))

-- Where the command line is accepted, the program logs to its two files, at INFO and at TRACE,
-- and, exactly where the console was asked for, to the console at TRACE; whatever the files held
-- before.
pub start_logging-LogsTo :
    {W : Type 0} (files : FileCalls W) (now : Bytes) (w : W) (arguments : List Argument)
    → LogsTo
        (any is_console_argument arguments)
        (read_arguments now (defaults (start_logging files now [] w).0) arguments)
start_logging-LogsTo files now w arguments =
    read_arguments-Levels now arguments false (defaults (start_logging files now [] w).0)
      (start_logging-Levels files now w)
