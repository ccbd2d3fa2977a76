-- ===== src/Logger/Scoped.antt =====
-- The map of workers keeps one worker for a path; what removal and ScopedConsoleLogger leave.
use lspt_evaluation.Common.{
  ◌≡◌, refl, sym, ap, ◌∙◌, Bool, true, false, inl, inr, [], ◌∷◌, ◌++◌, text, Option, none, some,
  Bytes, equal, equal_iff, if◌then◌else◌, Bool-cases,
}
use lspt_evaluation.Logger.Levels.{LogLevel}
use lspt_evaluation.Logger.Registry.{lookup, lookup-add_worker, lookup-log, equal_path, other_path}
use lspt_evaluation.Logger.{
  Worker, Workers, add_worker, opening_message, remove_worker, begin_scope, end_scope, log,
  worker_log,
}
use mathlib.Core.Option

-- No path has two workers.
abbrev pub IsMap : Workers → Type 0
IsMap [] = Unit {0}
IsMap ((p, w) ∷ ws) = (lookup p ws ≡ none) × IsMap ws

equal_refl : (p : Bytes) → equal p p ≡ true
equal_refl p = (equal_iff p p).1 refl

add_worker-IsMap :
    (now path : Bytes) (level : LogLevel) (existing : Bytes) (ws : Workers)
    → IsMap ws
    → IsMap (add_worker now path level existing ws)
unfolding add_worker
add_worker-IsMap now path level existing [] h = (refl, tt)
add_worker-IsMap now path level existing ((p, w) ∷ ws) (fresh, h) =
    elim (Bool-cases (equal p path)) [
      | inl e ↦ rw e (fresh, h)
      | inr e ↦ rw e (
        lookup-add_worker now path level existing p ws
            ∙ rw (fresh, other_path p path p (equal_refl p) e) refl,
        add_worker-IsMap now path level existing ws h,
      )
    ]

log-IsMap :
    (now : Bytes) (level : LogLevel) (msg : Bytes) (ws : Workers)
    → IsMap ws
    → IsMap (log now level msg ws)
unfolding log
log-IsMap now level msg [] h = tt
log-IsMap now level msg ((p, w) ∷ ws) (fresh, h) =
    (lookup-log now level msg p ws ∙ rw fresh refl, log-IsMap now level msg ws h)

lookup-remove_worker :
    (path other : Bytes) (ws : Workers)
    → IsMap ws
    → lookup other (remove_worker path ws) ≡ (if equal path other then none else lookup other ws)
unfolding remove_worker
lookup-remove_worker path other [] h = same (equal path other)
  where
    same : (b : Bool) → ◌≡◌ {A = Option Worker} none (if b then none else none)
    same true = refl
    same false = refl
lookup-remove_worker path other ((p, w) ∷ ws) (fresh, h) = elim (Bool-cases (equal p path)) [
  | inl e ↦
      let at_path = equal_path p path other e in
      elim (Bool-cases (equal p other)) [
        | inl f ↦
            let same : lookup other ws ≡ none =
              ap (λ (x : Bytes). lookup x ws) (sym ((equal_iff p other).0 f)) ∙ fresh in
            let g : equal path other ≡ true = at_path ∙ f in rw (e, f, g) same
        | inr f ↦ let g : equal path other ≡ false = at_path ∙ f in rw (e, f, g) refl
      ]
  | inr e ↦ elim (Bool-cases (equal p other)) [
    | inl f ↦ rw (e, f, other_path p path other f e) refl
    | inr f ↦ rw (e, f) (lookup-remove_worker path other ws h)
  ]
]

-- A message logged within the life of a ScopedConsoleLogger goes to the console, which is there in
-- any case, a new one at the given level or the one there was before, with the opening message
-- behind its text, and to the worker at every other path. Behind its end there is no console, not
-- even one that was there before it, and the workers at all other paths have what that message
-- gives them. One worker for a path stays one.
pub end_scope-log :
    (now : Bytes) (console level : LogLevel) (msg other : Bytes) (ws : Workers)
    → IsMap ws
    → (lookup other (log now level msg (begin_scope now console ws)) ≡ (
        if equal [] other
        then some (
            worker_log now level msg (elim (lookup other ws) as (λ x. Worker) [
              | none ↦ record {
                is_console = true;
                level = console;
                stream = opening_message now console (text "Console");
              }
              | some w ↦ record {
                is_console = w.is_console;
                level = w.level;
                stream = w.stream ++ opening_message now console (text "Console");
              }
            ]))
        else Option.map (worker_log now level msg) (lookup other ws)))
      × (lookup other (end_scope (log now level msg (begin_scope now console ws))) ≡ (
          if equal [] other then none else Option.map (worker_log now level msg) (lookup other ws)))
      × IsMap (log now level msg (begin_scope now console ws))
end_scope-log now console level msg other ws h =
    let within = add_worker-IsMap now [] console [] ws h in
    let logged = log-IsMap now level msg (begin_scope now console ws) within in
    let at_other =
      lookup-log now level msg other (begin_scope now console ws)
      ∙ ap (Option.map (worker_log now level msg)) (lookup-add_worker now [] console [] other ws)
      ∙ by_path (lookup other ws) (equal [] other) in
    (
      at_other,
      lookup-remove_worker [] other (log now level msg (begin_scope now console ws)) logged
          ∙ away (equal [] other) _ _ at_other,
      logged,
    )
  where
    by_path :
        (o : Option Worker) (b : Bool)
        → Option.map (worker_log now level msg) (elim o as (λ x. Option Worker) [
          | none ↦
              if b
              then some (record {
                is_console = true;
                level = console;
                stream = opening_message now console (text "Console");
              })
              else none
          | some w ↦
              if b
              then some (record {
                is_console = w.is_console;
                level = w.level;
                stream = w.stream ++ opening_message now console (text "Console");
              })
              else some w
        ])
          ≡ (if b
              then some (
                  worker_log now level msg (elim o as (λ x. Worker) [
                    | none ↦ record {
                      is_console = true;
                      level = console;
                      stream = opening_message now console (text "Console");
                    }
                    | some w ↦ record {
                      is_console = w.is_console;
                      level = w.level;
                      stream = w.stream ++ opening_message now console (text "Console");
                    }
                  ]))
              else Option.map (worker_log now level msg) o)
    by_path none true = refl
    by_path none false = refl
    by_path (some w) true = refl
    by_path (some w) false = refl

    away :
        (b : Bool) (x y : Option Worker)
        → {z : Option Worker} → z ≡ (if b then x else y)
        → (if b then none else z) ≡ (if b then none else y)
    away true x y e = refl
    away false x y e = e
