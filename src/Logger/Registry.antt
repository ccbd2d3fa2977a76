-- ===== src/Logger/Registry.antt =====
-- The map of workers of `Logger::Workers` as a lookup by path.
use lspt_evaluation.Common.{
  ◌≡◌, refl, sym, ap, ◌∙◌, ◌⊎◌, inl, inr, Bool, true, false, [], ◌∷◌, ◌++◌, text, is_empty, Option,
  none, some, Bytes, equal, equal_iff, if◌then◌else◌, Bool-cases,
}
use lspt_evaluation.Logger.{
  Worker, Workers, add_worker, new_worker, reopened, set_level, set_worker_level, cons_worker, log,
  worker_log, opening_message, log_time,
}
use lspt_evaluation.Logger.Levels.{LogLevel, to_str}
use mathlib.Core.Option

abbrev pub lookup : Bytes → Workers → Option Worker
lookup path [] = none
lookup path ((p, w) ∷ ws) = if equal p path then some w else lookup path ws

-- A path that equals another may stand for it.
pub equal_path : (p path other : Bytes) → equal p path ≡ true → equal path other ≡ equal p other
equal_path p path other e = ap (λ (x : Bytes). equal x other) (sym ((equal_iff p path).0 e))

pub other_path :
    (p path other : Bytes) → equal p other ≡ true → equal p path ≡ false → equal path other ≡ false
other_path p path other f e = elim (Bool-cases (equal path other)) [
  | inl t ↦
      let q : p ≡ path = (equal_iff p other).0 f ∙ sym ((equal_iff path other).0 t) in
      let same = (equal_iff p path).1 q in absurd cc
  | inr t ↦ t
]

-- A message goes to the worker at every path, each of which writes it or not by its own level.
pub lookup-log :
    (now : Bytes) (level : LogLevel) (msg path : Bytes) (ws : Workers)
    → lookup path (log now level msg ws) ≡ Option.map (worker_log now level msg) (lookup path ws)
unfolding log
lookup-log now level msg path [] = refl
lookup-log now level msg path ((p, w) ∷ ws) = elim (Bool-cases (equal p path)) [
  | inl e ↦ rw e refl
  | inr e ↦ rw e (lookup-log now level msg path ws)
]

-- `addWorker` as its two ways to make a worker.
pub lookup-reopened :
    (now path : Bytes) (level : LogLevel) (existing other : Bytes) (ws : Workers)
    → lookup other (add_worker now path level existing ws) ≡ elim (lookup other ws) [
      | none ↦ if equal path other then some (new_worker now path level existing) else none
      | some w ↦ some (if equal path other then reopened now path level w else w)
    ]
unfolding add_worker
lookup-reopened now path level existing other [] = refl
lookup-reopened now path level existing other ((p, w) ∷ ws) = elim (Bool-cases (equal p path)) [
  | inl e ↦ elim (Bool-cases (equal p other)) [
    | inl f ↦ let g = equal_path p path other e ∙ f in rw (e, f, g) refl
    | inr f ↦
        let g = equal_path p path other e ∙ f in
        rw (e, f) (kept (lookup other ws) (equal path other) g)
  ]
  | inr e ↦ elim (Bool-cases (equal p other)) [
    | inl f ↦ rw (e, f, other_path p path other f e) refl
    | inr f ↦ rw (e, f) (lookup-reopened now path level existing other ws)
  ]
]
  where
    kept :
        (o : Option Worker) (b : Bool)
        → b ≡ false
        → o ≡ elim o [
          | none ↦ if b then some (new_worker now path level existing) else none
          | some x ↦ some (if b then reopened now path level x else x)
        ]
    kept none b h = rw h refl
    kept (some x) b h = rw h refl

new_worker_is :
    (now path : Bytes) (level : LogLevel) (existing : Bytes)
    → new_worker now path level existing ≡ (record {
      is_console = is_empty path;
      level = level;
      stream =
          (if is_empty path then [] else existing)
          ++ opening_message now level (if is_empty path then text "Console" else path);
    })
unfolding new_worker
new_worker_is now path level existing = elim (Bool-cases (is_empty path)) [
  | inl e ↦ rw e refl
  | inr e ↦ rw e refl
]

-- `addWorker` adds a new worker where the path has none: the console for the empty path, and else
-- a file worker over what the file holds; it has the given level, and its text ends in the opening
-- message at that level. A worker that is there keeps its kind and its level, and that message is
-- written behind its text; the workers at all other paths stay as they were.
pub lookup-add_worker :
    (now path : Bytes) (level : LogLevel) (existing other : Bytes) (ws : Workers)
    → lookup other (add_worker now path level existing ws) ≡ elim (lookup other ws) [
      | none ↦
          if equal path other
          then some (record {
            is_console = is_empty path;
            level = level;
            stream =
                (if is_empty path then [] else existing)
                ++ opening_message now level (if is_empty path then text "Console" else path);
          })
          else none
      | some w ↦
          if equal path other
          then some (record {
            is_console = w.is_console;
            level = w.level;
            stream =
                w.stream
                ++ opening_message now level (if is_empty path then text "Console" else path);
          })
          else some w
    ]
unfolding reopened
lookup-add_worker now path level existing other ws =
    lookup-reopened now path level existing other ws ∙ spelled (lookup other ws) (equal path other)
  where
    spelled :
        (o : Option Worker) (b : Bool)
        → elim o as (λ x. Option Worker) [
          | none ↦ if b then some (new_worker now path level existing) else none
          | some x ↦ some (if b then reopened now path level x else x)
        ]
          ≡ elim o as (λ x. Option Worker) [
            | none ↦
                if b
                then some (record {
                  is_console = is_empty path;
                  level = level;
                  stream =
                      (if is_empty path then [] else existing)
                      ++ opening_message now level (if is_empty path then text "Console" else path);
                })
                else none
            | some x ↦
                if b
                then some (record {
                  is_console = x.is_console;
                  level = x.level;
                  stream =
                      x.stream
                      ++ opening_message now level (if is_empty path then text "Console" else path);
                })
                else some x
          ]
    spelled none true = ap some (new_worker_is now path level existing)
    spelled none false = refl
    spelled (some x) true = refl
    spelled (some x) false = refl

-- `setLevel` as a change of the worker at the path.
lookup-changed :
    (now path : Bytes) (level : LogLevel) (other : Bytes) (ws : Workers)
    → ((set_level now path level ws ≡ none) × (lookup path ws ≡ none))
      ⊎ ((ws' : Workers) × (set_level now path level ws ≡ some ws')
          × (lookup other ws'
              ≡ Option.map
                  (λ w. if equal path other then set_worker_level now level w else w)
                  (lookup other ws)))
unfolding set_level cons_worker
lookup-changed now path level other [] = inl (refl, refl)
lookup-changed now path level other ((p, w) ∷ ws) = elim (Bool-cases (equal p path)) [
  | inl e ↦ elim (Bool-cases (equal p other)) [
    | inl f ↦
        let g = equal_path p path other e ∙ f in
        inr ((p, set_worker_level now level w) ∷ ws, rw e refl, rw (f, g) refl)
    | inr f ↦
        let g = equal_path p path other e ∙ f in
        inr ((p, set_worker_level now level w) ∷ ws, rw e refl, rw (f, g) (kept (lookup other ws)))
  ]
  | inr e ↦ elim (lookup-changed now path level other ws) [
    | inl a ↦ inl (rw (e, a.0) refl, rw e a.1)
    | inr a ↦ elim (Bool-cases (equal p other)) [
      | inl f ↦ inr ((p, w) ∷ a.0, rw (e, a.1) refl, rw (f, other_path p path other f e) refl)
      | inr f ↦ inr ((p, w) ∷ a.0, rw (e, a.1) refl, rw f a.2)
    ]
  ]
]
  where
    kept : (o : Option Worker) → o ≡ Option.map (λ x. x) o
    kept none = refl
    kept (some x) = refl

-- `setLevel` throws where the path has no worker; otherwise the worker at that path has the new
-- level, and behind its text the line that tells of the change from its old level, and the worker
-- at any other path is as it was.
pub lookup-set_level :
    (now path : Bytes) (level : LogLevel) (other : Bytes) (ws : Workers)
    → ((set_level now path level ws ≡ none) × (lookup path ws ≡ none))
      ⊎ ((ws' : Workers) × (set_level now path level ws ≡ some ws')
          × (lookup other ws'
              ≡ Option.map
                  (λ w.
                    if equal path other
                    then record {
                      is_console = w.is_console;
                      level = level;
                      stream =
                          w.stream
                          ++ (log_time now
                              ++ (text "Changing log level from "
                                  ++ (to_str w.level
                                      ++ (text " to " ++ (to_str level ++ b'\n' ∷ [])))));
                    }
                    else w)
                  (lookup other ws)))
unfolding set_worker_level
lookup-set_level now path level other ws = lookup-changed now path level other ws
