-- ===== src/Worker/Ids.antt =====
-- The counter of query ids behind each part of a worker, and that it counts what the table says.
use lspt_evaluation.Common.{
  ℕ, ◌+◌, ◌%◌, ◌≡◌, refl, sym, ap, ◌∙◌, inl, inr, Bool, true, false, not, Option, none, some, Bytes,
  text, equal, equal_iff, ◌==◌, if◌then◌else◌, length, is_empty, Bool-cases, Option-cases,
}
use lspt_evaluation.Http.{HttpRequest, get_header}
use lspt_evaluation.Text.Decimal.{stoul}
use lspt_evaluation.Text.{uint_mod}
use lspt_evaluation.Worker.Expected.{asks_query_id}
use lspt_evaluation.Worker.{
  Handler, get_query_id, report_search_results, submit_feedback, get_query_data, report_metrics,
  not_found, handler_mapper,
}

-- The counter behind a handler.
abbrev pub counted : Handler → ℕ → ℕ
counted get_query_id q = (q + 1) % uint_mod
counted _ q = q

abbrev pub number_counted : HttpRequest → Option ℕ → ℕ → ℕ
number_counted r none q = q
number_counted r (some n) q =
    if not (n % uint_mod == length r.body) then q else counted (handler_mapper r.resource) q

abbrev pub length_counted : HttpRequest → Option Bytes → ℕ → ℕ
length_counted r none q = q
length_counted r (some given) q = number_counted r (stoul given) q

abbrev pub request_counted : HttpRequest → ℕ → ℕ
request_counted r q =
    if not (equal r.version (text "HTTP/1.1"))
    then q
    else if not (is_empty r.body)
    then length_counted r (get_header (text "content-length") r.headers) q
    else counted (handler_mapper r.resource) q

counted_is :
    (resource : Bytes) (q : ℕ)
    → counted (handler_mapper resource) q
      ≡ (if equal resource (text "/v0/GetQueryID") then (q + 1) % uint_mod else q)
unfolding handler_mapper text equal
counted_is resource q = elim (Bool-cases (equal resource (text "/v0/GetAutofill"))) [
  | inl e ↦
      ap (λ (x : Bytes). counted (handler_mapper x) q)
        ((equal_iff resource (text "/v0/GetAutofill")).0 e)
      ∙ ap (λ (x : Bytes). if equal x (text "/v0/GetQueryID") then (q + 1) % uint_mod else q)
          (sym ((equal_iff resource (text "/v0/GetAutofill")).0 e))
  | inr e ↦ rw e (
      go (equal resource (text "/v0/GetQueryID")) (equal resource (text "/v0/ReportSearchResults"))
        (equal resource (text "/v0/SubmitFeedback")) (equal resource (text "/v0/GetQueryData"))
        (equal resource (text "/v0/ReportMetrics")))
]
  where
    go :
        (b c d e f : Bool)
        → counted
            (if b
              then get_query_id
              else if c
              then report_search_results
              else if d
              then submit_feedback
              else if e
              then get_query_data
              else if f
              then report_metrics
              else not_found)
            q
          ≡ (if b then (q + 1) % uint_mod else q)
    go true c d e f = refl
    go false true d e f = refl
    go false false true e f = refl
    go false false false true f = refl
    go false false false false true = refl
    go false false false false false = refl

-- The counter goes up by one where a query id is asked for, and only there.
pub request_counted-asks_query_id :
    (r : HttpRequest) (q : ℕ)
    → request_counted r q ≡ (if asks_query_id r then (q + 1) % uint_mod else q)
request_counted-asks_query_id r q = elim (Bool-cases (equal r.version (text "HTTP/1.1"))) [
  | inr v ↦ rw v refl
  | inl v ↦ elim (Bool-cases (is_empty r.body)) [
    | inl e ↦ rw (v, e) (counted_is r.resource q)
    | inr e ↦ elim (Option-cases (get_header (text "content-length") r.headers)) [
      | inl g ↦ rw (v, e, g) refl
      | inr (given, g) ↦ elim (Option-cases (stoul given)) [
        | inl s ↦ rw (v, e, g, s) refl
        | inr (n, s) ↦ elim (Bool-cases (n % uint_mod == length r.body)) [
          | inl m ↦ rw (v, e, g, s, m) (counted_is r.resource q)
          | inr m ↦ rw (v, e, g, s, m) refl
        ]
      ]
    ]
  ]
]
