-- ===== src/Worker/Expected.antt =====
-- What the server has to answer, as a table: the objections to a request, in their order, and the
-- responses of the resources. It says nothing of sockets, and of a response only its parts.
use lspt_evaluation.Common.{
  ℕ, ◌%◌, Bool, true, false, not, ◌&&◌, List, [], ◌∷◌, ◌++◌, Option, none, some, Bytes, text, equal,
  ◌==◌, if◌then◌else◌, length, is_empty,
}
use lspt_evaluation.Http.{Method, post, HttpRequest, HttpResponse, get_header}
use lspt_evaluation.Json.{JsonLibrary}
use lspt_evaluation.Text.Decimal.{to_string, stoul}
use lspt_evaluation.Text.{uint_mod}
use lspt_evaluation.Worker.Click.{clicked_link}
use mathlib.Core.Option

-- A code, its status and a message.
abbrev pub Objection : Type 0
Objection = ℕ × Bytes × Bytes

-- The first objection that applies.
abbrev pub first : List (Bool × Objection) → Option Objection
first [] = none
first ((applies, o) ∷ os) = if applies then some o else first os

-- The entry of a table at a key.
abbrev pub entry_at : {A : Type 0} → List (Bytes × A) → A → Bytes → A
entry_at [] other key = other
entry_at ((k, a) ∷ table) other key = if equal key k then a else entry_at table other key

abbrev pub is_none : {A : Type 0} → Option A → Bool
is_none none = true
is_none (some _) = false

abbrev pub or_empty : Option Bytes → Bytes
or_empty none = []
or_empty (some b) = b

abbrev pub read_length : Option Bytes → Option ℕ
read_length none = none
read_length (some b) = stoul b

abbrev pub matches : Option ℕ → ℕ → Bool
matches none n = false
matches (some m) n = m % uint_mod == n

abbrev pub is_json : Option Bytes → Bool
is_json none = false
is_json (some t) = equal t (text "application/json")

abbrev pub posts : Method → Bool
posts post = true
posts _ = false

-- What is wrong with a request before its resource is looked at.
abbrev pub framing_objections : HttpRequest → List (Bool × Objection)
framing_objections r =
    let given = get_header (text "content-length") r.headers in
    let has_body = not (is_empty r.body) in
    (
      not (equal r.version (text "HTTP/1.1")),
      (505, text "HTTP Version Not Supported", text "HTTP/1.1 Must be Used."),
    )
    ∷ (
      has_body && is_none given,
      (
        411,
        text "Length Required",
        text "Content-Length header must be specified when sending a request body",
      ),
    )
    ∷ (
      has_body && is_none (read_length given),
      (
        400,
        text "Bad Request",
        text "Specified content length (" ++ (or_empty given ++ text ") is invalid"),
      ),
    )
    ∷ (
      has_body && not (matches (read_length given) (length r.body)),
      (
        400,
        text "Bad Request",
        text "Provided content length "
            ++ (or_empty given
                ++ (text " does not match actual content length " ++ to_string (length r.body))),
      ),
    )
    ∷ []

-- Whether the request is one for a query id.
abbrev pub asks_query_id : HttpRequest → Bool
asks_query_id r = is_none (first (framing_objections r)) && equal r.resource (text "/v0/GetQueryID")

module _ {J : Type 0} (json : JsonLibrary J) where
  -- A response with a JSON body; the library may refuse to dump it.
  abbrev pub with_json : ℕ → Bytes → J → Option HttpResponse
  with_json code status value =
      Option.map
        (λ dumped. record {
          version = text "HTTP/1.1";
          code = code;
          status = status;
          headers =
              (text "Content-Type", text "application/json")
              ∷ (text "Content-Length", to_string (length dumped))
              ∷ [];
          body = dumped;
        })
        (json.dump_indented 2 value)

  abbrev pub objecting : Objection → Option HttpResponse
  objecting (code, status, message) = with_json code status (
      json.object ((text "error", json.string status) ∷ (text "message", json.string message) ∷ []))

  abbrev pub plain : Option HttpResponse
  plain = some (record {
    version = text "HTTP/1.1";
    code = 200;
    status = text "OK";
    headers = [];
    body = [];
  })

  -- The first objection as the answer, or else another.
  abbrev pub unless : Option Objection → Option HttpResponse → Option HttpResponse
  unless none other = other
  unless (some o) other = objecting o

  -- What is wrong with a report of search results.
  abbrev pub report_objections : HttpRequest → List (Bool × Objection)
  report_objections r =
      (not (posts r.method), (405, text "Method Not Allowed", text "Use POST for this API call"))
      ∷ (
        not (is_json (get_header (text "content-type") r.headers)),
        (
          400,
          text "Bad Request",
          text "Missing / Incorrect `Content-Type` header (expected `application/json`)",
        ),
      )
      ∷ (
        is_none (clicked_link json r.body),
        (400, text "Bad Request", text "Improper format of request body."),
      )
      ∷ []

  -- The resources with their responses, where the next query id is `id`.
  abbrev pub resources : HttpRequest → ℕ → List (Bytes × Option HttpResponse)
  resources r id =
      (
        text "/v0/GetAutofill",
        with_json 200 (text "OK") (
            json.object (
              (
                text "suggestions",
                json.array (
                    json.string (text "Why is RPI so cool?")
                    ∷ json.string (text "I love RPI")
                    ∷ json.string (text "Best Food Near RPI")
                    ∷ []),
              )
              ∷ [])),
      )
      ∷ (
        text "/v0/GetQueryID",
        with_json 200 (text "OK") (json.object ((text "query_ID", json.number id) ∷ [])),
      )
      ∷ (text "/v0/ReportSearchResults", unless (first (report_objections r)) plain)
      ∷ (text "/v0/SubmitFeedback", plain)
      ∷ (
        text "/v0/GetQueryData",
        with_json 200 (text "OK") (json.object ((text "queries", json.array []) ∷ [])),
      )
      ∷ (text "/v0/ReportMetrics", plain)
      ∷ []

  abbrev pub resource_reply : HttpRequest → ℕ → Option HttpResponse
  resource_reply r id =
      entry_at (resources r id)
        (objecting (404, text "Not Found", text "Resource (API function) not found")) r.resource

  -- The response to what was parsed; `none` where the library refuses to dump its body.
  abbrev pub expected : Option HttpRequest → ℕ → Option HttpResponse
  expected none id = objecting (400, text "Bad Request", text "Error parsing request.")
  expected (some r) id = unless (first (framing_objections r)) (resource_reply r id)
