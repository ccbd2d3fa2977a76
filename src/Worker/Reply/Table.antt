-- ===== src/Worker/Reply/Table.antt =====
-- What the parts of a worker send, and the table of what is expected.
use lspt_evaluation.Common.{
  ℕ, ◌%◌, ◌≡◌, refl, inl, inr, Bool, true, false, not, ◌&&◌, [], ◌∷◌, ◌++◌, Option, none, some,
  Bytes, text, equal, ◌==◌, if◌then◌else◌, length, is_empty, Bool-cases,
}
use lspt_evaluation.Http.{
  Method, get, head, post, put, delete, connect, options, trace, patch, unknown, HttpRequest,
  get_header, response, json_response, make_error_response, json_headers,
}
use lspt_evaluation.Json.{JsonLibrary}
use lspt_evaluation.Text.Decimal.{to_string, stoul}
use lspt_evaluation.Text.{uint_mod}
use lspt_evaluation.Worker.Click.{clicked_link}
use lspt_evaluation.Worker.Expected.{
  first, is_none, or_empty, read_length, matches, is_json, posts, plain, unless, report_objections,
  resource_reply, expected,
}
use lspt_evaluation.Worker.{
  get_autofill, get_query_id, report_search_results, submit_feedback, get_query_data,
  report_metrics, not_found, handler_mapper, is_post, has_json_type,
}
use lspt_evaluation.Worker.Reply.{
  click_reply, report_reply, handler_reply, number_reply, length_reply, reply,
}

module _ {J : Type 0} (json : JsonLibrary J) where
  is_post-posts : (m : Method) → is_post m ≡ posts m
  is_post-posts get = refl
  is_post-posts head = refl
  is_post-posts post = refl
  is_post-posts put = refl
  is_post-posts delete = refl
  is_post-posts connect = refl
  is_post-posts options = refl
  is_post-posts trace = refl
  is_post-posts patch = refl
  is_post-posts unknown = refl

  json_type_is : (o : Option Bytes) → has_json_type o ≡ is_json o
  unfolding has_json_type
  json_type_is none = refl
  json_type_is (some t) = refl

  report_is :
      (r : HttpRequest)
      → report_reply json r ≡ unless json (first (report_objections json r)) (plain json)
  unfolding make_error_response json_response json_headers response
  report_is r =
      rw (is_post-posts r.method, json_type_is (get_header (text "content-type") r.headers))
        (go (posts r.method) (is_json (get_header (text "content-type") r.headers))
          (clicked_link json r.body))
    where
      go :
          (a b : Bool) (c : Option Bytes)
          → (if not a
              then make_error_response json 405
                  (text "Method Not Allowed")
                  (text "Use POST for this API call")
              else if not b
              then make_error_response json 400
                  (text "Bad Request")
                  (text "Missing / Incorrect `Content-Type` header (expected `application/json`)")
              else click_reply json c)
            ≡ unless json
                (first (
                  (not a, (405, text "Method Not Allowed", text "Use POST for this API call"))
                  ∷ (
                    not b,
                    (
                      400,
                      text "Bad Request",
                      text
                          "Missing / Incorrect `Content-Type` header (expected `application/json`)",
                    ),
                  )
                  ∷ (is_none c, (400, text "Bad Request", text "Improper format of request body."))
                  ∷ []))
                (plain json)
      go false b c = refl
      go true false c = refl
      go true true none = refl
      go true true (some l) = refl

  resource_is :
      (r : HttpRequest) (id : ℕ)
      → handler_reply json (handler_mapper r.resource) r id ≡ resource_reply json r id
  unfolding handler_mapper make_error_response json_response json_headers response
  resource_is r id =
      go (equal r.resource (text "/v0/GetAutofill")) (equal r.resource (text "/v0/GetQueryID"))
        (equal r.resource (text "/v0/ReportSearchResults"))
        (equal r.resource (text "/v0/SubmitFeedback")) (equal r.resource (text "/v0/GetQueryData"))
        (equal r.resource (text "/v0/ReportMetrics"))
    where
      go :
          (a b c d e f : Bool)
          → handler_reply json
              (if a
                then get_autofill
                else if b
                then get_query_id
                else if c
                then report_search_results
                else if d
                then submit_feedback
                else if e
                then get_query_data
                else if f
                then report_metrics
                else not_found)
              r
              id
            ≡ (if a
                then handler_reply json get_autofill r id
                else if b
                then handler_reply json get_query_id r id
                else if c
                then unless json (first (report_objections json r)) (plain json)
                else if d
                then plain json
                else if e
                then handler_reply json get_query_data r id
                else if f
                then plain json
                else handler_reply json not_found r id)
      go true b c d e f = refl
      go false true c d e f = refl
      go false false true d e f = report_is r
      go false false false true e f = refl
      go false false false false true f = refl
      go false false false false false true = refl
      go false false false false false false = refl

  -- With a body, a given length and the number read in it.
  guards_is :
      (r : HttpRequest) (id : ℕ) (v e : Bool) (given : Option Bytes)
      → (if not v
          then make_error_response json 505
              (text "HTTP Version Not Supported")
              (text "HTTP/1.1 Must be Used.")
          else if not e
          then length_reply json r given id
          else handler_reply json (handler_mapper r.resource) r id)
        ≡ unless json
            (first (
              (not v, (505, text "HTTP Version Not Supported", text "HTTP/1.1 Must be Used."))
              ∷ (
                not e && is_none given,
                (
                  411,
                  text "Length Required",
                  text "Content-Length header must be specified when sending a request body",
                ),
              )
              ∷ (
                not e && is_none (read_length given),
                (
                  400,
                  text "Bad Request",
                  text "Specified content length (" ++ (or_empty given ++ text ") is invalid"),
                ),
              )
              ∷ (
                not e && not (matches (read_length given) (length r.body)),
                (
                  400,
                  text "Bad Request",
                  text "Provided content length "
                      ++ (or_empty given
                          ++ (text " does not match actual content length "
                              ++ to_string (length r.body))),
                ),
              )
              ∷ []))
            (resource_reply json r id)
  unfolding make_error_response json_response json_headers response
  guards_is r id false e given = refl
  guards_is r id true true given = resource_is r id
  guards_is r id true false none = refl
  guards_is r id true false (some g) = go (stoul g)
    where
      go :
          (o : Option ℕ)
          → number_reply json r g o id
            ≡ unless json
                (first (
                  (
                    is_none o,
                    (
                      400,
                      text "Bad Request",
                      text "Specified content length (" ++ (g ++ text ") is invalid"),
                    ),
                  )
                  ∷ (
                    not (matches o (length r.body)),
                    (
                      400,
                      text "Bad Request",
                      text "Provided content length "
                          ++ (g
                              ++ (text " does not match actual content length "
                                  ++ to_string (length r.body))),
                    ),
                  )
                  ∷ []))
                (resource_reply json r id)
      go none = refl
      go (some n) = elim (Bool-cases (n % uint_mod == length r.body)) [
        | inl same ↦ rw same (resource_is r id)
        | inr other ↦ rw other refl
      ]

  -- The parts of the worker together answer as the table says.
  pub reply-expected : (r : Option HttpRequest) (id : ℕ) → reply json r id ≡ expected json r id
  unfolding make_error_response json_response json_headers
  reply-expected none id = refl
  reply-expected (some r) id =
      guards_is r id (equal r.version (text "HTTP/1.1")) (is_empty r.body)
        (get_header (text "content-length") r.headers)
