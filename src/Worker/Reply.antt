-- ===== src/Worker/Reply.antt =====
-- The response that each part of a worker sends, beside its sockets.
pub mod Table
use lspt_evaluation.Common.{
  ℕ, ◌%◌, ◌≡◌, refl, inl, inr, Bool, true, false, not, ◌&&◌, [], ◌∷◌, ◌++◌, Option, none, some,
  Bytes, text, equal, ◌==◌, if◌then◌else◌, length, is_empty, Bool-cases,
}
use lspt_evaluation.Http.{
  Method, get, head, post, put, delete, connect, options, trace, patch, unknown, HttpRequest,
  HttpResponse, get_header, response, json_response, make_error_response, json_headers,
}
use lspt_evaluation.Json.{JsonLibrary}
use lspt_evaluation.Text.Decimal.{to_string, stoul}
use lspt_evaluation.Text.{uint_mod}
use lspt_evaluation.Worker.Click.{clicked_link}
use lspt_evaluation.Worker.Expected.{
  first, is_none, or_empty, read_length, matches, is_json, posts, with_json, objecting, plain,
  unless, report_objections, resource_reply, expected,
}
use lspt_evaluation.Worker.{
  Handler, get_autofill, get_query_id, report_search_results, submit_feedback, get_query_data,
  report_metrics, not_found, handler_mapper, is_post, has_json_type,
}

module _ {J : Type 0} (json : JsonLibrary J) where
  abbrev pub click_reply : Option Bytes → Option HttpResponse
  click_reply none =
      make_error_response json 400 (text "Bad Request") (text "Improper format of request body.")
  click_reply (some link) = some (response 200 (text "OK"))

  abbrev pub report_reply : HttpRequest → Option HttpResponse
  report_reply r =
      if not (is_post r.method)
      then make_error_response json 405 (text "Method Not Allowed")
          (text "Use POST for this API call")
      else if not (has_json_type (get_header (text "content-type") r.headers))
      then make_error_response json 400 (text "Bad Request")
          (text "Missing / Incorrect `Content-Type` header (expected `application/json`)")
      else click_reply (clicked_link json r.body)

  abbrev pub handler_reply : Handler → HttpRequest → ℕ → Option HttpResponse
  handler_reply get_autofill r id = json_response json 200 (text "OK") (
      json.object (
        (
          text "suggestions",
          json.array (
              json.string (text "Why is RPI so cool?")
              ∷ json.string (text "I love RPI")
              ∷ json.string (text "Best Food Near RPI")
              ∷ []),
        )
        ∷ []))
  handler_reply get_query_id r id =
      json_response json 200 (text "OK") (json.object ((text "query_ID", json.number id) ∷ []))
  handler_reply report_search_results r id = report_reply r
  handler_reply submit_feedback r id = some (response 200 (text "OK"))
  handler_reply get_query_data r id =
      json_response json 200 (text "OK") (json.object ((text "queries", json.array []) ∷ []))
  handler_reply report_metrics r id = some (response 200 (text "OK"))
  handler_reply not_found r id =
      make_error_response json 404 (text "Not Found") (text "Resource (API function) not found")

  abbrev pub number_reply : HttpRequest → Bytes → Option ℕ → ℕ → Option HttpResponse
  number_reply r given none id =
      make_error_response json 400 (text "Bad Request")
        (text "Specified content length (" ++ (given ++ text ") is invalid"))
  number_reply r given (some n) id =
      if not (n % uint_mod == length r.body)
      then make_error_response json 400 (text "Bad Request") (
          text "Provided content length "
          ++ (given
              ++ (text " does not match actual content length " ++ to_string (length r.body))))
      else handler_reply (handler_mapper r.resource) r id

  abbrev pub length_reply : HttpRequest → Option Bytes → ℕ → Option HttpResponse
  length_reply r none id =
      make_error_response json 411 (text "Length Required")
        (text "Content-Length header must be specified when sending a request body")
  length_reply r (some given) id = number_reply r given (stoul given) id

  abbrev pub reply : Option HttpRequest → ℕ → Option HttpResponse
  reply none id = make_error_response json 400 (text "Bad Request") (text "Error parsing request.")
  reply (some r) id =
      if not (equal r.version (text "HTTP/1.1"))
      then make_error_response json 505 (text "HTTP Version Not Supported")
          (text "HTTP/1.1 Must be Used.")
      else if not (is_empty r.body)
      then length_reply r (get_header (text "content-length") r.headers) id
      else handler_reply (handler_mapper r.resource) r id
