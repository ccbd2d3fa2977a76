-- ===== src/Worker/Keeps.antt =====
-- What every answer of a worker keeps: whatever its sends, the forwarding and the counter keep.
use lspt_evaluation.Common.{
  ℕ, ◌+◌, ◌%◌, Bool, not, Option, none, some, Bytes, text, equal, length, ◌==◌, is_empty, Leaves,
  leaves, at_json_error, >>=-Leaves, if-Leaves,
}
use lspt_evaluation.Http.{HttpRequest, HttpResponse, get_header, response_to_string}
use lspt_evaluation.Json.{JsonLibrary}
use lspt_evaluation.Socket.{TcpSocket}
use lspt_evaluation.System.{System}
use lspt_evaluation.Text.Decimal.{stoul}
use lspt_evaluation.Text.{uint_mod}
use lspt_evaluation.Worker.Click.{clicked_link}
use lspt_evaluation.Worker.{
  Host, Handler, get_autofill, get_query_id, report_search_results, submit_feedback, get_query_data,
  report_metrics, not_found, is_post, has_json_type, handler_mapper, send_text, send_response,
  send_error, forward_link, answer_click, v0_report_search_results, v0_get_query_id, call_handler,
  dispatch, check_number, check_length, respond, only_host, v0_get_autofill, v0_submit_feedback,
  v0_get_query_data, v0_report_metrics, resource_not_found,
}

module _ {W J : Type 0} (sys : System W) (json : JsonLibrary J) (fuel : ℕ) (sock : TcpSocket)
    (K : Host W → Type 0)
    (sends : (message : Bytes) (host : Host W)
      → K host
      → Leaves (λ (q : Bool × Host W). K q.1) (send_text sys json fuel sock message host))
    (forwards : (link : Bytes) (host : Host W)
      → K host
      → Leaves K (forward_link sys json fuel link host)) where
  send_response-Leaves :
      (r : Option HttpResponse) (host : Host W)
      → K host
      → Leaves (λ (q : Bool × Host W). K q.1) (send_response sys json fuel sock r host)
  unfolding send_response
  send_response-Leaves none host k = at_json_error
  send_response-Leaves (some r) host k = sends (response_to_string r) host k

  pub answered :
      (r : Option HttpResponse) (host : Host W)
      → K host
      → Leaves K (only_host sys json fuel (send_response sys json fuel sock r host))
  answered r host k = >>=-Leaves _ _ (send_response-Leaves r host k) (λ q h. leaves q.1 h)

  answer_click-Leaves :
      (link : Option Bytes) (host : Host W)
      → K host
      → Leaves K (answer_click sys json fuel sock link host)
  unfolding answer_click send_error
  answer_click-Leaves none host k = answered _ host k
  answer_click-Leaves (some link) host k =
      >>=-Leaves _ _ (send_response-Leaves _ host k)
        (λ q h. if-Leaves _ (is_empty link) (leaves q.1 h) (forwards link q.1 h))

  pub v0_report_search_results-Leaves :
      (r : HttpRequest) (host : Host W)
      → K host
      → Leaves K (v0_report_search_results sys json fuel sock r host)
  unfolding v0_report_search_results send_error
  v0_report_search_results-Leaves r host k =
      if-Leaves _ (not (is_post r.method)) (answered _ host k) (
        if-Leaves _ (not (has_json_type (get_header (text "content-type") r.headers)))
          (answered _ host k) (answer_click-Leaves (clicked_link json r.body) host k))

module _ {W J : Type 0} (sys : System W) (json : JsonLibrary J) (fuel : ℕ) (sock : TcpSocket)
    (K : Host W → Type 0)
    (sends : (message : Bytes) (host : Host W)
      → K host
      → Leaves (λ (q : Bool × Host W). K q.1) (send_text sys json fuel sock message host))
    (forwards : (link : Bytes) (host : Host W)
      → K host
      → Leaves K (forward_link sys json fuel link host))
    (counts : (host : Host W)
      → K host
      → K (record host { query_id = (host.query_id + 1) % uint_mod })) where
  call_handler-Leaves :
      (handler : Handler) (r : HttpRequest) (host : Host W)
      → K host
      → Leaves K (call_handler sys json fuel handler sock r host)
  unfolding call_handler v0_get_autofill v0_get_query_id v0_submit_feedback v0_get_query_data
      v0_report_metrics resource_not_found send_error
  call_handler-Leaves get_autofill r host k = answered sys json fuel sock K sends forwards _ host k
  call_handler-Leaves get_query_id r host k =
      answered sys json fuel sock K sends forwards _
        (record host { query_id = (host.query_id + 1) % uint_mod }) (counts host k)
  call_handler-Leaves report_search_results r host k =
      v0_report_search_results-Leaves sys json fuel sock K sends forwards r host k
  call_handler-Leaves submit_feedback r host k =
      answered sys json fuel sock K sends forwards _ host k
  call_handler-Leaves get_query_data r host k =
      answered sys json fuel sock K sends forwards _ host k
  call_handler-Leaves report_metrics r host k =
      answered sys json fuel sock K sends forwards _ host k
  call_handler-Leaves not_found r host k = answered sys json fuel sock K sends forwards _ host k

  dispatch-Leaves :
      (r : HttpRequest) (host : Host W) → K host → Leaves K (dispatch sys json fuel sock r host)
  unfolding dispatch
  dispatch-Leaves r host k = call_handler-Leaves (handler_mapper r.resource) r host k

  check_length-Leaves :
      (r : HttpRequest) (given : Option Bytes) (host : Host W)
      → K host
      → Leaves K (check_length sys json fuel sock r given host)
  unfolding check_length send_error
  check_length-Leaves r none host k = answered sys json fuel sock K sends forwards _ host k
  check_length-Leaves r (some given) host k = go (stoul given)
    where
      go : (n : Option ℕ) → Leaves K (check_number sys json fuel sock r given n host)
      go none = unfold check_number in answered sys json fuel sock K sends forwards _ host k
      go (some n) =
          unfold check_number in
          if-Leaves _ (not (n % uint_mod == length r.body))
            (answered sys json fuel sock K sends forwards _ host k) (dispatch-Leaves r host k)

  pub respond-Leaves :
      (r : Option HttpRequest) (host : Host W)
      → K host
      → Leaves K (respond sys json fuel sock r host)
  unfolding respond send_error
  respond-Leaves none host k = answered sys json fuel sock K sends forwards _ host k
  respond-Leaves (some r) host k =
      if-Leaves _ (not (equal r.version (text "HTTP/1.1")))
        (answered sys json fuel sock K sends forwards _ host k)
        (if-Leaves _ (not (is_empty r.body))
          (check_length-Leaves r (get_header (text "content-length") r.headers) host k)
          (dispatch-Leaves r host k))
