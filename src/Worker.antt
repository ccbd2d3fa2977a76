-- ===== src/Worker.antt =====
-- The class HTTPWorker of Code/evaluation/src/HTTPServer.h and HTTPServer.cpp: the answer to one
-- client. Parsing is in Http/Parser.antt.
pub mod Answer
pub mod Bounds
pub mod Click
pub mod Counter
pub mod Expected
pub mod Framing
pub mod Ids
pub mod Keeps
pub mod Owned
pub mod Refusal
pub mod Reply
pub mod Service
use lspt_evaluation.Common.{
  ℕ, ◌+◌, ◌%◌, Bool, true, false, not, [], ◌∷◌, ◌++◌, Option, none, some, Bytes, text, equal, ◌==◌,
  if◌then◌else◌, length, is_empty, Outcome, ok, json_error, no_fuel, ◌>>=◌,
}
use lspt_evaluation.Http.Parser.{parse_request}
use lspt_evaluation.Http.{
  Method, post, set_header, get_header, HttpRequest, HttpResponse, response, json_request,
  json_response, make_error_response, request_to_string, response_to_string,
}
use lspt_evaluation.Json.{JsonLibrary}
use lspt_evaluation.Socket.{
  TcpSocket, Net, closed, create, connect, destroy, get_ip, send, set_timeout, move_from,
}
use lspt_evaluation.Stream.{SocketStream, open_stream, socket_reader}
use lspt_evaluation.System.{System, rcvtimeo}
use lspt_evaluation.Text.{uint_mod}
use lspt_evaluation.Text.Decimal
use Click.{clicked_link}

-- What the workers share: the sockets, and the static `ID` of `v0getQueryID`.
pub record Host (W : Type 0) : Type 0 where
  pub net : Net W
  pub query_id : ℕ

-- The object, and its constructor, which gives what is left of the client's socket too.
pub record HttpWorker : Type 0 where
  pub socket : TcpSocket

unfoldable pub new_worker : TcpSocket → HttpWorker × TcpSocket
unfolding move_from
new_worker sock = let (moved, left) = move_from sock in (record { socket = moved }, left)

pub data Handler : Type 0 where
  get_autofill get_query_id report_search_results submit_feedback : Handler
  get_query_data report_metrics not_found : Handler

unfoldable pub handler_mapper : Bytes → Handler
handler_mapper resource =
    if equal resource (text "/v0/GetAutofill")
    then get_autofill
    else if equal resource (text "/v0/GetQueryID")
    then get_query_id
    else if equal resource (text "/v0/ReportSearchResults")
    then report_search_results
    else if equal resource (text "/v0/SubmitFeedback")
    then submit_feedback
    else if equal resource (text "/v0/GetQueryData")
    then get_query_data
    else if equal resource (text "/v0/ReportMetrics")
    then report_metrics
    else not_found

-- `contains("content-type")` and `at("content-type") == "application/json"`.
unfoldable pub has_json_type : Option Bytes → Bool
has_json_type none = false
has_json_type (some t) = equal t (text "application/json")

abbrev pub is_post : Method → Bool
is_post post = true
is_post _ = false

abbrev pub link_analysis_domain : Bytes
link_analysis_domain = text "lspt-link-analysis.cs.rpi.edu"

abbrev pub link_analysis_port : ℕ
link_analysis_port = 1234

-- `fuel` bounds the rounds of each loop.
module _ {W J : Type 0} (sys : System W) (json : JsonLibrary J) (fuel : ℕ) where
  -- `send` of a text on the worker's socket.
  unfoldable pub send_text : TcpSocket → Bytes → Host W → Outcome (Bool × Host W)
  send_text sock message host = elim (send sys fuel sock message true host.net) [
    | none ↦ no_fuel
    | some (sent, net) ↦ ok (sent, record host { net = net })
  ]

  -- `send` of a response, which the JSON library may have refused to build.
  unfoldable pub send_response : TcpSocket → Option HttpResponse → Host W → Outcome (Bool × Host W)
  unfolding send_text
  send_response sock none host = json_error
  send_response sock (some r) host = send_text sock (response_to_string r) host

  unfoldable pub send_error : TcpSocket → ℕ → Bytes → Bytes → Host W → Outcome (Bool × Host W)
  send_error sock code status msg host =
      send_response sock (make_error_response json code status msg) host

  unfoldable pub v0_get_autofill : TcpSocket → Host W → Outcome (Bool × Host W)
  v0_get_autofill sock host =
      let suggestions = json.array (
        json.string (text "Why is RPI so cool?")
        ∷ json.string (text "I love RPI")
        ∷ json.string (text "Best Food Near RPI")
        ∷ []) in
      send_response sock
        (json_response json 200 (text "OK") (json.object ((text "suggestions", suggestions) ∷ [])))
        host

  unfoldable pub v0_get_query_id : TcpSocket → Host W → Outcome (Bool × Host W)
  v0_get_query_id sock host =
      send_response sock
        (json_response json 200 (text "OK")
          (json.object ((text "query_ID", json.number host.query_id) ∷ [])))
        (record host { query_id = (host.query_id + 1) % uint_mod })

  unfoldable pub v0_submit_feedback : TcpSocket → Host W → Outcome (Bool × Host W)
  v0_submit_feedback sock host = send_response sock (some (response 200 (text "OK"))) host

  unfoldable pub v0_get_query_data : TcpSocket → Host W → Outcome (Bool × Host W)
  v0_get_query_data sock host =
      send_response sock
        (json_response json 200 (text "OK") (json.object ((text "queries", json.array []) ∷ [])))
        host

  unfoldable pub v0_report_metrics : TcpSocket → Host W → Outcome (Bool × Host W)
  v0_report_metrics sock host = send_response sock (some (response 200 (text "OK"))) host

  unfoldable pub resource_not_found : TcpSocket → Host W → Outcome (Bool × Host W)
  resource_not_found sock host =
      send_error sock 404 (text "Not Found") (text "Resource (API function) not found") host

  -- The request that tells Link Analysis of a clicked link.
  unfoldable pub link_request : Bytes → Option HttpRequest
  link_request link =
      elim (json_request json post (text "/evaluation/update_metadata") (
        json.object (
          (text "list_of_clicked_links", json.array (json.string link ∷ []))
          ∷ (text "click_count", json.array (json.number 1 ∷ []))
          ∷ []))) [
            | none ↦ none
            | some r ↦ some (record r {
              headers =
                  set_header (text "Host") (text "lspt-link-analysis.cs.rpi.edu:1234") r.headers;
            })
          ]

  -- The last part of the forwarding, over a connected socket; the socket is closed at the end.
  unfoldable pub forward_on : TcpSocket → Option HttpRequest → Host W → Outcome (Host W)
  forward_on sock none host = json_error
  forward_on sock (some r) host = do
    (sent, host') ← send_text sock (request_to_string r) host
    ok (record host' { net = destroy sys sock host'.net })

  unfoldable pub forward_link : Bytes → Host W → Outcome (Host W)
  unfolding forward_on link_request
  forward_link link host =
      let (ip, net1) = get_ip sys link_analysis_domain link_analysis_port host.net in
      let (made, sock, net2) = create sys closed net1 in
      let (connected, net3) = connect sys sock ip link_analysis_port net2 in
      if not made
      then ok (record host { net = destroy sys sock net2 })
      else if not connected
      then ok (record host { net = destroy sys sock net3 })
      else forward_on sock (link_request link) (record host { net = net3 })

  -- Behind the guards: answer first, and then forward a link that is not empty.
  unfoldable pub answer_click : TcpSocket → Option Bytes → Host W → Outcome (Host W)
  unfolding forward_link
  answer_click sock none host = do
    (sent, host') ←
        send_error sock 400 (text "Bad Request") (text "Improper format of request body.") host
    ok host'
  answer_click sock (some link) host = do
    (sent, host') ← send_response sock (some (response 200 (text "OK"))) host
    if is_empty link then ok host' else forward_link link host'

  unfoldable pub v0_report_search_results : TcpSocket → HttpRequest → Host W → Outcome (Host W)
  unfolding answer_click has_json_type
  v0_report_search_results sock r host =
      if not (is_post r.method)
      then (do
        (sent, host') ←
            send_error sock 405 (text "Method Not Allowed") (text "Use POST for this API call") host
        ok host')
      else if not (has_json_type (get_header (text "content-type") r.headers))
      then (do
        (sent, host') ←
            send_error sock 400 (text "Bad Request")
              (text "Missing / Incorrect `Content-Type` header (expected `application/json`)") host
        ok host')
      else answer_click sock (clicked_link json r.body) host

  abbrev only_host : Outcome (Bool × Host W) → Outcome (Host W)
  only_host out = do (sent, host) ← out; ok host

  -- The call through the member pointer that `handlerMapper` gives.
  unfoldable pub call_handler : Handler → TcpSocket → HttpRequest → Host W → Outcome (Host W)
  unfolding v0_report_search_results
  call_handler get_autofill sock r host = only_host (v0_get_autofill sock host)
  call_handler get_query_id sock r host = only_host (v0_get_query_id sock host)
  call_handler report_search_results sock r host = v0_report_search_results sock r host
  call_handler submit_feedback sock r host = only_host (v0_submit_feedback sock host)
  call_handler get_query_data sock r host = only_host (v0_get_query_data sock host)
  call_handler report_metrics sock r host = only_host (v0_report_metrics sock host)
  call_handler not_found sock r host = only_host (resource_not_found sock host)

  unfoldable pub dispatch : TcpSocket → HttpRequest → Host W → Outcome (Host W)
  unfolding call_handler
  dispatch sock r host = call_handler (handler_mapper r.resource) sock r host

  -- The guards on a body: the header's text, and the number that `stoul` reads in it.
  unfoldable pub check_number :
      TcpSocket → HttpRequest → Bytes → Option ℕ → Host W → Outcome (Host W)
  unfolding dispatch
  check_number sock r given none host = only_host (
      send_error sock 400 (text "Bad Request")
        (text "Specified content length (" ++ (given ++ text ") is invalid")) host)
  check_number sock r given (some n) host =
      if not (n % uint_mod == length r.body)
      then only_host (
          send_error sock 400 (text "Bad Request")
            (text "Provided content length "
              ++ (given
                  ++ (text " does not match actual content length "
                      ++ Decimal.to_string (length r.body))))
            host)
      else dispatch sock r host

  unfoldable pub check_length : TcpSocket → HttpRequest → Option Bytes → Host W → Outcome (Host W)
  unfolding check_number
  check_length sock r none host = only_host (
      send_error sock 411 (text "Length Required")
        (text "Content-Length header must be specified when sending a request body") host)
  check_length sock r (some given) host = check_number sock r given (Decimal.stoul given) host

  -- `run`, behind the parsing.
  unfoldable pub respond : TcpSocket → Option HttpRequest → Host W → Outcome (Host W)
  unfolding check_length
  respond sock none host =
      only_host (send_error sock 400 (text "Bad Request") (text "Error parsing request.") host)
  respond sock (some r) host =
      if not (equal r.version (text "HTTP/1.1"))
      then only_host (
          send_error sock 505 (text "HTTP Version Not Supported") (text "HTTP/1.1 Must be Used.")
            host)
      else if not (is_empty r.body)
      then check_length sock r (get_header (text "content-length") r.headers) host
      else dispatch sock r host

  -- `run` gives the worker's socket back too, with its timeout.
  unfoldable pub run : TcpSocket → Host W → Outcome (TcpSocket × Host W)
  unfolding respond
  run sock host = do
    let (done, sock', net') = set_timeout sys sock 10 rcvtimeo host.net
    (r, s) ← parse_request (socket_reader sys sock' fuel) fuel (open_stream net')
    host' ← respond sock' r (record host { net = s.net })
    ok (sock', host')
