-- ===== src/Worker/Counter.antt =====
-- The counter `ID` of `HTTPWorker::v0getQueryID`, over everything that a worker can do.
use lspt_evaluation.Common.{
  subst, ℕ, ◌+◌, ◌%◌, ◌≡◌, refl, ◌∙◌, Leaves-weaken, Bool, true, false, not, Option, none, some,
  Bytes, text, equal, length, ◌==◌, if◌then◌else◌, is_empty, Outcome, ok, no_fuel, Leaves, leaves,
  at_json_error, at_no_fuel, >>=-Leaves, if-Leaves,
}
use lspt_evaluation.Http.{HttpRequest, HttpResponse}
use lspt_evaluation.Json.{JsonLibrary}
use lspt_evaluation.Socket.{TcpSocket, Net, send, get_ip, create, connect, closed, destroy}
use lspt_evaluation.System.{System}
use lspt_evaluation.Text.{uint_mod}
use lspt_evaluation.Text.Decimal.{stoul}
use lspt_evaluation.Worker.Expected.{asks_query_id}
use lspt_evaluation.Worker.Ids.{
  counted, number_counted, length_counted, request_counted-asks_query_id,
}
use lspt_evaluation.Worker.Keeps.{answered, v0_report_search_results-Leaves}
use lspt_evaluation.Worker.{
  Host, Handler, get_autofill, get_query_id, report_search_results, submit_feedback, get_query_data,
  report_metrics, not_found, link_request, link_analysis_domain, link_analysis_port, handler_mapper,
  send_text, send_response, send_error, forward_on, forward_link, v0_report_search_results,
  v0_get_query_id, call_handler, dispatch, check_number, check_length, respond, only_host,
  v0_get_autofill, v0_submit_feedback, v0_get_query_data, v0_report_metrics, resource_not_found,
}

-- The call leaves the counter at `q`, if it ends.
abbrev pub Counts : {W : Type 0} → ℕ → Outcome (Host W) → Type 0
Counts {W} q out = Leaves (λ (host : Host W). host.query_id ≡ q) out

-- The same for a call that tells whether it sent.
abbrev pub CountsSent : {W : Type 0} → ℕ → Outcome (Bool × Host W) → Type 0
CountsSent {W} q out = Leaves (λ (r : Bool × Host W). r.1.query_id ≡ q) out

module _ {W J : Type 0} (sys : System W) (json : JsonLibrary J) (fuel : ℕ) where
  pub send_text-CountsSent :
      (sock : TcpSocket) (message : Bytes) (host : Host W)
      → CountsSent host.query_id (send_text sys json fuel sock message host)
  unfolding send_text
  send_text-CountsSent sock message host = go (send sys fuel sock message true host.net)
    where
      go :
          (o : Option (Bool × Net W))
          → CountsSent host.query_id (elim o as (λ x. Outcome (Bool × Host W)) [
            | none ↦ no_fuel
            | some (sent, net) ↦ ok (sent, record host { net = net })
          ])
      go none = at_no_fuel
      go (some (sent, net)) = leaves (sent, record host { net = net }) refl

  forward_on-Counts :
      (sock : TcpSocket) (r : Option HttpRequest) (host : Host W)
      → Counts host.query_id (forward_on sys json fuel sock r host)
  unfolding forward_on
  forward_on-Counts sock none host = at_json_error
  forward_on-Counts sock (some r) host =
      >>=-Leaves _ _ (send_text-CountsSent sock _ host) (λ r e. leaves _ e)

  pub forward_link-Counts :
      (link : Bytes) (host : Host W) → Counts host.query_id (forward_link sys json fuel link host)
  unfolding forward_link
  forward_link-Counts link host =
      let (ip, net1) = get_ip sys link_analysis_domain link_analysis_port host.net in
      let (made, sock, net2) = create sys closed net1 in
      let (connected, net3) = connect sys sock ip link_analysis_port net2 in
      if-Leaves _ (not made) (leaves (record host { net = destroy sys sock net2 }) refl) (
        if-Leaves _ (not connected) (leaves (record host { net = destroy sys sock net3 }) refl)
          (forward_on-Counts sock (link_request sys json fuel link) (record host { net = net3 })))

  -- The rules for all answers, at one value of the counter.
  module _ (sock : TcpSocket) (q : ℕ) where
    sends :
        (message : Bytes) (host : Host W)
        → host.query_id ≡ q
        → CountsSent q (send_text sys json fuel sock message host)
    sends message host e = Leaves-weaken (λ r k. k ∙ e) (send_text-CountsSent sock message host)

    forwards :
        (link : Bytes) (host : Host W)
        → host.query_id ≡ q
        → Counts q (forward_link sys json fuel link host)
    forwards link host e = Leaves-weaken (λ r k. k ∙ e) (forward_link-Counts link host)

    answered-Counts :
        (r : Option HttpResponse) (host : Host W)
        → host.query_id ≡ q
        → Counts q (only_host sys json fuel (send_response sys json fuel sock r host))
    answered-Counts r host e =
        answered sys json fuel sock (λ (h : Host W). h.query_id ≡ q) sends forwards r host e

    report-Counts :
        (r : HttpRequest) (host : Host W)
        → host.query_id ≡ q
        → Counts q (v0_report_search_results sys json fuel sock r host)
    report-Counts r host e =
        v0_report_search_results-Leaves sys json fuel sock (λ (h : Host W). h.query_id ≡ q) sends
          forwards r host e

  send_error-Counts :
      (sock : TcpSocket) (code : ℕ) (status msg : Bytes) (host : Host W)
      → Counts host.query_id
          (only_host sys json fuel (send_error sys json fuel sock code status msg host))
  unfolding send_error
  send_error-Counts sock code status msg host = answered-Counts sock host.query_id _ host refl

  call_handler-Counts :
      (handler : Handler) (sock : TcpSocket) (r : HttpRequest) (host : Host W)
      → Counts (counted handler host.query_id) (call_handler sys json fuel handler sock r host)
  unfolding call_handler v0_get_autofill v0_get_query_id v0_submit_feedback v0_get_query_data
      v0_report_metrics resource_not_found send_error
  call_handler-Counts get_autofill sock r host = answered-Counts sock host.query_id _ host refl
  call_handler-Counts get_query_id sock r host =
      answered-Counts sock ((host.query_id + 1) % uint_mod) _
        (record host { query_id = (host.query_id + 1) % uint_mod }) refl
  call_handler-Counts report_search_results sock r host =
      report-Counts sock host.query_id r host refl
  call_handler-Counts submit_feedback sock r host = answered-Counts sock host.query_id _ host refl
  call_handler-Counts get_query_data sock r host = answered-Counts sock host.query_id _ host refl
  call_handler-Counts report_metrics sock r host = answered-Counts sock host.query_id _ host refl
  call_handler-Counts not_found sock r host = answered-Counts sock host.query_id _ host refl

  if-Counts :
      (b : Bool) {q q' : ℕ} {m n : Outcome (Host W)}
      → Counts q m
      → Counts q' n
      → Counts (if b then q else q') (if b then m else n)
  if-Counts true h k = h
  if-Counts false h k = k

  check_length-Counts :
      (sock : TcpSocket) (r : HttpRequest) (given : Option Bytes) (host : Host W)
      → Counts (length_counted r given host.query_id) (check_length sys json fuel sock r given host)
  unfolding check_length dispatch
  check_length-Counts sock r none host = send_error-Counts sock _ _ _ host
  check_length-Counts sock r (some given) host = go (stoul given)
    where
      go :
          (n : Option ℕ)
          → Counts
              (number_counted r n host.query_id)
              (check_number sys json fuel sock r given n host)
      go none = unfold check_number in send_error-Counts sock _ _ _ host
      go (some n) =
          unfold check_number in
          if-Counts (not (n % uint_mod == length r.body)) (send_error-Counts sock _ _ _ host)
            (call_handler-Counts (handler_mapper r.resource) sock r host)

  -- Answering a request, where it ends, raises the counter of query ids by one modulo 2^32 where
  -- the request passes the guards and its resource is "/v0/GetQueryID", and leaves it as it is
  -- everywhere else: the other handlers, the refusals and the forwarding never touch it.
  pub respond-Counts :
      (sock : TcpSocket) (r : HttpRequest) (host : Host W)
      → Leaves
          (λ (host' : Host W).
            host'.query_id
            ≡ (if asks_query_id r then (host.query_id + 1) % uint_mod else host.query_id))
          (respond sys json fuel sock (some r) host)
  unfolding respond dispatch
  respond-Counts sock r host =
      subst (λ q. Counts q (respond sys json fuel sock (some r) host))
        (request_counted-asks_query_id r host.query_id)
        (if-Counts (not (equal r.version (text "HTTP/1.1"))) (send_error-Counts sock _ _ _ host) (
          if-Counts (not (is_empty r.body)) (check_length-Counts sock r _ host)
            (call_handler-Counts (handler_mapper r.resource) sock r host)))
