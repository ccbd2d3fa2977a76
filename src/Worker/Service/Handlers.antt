-- ===== src/Worker/Service/Handlers.antt =====
-- The handlers and what each of them sends.
use lspt_evaluation.Common.{
  ℕ, ◌≤◌, ◌<◌, ◌≡◌, refl, Bool, true, false, not, if◌then◌else◌, Option, none, some, Bytes, text,
  arith, length, is_empty, Outcome, Finishes, finishes, >>=-Finishes, if-Finishes, Finishes-weaken,
}
use lspt_evaluation.Http.{HttpRequest, HttpResponse, response, get_header}
use lspt_evaluation.Json.{JsonLibrary}
use lspt_evaluation.Socket.Peer.{Peer, Holds}
use lspt_evaluation.Socket.{TcpSocket}
use lspt_evaluation.System.{System}
use lspt_evaluation.Text.{uint_mod}
use lspt_evaluation.Worker.Click.{clicked_link}
use lspt_evaluation.Worker.Reply.{click_reply, report_reply, handler_reply}
use lspt_evaluation.Worker.Service.Forwarding.{forward_link-Finishes}
use lspt_evaluation.Worker.Service.Limits.{
  ShortDumps, Refuses, message_room, is_ok, is_bad_request, is_not_found, is_method_not_allowed,
  Answered,
}
use lspt_evaluation.Worker.Service.Replies.{
  send_response-Answers, send_error-Finishes, only_host-Finishes, json_response-Reply, plain-Reply,
}
use lspt_evaluation.Worker.{
  Host, Handler, get_autofill, get_query_id, report_search_results, submit_feedback, get_query_data,
  report_metrics, not_found, handler_mapper, is_post, has_json_type, answer_click, v0_get_autofill,
  v0_get_query_id, v0_submit_feedback, v0_get_query_data, v0_report_metrics, resource_not_found,
  v0_report_search_results, call_handler, dispatch,
}

module _ {W J : Type 0} (sys : System W) (json : JsonLibrary J) (fuel : ℕ) (fd : ℕ)
    (p : Peer sys fd) (room size : ℕ) (dumps : ShortDumps json room)
    (fits : message_room room size < uint_mod) (fuelled : message_room room size < fuel)
    (sock : TcpSocket) (opened : sock.socket ≡ some fd) (sent : Bytes) where
  abbrev pub Answering : Option HttpResponse → Outcome (Host W) → Type 0
  Answering o out = Finishes ⊥ (Refuses json) (Answered sys fd p sent o) out

  pub if-Answering :
      (b : Bool) {o o' : Option HttpResponse} {out out' : Outcome (Host W)}
      → Answering o out
      → Answering o' out'
      → Answering (if b then o else o') (if b then out else out')
  if-Answering true x y = x
  if-Answering false x y = y

  abbrev IsOpen : Host W → Type 0
  IsOpen host = Holds sys fd p sent host.net.world

  answer_click-Answering :
      (link : Option Bytes) (host : Host W)
      → ((l : Bytes) → link ≡ some l → length l ≤ size)
      → IsOpen host
      → Answering (click_reply json link) (answer_click sys json fuel sock link host)
  unfolding answer_click text
  answer_click-Answering none host short h =
      send_error-Finishes sys json fuel fd p room size dumps fits fuelled sock opened sent 400 _ _
        host is_bad_request (omega arith) (omega arith) h
  answer_click-Answering (some link) host short h =
      >>=-Finishes _ (Answered sys fd p sent (some (response 200 (text "OK"))))
        (send_response-Answers sys json fuel fd p room size dumps fits fuelled sock opened sent
          (some (response 200 (text "OK"))) host
          (plain-Reply sys json fuel fd p room size dumps fits fuelled) h)
        (λ q (r, e, k, goes, h'). if-Finishes _ (is_empty link) (finishes q.1 (r, e, k, goes, h')) (
          Finishes-weaken (λ host' h''. (r, e, k, goes, h''))
            (forward_link-Finishes sys json fuel fd p room size dumps fits fuelled _ link q.1
              (short link refl) h')))

  v0_report_search_results-Answering :
      (r : HttpRequest) (host : Host W)
      → length r.body ≤ size
      → IsOpen host
      → Answering (report_reply json r) (v0_report_search_results sys json fuel sock r host)
  unfolding v0_report_search_results text
  v0_report_search_results-Answering r host short h =
      if-Answering (not (is_post r.method))
        (send_error-Finishes sys json fuel fd p room size dumps fits fuelled sock opened sent 405 _
          _ host is_method_not_allowed (omega arith) (omega arith) h)
        (if-Answering (not (has_json_type (get_header (text "content-type") r.headers)))
          (send_error-Finishes sys json fuel fd p room size dumps fits fuelled sock opened sent 400
            _ _ host is_bad_request (omega arith) (omega arith) h)
          (answer_click-Answering (clicked_link json r.body) host
            (λ l e. omega (arith, dumps.clicked r.body l e, short)) h))

  call_handler-Answering :
      (handler : Handler) (r : HttpRequest) (host : Host W)
      → length r.body ≤ size
      → host.query_id < uint_mod
      → IsOpen host
      → Answering
          (handler_reply json handler r host.query_id)
          (call_handler sys json fuel handler sock r host)
  unfolding call_handler v0_get_autofill v0_get_query_id v0_submit_feedback v0_get_query_data
      v0_report_metrics resource_not_found text
  call_handler-Answering get_autofill r host short id h =
      only_host-Finishes sys json fuel fd p room size dumps fits fuelled sock opened sent _ _ (
        send_response-Answers sys json fuel fd p room size dumps fits fuelled sock opened sent _
          host
          (json_response-Reply sys json fuel fd p room size dumps fits fuelled 200 _ _ is_ok
            (omega arith) (λ d e. omega (arith, dumps.suggestions d e)))
          h)
  call_handler-Answering get_query_id r host short id h =
      only_host-Finishes sys json fuel fd p room size dumps fits fuelled sock opened sent _ _ (
        send_response-Answers sys json fuel fd p room size dumps fits fuelled sock opened sent _ _
          (json_response-Reply sys json fuel fd p room size dumps fits fuelled 200 _ _ is_ok
            (omega arith) (λ d e. omega (arith, dumps.query_id host.query_id d id e)))
          h)
  call_handler-Answering report_search_results r host short id h =
      v0_report_search_results-Answering r host short h
  call_handler-Answering submit_feedback r host short id h =
      only_host-Finishes sys json fuel fd p room size dumps fits fuelled sock opened sent _ _ (
        send_response-Answers sys json fuel fd p room size dumps fits fuelled sock opened sent _
          host (plain-Reply sys json fuel fd p room size dumps fits fuelled) h)
  call_handler-Answering get_query_data r host short id h =
      only_host-Finishes sys json fuel fd p room size dumps fits fuelled sock opened sent _ _ (
        send_response-Answers sys json fuel fd p room size dumps fits fuelled sock opened sent _
          host
          (json_response-Reply sys json fuel fd p room size dumps fits fuelled 200 _ _ is_ok
            (omega arith) (λ d e. omega (arith, dumps.queries d e)))
          h)
  call_handler-Answering report_metrics r host short id h =
      only_host-Finishes sys json fuel fd p room size dumps fits fuelled sock opened sent _ _ (
        send_response-Answers sys json fuel fd p room size dumps fits fuelled sock opened sent _
          host (plain-Reply sys json fuel fd p room size dumps fits fuelled) h)
  call_handler-Answering not_found r host short id h =
      send_error-Finishes sys json fuel fd p room size dumps fits fuelled sock opened sent 404 _ _
        host is_not_found (omega arith) (omega arith) h

  pub dispatch-Answering :
      (r : HttpRequest) (host : Host W)
      → length r.body ≤ size
      → host.query_id < uint_mod
      → IsOpen host
      → Answering
          (handler_reply json (handler_mapper r.resource) r host.query_id)
          (dispatch sys json fuel sock r host)
  unfolding dispatch
  dispatch-Answering r host short id h =
      call_handler-Answering (handler_mapper r.resource) r host short id h
