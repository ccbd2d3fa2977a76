-- ===== src/Tests.antt =====
-- The theorems about messages and their handling, at concrete inputs.
mod Descriptors
mod Fixtures
mod Parts
mod Program
mod Service
mod Traffic
mod Wires
use lspt_evaluation.Common.{
  Leaves, ℕ, ◌+◌, ◌*◌, ◌%◌, ◌≤◌, ◌<◌, ◌≡◌, refl, ◌>>=◌, drop, ◌⊎◌, inl, inr, ◌↔◌, Bool, true, false,
  not, ◌&&◌, ◌||◌, List, [], ◌∷◌, ◌++◌, Option, none, some, Bytes, text, equal, arith, ◌==◌,
  if◌then◌else◌, length, take, Outcome, ok,
}
use Fixtures.{
  World, the_system, full_system, delivers, takes, peer, plain_json, two_pieces, the_host,
  a_request,
}
use lspt_evaluation.Common.Int.{pos}
use lspt_evaluation.Http.Delivery.{
  value, parse_request_text, parse_response_text, parse_request-incoming, parse_response-incoming,
}
use lspt_evaluation.Http.Ends.Sizes.{parse_request_text-IsSmall}
use lspt_evaluation.Http.Ends.{Ending, parse_request_text-Ending}
use lspt_evaluation.Http.Parser.{parse_request, parse_response, is_unknown}
use lspt_evaluation.Http.Reply.{IsReply, replied, parse_response-to_string}
use lspt_evaluation.Http.ReplyEnds.{ReplyEnding, parse_response_text-ReplyEnding}
use lspt_evaluation.Http.RoundTrip.{
  IsSendable, delivered, parse_request-to_string, string_to_method-to_string,
}
use lspt_evaluation.Http.{
  HttpRequest, HttpResponse, header_lines, response_to_string, post, get_header, set_header,
  json_request, json_headers, request_to_string, method_to_string, string_to_method,
}
use lspt_evaluation.Logger.Levels.{debug, info, trace}
use lspt_evaluation.Logger.Lines.{trim_newlines, log_lines, replicate}
use lspt_evaluation.Logger.Output.{join, arrow, lines, log_lines-trim_newlines}
use lspt_evaluation.Logger.Registry.{lookup, lookup-log, lookup-add_worker, lookup-set_level}
use lspt_evaluation.Logger.{
  Worker, Workers, add_worker, new_worker, log, worker_log, set_level, set_worker_level,
}
use lspt_evaluation.Reader.Simulates.{Simulates}
use lspt_evaluation.Server.Loop.{Ended, serve-Ended}
use lspt_evaluation.Server.{
  HttpServer, new_server, shut_down, failed, serve, round, on_events, init,
}
use lspt_evaluation.Socket.Ownership.{destroy-close, destroy-move_assign}
use lspt_evaluation.Socket.Timeouts.{other, set_timeout_twice}
use lspt_evaluation.Socket.Ports.{bind-ports, close-ports}
use lspt_evaluation.Socket.Sending.{send-wire}
use lspt_evaluation.Socket.{
  TcpSocket, Net, closed, destroy, erase, move_assign, forget_port, set_timeout, current_timeout,
  create, of_fd, bind, close, contains, send,
}
use lspt_evaluation.System.{rcvtimeo, sndtimeo}
use lspt_evaluation.Text.{uint_mod}
use lspt_evaluation.Stream.Cursor.{text_reader}
use lspt_evaluation.Stream.Place.{Follows}
use lspt_evaluation.Stream.Refine.{socket_reader-Simulates}
use lspt_evaluation.Stream.{open_stream, socket_reader}
use lspt_evaluation.Text.Decimal.RoundTrip.{stoul-to_string}
use lspt_evaluation.Text.Decimal.{stoul, to_string}
use lspt_evaluation.Worker.Answer.{ready, run-dispatch}
use lspt_evaluation.Worker.Counter.{Counts, respond-Counts}
use lspt_evaluation.Worker.Refusal.{Refuses, respond-Refuses}
use lspt_evaluation.Worker.Expected.{asks_query_id}
use lspt_evaluation.Worker.Framing.{IsFramed, respond-IsFramed, respond-json_request}
use lspt_evaluation.Worker.{Host, Handler, get_query_id, handler_mapper, respond, dispatch, run}
use mathlib.Core.Option

abbrev the_text : Bytes
the_text = delivers.incoming two_pieces.world

socket_reader-Simulates_example :
    Simulates
      (Follows the_system peer 5 refl delivers 100)
      (socket_reader the_system peer 100)
      text_reader
socket_reader-Simulates_example = socket_reader-Simulates the_system peer 5 refl delivers 100

parse_request-incoming_example :
    value (parse_request (socket_reader the_system peer 100) 100 (open_stream two_pieces))
    ≡ parse_request_text 100 the_text
unfolding text
parse_request-incoming_example =
    parse_request-incoming the_system peer 5 refl delivers 100 two_pieces (omega arith)
      (omega arith)

parse_response-incoming_example :
    value (parse_response (socket_reader the_system peer 100) 100 (open_stream two_pieces))
    ≡ parse_response_text 100 the_text
unfolding text
parse_response-incoming_example =
    parse_response-incoming the_system peer 5 refl delivers 100 two_pieces (omega arith)
      (omega arith)

parse_request_text-Ending_example : Ending (parse_request_text 100 the_text)
unfolding text
parse_request_text-Ending_example = parse_request_text-Ending 100 the_text (omega arith)

abbrev a_request-IsSendable : IsSendable a_request
unfolding text
a_request-IsSendable = record {
  known = refl;
  resource_word = refl;
  resource_ne = refl;
  version_word = refl;
  version_ne = refl;
  headers_fit = (
    record { name_bytes = refl; value_bytes = refl; value_start = refl },
    (record { name_bytes = refl; value_bytes = refl; value_start = refl }, record {}),
  );
  body_visible = inr refl;
}

parse_request-to_string_example :
    parse_request_text 9 (request_to_string a_request) ≡ ok (some (delivered a_request))
parse_request-to_string_example =
    parse_request-to_string 9 a_request a_request-IsSendable (omega arith)

abbrev a_request-IsFramed : IsFramed (delivered a_request)
unfolding text get_header set_header equal stoul
a_request-IsFramed = record { version_is = refl; length_is = inr (text "2", 2, refl, refl, refl) }

abbrev json_post : HttpRequest
json_post = record {
  method = post;
  resource = text "/v0/SubmitFeedback";
  version = text "HTTP/1.1";
  headers = json_headers (text "{}");
  body = text "{}";
}

respond-json_request_example :
    (parse_request_text 9 (request_to_string json_post) ≡ ok (some (delivered json_post)))
    × (respond the_system plain_json 9 peer (some (delivered json_post)) the_host
        ≡ dispatch the_system plain_json 9 peer (delivered json_post) the_host)
unfolding text json_request
respond-json_request_example =
    respond-json_request the_system plain_json 9 peer the_host post (text "/v0/SubmitFeedback")
      (text "{}") json_post refl refl refl refl refl (omega arith) (omega arith)

abbrev a_response : HttpResponse
a_response = record {
  version = text "HTTP/1.1";
  code = 404;
  status = text "Not Found";
  headers = (text "Content-Length", text "2") ∷ [];
  body = text "{}";
}

abbrev a_response-IsReply : IsReply a_response
unfolding text
a_response-IsReply = record {
  version_word = refl;
  version_ne = refl;
  code_positive = omega arith;
  code_fits = omega arith;
  status_line = refl;
  status_start = refl;
  headers_fit = (record { name_bytes = refl; value_bytes = refl; value_start = refl }, record {});
  body_visible = inr refl;
}

parse_response-to_string_example :
    parse_response_text 9 (response_to_string a_response) ≡ ok (some (replied a_response))
parse_response-to_string_example =
    parse_response-to_string 9 a_response a_response-IsReply (omega arith)

parse_response_text-ReplyEnding_example : ReplyEnding (parse_response_text 100 the_text)
unfolding text
parse_response_text-ReplyEnding_example = parse_response_text-ReplyEnding 100 the_text (omega arith)

-- The peer has sent `a_request` in two pieces.
abbrev the_call : Host World
the_call = record the_host {
  net = record {
    ports_in_use = [];
    world =
        (take 20 (request_to_string a_request) ∷ drop 20 (request_to_string a_request) ∷ [], []);
  };
}

run-dispatch_example :
    (net' : Net World) × (run the_system plain_json 200 peer the_call ≡ (
      dispatch the_system plain_json 200
        (ready the_system plain_json 200 peer the_call).1
        (delivered a_request)
        (record the_call { net = net' })
      >>= λ host'. ok ((ready the_system plain_json 200 peer the_call).1, host')))
unfolding text request_to_string header_lines method_to_string set_timeout
run-dispatch_example =
    run-dispatch the_system plain_json 200 peer the_call 5 delivers a_request refl refl
      a_request-IsSendable a_request-IsFramed (omega arith) (omega arith) (omega arith)

abbrev id_request : HttpRequest
id_request = record a_request { resource = text "/v0/GetQueryID"; body = [] }

respond-Counts_example :
    Leaves
      (λ (host : Host World). host.query_id ≡ (
        if asks_query_id id_request then (the_host.query_id + 1) % uint_mod else the_host.query_id))
      (respond the_system plain_json 100 peer (some id_request) the_host)
respond-Counts_example = respond-Counts the_system plain_json 100 peer id_request the_host

abbrev no_headers : HttpRequest
no_headers = record a_request { headers = [] }

respond-Refuses_example :
    IsFramed no_headers
    ⊎ Refuses the_system plain_json 100 peer no_headers the_host
        (respond the_system plain_json 100 peer (some no_headers) the_host)
respond-Refuses_example = respond-Refuses the_system plain_json 100 peer no_headers the_host
