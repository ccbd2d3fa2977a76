-- ===== src/Worker/Service/Replies.antt =====
-- Sending one response to the client ends, and puts a front of it on the client's wire.
use lspt_evaluation.Common.{
  ℕ, ◌+◌, ◌*◌, ◌≤◌, ◌<◌, ◌≡◌, refl, sym, subst, inl, inr, Bool, Option, none, some, Bytes, text,
  arith, length, ◌==◌, Outcome, Finishes, finishes, threw, ok-Finishes, >>=-Finishes,
}
use lspt_evaluation.Http.{
  HttpResponse, response, json_response, make_error_response, response_to_string,
}
use lspt_evaluation.Json.{JsonLibrary}
use lspt_evaluation.Socket.Peer.Sends.{send_own-Holds}
use lspt_evaluation.Socket.Peer.{Peer, Holds}
use lspt_evaluation.Socket.{TcpSocket}
use lspt_evaluation.System.{System}
use lspt_evaluation.Text.{uint_mod}
use lspt_evaluation.Worker.Service.Forwarding.{send_text-send}
use lspt_evaluation.Worker.Service.Limits.{
  ShortDumps, Refuses, message_room, IsCode, is_ok, is_bad_request, is_not_found,
  is_method_not_allowed, is_length_required, is_version_not_supported, Answered,
}
use lspt_evaluation.Worker.Service.Sizes.{json_response-dumped, length-plain_response}
use lspt_evaluation.Worker.{Host, send_response, send_error, only_host}

IsCode-bound : (code : ℕ) → IsCode code → code ≤ 505
IsCode-bound _ is_ok = omega arith
IsCode-bound _ is_bad_request = omega arith
IsCode-bound _ is_not_found = omega arith
IsCode-bound _ is_method_not_allowed = omega arith
IsCode-bound _ is_length_required = omega arith
IsCode-bound _ is_version_not_supported = omega arith

module _ {W J : Type 0} (sys : System W) (json : JsonLibrary J) (fuel : ℕ) (fd : ℕ)
    (p : Peer sys fd) (room size : ℕ) (dumps : ShortDumps json room)
    (fits : message_room room size < uint_mod) (fuelled : message_room room size < fuel) where
  -- One of the server's responses, which is short enough, or one that the library refused to build.
  abbrev pub Reply : Option HttpResponse → Type 0
  Reply none = Refuses json
  Reply (some r) = length (response_to_string r) ≤ message_room room size

  pub json_response-Reply :
      (code : ℕ) (status : Bytes) (body : J)
      → IsCode code
      → length status ≤ 30
      → ((d : Bytes)
          → json.dump_indented 2 body ≡ some d
          → 2 * length d ≤ 3000 + (2 * room + 24 * size))
      → Reply (json_response json code status body)
  json_response-Reply code status body c s short =
      elim (json_response-dumped json code status body) [
        | inl (refused, e) ↦ subst Reply (sym e) (body, inr refused)
        | inr (d, dumped, e, len) ↦
            subst Reply (sym e) (omega (arith, len, short d dumped, IsCode-bound code c))
      ]

  pub make_error_response-Reply :
      (code : ℕ) (status msg : Bytes)
      → IsCode code
      → length status ≤ 30
      → length msg ≤ 100 + 2 * size
      → Reply (make_error_response json code status msg)
  unfolding make_error_response
  make_error_response-Reply code status msg c s m =
      json_response-Reply code status _ c s (λ d e. omega (arith, dumps.error status msg d e))

  pub plain-Reply : Reply (some (response 200 (text "OK")))
  unfolding response text
  plain-Reply = omega (arith, length-plain_response 200 (text "OK"))

  module _ (sock : TcpSocket) (opened : sock.socket ≡ some fd) (sent : Bytes) where
    -- A call that sends this response, and nothing else.
    abbrev pub Answers : Option HttpResponse → Outcome (Bool × Host W) → Type 0
    Answers o out =
        Finishes ⊥ (Refuses json) (λ (q : Bool × Host W). Answered sys fd p sent o q.1) out

    pub send_response-Answers :
        (r : Option HttpResponse) (host : Host W)
        → Reply r
        → Holds sys fd p sent host.net.world
        → Answers r (send_response sys json fuel sock r host)
    unfolding send_response
    send_response-Answers none host reply h = threw reply
    send_response-Answers (some r) host short h =
        let (k, net', run, h', goes) =
          send_own-Holds sys fd p sent sock fuel (response_to_string r) host.net opened
            (omega arith) (omega arith) h in
        ok-Finishes _ (k == length (response_to_string r), record host { net = net' })
          (send_text-send sys json fuel fd p room size dumps fits fuelled sock _ host _ net' run)
          (r, refl, k, goes, h')

    pub only_host-Finishes :
        (o : Option HttpResponse) (out : Outcome (Bool × Host W))
        → Answers o out
        → Finishes ⊥ (Refuses json) (Answered sys fd p sent o) (only_host sys json fuel out)
    only_host-Finishes o out a = >>=-Finishes _ _ a (λ q h. finishes q.1 h)

    -- An error response as the whole answer.
    pub send_error-Finishes :
        (code : ℕ) (status msg : Bytes) (host : Host W)
        → IsCode code
        → length status ≤ 30
        → length msg ≤ 100 + 2 * size
        → Holds sys fd p sent host.net.world
        → Finishes ⊥
            (Refuses json)
            (Answered sys fd p sent (make_error_response json code status msg))
            (only_host sys json fuel (send_error sys json fuel sock code status msg host))
    unfolding send_error
    send_error-Finishes code status msg host c s m h =
        only_host-Finishes _ _
          (send_response-Answers _ host (make_error_response-Reply code status msg c s m) h)
