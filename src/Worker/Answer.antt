-- ===== src/Worker/Answer.antt =====
-- `HTTPWorker::run` as a whole, over a connection on which a client has sent a request.
use lspt_evaluation.Common.{
  ℕ, ◌+◌, ◌<◌, ◌≡◌, sym, ap, subst, ◌∙◌, Bool, some, arith, length, Outcome, ok, out_of_range,
  empty_back, json_error, no_fuel, ◌>>=◌,
}
use lspt_evaluation.Http.Delivery.{value, parse_request_text, parse_request-incoming}
use lspt_evaluation.Http.Parser.{parse_request}
use lspt_evaluation.Http.RoundTrip.{IsSendable, delivered, parse_request-to_string}
use lspt_evaluation.Http.{HttpRequest, request_to_string}
use lspt_evaluation.Json.{JsonLibrary}
use lspt_evaluation.Socket.{TcpSocket, Net, set_timeout}
use lspt_evaluation.Stream.Follows.{Delivers}
use lspt_evaluation.Stream.{open_stream, socket_reader}
use lspt_evaluation.System.{System, rcvtimeo}
use lspt_evaluation.Text.{uint_mod}
use lspt_evaluation.Worker.Framing.{IsFramed, respond-IsFramed}
use lspt_evaluation.Worker.{Host, respond, dispatch, run}

value-ok :
    {A S : Type 0} (out : Outcome (A × S)) (a : A) → value out ≡ ok a → (s : S) × (out ≡ ok (a, s))
value-ok {A} (ok (b, s)) a e = let q : b ≡ a = cc in (s, ap (λ (x : A). ok (x, s)) q)
value-ok out_of_range a e = absurd cc
value-ok empty_back a e = absurd cc
value-ok json_error a e = absurd cc
value-ok no_fuel a e = absurd cc

module _ {W J : Type 0} (sys : System W) (json : JsonLibrary J) (fuel : ℕ) (sock : TcpSocket)
    (host : Host W) where
  -- The socket and the network behind the setting of the timeout.
  abbrev pub ready : Bool × TcpSocket × Net W
  ready = set_timeout sys sock 10 rcvtimeo host.net

  pub ready-socket : (fd : ℕ) → sock.socket ≡ some fd → ready.1.socket ≡ some fd
  unfolding set_timeout
  ready-socket fd e = ground arith

  -- `run` over an open connection, on which a client has sent what `to_string` writes of a request
  -- that can be read back and that passes the guards, in whatever pieces: it calls the handler of
  -- the resource with that request, header names in lower case, and then ends as the handler does,
  -- on the worker's socket with its timeout set; the text is shorter than 2^32 - 1 bytes and, like
  -- the number of headers, below the fuel.
  pub run-dispatch :
      (fd : ℕ) (d : Delivers sys fd) (r : HttpRequest)
      → sock.socket ≡ some fd
      → d.incoming ready.2.world ≡ request_to_string r
      → IsSendable r
      → IsFramed (delivered r)
      → length (request_to_string r) + 1 < uint_mod
      → length (request_to_string r) < fuel
      → length r.headers < fuel
      → (net' : Net W) × (run sys json fuel sock host ≡ (
          dispatch sys json fuel ready.1 (delivered r) (record host { net = net' }) >>= λ host'.
          ok (ready.1, host')))
  unfolding run
  run-dispatch fd d r opened sent sendable framed fits fuelled headers =
      let text_read =
        parse_request-incoming sys ready.1 fd (ready-socket fd opened) d fuel ready.2
          (subst (λ t. length t + 1 < uint_mod) (sym sent) fits)
          (subst (λ t. length t < fuel) (sym sent) fuelled)
        ∙ ap (parse_request_text fuel) sent
        ∙ parse_request-to_string fuel r sendable headers in
      let (s, parsed) =
        value-ok (parse_request (socket_reader sys ready.1 fuel) fuel (open_stream ready.2))
          (some (delivered r)) text_read in
      (
        s.net,
        ap
              (λ out. out >>= λ q.
                respond sys json fuel ready.1 q.0 (record host { net = q.1.net }) >>= λ host'.
                ok (ready.1, host'))
              parsed
            ∙ ap (λ out. out >>= λ host'. ok (ready.1, host'))
                (respond-IsFramed sys json fuel ready.1 (delivered r) (record host { net = s.net })
                  framed),
      )
