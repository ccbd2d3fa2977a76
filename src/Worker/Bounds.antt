-- ===== src/Worker/Bounds.antt =====
-- The counter of query ids stays an unsigned int.
use lspt_evaluation.Common.{
  ℕ, Option, ◌<◌, Leaves, leaves, Leaves-any, Leaves-weaken, >>=-Leaves, arith,
}
use lspt_evaluation.Http.Parser.{parse_request}
use lspt_evaluation.Http.{HttpRequest}
use lspt_evaluation.Json.{JsonLibrary}
use lspt_evaluation.Socket.{TcpSocket}
use lspt_evaluation.Stream.{SocketStream, open_stream, socket_reader}
use lspt_evaluation.System.{System}
use lspt_evaluation.Text.{uint_mod}
use lspt_evaluation.Worker.Answer.{ready}
use lspt_evaluation.Worker.Counter.{send_text-CountsSent, forward_link-Counts}
use lspt_evaluation.Worker.Keeps.{respond-Leaves}
use lspt_evaluation.Worker.{Host, run}

abbrev pub CountsUint : {W : Type 0} → Host W → Type 0
CountsUint host = host.query_id < uint_mod

module _ {W J : Type 0} (sys : System W) (json : JsonLibrary J) (fuel : ℕ) (sock : TcpSocket) where
  pub run-CountsUint :
      (host : Host W)
      → CountsUint host
      → Leaves (λ (q : TcpSocket × Host W). CountsUint q.1) (run sys json fuel sock host)
  unfolding run
  run-CountsUint host h =
      let sock' = (ready sys json fuel sock host).1 in
      let net' = (ready sys json fuel sock host).2 in
      >>=-Leaves (λ (q : Option HttpRequest × SocketStream W). Unit {0}) _
        (Leaves-any (parse_request (socket_reader sys sock' fuel) fuel (open_stream net')))
        (λ q _.
          >>=-Leaves _ _
            (respond-Leaves sys json fuel sock' CountsUint
              (λ message host' k.
                Leaves-weaken (λ r e. omega (arith, e, k))
                  (send_text-CountsSent sys json fuel sock' message host'))
              (λ link host' k.
                Leaves-weaken (λ r e. omega (arith, e, k))
                  (forward_link-Counts sys json fuel link host'))
              (λ host' k. omega arith) q.0 (record host { net = q.1.net }) h)
            (λ host' k. leaves (sock', host') k))
