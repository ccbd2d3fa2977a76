-- ===== src/Worker/Service/Forwarding.antt =====
-- The forwarding of a clicked link ends, and leaves the client's connection alone.
use lspt_evaluation.Common.{
  ℕ, ◌+◌, ◌*◌, ◌≤◌, ◌<◌, ◌≡◌, ◌≢◌, refl, ap, ◌∙◌, inl, inr, Bool, true, false, not, Option, none,
  some, Option-cases, [], ◌∷◌, ◌++◌, Bytes, text, equal, arith, length, length-append, Outcome, ok,
  Finishes, finishes, threw, ok-Finishes, >>=-Finishes, if-Finishes,
}
use lspt_evaluation.Http.{
  HttpRequest, post, json_headers, json_request, set_header, header_lines, crlf, request_to_string,
  method_to_string,
}
use lspt_evaluation.Json.{JsonLibrary}
use lspt_evaluation.Socket.Peer.Sends.{send_other-Holds}
use lspt_evaluation.Socket.Peer.{
  Peer, Holds, get_ip-Holds, create-Holds, connect-Holds, destroy-Holds,
}
use lspt_evaluation.Socket.{TcpSocket, Net, closed, create, connect, get_ip, send}
use lspt_evaluation.System.{System}
use lspt_evaluation.Text.Decimal.{to_string}
use lspt_evaluation.Text.{uint_mod}
use lspt_evaluation.Worker.Service.Limits.{ShortDumps, Refuses, message_room}
use lspt_evaluation.Worker.Service.Sizes.{length-to_string}
use lspt_evaluation.Worker.{
  Host, link_request, link_analysis_domain, link_analysis_port, send_text, forward_on, forward_link,
}
use mathlib.Core.Option

-- The request over a dumped body.
abbrev update : Bytes → HttpRequest
update d = record {
  method = post;
  resource = text "/evaluation/update_metadata";
  version = text "HTTP/1.1";
  headers = set_header (text "Host") (text "lspt-link-analysis.cs.rpi.edu:1234") (json_headers d);
  body = d;
}

length-update : (d : Bytes) → length (request_to_string (update d)) ≤ 300 + 2 * length d
unfolding request_to_string header_lines json_headers text equal set_header method_to_string
length-update d =
    let a = length-to_string (length d) in
    let b = length-append (to_string (length d)) (
      crlf (
        text "Host"
        ++ (b':' ∷ b' ' ∷ (text "lspt-link-analysis.cs.rpi.edu:1234" ++ crlf (crlf d))))) in
    omega (arith, a, b)

module _ {W J : Type 0} (sys : System W) (json : JsonLibrary J) (fuel : ℕ) (fd : ℕ)
    (p : Peer sys fd) (room size : ℕ) (dumps : ShortDumps json room)
    (fits : message_room room size < uint_mod) (fuelled : message_room room size < fuel) where
  abbrev IsShort : Option HttpRequest → Type 0
  IsShort none = Refuses json
  IsShort (some r) = length (request_to_string r) ≤ message_room room size

  link_request-IsShort :
      (link : Bytes) → length link ≤ size → IsShort (link_request sys json fuel link)
  unfolding link_request json_request
  link_request-IsShort link short = go (json.dump the_update) refl
    where
      the_update : J
      the_update = json.object (
          (text "list_of_clicked_links", json.array (json.string link ∷ []))
          ∷ (text "click_count", json.array (json.number 1 ∷ []))
          ∷ [])

      with_host : Option HttpRequest → Option HttpRequest
      with_host none = none
      with_host (some r) = some (record r {
        headers = set_header (text "Host") (text "lspt-link-analysis.cs.rpi.edu:1234") r.headers;
      })

      dumped : Bytes → HttpRequest
      dumped d = record {
        method = post;
        resource = text "/evaluation/update_metadata";
        version = text "HTTP/1.1";
        headers = json_headers d;
        body = d;
      }

      go : (o : Option Bytes) → json.dump the_update ≡ o → IsShort (with_host (Option.map dumped o))
      go none e = (the_update, inl e)
      go (some d) e = omega (arith, length-update d, dumps.link link d e)

  -- What holds of the client's connection before a call holds behind it.
  abbrev Kept : Bytes → Outcome (Host W) → Type 0
  Kept sent out = Finishes ⊥ (Refuses json) (λ (h : Host W). Holds sys fd p sent h.net.world) out

  -- `send_text` where `send` gives a result.
  pub send_text-send :
      (sock : TcpSocket) (message : Bytes) (host : Host W) (b : Bool) (net : Net W)
      → send sys fuel sock message true host.net ≡ some (b, net)
      → send_text sys json fuel sock message host ≡ ok (b, record host { net = net })
  unfolding send_text
  send_text-send sock message host b net e = rw (send_text, e) refl

  send_closed :
      (sock : TcpSocket) (message : Bytes) (net : Net W)
      → sock.socket ≡ none
      → send sys fuel sock message true net ≡ some (false, net)
  unfolding send
  send_closed sock message net e = rw e refl

  send_text_other-Finishes :
      (sent : Bytes) (sock : TcpSocket) (message : Bytes) (host : Host W)
      → sock.socket ≢ some fd
      → length message ≤ message_room room size
      → Holds sys fd p sent host.net.world
      → Finishes ⊥
          (Refuses json)
          (λ (q : Bool × Host W). Holds sys fd p sent q.1.net.world)
          (send_text sys json fuel sock message host)
  send_text_other-Finishes sent sock message host other short h =
      let P = λ (q : Bool × Host W). Holds sys fd p sent q.1.net.world in
      elim (Option-cases sock.socket) [
        | inl e ↦
            ok-Finishes P (false, host)
              (send_text-send sock message host false host.net
                (send_closed sock message host.net e))
              h
        | inr (fd', e) ↦
            let (b, net', run, h') =
              send_other-Holds sys fd p sent sock fd' fuel message host.net e
                (λ q. other (e ∙ ap some q)) (omega arith) (omega arith) h in
            ok-Finishes P (b, record host { net = net' })
              (send_text-send sock message host b net' run) h'
      ]

  forward_on-Finishes :
      (sent : Bytes) (sock : TcpSocket) (r : Option HttpRequest) (host : Host W)
      → sock.socket ≢ some fd
      → IsShort r
      → Holds sys fd p sent host.net.world
      → Kept sent (forward_on sys json fuel sock r host)
  unfolding forward_on
  forward_on-Finishes sent sock none host other short h = threw short
  forward_on-Finishes sent sock (some r) host other short h =
      >>=-Finishes (λ (q : Bool × Host W). Holds sys fd p sent q.1.net.world) _
        (send_text_other-Finishes sent sock (request_to_string r) host other short h)
        (λ q h'. finishes _ (destroy-Holds sys fd p sent sock q.1.net other h'))

  -- The forwarding of a clicked link ends, and nothing of it goes to the client, whose connection
  -- stays open: whichever call fails; it throws only where the JSON library refuses to dump a
  -- value. The link is at most `size` bytes long, and the room for its request is below 2^32 and
  -- below the fuel.
  pub forward_link-Finishes :
      (sent link : Bytes) (host : Host W)
      → length link ≤ size
      → Holds sys fd p sent host.net.world
      → Kept sent (forward_link sys json fuel link host)
  unfolding forward_link
  forward_link-Finishes sent link host short h =
      let found = get_ip sys link_analysis_domain link_analysis_port host.net in
      let h1 = get_ip-Holds sys fd p sent link_analysis_domain link_analysis_port host.net h in
      let made = create sys closed found.1 in
      let (h2, other) = create-Holds sys fd p sent closed found.1 h1 in
      let linked = connect sys made.1 found.0 link_analysis_port made.2 in
      let h3 = connect-Holds sys fd p sent made.1 found.0 link_analysis_port made.2 h2 in
      if-Finishes _ (not made.0) (finishes _ (destroy-Holds sys fd p sent made.1 made.2 other h2)) (
        if-Finishes _ (not linked.0)
          (finishes _ (destroy-Holds sys fd p sent made.1 linked.1 other h3))
          (forward_on-Finishes sent made.1 (link_request sys json fuel link)
            (record host { net = linked.1 }) other (link_request-IsShort link short) h3))
