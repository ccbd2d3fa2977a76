-- ===== src/Worker/Owned.antt =====
-- A worker holds its client's descriptor alone behind its work, whatever it opened meanwhile.
use lspt_evaluation.Common.{
  ℕ, ◌≡◌, refl, ap, Bool, true, not, List, ◌∷◌, Option, none, some, Bytes, inl, inr, Option-cases,
  Outcome, ok, no_fuel, Leaves, leaves, at_json_error, at_no_fuel, >>=-Leaves, if-Leaves,
  if_true-Leaves,
}
use lspt_evaluation.Http.Parser.{parse_request}
use lspt_evaluation.Http.{HttpRequest, request_to_string}
use lspt_evaluation.Json.{JsonLibrary}
use lspt_evaluation.Reader.Itself.{Simulates-refl, Agrees-Leaves}
use lspt_evaluation.Reader.Simulates.{parse_request-Agrees}
use lspt_evaluation.Socket.Owned.Methods.{
  holding, holding-head, recv-Owned, send-Owned, set_timeout-Owned, connect-Owned, get_ip-Owned,
  create-Owned, create-closed, destroy-Owned,
}
use lspt_evaluation.Socket.Owned.{Owned}
use lspt_evaluation.Socket.{TcpSocket, Net, closed, create, connect, destroy, get_ip, send}
use lspt_evaluation.Stream.Keeps.{Simulates-keeps}
use lspt_evaluation.Stream.{SocketStream, open_stream, socket_reader}
use lspt_evaluation.System.{System, rcvtimeo}
use lspt_evaluation.Worker.Answer.{ready, ready-socket}
use lspt_evaluation.Worker.Keeps.{respond-Leaves}
use lspt_evaluation.Worker.{
  Host, link_request, link_analysis_domain, link_analysis_port, send_text, forward_on, forward_link,
  run,
}
use mathlib.Core.List.{Memᴰ}
use mathlib.Core.List.Memᴰ.{head}

module _ {W J : Type 0} (sys : System W) (json : JsonLibrary J) (fuel : ℕ) (held : List ℕ)
    (w0 : W) where
  -- Where the call ends, these descriptors are held.
  abbrev pub OwnedBy : List ℕ → Host W → Type 0
  OwnedBy fds host = Owned sys held w0 fds host.net.world

  send_text-OwnedBy :
      (sock : TcpSocket) (fds : List ℕ)
      → ((val : Bytes) (net net' : Net W) (b : Bool)
          → send sys fuel sock val true net ≡ some (b, net')
          → Owned sys held w0 fds net.world
          → Owned sys held w0 fds net'.world)
      → (message : Bytes) (host : Host W) → OwnedBy fds host
      → Leaves (λ (q : Bool × Host W). OwnedBy fds q.1) (send_text sys json fuel sock message host)
  unfolding send_text
  send_text-OwnedBy sock fds sends message host h =
      go (send sys fuel sock message true host.net) refl
    where
      go :
          (o : Option (Bool × Net W))
          → send sys fuel sock message true host.net ≡ o
          → Leaves
              (λ (q : Bool × Host W). OwnedBy fds q.1)
              (elim o as (λ x. Outcome (Bool × Host W)) [
                | none ↦ no_fuel
                | some (sent, net) ↦ ok (sent, record host { net = net })
              ])
      go none e = at_no_fuel
      go (some (sent, net)) e = leaves _ (sends message host.net net sent e h)

  forward_on-OwnedBy :
      (sock : TcpSocket) (fd : ℕ) (fds : List ℕ) (r : Option HttpRequest) (host : Host W)
      → sock.socket ≡ some fd
      → OwnedBy (holding sock fds) host
      → Leaves (OwnedBy fds) (forward_on sys json fuel sock r host)
  unfolding forward_on
  forward_on-OwnedBy sock fd fds none host e h = at_json_error
  forward_on-OwnedBy sock fd fds (some r) host e h =
      let has = holding-head sock fd fds e in
      >>=-Leaves _ _
        (send_text-OwnedBy sock (holding sock fds) (send-Owned sys held w0 sock fd e has fuel)
          (request_to_string r) host h)
        (λ q k. leaves _ (destroy-Owned sys held w0 sock q.1.net k))

  pub forward_link-OwnedBy :
      (fds : List ℕ) (link : Bytes) (host : Host W)
      → OwnedBy fds host
      → Leaves (OwnedBy fds) (forward_link sys json fuel link host)
  unfolding forward_link
  forward_link-OwnedBy fds link host h =
      let found = get_ip sys link_analysis_domain link_analysis_port host.net in
      let h1 = get_ip-Owned sys held w0 link_analysis_domain link_analysis_port host.net h in
      let made = create sys closed found.1 in
      let h2 = create-Owned sys held w0 closed found.1 h1 in
      let linked = connect sys made.1 found.0 link_analysis_port made.2 in
      let gone =
        leaves (record host { net = destroy sys made.1 made.2 })
          (destroy-Owned sys held w0 made.1 made.2 h2) in
      elim (Option-cases made.1.socket) [
        | inl e ↦
            let failed = create-closed sys held w0 closed found.1 e in
            if_true-Leaves _ (not made.0) _ (ap not failed) gone
        | inr (fd, e) ↦
            let has = holding-head made.1 fd fds e in
            let h3 =
              connect-Owned sys held w0 made.1 fd e has found.0 link_analysis_port made.2 h2 in
            if-Leaves _ (not made.0) gone (
              if-Leaves _ (not linked.0)
                (leaves (record host { net = destroy sys made.1 linked.1 })
                  (destroy-Owned sys held w0 made.1 linked.1 h3))
                (forward_on-OwnedBy made.1 fd fds (link_request sys json fuel link)
                  (record host { net = linked.1 }) e h3))
      ]

  -- Where a parser over the worker's socket ends, the same is held.
  parse_request-OwnedBy :
      (sock : TcpSocket) (fd : ℕ) (fds : List ℕ) (net : Net W)
      → sock.socket ≡ some fd
      → Memᴰ fd fds
      → Owned sys held w0 fds net.world
      → Leaves
          (λ (q : Option HttpRequest × SocketStream W). Owned sys held w0 fds q.1.net.world)
          (parse_request (socket_reader sys sock fuel) fuel (open_stream net))
  unfolding open_stream
  parse_request-OwnedBy sock fd fds net e has h =
      let K = λ (n : Net W). Owned sys held w0 fds n.world in
      let sim =
        Simulates-keeps sys sock K (λ n k. recv-Owned sys held w0 sock fd e has n k) (λ s t. s ≡ t)
          (socket_reader sys sock fuel) fuel (Simulates-refl (socket_reader sys sock fuel)) in
      Agrees-Leaves (λ (s : SocketStream W). K s.net)
        (parse_request-Agrees _ _ _ sim fuel (open_stream net) (open_stream net) (refl, h))

  -- `run` with the client's descriptor held: where it ends, it is still held, with what was held
  -- beside it, and nothing more.
  pub run-Owned :
      (sock : TcpSocket) (fd : ℕ) (fds : List ℕ) (host : Host W)
      → sock.socket ≡ some fd
      → OwnedBy (fd ∷ fds) host
      → Leaves
          (λ (q : TcpSocket × Host W). (q.0.socket ≡ some fd) × OwnedBy (fd ∷ fds) q.1)
          (run sys json fuel sock host)
  unfolding run
  run-Owned sock fd fds host e h =
      let sock' = (ready sys json fuel sock host).1 in
      let e' = ready-socket sys json fuel sock host fd e in
      let h1 = set_timeout-Owned sys held w0 sock fd e (head refl) 10 rcvtimeo host.net h in
      >>=-Leaves _ _ (parse_request-OwnedBy sock' fd (fd ∷ fds) _ e' (head refl) h1) (λ q k.
        >>=-Leaves _ _
          (respond-Leaves sys json fuel sock' (OwnedBy (fd ∷ fds))
            (send_text-OwnedBy sock' (fd ∷ fds)
              (send-Owned sys held w0 sock' fd e' (head refl) fuel))
            (forward_link-OwnedBy (fd ∷ fds)) (λ host' k'. k') q.0 (record host { net = q.1.net })
            k)
          (λ host' k'. leaves (sock', host') (e', k')))
