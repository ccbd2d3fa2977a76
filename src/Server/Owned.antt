-- ===== src/Server/Owned.antt =====
-- The descriptors that the server's loop holds.
use lspt_evaluation.Common.{
  ℕ, zero, suc, ◌≡◌, Bool, true, false, not, List, Option, none, some, inl, inr, Option-cases,
  Bool-cases, Leaves, leaves, at_no_fuel, >>=-Leaves, if-Leaves, if_true-Leaves, if◌then◌else◌, ap,
}
use lspt_evaluation.Json.{JsonLibrary}
use lspt_evaluation.Server.{
  HttpServer, Round, shut_down, failed, next_round, has_pollin, init, serve_client, on_events,
  round, after_round, serve, run,
}
use lspt_evaluation.Server.Ready.{init_ready}
use lspt_evaluation.Socket.Owned.Methods.{
  holding, holding-head, holding-tail, OwnedClient, create-Owned, create-closed, bind-Owned,
  listen-Owned, accept-Owned, destroy-Owned,
}
use lspt_evaluation.Socket.Owned.{Owned, await}
use lspt_evaluation.Socket.{TcpSocket, Net, create, bind, accept, destroy}
use lspt_evaluation.System.{System, Polled, poll_error, timed_out, events}
use lspt_evaluation.Worker.Owned.{run-Owned as worker-Owned}
use lspt_evaluation.Worker.{Host}
use lspt_evaluation.Worker
use mathlib.Core.List.{Memᴰ}

either : {A : Type 0} (P : A → Type 0) (b : Bool) {x y : A} → P x → P y → P (if b then x else y)
either P true p q = p
either P false p q = q

module _ {W J : Type 0} (sys : System W) (json : JsonLibrary J) (fuel : ℕ) (held : List ℕ)
    (w0 : W) where
  abbrev Holding : List ℕ → Host W → Type 0
  Holding fds host = Owned sys held w0 fds host.net.world

  serve_client-Owned :
      (client : Option TcpSocket) (fds : List ℕ) (host : Host W)
      → OwnedClient sys held w0 fds (client, host.net)
      → Leaves (λ (q : Round × Host W). Holding fds q.1) (serve_client sys json fuel client host)
  unfolding serve_client Worker.new_worker destroy
  serve_client-Owned none fds host h = leaves _ h
  serve_client-Owned (some client) fds host (c, e, h) =
      >>=-Leaves _ _
        (worker-Owned sys json fuel held w0 client c fds host (ap (λ (s : TcpSocket). s.socket) e)
          h)
        (λ q (opens, k). leaves _ (destroy-Owned sys held w0 q.0 q.1.net (rw (holding, opens) k)))

  module _ (shutdown_fd : ℕ) (fds : List ℕ) (has : Memᴰ shutdown_fd fds) where
    module _ (server : HttpServer) (listener : ℕ)
        (opens : server.listener_socket.socket ≡ some listener) (listens : Memᴰ listener fds) where
      on_events-Owned :
          (polled : Polled) (host : Host W)
          → Holding fds host
          → Leaves
              (λ (q : Round × Host W). Holding fds q.1)
              (on_events sys json fuel server polled host)
      unfolding on_events
      on_events-Owned poll_error host h = leaves _ h
      on_events-Owned timed_out host h = leaves _ h
      on_events-Owned (events s l) host h =
          let got = accept sys server.listener_socket host.net in
          if-Leaves _ (has_pollin s) (leaves _ h) (
            if-Leaves _ (not (has_pollin l)) (leaves _ h) (
              serve_client-Owned got.0 fds (record host { net = got.1 })
                (accept-Owned sys held w0 server.listener_socket listener opens listens host.net
                  h)))

      round-Owned :
          (host : Host W)
          → Holding fds host
          → Leaves
              (λ (q : Round × Host W). Holding fds q.1)
              (round sys json fuel shutdown_fd server host)
      unfolding round
      round-Owned host h =
          let polled = sys.poll (some shutdown_fd) server.listener_socket.socket host.net.world in
          on_events-Owned polled.0 (record host { net = record host.net { world = polled.1 } })
            (rw opens (await has listens h))

      pub serve-Owned :
          (rounds : ℕ) (host : Host W)
          → Holding fds host
          → Leaves
              (λ (q : Bool × Host W). Holding fds q.1)
              (serve sys json fuel rounds shutdown_fd server host)
      unfolding serve
      serve-Owned zero host h = at_no_fuel
      serve-Owned (suc n) host h =
          >>=-Leaves _ _ (round-Owned host h) (λ (r, host') k. go (serve-Owned n) r host' k)
        where
          go :
              ((host' : Host W)
                → Holding fds host'
                → Leaves
                    (λ (q : Bool × Host W). Holding fds q.1)
                    (serve sys json fuel n shutdown_fd server host'))
              → (r : Round) (host' : Host W) → Holding fds host'
              → Leaves
                  (λ (q : Bool × Host W). Holding fds q.1)
                  (after_round sys json fuel (serve sys json fuel n shutdown_fd server) (r, host'))
          go again shut_down host' k = leaves _ k
          go again failed host' k = leaves _ k
          go again next_round host' k = again host' k

module _ {W J : Type 0} (sys : System W) (json : JsonLibrary J) (fuel : ℕ) (held : List ℕ) (w0 : W)
    (shutdown_fd : ℕ) (fds : List ℕ) (has : Memᴰ shutdown_fd fds) where
  -- The listener's descriptor is held beside the others, where there is one.
  abbrev WithListener : Bool × HttpServer × Net W → Type 0
  WithListener q = Owned sys held w0 (holding q.1.listener_socket fds) q.2.world

  init-WithListener :
      (server : HttpServer) (net : Net W)
      → Owned sys held w0 fds net.world
      → WithListener (init sys json fuel server net)
  unfolding init
  init-WithListener server net h =
      let made = create sys server.listener_socket net in
      let h1 = create-Owned sys held w0 server.listener_socket net h in
      let bound = bind sys made.1 server.listener_port made.2 in
      elim (Option-cases made.1.socket) [
        | inl e ↦ rw (create-closed sys held w0 server.listener_socket net e) h1
        | inr (fd, e) ↦
            let listens = holding-head made.1 fd fds e in
            let h2 = bind-Owned sys held w0 made.1 fd e listens server.listener_port made.2 h1 in
            either WithListener (not made.0) h1 (
              either WithListener (not bound.0) h2
                (listen-Owned sys held w0 made.1 fd e listens server.backlog_size bound.1 h2))
      ]

  init-closed :
      (server : HttpServer) (net : Net W)
      → (init sys json fuel server net).1.listener_socket.socket ≡ none
      → (init sys json fuel server net).0 ≡ false
  init-closed server net e = elim (Bool-cases (init sys json fuel server net).0) [
    | inl r ↦
        let q = init sys json fuel server net in
        absurd
          ((init_ready sys json fuel server q.1 net q.2 (ap (λ (b : Bool). (b, q.1, q.2)) r)).0 e)
    | inr r ↦ r
  ]

  -- `run` from its start: where it ends, the listener's descriptor is held beside the others.
  pub run-Owned :
      (rounds : ℕ) (server : HttpServer) (host : Host W)
      → Owned sys held w0 fds host.net.world
      → Leaves
          (λ (q : Bool × HttpServer × Host W).
            Owned sys held w0 (holding q.1.listener_socket fds) q.2.net.world)
          (run sys json fuel rounds shutdown_fd server host)
  unfolding run
  run-Owned rounds server host h =
      let ready = init sys json fuel server host.net in
      let h1 = init-WithListener server host.net h in
      let start = record host { net = ready.2 } in
      elim (Option-cases ready.1.listener_socket.socket) [
        | inl e ↦
            if_true-Leaves _ (not ready.0) _ (ap not (init-closed server host.net e))
              (leaves (true, ready.1, start) h1)
        | inr (fd, e) ↦ if-Leaves _ (not ready.0) (leaves (true, ready.1, start) h1) (
            >>=-Leaves _ _
              (serve-Owned sys json fuel held w0 shutdown_fd (holding ready.1.listener_socket fds)
                (holding-tail ready.1.listener_socket has) ready.1 fd e
                (holding-head ready.1.listener_socket fd fds e) rounds start h1)
              (λ q k. leaves (q.0, ready.1, q.1) k))
      ]
