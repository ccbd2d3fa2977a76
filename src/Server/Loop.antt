-- ===== src/Server/Loop.antt =====
-- The loop of `HTTPServer::run` as a relation, and what ends it.
use lspt_evaluation.Common.{
  ℕ, zero, suc, ◌≡◌, refl, subst, ◌⊎◌, ◌≢◌, inl, inr, Bool, true, false, not, Option, none, some,
  if◌then◌else◌, Bool-cases, Outcome, ok, out_of_range, empty_back, json_error, no_fuel, ◌>>=◌,
}
use lspt_evaluation.Json.{JsonLibrary}
use lspt_evaluation.Server.{
  HttpServer, Round, shut_down, failed, next_round, round, on_events, serve_client, serve,
  after_round, has_pollin,
}
use lspt_evaluation.System.{System, Polled, poll_error, timed_out, events}
use lspt_evaluation.Worker.{Host}
use lspt_evaluation.Worker
use lspt_evaluation.Socket.{TcpSocket, closed, destroy}

module _ {W J : Type 0} (sys : System W) (json : JsonLibrary J) (fuel shutdown_fd : ℕ)
    (server : HttpServer) where
  -- The loop runs from a state to a result and a last state.
  pub data Serves : Host W → Bool → Host W → Type 0 where
    stops :
        {h h' : Host W}
        → round sys json fuel shutdown_fd server h ≡ ok (shut_down, h')
        → Serves h true h'
    fails :
        {h h' : Host W}
        → round sys json fuel shutdown_fd server h ≡ ok (failed, h')
        → Serves h false h'
    goes_on :
        {h h1 h' : Host W} {b : Bool}
        → round sys json fuel shutdown_fd server h ≡ ok (next_round, h1)
        → Serves h1 b h'
        → Serves h b h'

  serve_sound :
      (n : ℕ) (h h' : Host W) (b : Bool)
      → serve sys json fuel n shutdown_fd server h ≡ ok (b, h')
      → Serves h b h'
  unfolding serve
  serve_sound zero h h' b e = absurd cc
  serve_sound (suc n) h h' b e =
      go (λ h1 k. serve_sound n h1 h' b k) (round sys json fuel shutdown_fd server h) refl e
    where
      go :
          ((h1 : Host W)
            → serve sys json fuel n shutdown_fd server h1 ≡ ok (b, h')
            → Serves h1 b h')
          → (out : Outcome (Round × Host W)) → round sys json fuel shutdown_fd server h ≡ out
          → (out >>= after_round sys json fuel (serve sys json fuel n shutdown_fd server))
            ≡ ok (b, h')
          → Serves h b h'
      go again (ok (shut_down, h1)) r k =
          let p : true ≡ b = cc in
          let q : h1 ≡ h' = cc in
          subst (λ x. Serves h x h') p (subst (λ x. Serves h true x) q (stops r))
      go again (ok (failed, h1)) r k =
          let p : false ≡ b = cc in
          let q : h1 ≡ h' = cc in
          subst (λ x. Serves h x h') p (subst (λ x. Serves h false x) q (fails r))
      go again (ok (next_round, h1)) r k = goes_on r (again h1 k)
      go again out_of_range r k = absurd cc
      go again empty_back r k = absurd cc
      go again json_error r k = absurd cc
      go again no_fuel r k = absurd cc

  -- What `poll` answers in a state.
  abbrev pub polled : Host W → Polled
  polled h = (sys.poll (some shutdown_fd) server.listener_socket.socket h.net.world).0

  -- The state behind the call of `poll`, in which nothing else has changed.
  abbrev pub behind_poll : Host W → Host W
  behind_poll h = record h {
    net = record h.net {
      world = (sys.poll (some shutdown_fd) server.listener_socket.socket h.net.world).1;
    };
  }

  -- A round that ends the loop was ended by `poll` alone, and accepted nobody.
  pub data Ended : Host W → Round → Type 0 where
    by_shutdown :
        (h : Host W) (s l : ℕ)
        → polled h ≡ events s l
        → has_pollin s ≡ true
        → Ended (behind_poll h) shut_down
    by_error : (h : Host W) → polled h ≡ poll_error → Ended (behind_poll h) failed

  serve_client-goes_on :
      (c : Option TcpSocket) (h h' : Host W) (r : Round)
      → serve_client sys json fuel c h ≡ ok (r, h')
      → r ≡ next_round
  unfolding serve_client Worker.new_worker
  serve_client-goes_on none h h' r e = cc
  serve_client-goes_on (some c) h h' r e = go (Worker.run sys json fuel c h) e
    where
      go :
          (out : Outcome (TcpSocket × Host W))
          → ◌>>=◌ {B = Round × Host W} out (λ q.
            ok (next_round, record q.1 { net = destroy sys closed (destroy sys q.0 q.1.net) }))
            ≡ ok (r, h')
          → r ≡ next_round
      go (ok q) k = cc
      go out_of_range k = absurd cc
      go empty_back k = absurd cc
      go json_error k = absurd cc
      go no_fuel k = absurd cc

  round-Ended :
      (h h' : Host W) (r : Round)
      → round sys json fuel shutdown_fd server h ≡ ok (r, h')
      → (r ≡ next_round) ⊎ Ended h' r
  unfolding round on_events
  round-Ended h h' r e = go (polled h) refl e
    where
      ended :
          {r1 : Round} {h1 : Host W}
          → Ended h1 r1
          → ◌≡◌ {A = Outcome (Round × Host W)} (ok (r1, h1)) (ok (r, h'))
          → Ended h' r
      ended {r1} {h1} x k =
          let p : r1 ≡ r = cc in
          let q : h1 ≡ h' = cc in subst (λ y. Ended h' y) p (subst (λ y. Ended y r1) q x)

      on_listener :
          (b : Bool) (l : Outcome (Round × Host W))
          → (l ≡ ok (r, h') → r ≡ next_round)
          → (if not b then ok (next_round, behind_poll h) else l) ≡ ok (r, h')
          → r ≡ next_round
      on_listener true l f k = f k
      on_listener false l f k = cc

      go :
          (p : Polled)
          → polled h ≡ p
          → on_events sys json fuel server p (behind_poll h) ≡ ok (r, h')
          → (r ≡ next_round) ⊎ Ended h' r
      go poll_error q k = inr (ended (by_error h q) k)
      go timed_out q k = inl cc
      go (events s l) q k = elim (Bool-cases (has_pollin s)) [
        | inl e1 ↦ inr (ended (by_shutdown h s l q e1) (rw e1 at k))
        | inr e1 ↦
            let k1 = (rw e1 at k) in
            inl (on_listener (has_pollin l) _ (serve_client-goes_on _ _ h' r) k1)
      ]

  -- When the server's loop ends, its last state is right behind a call of `poll`: the result is
  -- true where that call reported input on the shutdown descriptor, and false where the call
  -- failed.
  pub serve-Ended :
      (n : ℕ) (h h' : Host W) (b : Bool)
      → serve sys json fuel n shutdown_fd server h ≡ ok (b, h')
      → Ended h' (if b then shut_down else failed)
  serve-Ended n h h' b e = go h h' b (serve_sound n h h' b e)
    where
      same : (r : Round) (x : Host W) → (r ≢ next_round) → (r ≡ next_round) ⊎ Ended x r → Ended x r
      same r x ne (inl e) = absurd (ne e)
      same r x ne (inr y) = y

      go : (h h' : Host W) (b : Bool) → Serves h b h' → Ended h' (if b then shut_down else failed)
      go h h' b (stops r) = same _ _ (λ e. absurd cc) (round-Ended h h' shut_down r)
      go h h' b (fails r) = same _ _ (λ e. absurd cc) (round-Ended h h' failed r)
      go h h' b (goes_on {h1} r more) = go h1 h' b more
