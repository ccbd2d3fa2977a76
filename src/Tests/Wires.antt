-- ===== src/Tests/Wires.antt =====
-- A system of one client and other peers, with what was sent to each, and what is assumed of it.
use lspt_evaluation.Common.{
  ℕ, ◌≤◌, ◌<◌, ◌≡◌, ◌≢◌, refl, sym, ap, ◌∙◌, true, false, inl, inr, [], ◌∷◌, ◌++◌, List, Option,
  none, some, Bytes, text, arith, ◌==◌, if◌then◌else◌, length, take, take-length, is_empty,
  Bool-cases,
}
use lspt_evaluation.Common.Int.{pos}
use lspt_evaluation.Json.{JsonLibrary}
use lspt_evaluation.Server.{HttpServer}
use lspt_evaluation.Socket.Peer.{Peer}
use lspt_evaluation.Socket.Sending.{Takes}
use lspt_evaluation.Socket.{of_fd}
use lspt_evaluation.Stream.Follows.{Delivers, bytes_of}
use lspt_evaluation.System.{System, address, entry, events}
use lspt_evaluation.Tests.Fixtures.{plain_json}
use lspt_evaluation.Text.{uint_mod}
use lspt_evaluation.Worker.Click.{clicked_link}
use lspt_evaluation.Worker.Service.Limits.{ShortDumps, message_room}
use lspt_evaluation.Worker.{Host}

-- What is yet to come, and what was sent to the client and to all others.
pub record Wires : Type 0 where
  pub inbox : List Bytes
  pub to_peer : Bytes
  pub to_others : Bytes

abbrev pub arrive : Wires → Option Bytes × Wires
arrive w = elim w.inbox [ [] ↦ (none, w) | (b ∷ bs) ↦ (some b, record w { inbox = bs }) ]

-- The whole message goes out at once.
abbrev pub put : ℕ → Bytes → Wires → Wires
put fd b w =
    if fd == 5
    then record w { to_peer = w.to_peer ++ b }
    else record w { to_others = w.to_others ++ b }

abbrev pub wires : System Wires
wires = record {
  socket = λ w. (some 7, w);
  close = λ fd w. (true, w);
  send = λ fd b w. (some (length b), put fd b w);
  recv = λ fd n w. arrive w;
  reuse_address = λ fd w. (true, w);
  setsockopt = λ fd o s u w. (true, w);
  getsockname = λ fd w. (some 8080, w);
  bind = λ fd q w. (true, w);
  listen = λ fd b w. (true, w);
  accept = λ fd w. (some 5, w);
  inet_pton = λ ip. address 0;
  connect = λ fd a q w. (true, w);
  getaddrinfo = λ d q w. (entry (text "127.0.0.1"), w);
  poll = λ a b w. (events 0 1, w);
}

abbrev pub wire_of : ℕ → Wires → Bytes
wire_of fd w = if fd == 5 then w.to_peer else w.to_others

pub wire_of-put : (fd : ℕ) (b : Bytes) (w : Wires) → wire_of fd (put fd b w) ≡ wire_of fd w ++ b
wire_of-put fd b w = elim (Bool-cases (fd == 5)) [ inl e ↦ rw e refl | inr e ↦ rw e refl ]

abbrev pub wires_take : (fd : ℕ) → Takes wires fd
wires_take fd = record {
  wire = wire_of fd;
  taken = λ b w n e. taken_at b w n (some_inj e);
  refused = λ b w e. absurd (not_none e);
}
  where
    some_inj : {i j : ℕ} → some i ≡ some j → i ≡ j
    some_inj e = cc

    not_none : {i : ℕ} → some i ≡ none → ⊥
    not_none e = absurd cc

    taken_at :
        (b : Bytes) (w : Wires) (n : ℕ)
        → length b ≡ n
        → (n ≤ length b)
          × (wire_of fd (put fd b w) ≡ wire_of fd w ++ take n b)
          × (0 < length b → 0 < n)
    taken_at b w n e = (
      omega arith,
      wire_of-put fd b w
          ∙ ap (◌++◌ (wire_of fd w)) (sym (ap (λ (m : ℕ). take m b) (sym e) ∙ take-length b)),
      λ h. omega arith,
    )

abbrev pub peer_of_wires : Peer wires 5
peer_of_wires = record {
  IsOpen = λ w. Unit {0};
  links = wires_take;
  fresh = λ w h e. not_five e;
  own_send = λ b w h. tt;
  other_send = λ fd b w ne. (kept fd b w ne, λ h. tt);
  other_close = λ fd w ne. (refl, λ h. tt);
  own_close = λ w. refl;
  on_socket = λ w. (refl, λ h. tt);
  on_recv = λ fd n w. (arrived w, λ h. tt);
  on_reuse_address = λ fd w. (refl, λ h. tt);
  on_setsockopt = λ fd o s u w. (refl, λ h. tt);
  on_getsockname = λ fd w. (refl, λ h. tt);
  on_connect = λ fd a q w. (refl, λ h. tt);
  on_getaddrinfo = λ d q w. (refl, λ h. tt);
}
  where
    not_five : ◌≡◌ {A = Option ℕ} (some 7) (some 5) → ⊥
    not_five e = absurd (let q : ◌≡◌ {A = ℕ} 7 5 = cc in omega arith)

    kept : (fd : ℕ) (b : Bytes) (w : Wires) → fd ≢ 5 → (put fd b w).to_peer ≡ w.to_peer
    kept fd b w ne = let e : (fd == 5) ≡ false = ground arith in rw e refl

    arrived : (w : Wires) → (arrive w).1.to_peer ≡ w.to_peer
    arrived w = from w.inbox
      where
        from :
            (bs : List Bytes)
            → (elim bs as (λ x. Option Bytes × Wires) [
              | [] ↦ (none, w)
              | (c ∷ cs) ↦ (some c, record w { inbox = cs })
            ]).1.to_peer
              ≡ w.to_peer
        from [] = refl
        from (c ∷ cs) = refl

abbrev pub all_of : List Bytes → Bytes
all_of [] = []
all_of (b ∷ bs) = if is_empty b then [] else b ++ all_of bs

abbrev pub delivers_wires : Delivers wires 5
delivers_wires = record { incoming = λ w. all_of w.inbox; unfolds = λ w. at w w.inbox refl }
  where
    at :
        (w : Wires) (bs : List Bytes)
        → w.inbox ≡ bs
        → all_of w.inbox
          ≡ bytes_of (arrive w).0
            ++ (if is_empty (bytes_of (arrive w).0) then [] else all_of (arrive w).1.inbox)
    at w [] e = rw e refl
    at w ([] ∷ bs) e = rw e refl
    at w ((x ∷ b) ∷ bs) e = rw e refl

-- A library that finds the link in every body.
abbrev pub link_json : JsonLibrary Bytes
link_json = record plain_json {
  at_key = λ k j. some j;
  at_index = λ i j. some j;
  get_unsigned = λ j. some 0;
}

pub short_dumps : ShortDumps link_json 10
unfolding text clicked_link
short_dumps = record {
  error = λ status msg b e. omega (arith, braces b e);
  suggestions = λ b e. omega (arith, braces b e);
  query_id = λ n b h e. omega (arith, braces b e);
  queries = λ b e. omega (arith, braces b e);
  link = λ link b e. omega (arith, braces b e);
  clicked = λ body link e. of_body body link e;
}
  where
    braces : (b : Bytes) → ◌≡◌ {A = Option Bytes} (some (text "{}")) (some b) → length b ≡ 2
    braces b e = let q : text "{}" ≡ b = cc in sym (ap length q)

    of_body :
        (body link : Bytes)
        → ◌≡◌ {A = Option Bytes} (some body) (some link)
        → length link ≤ length body
    of_body body link e = let q : body ≡ link = cc in omega (arith, ap length q)

-- The room for a text of 200 bytes.
pub room_fits : message_room 10 200 < uint_mod
room_fits = omega arith

pub room_fuelled : message_room 10 200 < 9000
room_fuelled = omega arith

-- A click in two pieces.
abbrev pub clicking : Host Wires
clicking = record {
  net = record {
    ports_in_use = 8080 ∷ [];
    world = record {
      inbox =
          (text "POST /v0/ReportSearchResults HTTP/1.1"
            ++ (13
                ∷ 10
                ∷ (text "Content-Type: application/json"
                    ++ (13 ∷ 10 ∷ (text "Content-Length: 4" ++ 13 ∷ 10 ∷ 13 ∷ 10 ∷ [])))))
          ∷ text "link"
          ∷ [];
      to_peer = text "before";
      to_others = [];
    };
  };
  query_id = 0;
}

abbrev pub listening : HttpServer
listening = record { listener_port = 8080; backlog_size = pos 10; listener_socket = of_fd 3 }
