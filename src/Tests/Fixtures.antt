-- ===== src/Tests/Fixtures.antt =====
-- A system with one peer, whose text comes in pieces, and a JSON library over plain texts.
use lspt_evaluation.Common.{
  ℕ, ◌≤◌, ◌<◌, ◌≡◌, refl, true, [], ◌∷◌, ◌++◌, List, Option, none, some, Bytes, text, arith, ltb,
  if◌then◌else◌, length, take, is_empty,
}
use lspt_evaluation.Http.{HttpRequest, post}
use lspt_evaluation.Json.{JsonLibrary}
use lspt_evaluation.Socket.Sending.{Takes}
use lspt_evaluation.Socket.{TcpSocket, Net, of_fd}
use lspt_evaluation.Stream.Follows.{Delivers, bytes_of}
use lspt_evaluation.System.{System, address, entry, events}
use lspt_evaluation.Text.Decimal
use lspt_evaluation.Worker.{Host}

-- The pieces that are yet to come, and what was sent.
abbrev pub World : Type 0
World = List Bytes × Bytes

abbrev receive : World → Option Bytes × World
receive ([], sent) = (none, ([], sent))
receive (b ∷ bs, sent) = (some b, (bs, sent))

-- At most four bytes of a message are taken at once.
abbrev taken : Bytes → ℕ
taken b = if ltb (length b) 4 then length b else 4

abbrev transmit : Bytes → World → Option ℕ × World
transmit b (inbox, sent) = (some (taken b), (inbox, sent ++ take (taken b) b))

-- Descriptor 3 is the listener, and 5 the peer. Input on the shutdown pipe comes at once.
abbrev pub the_system : System World
the_system = record {
  socket = λ w. (some 3, w);
  close = λ fd w. (true, w);
  send = λ fd b w. transmit b w;
  recv = λ fd n w. receive w;
  reuse_address = λ fd w. (true, w);
  setsockopt = λ fd o s u w. (true, w);
  getsockname = λ fd w. (some 8080, w);
  bind = λ fd p w. (true, w);
  listen = λ fd b w. (true, w);
  accept = λ fd w. (some 5, w);
  inet_pton = λ ip. address 0;
  connect = λ fd a p w. (true, w);
  getaddrinfo = λ d p w. (entry (text "127.0.0.1"), w);
  poll = λ a b w. (events 1 0, w);
}

-- The same system out of descriptors.
abbrev pub full_system : System World
full_system = record the_system { socket = λ w. (none, w) }

abbrev arriving : List Bytes → Bytes
arriving [] = []
arriving (b ∷ bs) = if is_empty b then [] else b ++ arriving bs

abbrev pub delivers : Delivers the_system 5
delivers = record { incoming = λ w. arriving w.0; unfolds = unfolds_at }
  where
    unfolds_at :
        (w : World)
        → arriving w.0
          ≡ bytes_of (receive w).0
            ++ (if is_empty (bytes_of (receive w).0) then [] else arriving (receive w).1.0)
    unfolds_at ([], sent) = refl
    unfolds_at ([] ∷ bs, sent) = refl
    unfolds_at ((x ∷ b) ∷ bs, sent) = refl

abbrev pub takes : Takes the_system 5
takes = record {
  wire = λ w. w.1;
  taken = λ b w n e. of_taken b w n (some_inj e);
  refused = λ b w e. absurd (no_none e);
}
  where
    some_inj : {i j : ℕ} → some i ≡ some j → i ≡ j
    some_inj e = cc

    no_none : {i : ℕ} → some i ≡ none → ⊥
    no_none e = absurd cc

    bounds : (m : ℕ) → ((if ltb m 4 then m else 4) ≤ m) × (0 < m → 0 < (if ltb m 4 then m else 4))
    bounds m = ground arith

    of_taken :
        (b : Bytes) (w : World) (n : ℕ)
        → taken b ≡ n
        → (n ≤ length b) × (w.1 ++ take (taken b) b ≡ w.1 ++ take n b) × (0 < length b → 0 < n)
    of_taken b w n e =
        let (le, some_taken) = bounds (length b) in
        (rw e at le, rw e refl, λ h. rw e at (some_taken h))

abbrev pub peer : TcpSocket
peer = of_fd 5

abbrev pub plain_json : JsonLibrary Bytes
plain_json = record {
  string = λ b. b;
  number = Decimal.to_string;
  array = λ js. text "[]";
  object = λ js. text "{}";
  dump = λ b. some b;
  dump_indented = λ n b. some b;
  parse = λ b. some b;
  at_key = λ k j. none;
  at_index = λ i j. none;
  get_unsigned = λ j. none;
  get_string = λ j. some j;
}

-- A request in two pieces.
abbrev pub two_pieces : Net World
two_pieces = record {
  ports_in_use = 8080 ∷ [];
  world = (text "GET /v0/GetQ" ∷ (text "ueryID HTTP/1.1" ++ (13 ∷ 10 ∷ 13 ∷ 10 ∷ [])) ∷ [], []);
}

abbrev pub the_host : Host World
the_host = record { net = two_pieces; query_id = 0 }

abbrev pub a_request : HttpRequest
a_request = record {
  method = post;
  resource = text "/v0/SubmitFeedback";
  version = text "HTTP/1.1";
  headers = (text "Content-Length", text "2") ∷ (text "Host", text "here") ∷ [];
  body = text "{}";
}
