-- ===== src/Worker/Service/Limits.antt =====
-- What is assumed of the size of a request and of the texts that the JSON library makes, and how
-- a response goes out.
use lspt_evaluation.Common.{
  ℕ, ◌+◌, ◌*◌, ◌≤◌, ◌<◌, ◌≡◌, ◌∷◌, [], ◌++◌, ◌⊎◌, Option, none, some, Bytes, text, length, take,
}
use lspt_evaluation.Http.{HttpResponse, response_to_string}
use lspt_evaluation.Json.{JsonLibrary}
use lspt_evaluation.Socket.Peer.{Peer, Holds}
use lspt_evaluation.Socket.Peer.Sends.{GoesOut}
use lspt_evaluation.System.{System}
use lspt_evaluation.Text.{uint_mod}
use lspt_evaluation.Worker.Click.{clicked_link}
use lspt_evaluation.Worker.{Host}

-- How long the texts of the library are: those of this program's answers, with at most `room` bytes
-- beside the strings in them, and six bytes for an escaped one; and a string that was read is no
-- longer than the text it stood in.
pub record ShortDumps {J : Type 0} (json : JsonLibrary J) (room : ℕ) : Type 0 where
  pub error :
      (status msg b : Bytes)
      → json.dump_indented 2 (
          json.object ((text "error", json.string status) ∷ (text "message", json.string msg) ∷ []))
        ≡ some b
      → length b ≤ room + 6 * (length status + length msg)
  pub suggestions :
      (b : Bytes)
      → json.dump_indented 2 (
          json.object (
            (
              text "suggestions",
              json.array (
                  json.string (text "Why is RPI so cool?")
                  ∷ json.string (text "I love RPI")
                  ∷ json.string (text "Best Food Near RPI")
                  ∷ []),
            )
            ∷ []))
        ≡ some b
      → length b ≤ room
  pub query_id :
      (n : ℕ) (b : Bytes)
      → n < uint_mod
      → json.dump_indented 2 (json.object ((text "query_ID", json.number n) ∷ [])) ≡ some b
      → length b ≤ room
  pub queries :
      (b : Bytes)
      → json.dump_indented 2 (json.object ((text "queries", json.array []) ∷ [])) ≡ some b
      → length b ≤ room
  pub link :
      (link b : Bytes)
      → json.dump (
          json.object (
            (text "list_of_clicked_links", json.array (json.string link ∷ []))
            ∷ (text "click_count", json.array (json.number 1 ∷ []))
            ∷ []))
        ≡ some b
      → length b ≤ room + 6 * length link
  pub clicked : (body link : Bytes) → clicked_link json body ≡ some link → length link ≤ length body

-- The library refuses to dump some value.
abbrev pub Refuses : {J : Type 0} → JsonLibrary J → Type 0
Refuses {J} json = (j : J) × ((json.dump j ≡ none) ⊎ (json.dump_indented 2 j ≡ none))

-- Enough for every message over a request of `size` bytes.
abbrev pub message_room : ℕ → ℕ → ℕ
message_room room size = 4000 + 2 * room + 24 * size

-- The codes of this server's responses.
pub data IsCode : ℕ → Type 0 where
  is_ok : IsCode 200
  is_bad_request : IsCode 400
  is_not_found : IsCode 404
  is_method_not_allowed : IsCode 405
  is_length_required : IsCode 411
  is_version_not_supported : IsCode 505

-- The peer's connection is open, and behind `sent` there is this response on its wire and nothing
-- else: the whole of it, or a front where the system refused to take the rest.
abbrev pub Answered :
    {W : Type 0} (sys : System W) (fd : ℕ) (p : Peer sys fd)
    → Bytes
    → Option HttpResponse
    → Host W
    → Type 0
Answered sys fd p sent o host =
    (r : HttpResponse) × (o ≡ some r)
    × (k : ℕ) × GoesOut sys fd (p.links fd) sent (response_to_string r) k
    × Holds sys fd p (sent ++ take k (response_to_string r)) host.net.world
