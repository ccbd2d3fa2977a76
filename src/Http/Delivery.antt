-- ===== src/Http/Delivery.antt =====
-- The parsers over a socket and over a text.
use lspt_evaluation.Common.{
  ℕ, ◌+◌, ◌<◌, ◌≡◌, refl, [], Option, some, Bytes, arith, length, Outcome, ok, ◌>>=◌,
}
use lspt_evaluation.Http.Parser.{parse_request, parse_response}
use lspt_evaluation.Http.{HttpRequest, HttpResponse}
use lspt_evaluation.Reader.Simulates.{
  Agrees, agree, out_of_range_both, empty_back_both, json_error_both, no_fuel_both,
  parse_request-Agrees, parse_response-Agrees,
}
use lspt_evaluation.Socket.{TcpSocket, Net}
use lspt_evaluation.Stream.Cursor.{start, text_reader}
use lspt_evaluation.Stream.Follows.{Delivers}
use lspt_evaluation.Stream.Place.{Follows}
use lspt_evaluation.Stream.Refine.{socket_reader-Simulates}
use lspt_evaluation.Stream.{open_stream, socket_reader}
use lspt_evaluation.System.{System}
use lspt_evaluation.Text.{uint_mod}

-- An outcome without the state that is left.
abbrev pub value : {A S : Type 0} → Outcome (A × S) → Outcome A
value out = do r ← out; ok r.0

-- The parsers over a text as a whole.
unfoldable pub parse_request_text : ℕ → Bytes → Outcome (Option HttpRequest)
unfolding parse_request start text_reader
parse_request_text fuel t = value (parse_request text_reader fuel (start t))

unfoldable pub parse_response_text : ℕ → Bytes → Outcome (Option HttpResponse)
unfolding parse_response start text_reader
parse_response_text fuel t = value (parse_response text_reader fuel (start t))

Agrees-value :
    {S C A : Type 0} {R : S → C → Type 0} {m : Outcome (A × S)} {n : Outcome (A × C)}
    → Agrees R m n
    → value m ≡ value n
Agrees-value (agree r) = refl
Agrees-value out_of_range_both = refl
Agrees-value empty_back_both = refl
Agrees-value json_error_both = refl
Agrees-value no_fuel_both = refl

module _ {W : Type 0} (sys : System W) (sock : TcpSocket) (fd : ℕ) (opened : sock.socket ≡ some fd)
    (d : Delivers sys fd) (fuel : ℕ) (net : Net W)
    (fits : length (d.incoming net.world) + 1 < uint_mod)
    (fuelled : length (d.incoming net.world) < fuel) where
  pub start-Follows :
      Follows sys sock fd opened d fuel (open_stream net) (start (d.incoming net.world))
  unfolding open_stream start
  start-Follows = record {
    near = record { more = []; buffer_is = refl; ahead_is = refl };
    pos_is = omega arith;
    past_end = λ e. absurd (cc);
    fits = omega (arith, fits);
    fuelled = fuelled;
  }

  -- `parseRequest` over an open socket, whose peer sends a finite text shorter than 2^32 - 1
  -- bytes, gives what it gives over that text as a whole, in whatever pieces `recv` hands the text
  -- over, where the fuel is above the length of the text.
  pub parse_request-incoming :
      value (parse_request (socket_reader sys sock fuel) fuel (open_stream net))
      ≡ parse_request_text fuel (d.incoming net.world)
  unfolding parse_request_text
  parse_request-incoming = Agrees-value (
      parse_request-Agrees _ _ _ (socket_reader-Simulates sys sock fd opened d fuel) fuel _ _
        start-Follows)

  -- `parseResponse` over an open socket, whose peer sends a finite text shorter than 2^32 - 1
  -- bytes, gives what it gives over that text as a whole, in whatever pieces `recv` hands the text
  -- over, where the fuel is above the length of the text.
  pub parse_response-incoming :
      value (parse_response (socket_reader sys sock fuel) fuel (open_stream net))
      ≡ parse_response_text fuel (d.incoming net.world)
  unfolding parse_response_text
  parse_response-incoming = Agrees-value (
      parse_response-Agrees _ _ _ (socket_reader-Simulates sys sock fd opened d fuel) fuel _ _
        start-Follows)
