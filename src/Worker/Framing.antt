-- ===== src/Worker/Framing.antt =====
-- The guards of `HTTPWorker::run` on the version and on the length of a body.
use lspt_evaluation.Common.{
  ℕ, ◌%◌, ◌<◌, ◌≡◌, refl, sym, ◌⊎◌, inl, inr, Bool, true, false, not, [], ◌∷◌, Option, none, some,
  Bytes, text, equal, equal_iff, arith, ◌==◌, if◌then◌else◌, length, all, any, is_empty, drop_while,
  ok, subst,
}
use lspt_evaluation.Http.Delivery.{parse_request_text}
use lspt_evaluation.Http.Parser.{is_unknown}
use lspt_evaluation.Http.RoundTrip.{
  IsSendable, AreHeaders, received, delivered, parse_request-to_string,
}
use lspt_evaluation.Http.{
  Method, HttpRequest, get_header, set_header, json_request, json_headers, request_to_string,
}
use lspt_evaluation.Json.{JsonLibrary}
use lspt_evaluation.Socket.{TcpSocket}
use lspt_evaluation.Stream.{not_space, not_newline}
use lspt_evaluation.System.{System}
use lspt_evaluation.Text.Decimal.{is_digit, stoul, to_string}
use lspt_evaluation.Text.Decimal.RoundTrip.{to_string-digits, stoul-to_string}
use lspt_evaluation.Text.{is_space, uint_mod, ulong_mod}
use mathlib.Core.Option
use lspt_evaluation.Worker.{Host, respond, check_length, check_number, dispatch}

-- The version is HTTP/1.1, and a body comes with its length, which is read in 32 bits.
pub record IsFramed (r : HttpRequest) : Type 0 where
  pub version_is : r.version ≡ text "HTTP/1.1"
  pub length_is :
      (r.body ≡ [])
      ⊎ ((given : Bytes) × (n : ℕ) × (get_header (text "content-length") r.headers ≡ some given)
          × (stoul given ≡ some n)
          × (n % uint_mod ≡ length r.body))

digits-not_newline : (ds : Bytes) → all is_digit ds ≡ true → all not_newline ds ≡ true
digits-not_newline [] h = refl
digits-not_newline (c ∷ cs) h = ground (arith, digits-not_newline cs)

digits-start : (ds : Bytes) → all is_digit ds ≡ true → drop_while is_space ds ≡ ds
digits-start [] h = refl
digits-start (c ∷ cs) h = ground arith

json_headers-AreHeaders : (body : Bytes) → AreHeaders (json_headers body)
unfolding json_headers text
json_headers-AreHeaders body =
    let d = (to_string-digits (length body)).0 in
    (
      record { name_bytes = refl; value_bytes = refl; value_start = refl },
      (
        record {
          name_bytes = refl;
          value_bytes = digits-not_newline (to_string (length body)) d;
          value_start = digits-start (to_string (length body)) d;
        },
        record {},
      ),
    )

json_headers-two : (body : Bytes) → length (json_headers body) ≡ 2
unfolding json_headers
json_headers-two body = refl

json_headers-length :
    (body : Bytes)
    → get_header (text "content-length") (received [] (json_headers body))
      ≡ some (to_string (length body))
unfolding json_headers text get_header set_header equal
json_headers-length body = refl

uint_below_ulong : (n : ℕ) → n < uint_mod → (n < ulong_mod) × (n % uint_mod ≡ n)
uint_below_ulong n h = (omega arith, omega arith)

-- The request with this dumped body.
abbrev with_body : Method → Bytes → Bytes → HttpRequest
with_body m resource body = record {
  method = m;
  resource = resource;
  version = text "HTTP/1.1";
  headers = json_headers body;
  body = body;
}

with_body-IsSendable :
    (m : Method) (resource body : Bytes)
    → is_unknown m ≡ false
    → all not_space resource ≡ true
    → is_empty resource ≡ false
    → any not_space body ≡ true
    → IsSendable (with_body m resource body)
unfolding text
with_body-IsSendable m resource body known word ne visible = record {
  known = known;
  resource_word = word;
  resource_ne = ne;
  version_word = refl;
  version_ne = refl;
  headers_fit = json_headers-AreHeaders body;
  body_visible = inr visible;
}

with_body-IsFramed :
    (m : Method) (resource body : Bytes)
    → length body < uint_mod
    → IsFramed (delivered (with_body m resource body))
with_body-IsFramed m resource body short =
    let (below, same) = uint_below_ulong (length body) short in
    record {
      version_is = refl;
      length_is = inr (
        to_string (length body),
        length body,
        json_headers-length body,
        stoul-to_string (length body) below,
        same,
      );
    }

json_request-with_body :
    {J : Type 0} (json : JsonLibrary J) (m : Method) (resource : Bytes) (body : J) (r : HttpRequest)
    → json_request json m resource body ≡ some r
    → (d : Bytes) × (with_body m resource d ≡ r)
unfolding json_request
json_request-with_body json m resource body r made = go (json.dump body) made
  where
    go :
        (o : Option Bytes)
        → Option.map (with_body m resource) o ≡ some r
        → (d : Bytes) × (with_body m resource d ≡ r)
    go none k = absurd cc
    go (some d) k = (d, cc)

module _ {W J : Type 0} (sys : System W) (json : JsonLibrary J) (fuel : ℕ) where
  -- A request whose version is HTTP/1.1, and whose body is empty or comes with a content length
  -- that `stoul` reads as the length of the body modulo 2^32, passes the guards of `run` and
  -- reaches the handler of its resource.
  pub respond-IsFramed :
      (sock : TcpSocket) (r : HttpRequest) (host : Host W)
      → IsFramed r
      → respond sys json fuel sock (some r) host ≡ dispatch sys json fuel sock r host
  unfolding respond check_length check_number
  respond-IsFramed sock r host f =
      let v = (equal_iff r.version (text "HTTP/1.1")).1 f.version_is in
      elim f.length_is [
        | inl e ↦ rw (v, e) refl
        | inr (given, n, g, s, m) ↦
            let same : (n % uint_mod == length r.body) ≡ true = ground arith in
            rw v (guarded (is_empty r.body) v g s same)
      ]
    where
      guarded :
          {given : Bytes} {n : ℕ} (b : Bool)
          → equal r.version (text "HTTP/1.1") ≡ true
          → get_header (text "content-length") r.headers ≡ some given
          → stoul given ≡ some n
          → (n % uint_mod == length r.body) ≡ true
          → (if not b
              then check_length sys json fuel sock r
                  (get_header (text "content-length") r.headers)
                  host
              else dispatch sys json fuel sock r host)
            ≡ dispatch sys json fuel sock r host
      guarded true v g s m = refl
      guarded false v g s m = rw (g, s, m) refl

  -- A request that the constructor with a JSON body makes, with a known method, a word as its
  -- resource and a body that is not all white space and shorter than 2^32, is read back from its
  -- text, and then passes all guards of `run` and reaches the handler of its resource; the fuel is
  -- above 2.
  pub respond-json_request :
      (sock : TcpSocket) (host : Host W) (m : Method) (resource : Bytes) (body : J)
      (r : HttpRequest)
      → json_request json m resource body ≡ some r
      → is_unknown m ≡ false
      → all not_space resource ≡ true
      → is_empty resource ≡ false
      → any not_space r.body ≡ true
      → length r.body < uint_mod
      → 2 < fuel
      → (parse_request_text fuel (request_to_string r) ≡ ok (some (delivered r)))
        × (respond sys json fuel sock (some (delivered r)) host
            ≡ dispatch sys json fuel sock (delivered r) host)
  respond-json_request sock host m resource body r made known word ne visible short enough =
      let (d, q) = json_request-with_body json m resource body r made in
      subst Survives q (
        of_dumped d (subst (λ x. any not_space x.body ≡ true) (sym q) visible)
          (subst (λ x. length x.body < uint_mod) (sym q) short))
    where
      Survives : HttpRequest → Type 0
      Survives q =
          (parse_request_text fuel (request_to_string q) ≡ ok (some (delivered q)))
          × (respond sys json fuel sock (some (delivered q)) host
              ≡ dispatch sys json fuel sock (delivered q) host)

      of_dumped :
          (d : Bytes)
          → any not_space d ≡ true
          → length d < uint_mod
          → Survives (with_body m resource d)
      of_dumped d v l = (
        parse_request-to_string fuel (with_body m resource d)
            (with_body-IsSendable m resource d known word ne v)
            (subst (λ k. k < fuel) (sym (json_headers-two d)) enough),
        respond-IsFramed sock (delivered (with_body m resource d)) host
            (with_body-IsFramed m resource d l),
      )
