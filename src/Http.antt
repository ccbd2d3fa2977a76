-- ===== src/Http.antt =====
-- Requests, responses and their text: HTTPRequest and HTTPResponse of
-- Code/evaluation/src/HTTPServer.h and HTTPServer.cpp.
pub mod Delivery
pub mod Ends
pub mod Parser
pub mod Reply
pub mod ReplyEnds
pub mod RoundTrip
use lspt_evaluation.Common.{
  ℕ, Bool, true, false, ◌||◌, List, [], ◌∷◌, ◌++◌, Option, none, some, Bytes, text, equal,
  if◌then◌else◌, length,
}
use lspt_evaluation.Json.{JsonLibrary}
use lspt_evaluation.Text.Decimal
use mathlib.Core.Option

pub data Method : Type 0 where
  get head post put delete connect options trace patch unknown : Method

unfoldable pub method_to_string : Method → Bytes
unfolding text
method_to_string get = text "GET"
method_to_string head = text "HEAD"
method_to_string post = text "POST"
method_to_string put = text "PUT"
method_to_string delete = text "DELETE"
method_to_string connect = text "CONNECT"
method_to_string options = text "OPTIONS"
method_to_string trace = text "TRACE"
method_to_string patch = text "PATCH"
method_to_string unknown = text "<UNKNOWN>"

unfoldable pub string_to_method : Bytes → Method
unfolding text equal
string_to_method str =
    if equal str (text "GET")
    then get
    else if equal str (text "HEAD")
    then head
    else if equal str (text "POST")
    then post
    else if equal str (text "PUT")
    then put
    else if equal str (text "DELETE")
    then delete
    else if equal str (text "CONNECT")
    then connect
    else if equal str (text "OPTIONS")
    then options
    else if equal str (text "TRACE")
    then trace
    else if equal str (text "PATCH")
    then patch
    else unknown

-- An `unordered_map` of strings: its entries in the order in which a loop over it meets them. A new
-- entry may come anywhere in that order; here it comes last.
abbrev pub Headers : Type 0
Headers = List (Bytes × Bytes)

-- `headers[k] = v`.
unfoldable pub set_header : Bytes → Bytes → Headers → Headers
set_header k v [] = (k, v) ∷ []
set_header k v ((j, w) ∷ hs) = if equal j k then (j, v) ∷ hs else (j, w) ∷ set_header k v hs

-- `contains(k)` with `at(k)`.
unfoldable pub get_header : Bytes → Headers → Option Bytes
get_header k [] = none
get_header k ((j, w) ∷ hs) = if equal j k then some w else get_header k hs

pub record HttpRequest : Type 0 where
  pub method : Method
  pub resource : Bytes
  pub version : Bytes
  pub headers : Headers
  pub body : Bytes

pub record HttpResponse : Type 0 where
  pub version : Bytes
  pub code : ℕ
  pub status : Bytes
  pub headers : Headers
  pub body : Bytes

-- The headers of a JSON body.
unfoldable pub json_headers : Bytes → Headers
json_headers body =
    (text "Content-Type", text "application/json")
    ∷ (text "Content-Length", Decimal.to_string (length body))
    ∷ []

-- The constructors without a body.
unfoldable pub request : Method → Bytes → HttpRequest
request method resource = record {
  method = method;
  resource = resource;
  version = text "HTTP/1.1";
  headers = [];
  body = [];
}

unfoldable pub response : ℕ → Bytes → HttpResponse
response code status = record {
  version = text "HTTP/1.1";
  code = code;
  status = status;
  headers = [];
  body = [];
}

-- The constructors with a JSON body, which `dump` may refuse.
module _ {J : Type 0} (json : JsonLibrary J) where
  unfoldable pub json_request : Method → Bytes → J → Option HttpRequest
  unfolding json_headers
  json_request method resource body =
      Option.map
        (λ dumped. record {
          method = method;
          resource = resource;
          version = text "HTTP/1.1";
          headers = json_headers dumped;
          body = dumped;
        })
        (json.dump body)

  unfoldable pub json_response : ℕ → Bytes → J → Option HttpResponse
  unfolding json_headers
  json_response code status body =
      Option.map
        (λ dumped. record {
          version = text "HTTP/1.1";
          code = code;
          status = status;
          headers = json_headers dumped;
          body = dumped;
        })
        (json.dump_indented 2 body)

  unfoldable pub make_error_response : ℕ → Bytes → Bytes → Option HttpResponse
  make_error_response code status msg =
      json_response code status
        (json.object ((text "error", json.string status) ∷ (text "message", json.string msg) ∷ []))

abbrev pub crlf : Bytes → Bytes
crlf rest = 13 ∷ 10 ∷ rest

-- The header lines, the blank line and the body.
unfoldable pub header_lines : Headers → Bytes → Bytes
header_lines [] body = crlf body
header_lines ((header, value) ∷ hs) body =
    header ++ (b':' ∷ b' ' ∷ (value ++ crlf (header_lines hs body)))

unfoldable pub request_to_string : HttpRequest → Bytes
unfolding header_lines
request_to_string r =
    method_to_string r.method
    ++ (b' ' ∷ (r.resource ++ (b' ' ∷ (r.version ++ crlf (header_lines r.headers r.body)))))

unfoldable pub response_to_string : HttpResponse → Bytes
unfolding header_lines
response_to_string r =
    r.version
    ++ (b' '
        ∷ (Decimal.to_string r.code ++ (b' ' ∷ (r.status ++ crlf (header_lines r.headers r.body)))))
