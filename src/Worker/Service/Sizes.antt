-- ===== src/Worker/Service/Sizes.antt =====
-- How long the texts of responses and requests are, by the length of their parts.
use lspt_evaluation.Common.{
  ℕ, zero, suc, ◌+◌, ◌*◌, ◌/◌, ◌%◌, ◌≤◌, ◌<◌, ◌≡◌, refl, ap, ◌⊎◌, Bool-cases, inl, inr, [], ◌∷◌,
  ◌++◌, Option, none, some, Bytes, text, arith, ltb, length, length-append,
}
use lspt_evaluation.Http.{
  HttpResponse, json_headers, json_response, response, header_lines, crlf, response_to_string,
}
use lspt_evaluation.Json.{JsonLibrary}
use lspt_evaluation.Text.Decimal.{digits_onto, to_string}
use mathlib.Core.Option

length-digits_onto :
    (f n : ℕ) (acc : Bytes) → n < f → length (digits_onto f n acc) ≤ suc n + length acc
unfolding digits_onto
length-digits_onto zero n acc h = elim h [ ]
length-digits_onto (suc f) n acc h = elim (Bool-cases (ltb n 10)) [
  | inl small ↦ rw small (omega arith)
  | inr large ↦
      let more : 10 ≤ n = ground arith in
      let below : n / 10 < f = omega arith in
      let rest = length-digits_onto f (n / 10) ((b'0' + n % 10) ∷ acc) below in
      rw large (omega (arith, rest))
]

pub length-to_string : (n : ℕ) → length (to_string n) ≤ suc n
unfolding to_string
length-to_string n = omega (arith, length-digits_onto (suc n) n [] (omega arith))

header_lines-json :
    (body : Bytes) → length (header_lines (json_headers body) body) ≤ 100 + 2 * length body
unfolding header_lines json_headers text
header_lines-json body =
    let d = length-to_string (length body) in
    let a = length-append (to_string (length body)) (crlf (crlf body)) in omega (arith, d, a)

pub length-response :
    (r : HttpResponse)
    → r.version ≡ text "HTTP/1.1"
    → length (response_to_string r)
      ≤ 20 + (r.code + (length r.status + length (header_lines r.headers r.body)))
unfolding response_to_string text
length-response r e =
    let tail = header_lines r.headers r.body in
    let d = length-to_string r.code in
    let a =
      length-append r.version (b' ' ∷ (to_string r.code ++ (b' ' ∷ (r.status ++ crlf tail)))) in
    let b = length-append (to_string r.code) (b' ' ∷ (r.status ++ crlf tail)) in
    let c = length-append r.status (crlf tail) in
    let v : length r.version ≡ 8 = ap length e in omega (arith, d, a, b, c, v)

-- What is made of a dumped body.
abbrev pub dumped_response : ℕ → Bytes → Bytes → HttpResponse
dumped_response code status d = record {
  version = text "HTTP/1.1";
  code = code;
  status = status;
  headers = json_headers d;
  body = d;
}

pub json_response-dumped :
    {J : Type 0} (json : JsonLibrary J) (code : ℕ) (status : Bytes) (body : J)
    → ((json.dump_indented 2 body ≡ none) × (json_response json code status body ≡ none))
      ⊎ ((d : Bytes) × (json.dump_indented 2 body ≡ some d)
          × (json_response json code status body ≡ some (dumped_response code status d))
          × (length (response_to_string (dumped_response code status d))
              ≤ 120 + (code + (length status + 2 * length d))))
unfolding json_response
json_response-dumped json code status body = go (json.dump_indented 2 body) refl
  where
    go :
        (o : Option Bytes)
        → json.dump_indented 2 body ≡ o
        → ((json.dump_indented 2 body ≡ none)
            × (Option.map (dumped_response code status) (json.dump_indented 2 body) ≡ none))
          ⊎ ((d : Bytes) × (json.dump_indented 2 body ≡ some d)
              × (Option.map (dumped_response code status) (json.dump_indented 2 body)
                  ≡ some (dumped_response code status d))
              × (length (response_to_string (dumped_response code status d))
                  ≤ 120 + (code + (length status + 2 * length d))))
    go none e = inl (e, ap (Option.map (dumped_response code status)) e)
    go (some d) e = inr (
      d,
      e,
      ap (Option.map (dumped_response code status)) e,
      omega (arith, length-response (dumped_response code status d) refl, header_lines-json d),
    )

pub length-plain_response :
    (code : ℕ) (status : Bytes)
    → length (response_to_string (response code status)) ≤ 30 + (code + length status)
unfolding response header_lines
length-plain_response code status = omega (arith, length-response (response code status) refl)
