-- ===== src/Worker/Refusal.antt =====
-- The answers of `HTTPWorker::run` to a request that its guards refuse.
use lspt_evaluation.Common.{
  ℕ, ◌%◌, ◌≡◌, ◌≢◌, refl, ap, ◌⊎◌, inl, inr, true, false, not, [], ◌∷◌, Option, none, some, Bytes,
  text, equal, equal_iff, arith, ◌==◌, length, is_empty, Outcome, Bool-cases, if_true,
}
use lspt_evaluation.Http.{HttpRequest, get_header}
use lspt_evaluation.Json.{JsonLibrary}
use lspt_evaluation.Socket.{TcpSocket}
use lspt_evaluation.System.{System}
use lspt_evaluation.Text.Decimal.{stoul}
use lspt_evaluation.Text.{uint_mod}
use lspt_evaluation.Worker.Framing.{IsFramed}
use lspt_evaluation.Worker.{Host, respond, check_length, check_number, only_host, send_error}

-- Why a request is refused, and with which code.
pub data Refusal (r : HttpRequest) : ℕ → Type 0 where
  wrong_version : r.version ≢ text "HTTP/1.1" → Refusal r 505
  no_length : r.body ≢ [] → get_header (text "content-length") r.headers ≡ none → Refusal r 411
  no_number :
      (given : Bytes)
      → get_header (text "content-length") r.headers ≡ some given
      → stoul given ≡ none
      → Refusal r 400
  wrong_length :
      (given : Bytes) (n : ℕ)
      → get_header (text "content-length") r.headers ≡ some given
      → stoul given ≡ some n
      → n % uint_mod ≢ length r.body
      → Refusal r 400

empty_is : (b : Bytes) → is_empty b ≡ true → b ≡ []
empty_is [] h = refl
empty_is (x ∷ b) h = absurd cc

empty_not : (b : Bytes) → is_empty b ≡ false → b ≢ []
empty_not [] h e = absurd cc
empty_not (x ∷ b) h e = absurd cc

differ_not : (a b : ℕ) → (a == b) ≡ false → a ≢ b
differ_not a b e q = ground arith

module _ {W J : Type 0} (sys : System W) (json : JsonLibrary J) (fuel : ℕ) (sock : TcpSocket)
    (r : HttpRequest) (host : Host W) where
  -- The call sends this error, and no more.
  abbrev pub Refuses : Outcome (Host W) → Type 0
  Refuses out =
      (code : ℕ) × (status : Bytes) × (msg : Bytes) × Refusal r code
      × (out ≡ only_host sys json fuel (send_error sys json fuel sock code status msg host))

  check_length-Refuses :
      (given : Option Bytes)
      → get_header (text "content-length") r.headers ≡ given
      → r.version ≡ text "HTTP/1.1"
      → r.body ≢ []
      → IsFramed r ⊎ Refuses (check_length sys json fuel sock r given host)
  unfolding check_length
  check_length-Refuses none g v b = inr (411, _, _, no_length b g, refl)
  check_length-Refuses (some given) g v b = number (stoul given) refl
    where
      number :
          (n : Option ℕ)
          → stoul given ≡ n
          → IsFramed r ⊎ Refuses (check_number sys json fuel sock r given n host)
      number none s = unfold check_number in inr (400, _, _, no_number given g s, refl)
      number (some n) s = elim (Bool-cases (n % uint_mod == length r.body)) [
        | inl e ↦
            let same : n % uint_mod ≡ length r.body = ground arith in
            inl (record { version_is = v; length_is = inr (given, n, g, s, same) })
        | inr e ↦ inr (
          400,
          _,
          _,
          wrong_length given n g s (differ_not (n % uint_mod) (length r.body) e),
          (unfold check_number in if_true (not (n % uint_mod == length r.body)) _ _ (ap not e)),
        )
      ]

  -- A request is framed (HTTP/1.1, and an empty body or one with its length), or it is refused
  -- with an error response and nothing else is done: 505 only for another version, 411 only for a
  -- body without a content length, 400 only for a length that is no number or not the body's
  -- modulo 2^32.
  pub respond-Refuses : IsFramed r ⊎ Refuses (respond sys json fuel sock (some r) host)
  unfolding respond
  respond-Refuses = elim (Bool-cases (equal r.version (text "HTTP/1.1"))) [
    | inl v ↦
        let version_is = (equal_iff r.version (text "HTTP/1.1")).0 v in
        elim (Bool-cases (is_empty r.body)) [
          | inl b ↦ inl (record { version_is = version_is; length_is = inl (empty_is r.body b) })
          | inr b ↦ rw (v, b) (check_length-Refuses _ refl version_is (empty_not r.body b))
        ]
    | inr v ↦
        let other : r.version ≢ text "HTTP/1.1" =
          λ e. (let t = (equal_iff r.version (text "HTTP/1.1")).1 e in absurd cc) in
        inr (
          505,
          _,
          _,
          wrong_version other,
          if_true (not (equal r.version (text "HTTP/1.1"))) _ _ (ap not v),
        )
  ]
