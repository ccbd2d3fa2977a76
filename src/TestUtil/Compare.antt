-- ===== src/TestUtil/Compare.antt =====
-- The comparison of two responses in the unit tests.
use lspt_evaluation.Common.{
  ◌≡◌, sym, ap, ◌∙◌, Bool, true, ◌&&◌, [], ◌∷◌, some, Option-cases, inl, inr, Bytes, equal,
  equal_iff, all, arith, ◌==◌, length,
}
use lspt_evaluation.Http.{Headers, get_header, HttpResponse}
use lspt_evaluation.TestUtil.{has_header, same_headers, compare_http_responses}
use mathlib.Core.List.{Memᴰ}
use mathlib.Core.List.Memᴰ.{head, tail}
use lspt_evaluation.TestUtil.Pair.{AllHold}

has_header-get_header :
    (hs : Headers) (k v : Bytes) → has_header hs (k, v) ≡ true → get_header k hs ≡ some v
unfolding has_header
has_header-get_header hs k v h = elim (Option-cases (get_header k hs)) [
  | inl e ↦ absurd (let r = (rw (has_header, e) at h) in cc)
  | inr (w, e) ↦ e ∙ ap some (sym ((equal_iff v w).0 (rw (has_header, e) at h)))
]

all-has_header :
    (hs xs : Headers)
    → all (has_header hs) xs ≡ true
    → (k v : Bytes) → Memᴰ (k, v) xs
    → get_header k hs ≡ some v
all-has_header hs [] h k v m = elim m [ ]
all-has_header hs (x ∷ xs) h k v (head e) =
    has_header-get_header hs k v (ap (has_header hs) e ∙ left (has_header hs x) _ h)
  where
    left : (a b : Bool) → (a && b) ≡ true → a ≡ true
    left a b h = ground arith
all-has_header hs (x ∷ xs) h k v (tail m) = all-has_header hs xs (right (has_header hs x) _ h) k v m
  where
    right : (a b : Bool) → (a && b) ≡ true → b ≡ true
    right a b h = ground arith

-- Where every expectation holds, the two responses agree in all their parts, and each header of the
-- first is one of the second with the same value.
pub compare_http_responses-same :
    (h1 h2 : HttpResponse)
    → AllHold (compare_http_responses h1 h2)
    → (h1.version ≡ h2.version)
      × (h1.code ≡ h2.code)
      × (h1.status ≡ h2.status)
      × (h1.body ≡ h2.body)
      × ((k v : Bytes) → Memᴰ (k, v) h1.headers → get_header k h2.headers ≡ some v)
unfolding compare_http_responses same_headers
compare_http_responses-same h1 h2 h =
    let (version, code, status, headers, body) =
      each (equal h1.version h2.version) (h1.code == h2.code) (equal h1.status h2.status)
        (same_headers h1.headers h2.headers) (equal h1.body h2.body) h in
    (
      (equal_iff h1.version h2.version).0 version,
      ground (arith, code),
      (equal_iff h1.status h2.status).0 status,
      (equal_iff h1.body h2.body).0 body,
      λ k v m.
          all-has_header h2.headers h1.headers
            (right (length h1.headers == length h2.headers) (all (has_header h2.headers) h1.headers)
              headers)
            k v m,
    )
  where
    right : (a b : Bool) → (a && b) ≡ true → b ≡ true
    right a b h = ground arith

    each :
        (a b c d e : Bool)
        → AllHold (a ∷ b ∷ c ∷ d ∷ e ∷ [])
        → (a ≡ true) × (b ≡ true) × (c ≡ true) × (d ≡ true) × (e ≡ true)
    each a b c d e h = ground arith
