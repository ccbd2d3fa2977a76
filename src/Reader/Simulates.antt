-- ===== src/Reader/Simulates.antt =====
-- When two readers answer alike, state by state, and what the parsers of HTTPServer.cpp make of them.
use lspt_evaluation.Common.{
  ℕ, zero, suc, ◌≡◌, Bool, true, false, [], ◌∷◌, Option, none, some, Bytes, if◌then◌else◌, Outcome,
  ok, out_of_range, empty_back, json_error, no_fuel, ◌>>=◌,
}
use lspt_evaluation.Http.Parser.{
  header_of, on_header, on_line, on_more, parse_code, parse_headers, parse_body, parse_rest,
  parse_request, parse_response,
}
use lspt_evaluation.Http.{Method, string_to_method, Headers, set_header}
use lspt_evaluation.Reader.{Reader}
use lspt_evaluation.Text.Decimal.{stoul}

-- Both calls end alike: with one value and related states, or with the same fault.
pub data Agrees {S C A : Type 0} (R : S → C → Type 0)
    : Outcome (A × S) → Outcome (A × C) → Type 0 where
  agree : {a : A} {s : S} {c : C} → R s c → Agrees R (ok (a, s)) (ok (a, c))
  out_of_range_both : Agrees R out_of_range out_of_range
  empty_back_both : Agrees R empty_back empty_back
  json_error_both : Agrees R json_error json_error
  no_fuel_both : Agrees R no_fuel no_fuel

pub record Simulates {S C : Type 0} (R : S → C → Type 0) (rd : Reader S) (rc : Reader C)
    : Type 0 where
  pub has_next : (s : S) (c : C) → R s c → Agrees R (rd.has_next s) (rc.has_next c)
  pub next_word : (s : S) (c : C) → R s c → Agrees R (rd.next_word s) (rc.next_word c)
  pub next_line :
      (b : Bool) (s : S) (c : C) → R s c → Agrees R (rd.next_line b s) (rc.next_line b c)
  pub remaining : (s : S) (c : C) → R s c → Agrees R (rd.remaining s) (rc.remaining c)
  pub passed_buffer : (s : S) (c : C) → R s c → rd.passed_buffer s ≡ rc.passed_buffer c

module _ {S C A B : Type 0} {R : S → C → Type 0} where
  pub >>=-Agrees :
      {m : Outcome (A × S)} {n : Outcome (A × C)} (f : A × S → Outcome (B × S))
      (g : A × C → Outcome (B × C))
      → Agrees R m n
      → ((a : A) (s : S) (c : C) → R s c → Agrees R (f (a, s)) (g (a, c)))
      → Agrees R (m >>= f) (n >>= g)
  >>=-Agrees f g (agree {a} {s} {c} r) k = k a s c r
  >>=-Agrees f g out_of_range_both k = out_of_range_both
  >>=-Agrees f g empty_back_both k = empty_back_both
  >>=-Agrees f g json_error_both k = json_error_both
  >>=-Agrees f g no_fuel_both k = no_fuel_both

module _ {S C A : Type 0} {R : S → C → Type 0} {m : Outcome (A × S)} {n : Outcome (A × C)} where
  pub Agrees-ok : (a : A) (s : S) (c : C) → m ≡ ok (a, s) → n ≡ ok (a, c) → R s c → Agrees R m n
  Agrees-ok a s c p q r = rw (p, q) (agree r)

  pub Agrees_out_of_range : m ≡ out_of_range → n ≡ out_of_range → Agrees R m n
  Agrees_out_of_range p q = rw (p, q) out_of_range_both

module _ {S C A : Type 0} {R : S → C → Type 0} where
  pub if-Agrees :
      (b : Bool) {m m' : Outcome (A × S)} {n n' : Outcome (A × C)}
      → Agrees R m n
      → Agrees R m' n'
      → Agrees R (if b then m else m') (if b then n else n')
  if-Agrees true p q = p
  if-Agrees false p q = q

module _ {S C : Type 0} (R : S → C → Type 0) (rd : Reader S) (rc : Reader C)
    (sim : Simulates R rd rc) where
  on_header-Agrees :
      (f : Headers → S → Outcome (Headers × S)) (g : Headers → C → Outcome (Headers × C))
      → ((hs : Headers) (s : S) (c : C) → R s c → Agrees R (f hs s) (g hs c))
      → (hs : Headers) (h : Option (Bytes × Bytes)) (s : S) (c : C) → R s c
      → Agrees R (on_header rd f hs h s) (on_header rc g hs h c)
  unfolding on_header
  on_header-Agrees f g k hs none s c r = agree r
  on_header-Agrees f g k hs (some (j, v)) s c r = k (set_header j v hs) s c r

  on_line-Agrees :
      (f : Headers → S → Outcome (Headers × S)) (g : Headers → C → Outcome (Headers × C))
      → ((hs : Headers) (s : S) (c : C) → R s c → Agrees R (f hs s) (g hs c))
      → (hs : Headers) (l : Bytes) (s : S) (c : C) → R s c
      → Agrees R (on_line rd f hs l s) (on_line rc g hs l c)
  unfolding on_line
  on_line-Agrees f g k hs [] s c r = agree r
  on_line-Agrees f g k hs (x ∷ l) s c r = on_header-Agrees f g k hs (header_of (x ∷ l)) s c r

  on_more-Agrees :
      (f : Headers → S → Outcome (Headers × S)) (g : Headers → C → Outcome (Headers × C))
      → ((hs : Headers) (s : S) (c : C) → R s c → Agrees R (f hs s) (g hs c))
      → (hs : Headers) (b : Bool) (s : S) (c : C) → R s c
      → Agrees R (on_more rd f hs b s) (on_more rc g hs b c)
  unfolding on_more
  on_more-Agrees f g k hs false s c r = agree r
  on_more-Agrees f g k hs true s c r =
      >>=-Agrees _ _ (sim.next_line false s c r)
        λ line s' c' r'. on_line-Agrees f g k hs line s' c' r'

  parse_headers-Agrees :
      (fuel : ℕ) (hs : Headers) (s : S) (c : C)
      → R s c
      → Agrees R (parse_headers rd fuel hs s) (parse_headers rc fuel hs c)
  unfolding parse_headers
  parse_headers-Agrees zero hs s c r = no_fuel_both
  parse_headers-Agrees (suc fuel) hs s c r =
      >>=-Agrees _ _ (sim.has_next s c r)
        λ more s' c' r'. on_more-Agrees _ _ (parse_headers-Agrees fuel) hs more s' c' r'

  parse_body-Agrees : (s : S) (c : C) → R s c → Agrees R (parse_body rd s) (parse_body rc c)
  unfolding parse_body
  parse_body-Agrees s c r =
      >>=-Agrees _ _ (sim.has_next s c r)
        λ more s' c' r'. if-Agrees more (sim.remaining s' c' r') (agree r')

  parse_rest-Agrees :
      (fuel : ℕ) (m : Method) (resource version : Bytes) (s : S) (c : C)
      → R s c
      → Agrees R (parse_rest rd fuel m resource version s) (parse_rest rc fuel m resource version c)
  unfolding parse_rest
  parse_rest-Agrees fuel m resource version s c r =
      >>=-Agrees _ _ (parse_headers-Agrees fuel [] s c r)
        λ headers s1 c1 r1. >>=-Agrees _ _ (parse_body-Agrees s1 c1 r1) λ body s2 c2 r2. agree r2

  pub parse_request-Agrees :
      (fuel : ℕ) (s : S) (c : C)
      → R s c
      → Agrees R (parse_request rd fuel s) (parse_request rc fuel c)
  unfolding parse_request
  parse_request-Agrees fuel s c r = >>=-Agrees _ _ (sim.next_word s c r) λ word s1 c1 r1.
      >>=-Agrees _ _ (sim.next_word s1 c1 r1) λ resource s2 c2 r2.
        >>=-Agrees _ _ (sim.next_word s2 c2 r2) λ version s3 c3 r3.
          rw (sim.passed_buffer s3 c3 r3) (
            if-Agrees _ (agree r3) (
              >>=-Agrees _ _ (sim.next_line false s3 c3 r3) λ line s4 c4 r4.
                if-Agrees _ (agree r4)
                  (parse_rest-Agrees fuel (string_to_method word) resource version s4 c4 r4)))

  parse_code-Agrees :
      (fuel : ℕ) (version : Bytes) (n : Option ℕ) (s : S) (c : C)
      → R s c
      → Agrees R (parse_code rd fuel version n s) (parse_code rc fuel version n c)
  unfolding parse_code
  parse_code-Agrees fuel version none s c r = agree r
  parse_code-Agrees fuel version (some n) s c r =
      >>=-Agrees _ _ (sim.next_line true s c r) λ status s1 c1 r1. rw (sim.passed_buffer s1 c1 r1) (
        if-Agrees _ (agree r1) (
          >>=-Agrees _ _ (parse_headers-Agrees fuel [] s1 c1 r1) λ headers s2 c2 r2.
            >>=-Agrees _ _ (parse_body-Agrees s2 c2 r2) λ body s3 c3 r3. agree r3))

  pub parse_response-Agrees :
      (fuel : ℕ) (s : S) (c : C)
      → R s c
      → Agrees R (parse_response rd fuel s) (parse_response rc fuel c)
  unfolding parse_response
  parse_response-Agrees fuel s c r = >>=-Agrees _ _ (sim.next_word s c r) λ version s1 c1 r1.
      >>=-Agrees _ _ (sim.next_word s1 c1 r1)
        λ word s2 c2 r2. parse_code-Agrees fuel version (stoul word) s2 c2 r2
