-- ===== src/Common/Ensures.antt =====
-- What a call guarantees of the value that it ends with, with a rule for `>>=` and one for `if`.
use mathlib.Core.Bool.{Bool, true, false}
use mathlib.Core.Path.{◌≡◌, refl, sym, subst}
use lspt_evaluation.Common.Outcomes.{
  Outcome, ok, out_of_range, empty_back, json_error, no_fuel, ◌>>=◌,
}
use lspt_evaluation.Common.Tests.{if◌then◌else◌}

-- If the call ends with a value, the value satisfies `P`.
pub data Leaves {A : Type 0} (P : A → Type 0) : Outcome A → Type 0 where
  leaves : (a : A) → P a → Leaves P (ok a)
  at_out_of_range : Leaves P out_of_range
  at_empty_back : Leaves P empty_back
  at_json_error : Leaves P json_error
  at_no_fuel : Leaves P no_fuel

-- Of the value of any call, nothing is known.
pub Leaves-any : {A : Type 0} (m : Outcome A) → Leaves (λ (a : A). Unit {0}) m
Leaves-any (ok a) = leaves a tt
Leaves-any out_of_range = at_out_of_range
Leaves-any empty_back = at_empty_back
Leaves-any json_error = at_json_error
Leaves-any no_fuel = at_no_fuel

pub Leaves-ok : {A : Type 0} (P : A → Type 0) {m : Outcome A} (a : A) → Leaves P m → m ≡ ok a → P a
Leaves-ok P a (leaves b p) e = let same : b ≡ a = cc in subst P same p
Leaves-ok P a at_out_of_range e = absurd cc
Leaves-ok P a at_empty_back e = absurd cc
Leaves-ok P a at_json_error e = absurd cc
Leaves-ok P a at_no_fuel e = absurd cc

pub Leaves-weaken :
    {A : Type 0} {P R : A → Type 0} {m : Outcome A}
    → ((a : A) → P a → R a)
    → Leaves P m
    → Leaves R m
Leaves-weaken k (leaves a p) = leaves a (k a p)
Leaves-weaken k at_out_of_range = at_out_of_range
Leaves-weaken k at_empty_back = at_empty_back
Leaves-weaken k at_json_error = at_json_error
Leaves-weaken k at_no_fuel = at_no_fuel

-- The call ends: with a value that satisfies `P`, in the undefined call of `back()` where `U` holds, or
-- by an exception of the JSON library where `T` holds. It does not run out of fuel, and leaves no
-- string's bounds.
pub data Finishes {A : Type 0} (U T : Type 0) (P : A → Type 0) : Outcome A → Type 0 where
  finishes : (a : A) → P a → Finishes U T P (ok a)
  undefined : U → Finishes U T P empty_back
  threw : T → Finishes U T P json_error

pub ok-Finishes :
    {A U T : Type 0} (P : A → Type 0) {m : Outcome A} (a : A) → m ≡ ok a → P a → Finishes U T P m
ok-Finishes {U = U} {T = T} P a e h = subst (Finishes U T P) (sym e) (finishes a h)

pub Finishes-weaken :
    {A U T : Type 0} {P R : A → Type 0} {m : Outcome A}
    → ((a : A) → P a → R a)
    → Finishes U T P m
    → Finishes U T R m
Finishes-weaken k (finishes a p) = finishes a (k a p)
Finishes-weaken k (undefined u) = undefined u
Finishes-weaken k (threw t) = threw t

pub Finishes-undefined :
    {A U V T : Type 0} {P : A → Type 0} {m : Outcome A}
    → (U → V)
    → Finishes U T P m
    → Finishes V T P m
Finishes-undefined k (finishes a p) = finishes a p
Finishes-undefined k (undefined u) = undefined (k u)
Finishes-undefined k (threw t) = threw t

-- Where it ends with a value, the call is that value.
pub Finishes-value :
    {A U T : Type 0} {P : A → Type 0} {m : Outcome A}
    → Finishes U T P m
    → Finishes U T (λ (a : A). P a × (m ≡ ok a)) m
Finishes-value (finishes a p) = finishes a (p, refl)
Finishes-value (undefined u) = undefined u
Finishes-value (threw t) = threw t

pub Finishes-Leaves :
    {A U T : Type 0} {P Q : A → Type 0} {m : Outcome A}
    → Finishes U T P m
    → Leaves Q m
    → Finishes U T (λ (a : A). P a × Q a) m
Finishes-Leaves {Q = Q} (finishes a p) l = finishes a (p, Leaves-ok Q a l refl)
Finishes-Leaves (undefined u) l = undefined u
Finishes-Leaves (threw t) l = threw t

-- A call with nothing undefined in it is one where `U` says when there is.
pub Finishes-defined :
    {A U T : Type 0} {P : A → Type 0} {m : Outcome A} → Finishes ⊥ T P m → Finishes U T P m
Finishes-defined (finishes a p) = finishes a p
Finishes-defined (undefined u) = absurd u
Finishes-defined (threw t) = threw t

module _ {A B : Type 0} (P : A → Type 0) (Q : B → Type 0) where
  pub >>=-Leaves :
      {m : Outcome A} {f : A → Outcome B}
      → Leaves P m
      → ((a : A) → P a → Leaves Q (f a))
      → Leaves Q (m >>= f)
  >>=-Leaves (leaves a p) k = k a p
  >>=-Leaves at_out_of_range k = at_out_of_range
  >>=-Leaves at_empty_back k = at_empty_back
  >>=-Leaves at_json_error k = at_json_error
  >>=-Leaves at_no_fuel k = at_no_fuel

  pub >>=-Finishes :
      {U T : Type 0} {m : Outcome A} {f : A → Outcome B}
      → Finishes U T P m
      → ((a : A) → P a → Finishes U T Q (f a))
      → Finishes U T Q (m >>= f)
  >>=-Finishes (finishes a p) k = k a p
  >>=-Finishes (undefined u) k = undefined u
  >>=-Finishes (threw t) k = threw t

module _ {A : Type 0} (P : A → Type 0) (b : Bool) where
  pub if-Leaves : {m n : Outcome A} → Leaves P m → Leaves P n → Leaves P (if b then m else n)
  if-Leaves h k = go b h k
    where
      go : (c : Bool) {m n : Outcome A} → Leaves P m → Leaves P n → Leaves P (if c then m else n)
      go true h k = h
      go false h k = k

  -- Where the test is known to pass.
  pub if_true-Leaves :
      {m : Outcome A} (n : Outcome A) → b ≡ true → Leaves P m → Leaves P (if b then m else n)
  if_true-Leaves n e h = rw e h

  pub if-Finishes :
      {U T : Type 0} {m n : Outcome A}
      → Finishes U T P m
      → Finishes U T P n
      → Finishes U T P (if b then m else n)
  if-Finishes h k = go b h k
    where
      go :
          {U T : Type 0} (c : Bool) {m n : Outcome A}
          → Finishes U T P m
          → Finishes U T P n
          → Finishes U T P (if c then m else n)
      go true h k = h
      go false h k = k
