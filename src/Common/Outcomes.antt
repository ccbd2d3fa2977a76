-- ===== src/Common/Outcomes.antt =====
-- What a call of the program can end with, and the `do` notation for it.

-- `out_of_range` is the exception of `std::string::substr`, `empty_back` the undefined call of
-- `back()` on an empty string, `json_error` an exception of the JSON library that nothing
-- catches, and `no_fuel` is no end at all within the fuel given.
pub data Outcome {ℓ} (A : Type ℓ) : Type ℓ where
  ok : A → Outcome A
  out_of_range empty_back json_error no_fuel : Outcome A

infixl 5 ◌>>=◌
abbrev pub ◌>>=◌ {ℓ κ} : {A : Type ℓ} {B : Type κ} → Outcome A → (A → Outcome B) → Outcome B
ok a >>= f = f a
out_of_range >>= f = out_of_range
empty_back >>= f = empty_back
json_error >>= f = json_error
no_fuel >>= f = no_fuel
