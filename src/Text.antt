-- ===== src/Text.antt =====
-- What the sources use of `<cctype>` and `<string>`, over byte strings, in the "C" locale: a byte
-- of 128 and more is no white space and has no lower case. `npos` is `none`.
pub mod Decimal
use lspt_evaluation.Common.{
  ℕ, zero, suc, ◌+◌, ◌-◌, Bool, true, false, ◌&&◌, ◌||◌, List, [], ◌∷◌, Option, none, some, Bytes,
  leb, ltb, ◌==◌, if◌then◌else◌, length, take, drop, Outcome, ok, out_of_range,
}
use mathlib.Core.Option

-- `isspace`: the blank, and \t \n \v \f \r.
abbrev pub is_space : ℕ → Bool
is_space c = c == 32 || (leb 9 c && leb c 13)

-- `tolower`.
abbrev pub to_lower : ℕ → ℕ
to_lower c = if leb b'A' c && leb c b'Z' then c + 32 else c

-- `find(c)`: where the byte first stands.
unfoldable pub find : ℕ → Bytes → Option ℕ
find c [] = none
find c (x ∷ xs) = if x == c then some 0 else Option.map suc (find c xs)

-- `substr(start)`, which throws behind the end, and `substr(start, count)`.
unfoldable pub substr_from : Bytes → ℕ → Outcome Bytes
substr_from s start = if ltb (length s) start then out_of_range else ok (drop start s)

unfoldable pub substr : Bytes → ℕ → ℕ → Outcome Bytes
substr s start count = if ltb (length s) start then out_of_range else ok (take count (drop start s))

-- An unsigned int is 32 bits wide, an unsigned long 64.
abbrev pub uint_mod : ℕ
uint_mod = 4294967296

abbrev pub ulong_mod : ℕ
ulong_mod = 18446744073709551616
