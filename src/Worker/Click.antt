-- ===== src/Worker/Click.antt =====
-- The `try` block of `v0reportSearchResults` in Code/evaluation/src/HTTPServer.cpp.
use lspt_evaluation.Common.{Option, none, some, Bytes, text}
use lspt_evaluation.Json.{JsonLibrary}

infixl 5 ◌>>=◌
abbrev ◌>>=◌ : {A B : Type 0} → Option A → (A → Option B) → Option B
none >>= f = none
some a >>= f = f a

-- The link that was clicked; `none` is any exception on the way.
unfoldable pub clicked_link : {J : Type 0} → JsonLibrary J → Bytes → Option Bytes
clicked_link json body = do
  parsed ← json.parse body
  results ← json.at_key (text "results") parsed
  index ← json.at_key (text "clicked") parsed
  clicked ← json.get_unsigned index
  link ← json.at_index clicked results
  json.get_string link
