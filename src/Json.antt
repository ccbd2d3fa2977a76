-- ===== src/Json.antt =====
-- What the sources call of the library nlohmann::json, over any type of JSON values. The library is
-- a parameter of the model; `none` is an exception, which `dump` throws on text that is not UTF-8.
use lspt_evaluation.Common.{ℕ, List, Option, Bytes}

pub record JsonLibrary (J : Type 0) : Type 0 where
  pub string : Bytes → J
  pub number : ℕ → J
  pub array : List J → J
  pub object : List (Bytes × J) → J
  pub dump : J → Option Bytes
  pub dump_indented : ℕ → J → Option Bytes
  pub parse : Bytes → Option J
  pub at_key : Bytes → J → Option J
  pub at_index : ℕ → J → Option J
  pub get_unsigned : J → Option ℕ
  pub get_string : J → Option Bytes
