-- ===== src/Js.antt =====
-- What the program takes from JavaScript and its runtime.
pub mod Value
pub mod Json
use agentguard_action_proxy.Common.{ℕ, String, Bool}

pub record Js : Type 1 where
  -- The type `number`: IEEE doubles, with NaN.
  pub Number : Type 0
  -- A numeral of the source.
  pub number : ℕ → Number
  pub mul : Number → Number → Number
  pub div : Number → Number → Number
  -- `<=`, `<` and `===`.
  pub num_le : Number → Number → Bool
  pub num_lt : Number → Number → Bool
  pub num_eq : Number → Number → Bool
  -- The truth value of a number: false at 0 and at NaN.
  pub num_truthy : Number → Bool
  -- `Number(text)`, `String(number)` and `JSON.stringify(number)`.
  pub number_of_text : String → Number
  pub text_of_number : Number → String
  pub json_of_number : Number → String
  -- `JSON.stringify(text)`.
  pub json_of_text : String → String
  pub trim : String → String
  pub to_lower_case : String → String
  pub to_upper_case : String → String
  -- `a.localeCompare(b) <= 0`.
  pub locale_le : String → String → Bool
  -- `createHash("sha256").update(text).digest("hex")`.
  pub sha256 : String → String
  -- `new Date(milliseconds).toISOString()`.
  pub iso_string : ℕ → String
