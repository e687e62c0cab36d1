-- ===== src/Messages/Json.antt =====
-- What json.cpp uses of nlohmann::json, a library outside the repository.
use Prim.Native.String.{String}
use o_walkie.Base.{ℕ, ℤ, Bool, Option, List}

-- `none` stands for an exception: `parse` of a malformed text, and `value` where the key holds a
-- value of another type or the receiver is no object. `member` is operator[] on a const object,
-- called only for a key that `contains` found.
pub record JsonLib : Type 1 where
  pub Json : Type 0
  pub parse : String → Option Json
  pub dump : Json → String
  pub contains : Json → String → Bool
  pub member : Json → String → Json
  pub is_null : Json → Bool
  pub is_object : Json → Bool
  pub value_int : Json → String → ℤ → Option ℤ
  pub value_unsigned : Json → String → ℕ → Option ℕ
  pub value_bool : Json → String → Bool → Option Bool
  pub value_string : Json → String → String → Option String
  pub object : List (String × Json) → Json
  pub of_string : String → Json
  pub of_int : ℤ → Json
  pub of_bool : Bool → Json
