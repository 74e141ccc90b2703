-- ===== src/Json.antt =====
-- nlohmann::json, which src/external holds a copy of: the values, and what the node calls of them. `set`
-- is `result[key] = value`, `at` is `data[key]`, null where there is no such key, and the conversions
-- throw where a value is of another type. A text is the list of its bytes.
pub mod Values
use Prim.Native.String.{String}
use Prim.Native.Char.{code}
use package.text.Mathlib.Text.{◌==◌}
use pandanite_node.Common.{ℕ, ◌≡◌, ◌↔◌, Bool, true, Option, List, [], ◌∷◌, if◌then◌else◌}
use pandanite_node.Common.Int.{ℤ}
use pandanite_node.Common.State.{Result, ok}

-- The bytes of a text in ASCII.
abbrev pub codes : String → List ℕ
codes String.[] = []
codes (String.◌∷◌ c s) = code c ∷ codes s

pub record Json : Type 1 where
  pub Value : Type 0
  pub null : Value
  pub number : ℕ → Value
  pub integer : ℤ → Value
  pub text : List ℕ → Value
  pub array : List Value → Value
  pub set : Value → String → Value → Value
  pub at : Value → String → Value
  pub to_number : Value → Result ℕ
  pub to_text : Value → Result (List ℕ)
  pub equals_text : Value → List ℕ → Bool
  pub items : Value → List Value
  pub is_array : Value → Bool

-- What the documentation says of the values that the node builds.
pub record IsLawful (json : Json) : Type 0 where
  pub at-set :
      (j v : json.Value) (key k : String)
      → json.at (json.set j key v) k ≡ (if k == key then v else json.at j k)
  pub to_number-number : (n : ℕ) → json.to_number (json.number n) ≡ ok n
  pub to_text-text : (s : List ℕ) → json.to_text (json.text s) ≡ ok s
  pub equals_text-text : (s t : List ℕ) → (json.equals_text (json.text s) t ≡ true) ↔ (s ≡ t)
  pub items-array : (vs : List json.Value) → json.items (json.array vs) ≡ vs
  pub is_array-array : (vs : List json.Value) → json.is_array (json.array vs) ≡ true

-- An object with one text.
abbrev pub object_of : (json : Json) → String → String → json.Value
object_of json key s = json.set json.null key (json.text (codes s))
