-- ===== src/Json.antt =====
-- workers/pairfob-origin/src/frames.ts: the JSON bodies of frames. `JSON.parse` and the text decoder
-- are a function of the environment; a body is a list of fields, and a value inside it that is no
-- text, natural number, Boolean or null is `other`.
use pairfob.Prelude.{
  ℕ, String, Bool, true, false, Option, none, some, List, ◌==◌, ◌===◌, if◌then◌else◌, lookup,
}

pub data Json : Type 0 where
  text : String → Json
  number : ℕ → Json
  boolean : Bool → Json
  null other : Json

abbrev pub Fields : Type 0
Fields = List (String × Json)

-- What the platform makes of a payload.
pub data Parsed : Type 0 where
  not_json not_object : Parsed
  object : Fields → Parsed

unfoldable pub parse_json_object : (List ℕ → Parsed) → List ℕ → Option Fields
parse_json_object parse payload = elim (parse payload) [
  | not_json ↦ none
  | not_object ↦ none
  | object fields ↦ some fields
]

abbrev text_of : Option Json → String
text_of (some (text s)) = s
text_of _ = ""

-- typeof req?.key === "string" ? req.key : ""
unfoldable pub text_field : String → Option Fields → String
unfolding lookup
text_field key none = ""
text_field key (some fields) = text_of (lookup key fields)

abbrev number_of : ℕ → Option Json → ℕ
number_of default (some (number n)) = n
number_of default _ = default

-- typeof req?.key === "number" ? req.key : default
unfoldable pub number_field : String → ℕ → Option Fields → ℕ
unfolding lookup
number_field key default none = default
number_field key default (some fields) = number_of default (lookup key fields)

abbrev is_number : ℕ → Option Json → Bool
is_number n (some (number m)) = m == n
is_number n _ = false

-- req.key === n, for an object
unfoldable pub field_is : String → ℕ → Fields → Bool
unfolding lookup
field_is key n fields = is_number n (lookup key fields)

abbrev absent_or : String → Option Json → Bool
absent_or word none = true
absent_or word (some (text s)) = if s === "" then true else s === word
absent_or word (some _) = false

-- req.key is undefined, empty or the word
unfoldable pub field_absent_or : String → String → Fields → Bool
unfolding lookup
field_absent_or key word fields = absent_or word (lookup key fields)
