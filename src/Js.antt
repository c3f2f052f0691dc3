-- ===== src/Js.antt =====
-- Values of the language: what `JSON.parse`, a request body or a JSON column holds (`unknown`).
-- A value that is shared or mutated does not occur in the modelled code, so values are trees.
use edtech_lms_rpi_api.Prelude.{
  Bool, true, false, Option, none, some, List, [], ◌∷◌, String, ◌==◌, if◌then◌else◌,
}

mutual
  pub data Value (N : Type 0) : Type 0 where
    undefined : Value N
    null : Value N
    bool : Bool → Value N
    num : N → Value N
    str : String → Value N
    arr : Items N → Value N
    obj : Fields N → Value N

  pub data Items (N : Type 0) : Type 0 where
    nil : Items N
    cons : Value N → Items N → Items N

  -- The own properties of an object, in order; a key occurs once in what the language builds.
  pub data Fields (N : Type 0) : Type 0 where
    end : Fields N
    field : String → Value N → Fields N → Fields N

-- What the modelled code uses of the runtime: numbers, `JSON.parse`, and Unicode's tables.
pub record Js : Type 1 where
  pub Num : Type 0
  -- `===`, `<` and `<=` on numbers
  pub num_eq : Num → Num → Bool
  pub num_lt : Num → Num → Bool
  pub num_le : Num → Num → Bool
  pub zero : Num
  pub one : Num
  -- `Number.MAX_SAFE_INTEGER` and `Math.abs`
  pub max_safe_integer : Num
  pub abs : Num → Num
  pub add : Num → Num → Num
  pub mul : Num → Num → Num
  -- `Number.isFinite`, `Number.isInteger`, `Number(text)`, `String(number)`
  pub is_finite : Num → Bool
  pub is_integer : Num → Bool
  pub of_text : String → Num
  pub text_of : Num → String
  -- `none` is the `SyntaxError` that `JSON.parse` throws
  pub parse_json : String → Option (Value Num)
  -- `normalize("NFC")` and `toLowerCase()`
  pub nfc : String → String
  pub to_lower : String → String

module _ {N : Type 0} where
  abbrev pub items : Items N → List (Value N)
  items nil = []
  items (cons v vs) = v ∷ items vs

  abbrev pub entries : Fields N → List (String × Value N)
  entries end = []
  entries (field k v fs) = (k, v) ∷ entries fs

  unfoldable pub property : Fields N → String → Value N
  property end key = undefined
  property (field k v fs) key = if k == key then v else property fs key

  -- `x[key]`, for an own property
  abbrev pub get : Value N → String → Value N
  get (obj fs) key = property fs key
  get _ key = undefined

  -- `typeof x === "string"`, with the text
  abbrev pub as_string : Value N → Option String
  as_string (str s) = some s
  as_string _ = none

  abbrev pub is_string : Value N → Bool
  is_string (str s) = true
  is_string _ = false

  -- `x === true`
  abbrev pub is_true : Value N → Bool
  is_true (bool b) = b
  is_true _ = false

  -- `x === null || x === undefined`
  abbrev pub is_nullish : Value N → Bool
  is_nullish undefined = true
  is_nullish null = true
  is_nullish _ = false

-- `Record<string, T>` as a list of its own properties.
unfoldable pub lookup {ℓ} : {T : Type ℓ} → String → List (String × T) → Option T
lookup key [] = none
lookup key ((k, v) ∷ fields) = if k == key then some v else lookup key fields
