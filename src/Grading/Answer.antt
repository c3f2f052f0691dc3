-- ===== src/Grading/Answer.antt =====
-- src/business/grading/index.ts: the shape of an answer.
use edtech_lms_rpi_api.Prelude.{
  Bool, true, false, ◌&&◌, Option, none, some, List, [], map, String, ◌==◌, if◌then◌else◌, every,
  not,
}
use edtech_lms_rpi_api.Js.{Value, num, str, arr, obj, Js, get, items, entries, is_string, as_string}

pub data AnswerType : Type 0 where
  choice order match blanks counts text fraction : AnswerType

pub record Part : Type 0 where
  pub numerator : String
  pub denominator : String

-- `AnswerV1`: its `type`, and the payload that the type has.
pub data AnswerV1 (N : Type 0) : Type 0 where
  selected : List String → AnswerV1 N
  ordered : List String → AnswerV1 N
  pairs : List (String × String) → AnswerV1 N
  filled : List String → AnswerV1 N
  tapped : List (String × N) → AnswerV1 N
  typed : List (String × String) → AnswerV1 N
  parts : List (String × Part) → AnswerV1 N

abbrev pub type_name : AnswerType → String
type_name choice = "choice"
type_name order = "order"
type_name match = "match"
type_name blanks = "blanks"
type_name counts = "counts"
type_name text = "text"
type_name fraction = "fraction"

-- The cases of the `switch (a.type)`.
unfoldable pub type_of_name : String → Option AnswerType
type_of_name s =
    if s == "choice"
    then some choice
    else if s == "order"
    then some order
    else if s == "match"
    then some match
    else if s == "blanks"
    then some blanks
    else if s == "counts"
    then some counts
    else if s == "text"
    then some text
    else if s == "fraction"
    then some fraction
    else none

module _ {N : Type 0} where
  abbrev pub is_string_array : Value N → Bool
  is_string_array (arr xs) = every is_string (items xs)
  is_string_array _ = false

  abbrev pub every_value : (Value N → Bool) → Value N → Bool
  every_value p (obj fields) = every (λ e. p e.1) (entries fields)
  every_value p _ = false

  abbrev pub is_string_record : Value N → Bool
  is_string_record = every_value is_string

  abbrev pub is_fraction_part : Value N → Bool
  is_fraction_part v = is_string (get v "numerator") && is_string (get v "denominator")

  abbrev pub is_fraction_part_record : Value N → Bool
  is_fraction_part_record = every_value is_fraction_part

  abbrev pub is_object : Value N → Bool
  is_object (obj fields) = true
  is_object _ = false

  -- `answer.type === type`
  abbrev pub has_type : AnswerType → Value N → Bool
  has_type t x = elim (as_string (get x "type")) [ none ↦ false | some s ↦ s == type_name t ]

  -- The text of a value that is known to be one.
  abbrev pub text_or_empty : Value N → String
  text_or_empty (str s) = s
  text_or_empty _ = ""

  abbrev pub texts : Value N → List String
  texts (arr xs) = map text_or_empty (items xs)
  texts _ = []

  abbrev pub fields_with {ℓ} : {T : Type ℓ} → (Value N → T) → Value N → List (String × T)
  fields_with f (obj fields) = map (λ e. (e.0, f e.1)) (entries fields)
  fields_with f _ = []

  abbrev pub part_of : Value N → Part
  part_of v = record {
    numerator = text_or_empty (get v "numerator");
    denominator = text_or_empty (get v "denominator");
  }

module _ (js : Js) where
  open js use {Num}

  abbrev pub is_count : Value Num → Bool
  is_count (num n) = js.is_integer n && not (js.num_lt n js.zero)
  is_count _ = false

  abbrev pub is_counts_record : Value Num → Bool
  is_counts_record = every_value is_count

  abbrev pub is_version_one : Value Num → Bool
  is_version_one (num n) = js.num_eq n js.one
  is_version_one _ = false

  unfoldable pub is_payload : AnswerType → Value Num → Bool
  is_payload choice a = is_string_array (get a "selected")
  is_payload order a = is_string_array (get a "order")
  is_payload match a = is_string_record (get a "pairs")
  is_payload blanks a = is_string_array (get a "filled")
  is_payload counts a = is_counts_record (get a "counts")
  is_payload text a = is_string_record (get a "entries")
  is_payload fraction a = is_fraction_part_record (get a "parts")

  unfoldable pub is_answer_v1 : Value Num → Bool
  unfolding is_payload type_of_name
  is_answer_v1 x = is_object x && is_version_one (get x "v") && elim (as_string (get x "type")) [
    | none ↦ false
    | some name ↦ elim (type_of_name name) [ none ↦ false | some t ↦ is_payload t x ]
  ]

  -- The number of a value that is known to be one.
  abbrev pub number_or_zero : Value Num → Num
  number_or_zero (num n) = n
  number_or_zero _ = js.zero

  -- An accepted value as an `AnswerV1` of the type that it has.
  unfoldable pub read_answer : AnswerType → Value Num → AnswerV1 Num
  read_answer choice a = selected (texts (get a "selected"))
  read_answer order a = ordered (texts (get a "order"))
  read_answer match a = pairs (fields_with text_or_empty (get a "pairs"))
  read_answer blanks a = filled (texts (get a "filled"))
  read_answer counts a = tapped (fields_with number_or_zero (get a "counts"))
  read_answer text a = typed (fields_with text_or_empty (get a "entries"))
  read_answer fraction a = parts (fields_with part_of (get a "parts"))
