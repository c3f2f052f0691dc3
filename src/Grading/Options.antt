-- ===== src/Grading/Options.antt =====
-- src/business/grading/option.ts: the options of a question, read from its stored JSON.
use edtech_lms_rpi_api.Prelude.{
  Bool, false, ◌||◌, Option, none, some, List, [], ◌∷◌, String, ◌==◌, if◌then◌else◌, traverse,
}
use edtech_lms_rpi_api.Prelude.Text.{is_blank, is_empty}
use edtech_lms_rpi_api.Js.{Value, bool, num, str, arr, Js, get, items, as_string, is_true}

-- A number of the question's data is a number of the runtime, `N`.
pub record GradingOption (N : Type 0) : Type 0 where
  pub questionoptionid : String
  pub questionoptiontext : Option String
  pub questionoptioniscorrect : Bool
  pub questionoptionsequence : Option N
  pub questionoptionvalue : Option N
  pub questionoptionnumeratorvalue : Option String
  pub questionoptionnumeratorisstatic : Bool
  pub questionoptiondenominatorvalue : Option String
  pub questionoptiondenominatorisstatic : Bool
  pub questionoptionisfraction : Bool
  pub questionoptionistext : Bool

module _ (js : Js) where
  open js use {Num}

  unfoldable pub as_correct_flag : Value Num → Bool
  as_correct_flag (bool b) = b
  as_correct_flag (num n) = js.num_eq n js.one
  as_correct_flag (str s) = s == "true" || s == "1"
  as_correct_flag _ = false

  abbrev finite : Num → Option Num
  finite n = if js.is_finite n then some n else none

  unfoldable pub as_number : Value Num → Option Num
  as_number (num n) = finite n
  as_number (str s) = if is_blank s then none else finite (js.of_text s)
  as_number _ = none

  unfoldable pub as_numeric_string : Value Num → Option String
  as_numeric_string (str s) = some s
  as_numeric_string (num n) = if js.is_finite n then some (js.text_of n) else none
  as_numeric_string _ = none

  -- What `parseOption` returns once the entry has a usable id.
  pub option_with_id : Value Num → String → GradingOption Num
  option_with_id o id = record {
    questionoptionid = id;
    questionoptiontext = as_string (get o "questionoptiontext");
    questionoptioniscorrect = as_correct_flag (get o "questionoptioniscorrect");
    questionoptionsequence = as_number (get o "questionoptionsequence");
    questionoptionvalue = as_number (get o "questionoptionvalue");
    questionoptionnumeratorvalue = as_numeric_string (get o "questionoptionnumeratorvalue");
    questionoptionnumeratorisstatic = is_true (get o "questionoptionnumeratorisstatic");
    questionoptiondenominatorvalue = as_numeric_string (get o "questionoptiondenominatorvalue");
    questionoptiondenominatorisstatic = is_true (get o "questionoptiondenominatorisstatic");
    questionoptionisfraction = is_true (get o "questionoptionisfraction");
    questionoptionistext = is_true (get o "questionoptionistext");
  }

  -- An array is an object too, with no such property.
  unfoldable pub parse_option : Value Num → Option (GradingOption Num)
  unfolding option_with_id
  parse_option raw = elim (as_string (get raw "questionoptionid")) [
    | none ↦ none
    | some id ↦ if is_empty id then none else some (option_with_id raw id)
  ]

  -- The text of a JSON column is parsed first; any other value is taken as it is.
  unfoldable pub parse_text : Value Num → Option (Value Num)
  parse_text (str s) = js.parse_json s
  parse_text value = some value

  -- The rest of `parseOptions`, on the parsed value.
  unfoldable pub parse_array : Value Num → Option (List (GradingOption Num))
  unfolding parse_option
  parse_array (arr entries) = elim (traverse parse_option (items entries)) [
    | none ↦ none
    | some [] ↦ none
    | some (o ∷ options) ↦ some (o ∷ options)
  ]
  parse_array _ = none

  unfoldable pub parse_options : Value Num → Option (List (GradingOption Num))
  unfolding parse_text parse_array
  parse_options raw = elim (parse_text raw) [ none ↦ none | some value ↦ parse_array value ]
