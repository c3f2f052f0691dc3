-- ===== src/Grading/Normalise.antt =====
-- src/business/grading/normalise.ts: forgiving equality of typed answers.
use Prim.Native.Char.{code}
use Prim.Native.String
use Prim.Native.String.{[], ◌∷◌}
use edtech_lms_rpi_api.Prelude.{
  ℕ, ◌+◌, ◌-◌, ◌*◌, Bool, true, false, not, ◌&&◌, ◌||◌, String, ◌==◌, if◌then◌else◌, eqb, leb,
}
use edtech_lms_rpi_api.Prelude.Text.{is_empty, is_space, trim}
use edtech_lms_rpi_api.Js.{Js}

-- ZERO_WIDTH_RE
is_zero_width : ℕ → Bool
is_zero_width c =
    (leb 0x200b c && leb c 0x200d) || eqb c 0x2060 || eqb c 0xad || eqb c 0x180e || eqb c 0xfeff

unfoldable pub strip_zero_width : String → String
unfolding is_zero_width
strip_zero_width [] = []
strip_zero_width (c ∷ s) =
    let rest = strip_zero_width s in if is_zero_width (code c) then rest else c ∷ rest

-- `replace(/\s+/g, " ")`. The flag says that the character before was a space.
collapse_from : Bool → String → String
collapse_from after [] = []
collapse_from after (c ∷ s) = elim (is_space (code c)) [
  | true ↦ if after then collapse_from true s else String.◌++◌ " " (collapse_from true s)
  | false ↦ c ∷ collapse_from false s
]

unfoldable pub collapse : String → String
unfolding collapse_from is_space
collapse s = collapse_from false s

abbrev digit_text : ℕ → String
digit_text d =
    if eqb d 0
    then "0"
    else if eqb d 1
    then "1"
    else if eqb d 2
    then "2"
    else if eqb d 3
    then "3"
    else if eqb d 4
    then "4"
    else if eqb d 5
    then "5"
    else if eqb d 6
    then "6"
    else if eqb d 7
    then "7"
    else if eqb d 8
    then "8"
    else "9"

-- `replace(KHMER_DIGIT_RE, …)`
unfoldable pub khmer_digits : String → String
khmer_digits [] = []
khmer_digits (c ∷ s) =
    let rest = khmer_digits s in
    if leb 0x17e0 (code c) && leb (code c) 0x17e9
    then String.◌++◌ (digit_text (code c - 0x17e0)) rest
    else c ∷ rest

abbrev pub is_digit : ℕ → Bool
is_digit c = leb b'0' c && leb c b'9'

-- `^\d*$`, and `^\d+$`
unfoldable pub all_digits : String → Bool
all_digits [] = true
all_digits (c ∷ s) = is_digit (code c) && all_digits s

abbrev pub some_digits : String → Bool
some_digits s = not (is_empty s) && all_digits s

abbrev pub is_minus : String → Bool
is_minus [] = false
is_minus (c ∷ s) = eqb (code c) b'-'

abbrev pub drop_minus : String → String
drop_minus [] = []
drop_minus (c ∷ s) = if eqb (code c) b'-' then s else c ∷ s

-- The text before and behind the first full stop (`split(".")` and its first two parts).
unfoldable pub int_part : String → String
int_part [] = []
int_part (c ∷ s) = let rest = int_part s in if eqb (code c) b'.' then [] else c ∷ rest

unfoldable pub after_point : String → String
after_point [] = []
after_point (c ∷ s) = let rest = after_point s in if eqb (code c) b'.' then s else rest

unfoldable pub has_point : String → Bool
has_point [] = false
has_point (c ∷ s) = eqb (code c) b'.' || has_point s

-- PLAIN_INTEGER_RE and PLAIN_NUMBER_RE
unfoldable pub is_plain_integer : String → Bool
unfolding all_digits
is_plain_integer s = some_digits (drop_minus s)

unfoldable pub is_plain_number : String → Bool
unfolding all_digits int_part after_point has_point
is_plain_number s =
    let rest = drop_minus s in
    some_digits (int_part rest) && (not (has_point rest) || some_digits (after_point rest))

-- `BigInt` of a plain integer: its magnitude and whether it is below 0.
digits_value : ℕ → String → ℕ
digits_value acc [] = acc
digits_value acc (c ∷ s) = digits_value (acc * 10 + (code c - b'0')) s

unfoldable pub magnitude : String → ℕ
unfolding digits_value
magnitude s = digits_value 0 (drop_minus s)

unfoldable pub big_int_equal : String → String → Bool
unfolding magnitude
big_int_equal a b =
    eqb (magnitude a) (magnitude b)
    && (eqb (magnitude a) 0 || (if is_minus a then is_minus b else not (is_minus b)))

-- `replace(/^0+(?=\d)/, "") || "0"`
abbrev next_is_digit : String → Bool
next_is_digit [] = false
next_is_digit (c ∷ s) = is_digit (code c)

strip_leading_zeros : String → String
strip_leading_zeros [] = []
strip_leading_zeros (c ∷ s) =
    let rest = strip_leading_zeros s in if eqb (code c) b'0' && next_is_digit s then rest else c ∷ s

-- `replace(/0+$/, "")`
strip_trailing_zeros : String → String
strip_trailing_zeros [] = []
strip_trailing_zeros (c ∷ s) =
    let rest = strip_trailing_zeros s in if eqb (code c) b'0' && is_empty rest then [] else c ∷ rest

abbrev or_zero : String → String
or_zero s = if is_empty s then "0" else s

unfoldable pub normalise_decimal_digits : String → String
unfolding strip_leading_zeros strip_trailing_zeros int_part after_point
normalise_decimal_digits s =
    let int = or_zero (strip_leading_zeros (int_part (drop_minus s))) in
    let frac = strip_trailing_zeros (after_point (drop_minus s)) in
    let sign = if is_minus s && not (int == "0" && is_empty frac) then "-" else "" in
    if is_empty frac
    then String.◌++◌ sign int
    else String.◌++◌ sign (String.◌++◌ int (String.◌++◌ "." frac))

module _ (js : Js) where
  unfoldable pub normalise_typed : String → String
  unfolding strip_zero_width collapse khmer_digits trim
  normalise_typed s = khmer_digits (js.to_lower (collapse (trim (js.nfc (strip_zero_width s)))))

  abbrev in_safe_range : js.Num → Bool
  in_safe_range n = js.num_le (js.abs n) js.max_safe_integer

  unfoldable pub numeric_strings_equal : String → String → Bool
  unfolding big_int_equal normalise_decimal_digits is_plain_integer
  numeric_strings_equal a b =
      if is_plain_integer a && is_plain_integer b
      then big_int_equal a b
      else if in_safe_range (js.of_text a) && in_safe_range (js.of_text b)
      then js.num_eq (js.of_text a) (js.of_text b)
      else normalise_decimal_digits a == normalise_decimal_digits b

  -- Both sides are texts in every call: the graders have tested the expected one.
  unfoldable pub typed_answer_equals : String → String → Bool
  unfolding normalise_typed numeric_strings_equal is_plain_number
  typed_answer_equals typed expected =
      let a = normalise_typed typed in
      let b = normalise_typed expected in
      if not (is_empty a) && not (is_empty b) && is_plain_number a && is_plain_number b
      then numeric_strings_equal a b
      else a == b
