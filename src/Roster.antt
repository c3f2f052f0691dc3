-- ===== src/Roster.antt =====
-- src/business/roster-refs.ts: the list of curricula that a row of a roster is stored with.
pub mod Usable
use edtech_lms_rpi_api.Prelude.{
  ℕ, ◌+◌, ◌-◌, suc, Bool, false, ◌&&◌, List, [], ◌∷◌, String, ◌==◌, if◌then◌else◌, ltb, leb, length,
  any, zero, Result, ok, err,
}
use edtech_lms_rpi_api.Prelude.Text.{is_blank, utf16_length}
use edtech_lms_rpi_api.Js.{
  Value, undefined, str, arr, obj, nil, cons, Fields, end, field, get, items,
}

-- LISTED_ROWS
abbrev pub listed_rows : ℕ
listed_rows = 10

-- What a refusal lists: the positions of the first rows (1 is the first), and how many more there are.
pub record Refusal : Type 0 where
  pub shown : List ℕ
  pub more : ℕ

abbrev take {ℓ} : {A : Type ℓ} → ℕ → List A → List A
take zero xs = []
take (suc n) [] = []
take (suc n) (x ∷ xs) = x ∷ take n xs

abbrev pub list_rows : List ℕ → Refusal
list_rows lines = record { shown = take listed_rows lines; more = length lines - listed_rows }

-- What becomes of a row: it keeps its list, gets one from its `curriculumid`, or is refused.
pub data Outcome : Type 0 where
  kept : Outcome
  given_list : String → Outcome
  missing : Outcome

-- The rows, how many of them were given a list, and the positions of those that are refused.
pub record CurriculumLists (N : Type 0) : Type 0 where
  pub rows : List (Value N)
  pub filled : ℕ
  pub lines : List ℕ

module _ {N : Type 0} where
  -- `Array.isArray(list) ? list : []`
  abbrev pub elements : Value N → List (Value N)
  elements (arr vs) = items vs
  elements _ = []

  unfoldable pub usable_list_id : Value N → Bool
  usable_list_id (str s) = ltb 0 (utf16_length s) && leb (utf16_length s) 64
  usable_list_id _ = false

  abbrev pub has_usable_list : Value N → Bool
  has_usable_list student = any usable_list_id (elements (get student "curriculumids"))

  abbrev pub assign : Fields N → String → Value N → Fields N
  assign end key v = field key v end
  assign (field k w fs) key v =
      let rest = assign fs key v in if k == key then field k v fs else field k w rest

  -- `{ ...x, [key]: v }`, for an object or a value with no properties of its own.
  abbrev pub with_property : Value N → String → Value N → Value N
  with_property (obj fs) key v = obj (assign fs key v)
  with_property _ key v = obj (field key v end)

  abbrev pub by_curriculum : Value N → Outcome
  by_curriculum (str s) = if is_blank s then missing else given_list s
  by_curriculum _ = missing

  unfoldable pub outcome : Value N → Outcome
  outcome row =
      let student = get row "student" in
      if has_usable_list student then kept else by_curriculum (get student "curriculumid")

  unfoldable pub filled_row : Value N → String → Value N
  filled_row row id =
      with_property row "student"
        (with_property (get row "student") "curriculumids" (arr (cons (str id) nil)))

  abbrev add_row : ℕ → Value N → Outcome → CurriculumLists N → CurriculumLists N
  add_row at row kept l = record { rows = row ∷ l.rows; filled = l.filled; lines = l.lines }
  add_row at row (given_list id) l = record {
    rows = filled_row row id ∷ l.rows;
    filled = suc l.filled;
    lines = l.lines;
  }
  add_row at row missing l = record {
    rows = row ∷ l.rows;
    filled = l.filled;
    lines = suc at ∷ l.lines;
  }

  unfoldable pub lists_loop : ℕ → List (Value N) → CurriculumLists N
  lists_loop at [] = record { rows = []; filled = 0; lines = [] }
  lists_loop at (row ∷ rows) = add_row at row (outcome row) (lists_loop (suc at) rows)

  -- The rows to write, with how many were given a list.
  abbrev pub rows_or_refusal : CurriculumLists N → Result Refusal (List (Value N) × ℕ)
  rows_or_refusal l =
      if ltb 0 (length l.lines) then err (list_rows l.lines) else ok (l.rows, l.filled)

  unfoldable pub with_curriculum_lists : List (Value N) → Result Refusal (List (Value N) × ℕ)
  with_curriculum_lists rows = rows_or_refusal (lists_loop 0 rows)
