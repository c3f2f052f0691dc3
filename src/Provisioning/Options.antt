-- ===== src/Provisioning/Options.antt =====
-- src/provisioning/args.ts: what the parsed arguments must be.
use edtech_lms_rpi_api.Prelude.{
  ℕ, Bool, not, ◌||◌, Option, none, some, List, [], ◌∷◌, String, ◌==◌, if◌then◌else◌, ltb, any,
  Result, ok, err, ◌>>=◌,
}
use edtech_lms_rpi_api.Prelude.Text.{trim, is_empty, is_blank, char_length}
use edtech_lms_rpi_api.Provisioning.{
  Flag, organisation, code_of, school, country, admin, teacher, class_name, content,
  credentials_file, database, reset_password, Switch, apply, allow_online, replace_school,
  switch_name, ArgError, is_required, not_a_name, too_long, bad_code, bad_reset_password,
  not_with_reset, bad_admin, bad_teacher, same_logins, Raw, is_flag,
}
use edtech_lms_rpi_api.Provisioning.Parse.{parse_loop}

-- The tests of the runtime's regular expressions, and what it does to texts.
pub record TextRules : Type 0 where
  pub nfc : String → String
  pub to_lower : String → String
  pub has_letter_or_digit : String → Bool
  pub is_forbidden_in_name : String → Bool
  pub is_username : String → Bool
  pub is_organisation_code : String → Bool

pub record ProvisionOptions : Type 0 where
  pub organisation : String
  pub code : String
  pub school : String
  pub country : Option String
  pub admin : Option String
  pub teacher : Option String
  pub class_name : Option String
  pub content : Option String
  pub credentials_file : Option String
  pub database : Option String
  pub replace_school : Bool
  pub reset_password : Option String
  pub apply : Bool
  pub allow_online : Bool

abbrev max_short_name : ℕ
max_short_name = 45

abbrev max_organisation_name : ℕ
max_organisation_name = 250

abbrev value_in : Flag → List (Flag × String) → Option String
value_in f [] = none
value_in f (e ∷ es) = if is_flag e.0 f then some e.1 else value_in f es

abbrev pub value_of : Flag → Raw → Option String
value_of f raw = value_in f raw.given

abbrev pub is_on : Switch → Raw → Bool
is_on s raw = any (λ t. switch_name t == switch_name s) raw.on

-- An option that is given and not the empty text.
abbrev pub filled : Option String → Option String
filled none = none
filled (some s) = if is_empty s then none else some s

unfoldable pub need : Flag → Raw → Result ArgError String
unfolding trim
need f raw = elim (value_of f raw) [
  | none ↦ err is_required
  | some s ↦ if is_blank s then err is_required else ok s
]

-- Refuses an option that is given.
abbrev pub without_flag : Flag → Raw → Result ArgError (Unit {0})
without_flag f raw = elim (value_of f raw) [ none ↦ ok tt | some s ↦ err not_with_reset ]

abbrev pub check : Bool → ArgError → Result ArgError (Unit {0})
check fine e = if fine then ok tt else err e

module _ (rules : TextRules) where
  open rules use {nfc, to_lower, is_username}

  unfoldable pub check_name : String → ℕ → Result ArgError String
  unfolding trim
  check_name value longest =
      let trimmed = trim (nfc value) in
      if is_empty trimmed
        || not (rules.has_letter_or_digit trimmed)
        || rules.is_forbidden_in_name trimmed
      then err not_a_name
      else if ltb longest (char_length trimmed)
      then err too_long
      else ok trimmed

  -- What both modes have in common.
  abbrev base : Raw → String → String → String → ProvisionOptions
  base raw name code school_name = record {
    organisation = name;
    code = code;
    school = school_name;
    country = none;
    admin = none;
    teacher = none;
    class_name = none;
    content = none;
    credentials_file = filled (value_of credentials_file raw);
    database = filled (value_of database raw);
    replace_school = is_on replace_school raw;
    reset_password = none;
    apply = is_on apply raw;
    allow_online = is_on allow_online raw;
  }

  unfoldable pub reset_options : Raw → String → ProvisionOptions → Result ArgError ProvisionOptions
  reset_options raw login options = check (is_username login) bad_reset_password >>= λ u.
      without_flag admin raw >>= λ u. without_flag teacher raw >>= λ u.
      without_flag class_name raw >>= λ u. without_flag content raw >>= λ u.
      without_flag country raw >>= λ u. check (not options.replace_school) not_with_reset >>= λ u.
      ok (record options { reset_password = some login })

  abbrev check_teacher : String → Option String → Result ArgError (Unit {0})
  check_teacher name none = ok tt
  check_teacher name (some other) = check (is_username other) bad_teacher >>= λ u.
      check (not (to_lower other == to_lower name)) same_logins

  abbrev check_class : Option String → Result ArgError (Option String)
  check_class none = ok none
  check_class (some s) = check_name s max_short_name >>= λ c. ok (some c)

  unfoldable pub provision_options : Raw → ProvisionOptions → Result ArgError ProvisionOptions
  unfolding need check_name
  provision_options raw options = need country raw >>= λ place. need admin raw >>= λ name.
      check (is_username name) bad_admin >>= λ u. check_teacher name (value_of teacher raw) >>= λ u.
      check_class (value_of class_name raw) >>= λ group. ok (record options {
        country = some (trim (nfc place));
        admin = some name;
        teacher = value_of teacher raw;
        class_name = group;
        content = filled (value_of content raw);
      })

  unfoldable pub parse_args : List String → Result ArgError ProvisionOptions
  unfolding parse_loop need check_name reset_options provision_options
  parse_args argv = parse_loop none (record { given = []; on = [] }) argv >>= λ raw.
      need organisation raw >>= λ given_name.
      check_name given_name max_organisation_name >>= λ name. need code_of raw >>= λ code.
      check (rules.is_organisation_code code) bad_code >>= λ u. need school raw >>= λ given_school.
      check_name given_school max_short_name >>= λ school_name. elim (value_of reset_password raw) [
        | some login ↦ reset_options raw login (base raw name code school_name)
        | none ↦ provision_options raw (base raw name code school_name)
      ]
