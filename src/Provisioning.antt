-- ===== src/Provisioning.antt =====
-- src/provisioning/args.ts: the arguments of the provisioning command.
pub mod Parse
pub mod Options
pub mod Print
use Prim.Native.Char.{code}
use Prim.Native.String.{[], ◌∷◌}
use edtech_lms_rpi_api.Prelude.{
  ℕ, suc, Bool, true, false, not, ◌&&◌, ◌||◌, Option, none, some, List, [], ◌∷◌, String, ◌==◌,
  if◌then◌else◌, eqb, any,
}

-- The options with a value, and the switches.
pub data Flag : Type 0 where
  organisation code_of school country admin teacher class_name content credentials_file database
        reset_password :
      Flag

pub data Switch : Type 0 where
  apply allow_online replace_school : Switch

abbrev pub flag_name : Flag → String
flag_name organisation = "organisation"
flag_name code_of = "code"
flag_name school = "school"
flag_name country = "country"
flag_name admin = "admin"
flag_name teacher = "teacher"
flag_name class_name = "class"
flag_name content = "content"
flag_name credentials_file = "credentials-file"
flag_name database = "database"
flag_name reset_password = "reset-password"

abbrev pub switch_name : Switch → String
switch_name apply = "apply"
switch_name allow_online = "i-know-this-is-online"
switch_name replace_school = "replace-school"

abbrev pub flags : List Flag
flags =
    organisation ∷ code_of ∷ school ∷ country ∷ admin ∷ teacher ∷ class_name ∷ content
    ∷ credentials_file ∷ database ∷ reset_password ∷ []

abbrev pub switches : List Switch
switches = apply ∷ allow_online ∷ replace_school ∷ []

-- VALUE_FLAGS and SWITCHES, by their own properties.
unfoldable pub named {ℓ} : {A : Type ℓ} → (A → String) → String → List A → Option A
named name_of name [] = none
named name_of name (a ∷ rest) = if name_of a == name then some a else named name_of name rest

-- What an object literal inherits: `in` is true for these names, too.
abbrev pub inherited : List String
inherited =
    "constructor" ∷ "__defineGetter__" ∷ "__defineSetter__" ∷ "hasOwnProperty" ∷ "__lookupGetter__"
    ∷ "__lookupSetter__" ∷ "isPrototypeOf" ∷ "propertyIsEnumerable" ∷ "toString" ∷ "valueOf"
    ∷ "__proto__" ∷ "toLocaleString" ∷ []

pub data ArgError : Type 0 where
  unexpected takes_no_value unknown_option given_twice needs_value is_required not_a_name too_long
        bad_code bad_reset_password not_with_reset bad_admin bad_teacher same_logins :
      ArgError

-- What was given: `raw`.
pub record Raw : Type 0 where
  pub given : List (Flag × String)
  pub on : List Switch

-- Two flags are the same if their names are.
abbrev pub is_flag : Flag → Flag → Bool
is_flag f g = flag_name f == flag_name g

-- What stands behind two dashes.
unfoldable pub strip_dashes : String → Option String
strip_dashes [] = none
strip_dashes (c ∷ []) = none
strip_dashes (c ∷ d ∷ s) = if eqb (code c) 45 && eqb (code d) 45 then some s else none

-- What stands before the first `=` and, if there is one, behind it.
unfoldable pub split_eq : String → String × Option String
split_eq [] = ([], none)
split_eq (c ∷ s) =
    let (name, value) = split_eq s in if eqb (code c) 61 then ([], some s) else (c ∷ name, value)
