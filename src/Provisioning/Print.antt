-- ===== src/Provisioning/Print.antt =====
-- Arguments that are written and parsed again (src/provisioning/args.ts).
use Prim.Native.String.{[], ◌∷◌}
use edtech_lms_rpi_api.Prelude.{
  ◌≡◌, refl, ap, ◌∙◌, true, false, none, some, List, [], ◌∷◌, ◌++◌, String, ok,
}
use edtech_lms_rpi_api.Prelude.Text.{append}
use edtech_lms_rpi_api.Provisioning.{
  Flag, organisation, code_of, school, country, admin, teacher, class_name, content,
  credentials_file, database, reset_password, Switch, apply, allow_online, replace_school,
  flag_name, switch_name, flags, switches, named, Raw, strip_dashes, split_eq,
}
use edtech_lms_rpi_api.Provisioning.Parse.{
  parse_loop, has_flag, go, await, read_switch, read_flag, read_option, read_arg, with_flag,
  with_switch, is_switch_name,
}

-- An argument as an operator means it: a value behind `=` or as the next word, or a switch.
pub data Arg : Type 0 where
  joined : Flag → String → Arg
  spaced : Flag → String → Arg
  switch : Switch → Arg

abbrev pub words_of : Arg → List String
words_of (joined f v) = append "--" (append (flag_name f) (append "=" v)) ∷ []
words_of (spaced f v) = append "--" (flag_name f) ∷ v ∷ []
words_of (switch s) = append "--" (switch_name s) ∷ []

unfoldable pub print : List Arg → List String
print [] = []
print (a ∷ args) = words_of a ++ print args

abbrev pub meaning : Arg → Raw → Raw
meaning (joined f v) raw = with_flag f v raw
meaning (spaced f v) raw = with_flag f v raw
meaning (switch s) raw = with_switch (some s) raw

unfoldable pub meant : Raw → List Arg → Raw
meant raw [] = raw
meant raw (a ∷ args) = meant (meaning a raw) args

-- The flag is not given before, and a value that is a word of its own does not start with two dashes.
abbrev pub IsFine : Raw → Arg → Type 0
IsFine raw (joined f v) = has_flag f raw ≡ false
IsFine raw (spaced f v) = (has_flag f raw ≡ false) × (strip_dashes v ≡ none)
IsFine raw (switch s) = Unit

abbrev pub AllFine : Raw → List Arg → Type 0
AllFine raw [] = Unit
AllFine raw (a ∷ args) = IsFine raw a × AllFine (meaning a raw) args

split_joined :
    (f : Flag) (v : String) → split_eq (append (flag_name f) (append "=" v)) ≡ (flag_name f, some v)
unfolding split_eq
split_joined organisation v = refl
split_joined code_of v = refl
split_joined school v = refl
split_joined country v = refl
split_joined admin v = refl
split_joined teacher v = refl
split_joined class_name v = refl
split_joined content v = refl
split_joined credentials_file v = refl
split_joined database v = refl
split_joined reset_password v = refl

split_alone : (f : Flag) → split_eq (flag_name f) ≡ (flag_name f, none)
unfolding split_eq
split_alone organisation = refl
split_alone code_of = refl
split_alone school = refl
split_alone country = refl
split_alone admin = refl
split_alone teacher = refl
split_alone class_name = refl
split_alone content = refl
split_alone credentials_file = refl
split_alone database = refl
split_alone reset_password = refl

named_flag : (f : Flag) → named flag_name (flag_name f) flags ≡ some f
unfolding named
named_flag organisation = refl
named_flag code_of = refl
named_flag school = refl
named_flag country = refl
named_flag admin = refl
named_flag teacher = refl
named_flag class_name = refl
named_flag content = refl
named_flag credentials_file = refl
named_flag database = refl
named_flag reset_password = refl

flag_no_switch : (f : Flag) → is_switch_name (flag_name f) ≡ false
unfolding is_switch_name
flag_no_switch organisation = refl
flag_no_switch code_of = refl
flag_no_switch school = refl
flag_no_switch country = refl
flag_no_switch admin = refl
flag_no_switch teacher = refl
flag_no_switch class_name = refl
flag_no_switch content = refl
flag_no_switch credentials_file = refl
flag_no_switch database = refl
flag_no_switch reset_password = refl

split_switch : (s : Switch) → split_eq (switch_name s) ≡ (switch_name s, none)
unfolding split_eq
split_switch apply = refl
split_switch allow_online = refl
split_switch replace_school = refl

named_switch : (s : Switch) → named switch_name (switch_name s) switches ≡ some s
unfolding named
named_switch apply = refl
named_switch allow_online = refl
named_switch replace_school = refl

switch_is_one : (s : Switch) → is_switch_name (switch_name s) ≡ true
unfolding is_switch_name
switch_is_one apply = refl
switch_is_one allow_online = refl
switch_is_one replace_school = refl

read_joined :
    (raw : Raw) (f : Flag) (v : String)
    → has_flag f raw ≡ false
    → read_arg raw (append "--" (append (flag_name f) (append "=" v))) ≡ go (with_flag f v raw)
unfolding read_arg read_option read_flag
read_joined raw f v h =
    ap (read_option raw) (split_joined f v)
    ∙ rw (flag_no_switch f) (ap (λ n. read_flag raw n (some v)) (named_flag f) ∙ rw h refl)

read_alone :
    (raw : Raw) (f : Flag)
    → has_flag f raw ≡ false
    → read_arg raw (append "--" (flag_name f)) ≡ await f
unfolding read_arg read_option read_flag
read_alone raw f h =
    ap (read_option raw) (split_alone f)
    ∙ rw (flag_no_switch f) (ap (λ n. read_flag raw n none) (named_flag f) ∙ rw h refl)

read_on :
    (raw : Raw) (s : Switch)
    → read_arg raw (append "--" (switch_name s)) ≡ go (with_switch (some s) raw)
unfolding read_arg read_option read_switch
read_on raw s =
    ap (read_option raw) (split_switch s)
    ∙ rw (switch_is_one s) (ap (λ n. go (with_switch n raw)) (named_switch s))

awaited :
    (raw : Raw) (f : Flag) (arg : String) (args : List String)
    → read_arg raw arg ≡ await f
    → parse_loop none raw (arg ∷ args) ≡ parse_loop (some f) raw args
unfolding parse_loop
awaited raw f arg args h = rw (h, parse_loop) refl

taken :
    (raw : Raw) (f : Flag) (v : String) (args : List String)
    → strip_dashes v ≡ none
    → parse_loop (some f) raw (v ∷ args) ≡ parse_loop none (with_flag f v raw) args
unfolding parse_loop
taken raw f v args h = rw (h, parse_loop) refl

parse_printed :
    (raw : Raw) (a : Arg) (rest : List String)
    → IsFine raw a
    → parse_loop none raw (words_of a ++ rest) ≡ parse_loop none (meaning a raw) rest
unfolding parse_loop
parse_printed raw (joined f v) rest h = rw (read_joined raw f v h, parse_loop) refl
parse_printed raw (spaced f v) rest h =
    awaited raw f (append "--" (flag_name f)) (v ∷ rest) (read_alone raw f h.0)
    ∙ taken raw f v rest h.1
parse_printed raw (switch s) rest h = rw (read_on raw s, parse_loop) refl

-- Arguments that are written out, with `=` or as two words, and parsed again are read as they are meant,
-- each in its turn: when no option is given twice, and no value that is a word of its own starts with two
-- dashes.
pub parse_loop-print :
    (raw : Raw) (args : List Arg)
    → AllFine raw args
    → parse_loop none raw (print args) ≡ ok (meant raw args)
unfolding parse_loop print meant
parse_loop-print raw [] h = refl
parse_loop-print raw (a ∷ args) h =
    parse_printed raw a (print args) h.0 ∙ parse_loop-print (meaning a raw) args h.1
