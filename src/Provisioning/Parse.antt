-- ===== src/Provisioning/Parse.antt =====
-- src/provisioning/args.ts: parseArgs.
use edtech_lms_rpi_api.Prelude.{
  Bool, ◌||◌, Option, none, some, List, [], ◌∷◌, String, ◌==◌, if◌then◌else◌, any, Result, ok, err,
}
use edtech_lms_rpi_api.Provisioning.{
  Flag, Switch, flag_name, switch_name, flags, switches, named, inherited, ArgError, unexpected,
  takes_no_value, unknown_option, given_twice, needs_value, Raw, is_flag, strip_dashes, split_eq,
}

unfoldable pub has_flag : Flag → Raw → Bool
has_flag f raw = any (λ e. is_flag e.0 f) raw.given

abbrev pub with_flag : Flag → String → Raw → Raw
with_flag f value raw = record raw { given = (f, value) ∷ raw.given }

-- A name that the switches inherit changes nothing that is read.
abbrev pub with_switch : Option Switch → Raw → Raw
with_switch none raw = raw
with_switch (some s) raw = record raw { on = s ∷ raw.on }

unfoldable pub is_switch_name : String → Bool
is_switch_name name = any (λ s. switch_name s == name) switches || any (λ n. n == name) inherited

-- What an argument does when no value is awaited.
pub data ArgStep : Type 0 where
  stop : ArgError → ArgStep
  go : Raw → ArgStep
  await : Flag → ArgStep

unfoldable pub read_switch : Raw → String → Option String → ArgStep
unfolding named
read_switch raw name none = go (with_switch (named switch_name name switches) raw)
read_switch raw name (some v) = stop takes_no_value

unfoldable pub read_flag : Raw → Option Flag → Option String → ArgStep
unfolding has_flag
read_flag raw none value = stop unknown_option
read_flag raw (some f) none = if has_flag f raw then stop given_twice else await f
read_flag raw (some f) (some v) =
    if has_flag f raw then stop given_twice else go (with_flag f v raw)

unfoldable pub read_option : Raw → String × Option String → ArgStep
unfolding is_switch_name named read_switch read_flag
read_option raw (name, value) =
    if is_switch_name name
    then read_switch raw name value
    else read_flag raw (named flag_name name flags) value

unfoldable pub read_arg : Raw → String → ArgStep
unfolding strip_dashes split_eq read_option
read_arg raw arg = elim (strip_dashes arg) [
  | none ↦ stop unexpected
  | some text ↦ read_option raw (split_eq text)
]

-- The loop over the arguments; `pending` is the option whose value comes next.
unfoldable pub parse_loop : Option Flag → Raw → List String → Result ArgError Raw
unfolding strip_dashes read_arg
parse_loop none raw [] = ok raw
parse_loop (some f) raw [] = err needs_value
parse_loop (some f) raw (arg ∷ args) = elim (strip_dashes arg) [
  | some text ↦ err needs_value
  | none ↦ parse_loop none (with_flag f arg raw) args
]
parse_loop none raw (arg ∷ args) = elim (read_arg raw arg) [
  | stop e ↦ err e
  | go after ↦ parse_loop none after args
  | await f ↦ parse_loop (some f) raw args
]
