-- ===== src/Tests/Provisioning.antt =====
-- Arguments of the provisioning command at concrete inputs.
use edtech_lms_rpi_api.Prelude.{◌≡◌, refl, none, List, [], ◌∷◌, ok, err}
use edtech_lms_rpi_api.Provisioning.{
  Raw, organisation, admin, apply, needs_value, given_twice, strip_dashes,
}
use edtech_lms_rpi_api.Provisioning.Parse.{parse_loop, has_flag}
use edtech_lms_rpi_api.Provisioning.Print.{
  Arg, joined, spaced, switch, print, meant, parse_loop-print,
}

abbrev no_args : Raw
no_args = record { given = []; on = [] }

abbrev written : List Arg
written = joined organisation "a=b" ∷ spaced admin "river" ∷ switch apply ∷ []

-- A name that every object inherits is taken for a switch and changes nothing.
parse_runs :
    (parse_loop none no_args ("--toString" ∷ []) ≡ ok no_args)
    × (parse_loop none no_args ("--admin" ∷ "--apply" ∷ []) ≡ err needs_value)
    × (parse_loop none no_args ("--admin=a" ∷ "--admin=b" ∷ []) ≡ err given_twice)
unfolding parse_loop
parse_runs = (refl, refl, refl)

parse_loop-print_example : parse_loop none no_args (print written) ≡ ok (meant no_args written)
unfolding has_flag strip_dashes
parse_loop-print_example = parse_loop-print no_args written (refl, ((refl, refl), (tt, tt)))
