-- ===== src/Prelude/Text.antt =====
-- Texts of the language: `trim`, the test for a blank text, and the length in UTF-16 code units.
-- A text is a native string, whose items are scalar values, so a lone surrogate is not modelled.
use Prim.Native.Nat.{ℕ, ◌+◌}
use Prim.Native.Char.{code}
use Prim.Native.String.{String, [], ◌∷◌}
use mathlib.Core.Path.{◌≡◌, refl}
use mathlib.Core.Bool.{Bool, true, false, ◌&&◌, ◌||◌}
use mathlib.Core.Logic.{inl, inr}
use native.Mathlib.Omega.{arith}
use edtech_lms_rpi_api.Prelude.Tests.{ltb, leb, eqb, if◌then◌else◌, Bool-cases}

-- The texts one after the other.
abbrev pub append : String → String → String
append [] t = t
append (c ∷ s) t = c ∷ append s t

abbrev pub is_empty : String → Bool
is_empty [] = true
is_empty (c ∷ s) = false

-- WhiteSpace and LineTerminator of ECMAScript, the characters that `trim` removes.
unfoldable pub is_space : ℕ → Bool
is_space c =
    (leb 9 c && leb c 13)
    || eqb c 32
    || eqb c 160
    || eqb c 0x1680
    || (leb 0x2000 c && leb c 0x200a)
    || eqb c 0x2028
    || eqb c 0x2029
    || eqb c 0x202f
    || eqb c 0x205f
    || eqb c 0x3000
    || eqb c 0xfeff

trim_start : String → String
trim_start [] = []
trim_start (c ∷ s) = let rest = trim_start s in if is_space (code c) then rest else c ∷ s

trim_end : String → String
trim_end [] = []
trim_end (c ∷ s) =
    let rest = trim_end s in if is_space (code c) && is_empty rest then [] else c ∷ rest

-- `String.prototype.trim`
unfoldable pub trim : String → String
unfolding trim_start trim_end is_space
trim s = trim_end (trim_start s)

-- `s.trim().length > 0` fails.
abbrev pub is_blank : String → Bool
is_blank s = is_empty (trim s)

-- `Array.from(s).length`
unfoldable pub char_length : String → ℕ
char_length [] = 0
char_length (c ∷ s) = 1 + char_length s

-- `String.prototype.length`
unfoldable pub utf16_length : String → ℕ
utf16_length [] = 0
utf16_length (c ∷ s) = (if ltb (code c) 0x10000 then 1 else 2) + utf16_length s

trim_end_idem : (s : String) → trim_end (trim_end s) ≡ trim_end s
unfolding trim_end
trim_end_idem [] = refl
trim_end_idem (c ∷ s) = ground (arith, trim_end_idem s)

-- The first character, if there is one, is no space.
abbrev IsStarted : String → Type 0
IsStarted [] = Unit
IsStarted (c ∷ s) = is_space (code c) ≡ false

trim_start-IsStarted : (s : String) → IsStarted (trim_start s)
unfolding trim_start
trim_start-IsStarted [] = tt
trim_start-IsStarted (c ∷ s) = elim (Bool-cases (is_space (code c))) [
  | inl space ↦ rw space (trim_start-IsStarted s)
  | inr text ↦ rw text text
]

trim_start-trim_end : (s : String) → IsStarted s → trim_start (trim_end s) ≡ trim_end s
unfolding trim_start trim_end
trim_start-trim_end [] h = refl
trim_start-trim_end (c ∷ s) h = ground arith

pub trim_idem : (s : String) → trim (trim s) ≡ trim s
unfolding trim
trim_idem s =
    rw (trim_start-trim_end (trim_start s) (trim_start-IsStarted s)) (trim_end_idem (trim_start s))

pub utf16_length-pos : (s : String) → is_blank s ≡ false → ltb 0 (utf16_length s) ≡ true
unfolding trim trim_start trim_end utf16_length
utf16_length-pos [] h = absurd (ground (arith, h))
utf16_length-pos (c ∷ s) h = ground arith
