-- ===== src/Prelude/Sets.antt =====
-- Lists of texts, and JavaScript's `Set` of texts as the list of its members in insertion order.
use Prim.Native.Nat.{suc, ◌≤◌}
use Prim.Native.String.{String}
use mathlib.Core.Path.{◌≡◌, refl, ap, ◌∙◌}
use mathlib.Core.Logic.{◌↔◌, inl, inr}
use mathlib.Core.Bool.{Bool, true, false, not, ◌&&◌, ◌||◌}
use mathlib.Core.List.{List, [], ◌∷◌}
use native.Mathlib.Omega.{arith}
use text.Mathlib.Text.{◌==◌}
use text.Mathlib.TextEquality.{eq_iff}
use edtech_lms_rpi_api.Prelude.Tests.{if◌then◌else◌, Bool-cases}
use edtech_lms_rpi_api.Prelude.Lists.{length, filter}

-- `Set.prototype.has`, and `Array.prototype.includes`.
unfoldable pub contains : List String → String → Bool
contains [] a = false
contains (x ∷ xs) a = x == a || contains xs a

unfoldable pub without : String → List String → List String
without a [] = []
without a (x ∷ xs) = let rest = without a xs in if x == a then rest else x ∷ rest

-- `new Set(xs)`: each text once, at its first position.
unfoldable pub set_of : List String → List String
unfolding without
set_of [] = []
set_of (x ∷ xs) = x ∷ without x (set_of xs)

unfoldable pub IsNodup : List String → Type 0
IsNodup [] = Unit
IsNodup (x ∷ xs) = (contains xs x ≡ false) × IsNodup xs

abbrev pub IsSubset : List String → List String → Type 0
IsSubset xs ys = (a : String) → contains xs a ≡ true → contains ys a ≡ true

pub ==_self : (a : String) → (a == a) ≡ true
==_self a = (eq_iff a a).1 refl

pub contains-cons_self : (a : String) (xs : List String) → contains (a ∷ xs) a ≡ true
unfolding contains
contains-cons_self a xs = ground (arith, ==_self a)

pub contains-without :
    (a b : String) (xs : List String) → contains (without a xs) b ≡ (not (a == b) && contains xs b)
unfolding contains without
contains-without a b [] = ground arith
contains-without a b (x ∷ xs) =
    ground (arith, contains-without a b xs, eq_iff a b, eq_iff x a, eq_iff x b)

pub length-without-le : (a : String) (xs : List String) → length (without a xs) ≤ length xs
unfolding without
length-without-le a [] = omega arith
length-without-le a (x ∷ xs) = ground (arith, length-without-le a xs)

without-IsNodup : (a : String) (xs : List String) → IsNodup xs → IsNodup (without a xs)
unfolding IsNodup without
without-IsNodup a [] h = tt
without-IsNodup a (x ∷ xs) h =
    ground (arith, without-IsNodup a xs h.1, contains-without a x xs, eq_iff a x)

without-eq : (a : String) (xs : List String) → contains xs a ≡ false → without a xs ≡ xs
unfolding contains without
without-eq a [] h = refl
without-eq a (x ∷ xs) h = ground (arith, without-eq a xs)

pub length-without :
    (a : String) (xs : List String)
    → IsNodup xs
    → contains xs a ≡ true
    → length xs ≡ suc (length (without a xs))
unfolding IsNodup contains without
length-without a [] n h = ground arith
length-without a (x ∷ xs) n h = ground (arith, length-without a xs n.1, without-eq a xs, eq_iff x a)

pub contains-set_of : (xs : List String) (a : String) → contains (set_of xs) a ≡ contains xs a
unfolding contains set_of
contains-set_of [] a = refl
contains-set_of (x ∷ xs) a = ground (arith, contains-set_of xs a, contains-without x a (set_of xs))

pub set_of-IsNodup : (xs : List String) → IsNodup (set_of xs)
unfolding set_of IsNodup
set_of-IsNodup [] = tt
set_of-IsNodup (x ∷ xs) = (
  ground (arith, contains-without x x (set_of xs), ==_self x),
  without-IsNodup x (set_of xs) (set_of-IsNodup xs),
)

pub length-set_of-le : (xs : List String) → length (set_of xs) ≤ length xs
unfolding set_of
length-set_of-le [] = omega arith
length-set_of-le (x ∷ xs) = omega (arith, length-set_of-le xs, length-without-le x (set_of xs))

-- The test `new Set(xs).size === xs.length` says that nothing is repeated.
pub length-set_of_iff : (xs : List String) → (length (set_of xs) ≡ length xs) ↔ IsNodup xs
unfolding set_of IsNodup
length-set_of_iff [] = (λ _. tt, λ _. refl)
length-set_of_iff (x ∷ xs) = (
  λ e.
      let fresh : contains (set_of xs) x ≡ false = elim (Bool-cases (contains (set_of xs) x)) [
        | inl seen ↦ absurd (
            omega (
              arith,
              length-without x (set_of xs) (set_of-IsNodup xs) seen,
              length-set_of-le xs,
              e,
            ))
        | inr fresh ↦ fresh
      ] in
      (
        rw (← contains-set_of xs x) fresh,
        (length-set_of_iff xs).0
            (omega (arith, e, length-without-le x (set_of xs), length-set_of-le xs)),
      ),
  λ n. ap suc (
      ap length (without-eq x (set_of xs) (contains-set_of xs x ∙ n.0))
      ∙ (length-set_of_iff xs).1 n.1),
)

pub length-without-lt :
    (a : String) (xs : List String) → contains xs a ≡ true → suc (length (without a xs)) ≤ length xs
unfolding contains without
length-without-lt a [] h = ground arith
length-without-lt a (x ∷ xs) h = ground (arith, length-without-lt a xs, length-without-le a xs)

subset-without :
    (x : String) (xs ys : List String)
    → contains xs x ≡ false
    → IsSubset (x ∷ xs) ys
    → IsSubset xs (without x ys)
unfolding contains
subset-without x xs ys fresh s a h = ground (arith, contains-without x a ys, eq_iff x a, s a)

subset-cons : (x : String) (xs ys : List String) → IsSubset (without x ys) xs → IsSubset ys (x ∷ xs)
unfolding contains
subset-cons x xs ys s a h = ground (arith, contains-without x a ys, s a)

-- Pigeonhole: a list without repetitions inside another is no longer than it.
pub length-le_of_subset :
    (xs ys : List String) → IsNodup xs → IsSubset xs ys → length xs ≤ length ys
unfolding IsNodup
length-le_of_subset [] ys n s = omega arith
length-le_of_subset (x ∷ xs) ys n s =
    let rest : IsSubset xs (without x ys) = λ a h. subset-without x xs ys n.0 s a h in
    omega (
      arith,
      length-le_of_subset xs (without x ys) n.1 rest,
      length-without-lt x ys (s x (contains-cons_self x xs)),
    )

IsNodup-of_without :
    (a : String) (xs : List String)
    → IsNodup (without a xs)
    → length xs ≤ suc (length (without a xs))
    → IsNodup xs
unfolding IsNodup contains without
IsNodup-of_without a [] n h = tt
IsNodup-of_without a (x ∷ xs) n h = elim (Bool-cases (x == a)) [
  | inl same ↦
      let fresh : contains xs a ≡ false = ground (arith, length-without-lt a xs) in
      let whole = without-eq a xs fresh in (rw ((eq_iff x a).0 same) fresh, ground (arith, whole))
  | inr other ↦ (
    ground (arith, contains-without a x xs, eq_iff a x, eq_iff x a),
    IsNodup-of_without a xs (ground arith) (ground arith),
  )
]

-- If it is as long, the two have the same members, and the other has no repetitions either.
pub subset_of_length-eq :
    (xs ys : List String)
    → IsNodup xs
    → IsSubset xs ys
    → length ys ≤ length xs
    → IsSubset ys xs × IsNodup ys
unfolding IsNodup
subset_of_length-eq [] [] n s e = (λ a h. h, tt)
subset_of_length-eq [] (y ∷ ys) n s e = absurd (omega arith)
subset_of_length-eq (x ∷ xs) ys n s e =
    let rest : IsSubset xs (without x ys) = λ a h. subset-without x xs ys n.0 s a h in
    let shorter = length-without-lt x ys (s x (contains-cons_self x xs)) in
    let (back, nodup) = subset_of_length-eq xs (without x ys) n.1 rest (omega arith) in
    let long = length-le_of_subset xs (without x ys) n.1 rest in
    (λ a h. subset-cons x xs ys back a h, IsNodup-of_without x ys nodup (omega arith))

pub contains-filter :
    (p : String → Bool) (xs : List String) (a : String)
    → contains (filter p xs) a ≡ (p a && contains xs a)
unfolding contains
contains-filter p [] a = ground arith
contains-filter p (x ∷ xs) a = elim (Bool-cases (x == a)) [
  | inl same ↦ rw ((eq_iff x a).0 same) (ground (arith, contains-filter p xs a))
  | inr other ↦ ground (arith, contains-filter p xs a)
]

pub filter-IsNodup : (p : String → Bool) (xs : List String) → IsNodup xs → IsNodup (filter p xs)
unfolding IsNodup
filter-IsNodup p [] n = tt
filter-IsNodup p (x ∷ xs) n = elim (Bool-cases (p x)) [
  | inl kept ↦ rw kept (contains-filter p xs x ∙ ground arith, filter-IsNodup p xs n.1)
  | inr dropped ↦ rw dropped (filter-IsNodup p xs n.1)
]
