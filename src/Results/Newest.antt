-- ===== src/Results/Newest.antt =====
-- The newest and the oldest attempt when one more is stored (src/business/result.business.ts).
use mathlib.Core.Path.{fun_ext}
use edtech_lms_rpi_api.Prelude.{
  ℕ, ◌≡◌, refl, inl, inr, Bool, true, false, ◌&&◌, none, some, List, [], ◌∷◌, ◌++◌, String, eqb,
  leb, any, every, filter, find, arith, Bool-cases, &&-eq-true,
}
use edtech_lms_rpi_api.Rewards.{change}
use edtech_lms_rpi_api.Results.{
  Attempt, Config, changed_points, is_try, is_counted_pass, newest, oldest, get_old_points,
  get_pass_old_points,
}
use edtech_lms_rpi_api.Results.Save.{has_key}

module _ {A : Type 0} (p : A → Bool) where
  pub find-any : (xs : List A) → any p xs ≡ true → (x : A) × (find p xs ≡ some x)
  find-any [] h = ground arith
  find-any (y ∷ xs) h = elim (Bool-cases (p y)) [
    | inl e ↦ (y, rw e refl)
    | inr e ↦ rw e (find-any xs (rw e at h))
  ]

  pub any-append_last : (xs : List A) (x : A) → p x ≡ true → any p (xs ++ x ∷ []) ≡ true
  any-append_last [] x h = rw h refl
  any-append_last (y ∷ xs) x h = ground (arith, any-append_last xs x h)

  pub any-find : (xs : List A) (x : A) → find p xs ≡ some x → any p xs ≡ true
  any-find [] x h = ground arith
  any-find (y ∷ xs) x h = ground (arith, any-find xs x)

  pub any-last : (xs : List A) (x : A) → any p xs ≡ false → any p (xs ++ x ∷ []) ≡ p x
  any-last [] x h = ground arith
  any-last (y ∷ xs) x h = ground (arith, any-last xs x)

  -- Only the last item passes the test, and changing it has no effect.
  pub change-last :
      (f : A → A) (xs : List A) (x : A)
      → any p xs ≡ false
      → f x ≡ x
      → change p f (xs ++ x ∷ []) ≡ xs ++ x ∷ []
  unfolding change
  change-last f [] x h e = elim (Bool-cases (p x)) [ inl q ↦ rw (q, e) refl | inr q ↦ rw q refl ]
  change-last f (y ∷ xs) x h e = ground (arith, change-last f xs x)

  filter-last :
      (xs : List A) (x : A) → any p xs ≡ false → p x ≡ true → filter p (xs ++ x ∷ []) ≡ x ∷ []
  filter-last [] x h e = rw e refl
  filter-last (y ∷ xs) x h e = ground (arith, filter-last xs x)

  filter-append_last :
      (xs : List A) (x : A) → p x ≡ true → filter p (xs ++ x ∷ []) ≡ filter p xs ++ x ∷ []
  filter-append_last [] x e = rw e refl
  filter-append_last (y ∷ xs) x e = ground (arith, filter-append_last xs x e)

-- An attempt that is dated after the others is the newest.
newest-last :
    (p : Attempt → Bool) (rows : List Attempt) (a : Attempt)
    → every (λ b. leb b.starttime a.starttime) (filter p rows) ≡ true
    → find (λ b. p b && eqb b.starttime a.starttime) rows ≡ none
    → newest (filter p rows ++ a ∷ []) ≡ some a
unfolding newest
newest-last p [] a h k = refl
newest-last p (b ∷ rows) a h k = elim (Bool-cases (p b)) [
  | inl q ↦
      let (first, rest) =
        &&-eq-true (leb b.starttime a.starttime)
          (every (λ c. leb c.starttime a.starttime) (filter p rows)) (rw q at h) in
      elim (Bool-cases (eqb b.starttime a.starttime)) [
        | inl same_time ↦ absurd (ground (arith, rw (q, same_time) at k))
        | inr other ↦
            let later : leb a.starttime b.starttime ≡ false = ground (arith, first, other) in
            rw q (rw (newest-last p rows a rest (rw (q, other) at k)) (rw later refl))
      ]
  | inr q ↦ rw q (newest-last p rows a (rw q at h) (rw q at k))
]

-- How the database compares two ids: ids that it takes for equal may replace each other.
pub record IsEquality (same : String → String → Bool) : Type 0 where
  pub reflexive : (a : String) → same a a ≡ true
  pub replaceable : (a b c : String) → same b c ≡ true → same a b ≡ same a c

changed_points-same :
    (points : ℕ) (a : Attempt) → a.points ≡ some points → changed_points points (some a) ≡ none
changed_points-same points a e =
    let alike : eqb points points ≡ true = ground arith in rw e (rw alike refl)

module _ (same : String → String → Bool) (equal : IsEquality same) where
  is_try-replaced :
      (studentid a b : String) → same a b ≡ true → is_try same studentid a ≡ is_try same studentid b
  is_try-replaced studentid a b e =
      fun_ext (λ row. rw (equal.replaceable row.studentprogressreferenceid a b e) refl)

  pub is_counted_pass-replaced :
      (config : Config) (gated : Bool) (studentid a b : String)
      → same a b ≡ true
      → is_counted_pass same config gated studentid a
        ≡ is_counted_pass same config gated studentid b
  is_counted_pass-replaced config gated studentid a b e =
      fun_ext (λ row. rw (equal.replaceable row.studentprogressreferenceid a b e) refl)

  -- The oldest pass has the activity's points.
  pub get_pass_old_points-none :
      (config : Config) (studentid wanted reference : String) (points : ℕ) (rows : List Attempt)
      (a : Attempt)
      → same reference wanted ≡ true
      → any (is_counted_pass same config true studentid wanted) rows ≡ false
      → is_counted_pass same config true studentid wanted a ≡ true
      → a.points ≡ some points
      → get_pass_old_points same config studentid reference points (rows ++ a ∷ []) ≡ none
  unfolding get_pass_old_points oldest
  get_pass_old_points-none config studentid wanted reference points rows a e n mine h =
      rw
        (
          is_counted_pass-replaced config true studentid reference wanted e,
          filter-last (is_counted_pass same config true studentid wanted) rows a n mine,
        )
        (changed_points-same points a h)

  -- The newest attempt has the activity's points.
  pub get_old_points-none :
      (studentid wanted reference : String) (starttime points : ℕ) (rows : List Attempt)
      (a : Attempt)
      → same reference wanted ≡ true
      → a.starttime ≡ starttime
      → every (λ b. leb b.starttime starttime) (filter (is_try same studentid wanted) rows) ≡ true
      → find (has_key same studentid wanted starttime) rows ≡ none
      → is_try same studentid wanted a ≡ true
      → a.points ≡ some points
      → get_old_points same studentid reference points (rows ++ a ∷ []) ≡ none
  unfolding get_old_points newest
  get_old_points-none studentid wanted reference starttime points rows a e t early gone mine h =
      let p = is_try same studentid wanted in
      rw
        (
          is_try-replaced studentid reference wanted e,
          filter-append_last p rows a mine,
          newest-last p rows a (rw t early) (rw t gone),
        )
        (changed_points-same points a h)
