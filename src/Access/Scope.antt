-- ===== src/Access/Scope.antt =====
-- Whose curricula the content that a caller may see belongs to (src/business/content-access.ts).
use edtech_lms_rpi_api.Prelude.{
  ◌≡◌, ◌∙◌, sym, inl, inr, Bool, true, Option, none, some, List, [], ◌∷◌, map, String, ◌==◌, eq_iff,
  arith, any, contains, ==_self, contains-set_of, Bool-cases, Option-cases,
}
use edtech_lms_rpi_api.Js.{Js}
use edtech_lms_rpi_api.Access.{
  ContentKind, Token, Caller, ContentDb, column, usable, present, caller_of, lowered,
  SchoolOwnership, curriculum_ids_of,
}
use edtech_lms_rpi_api.Access.Visible.{
  owned_of, curricula_in_scope, list_of_owned, school_curriculum_list, candidates_of, studentid_of,
  curriculum_ids_in_scope, can_access_content,
}

-- An element that passes a test.
any-contains :
    (p : String → Bool) (xs : List String)
    → any p xs ≡ true
    → (x : String) × (contains xs x ≡ true) × (p x ≡ true)
unfolding contains
any-contains p [] h = ground arith
any-contains p (x ∷ xs) h = elim (Bool-cases (p x)) [
  | inl here ↦ (x, ground (arith, ==_self x), here)
  | inr other ↦ let (y, k, e) = any-contains p xs (ground arith) in (y, ground arith, e)
]

-- What a list that is mapped contains is the image of what the list contains.
contains-map :
    (f : String → String) (xs : List String) (b : String)
    → contains (map f xs) b ≡ true
    → (x : String) × (contains xs x ≡ true) × (f x ≡ b)
unfolding contains
contains-map f [] b h = ground arith
contains-map f (x ∷ xs) b h = elim (Bool-cases (f x == b)) [
  | inl here ↦ (x, ground (arith, ==_self x), (eq_iff (f x) b).0 here)
  | inr other ↦ let (y, k, e) = contains-map f xs b (ground arith) in (y, ground arith, e)
]

contains-usable :
    (xs : List String) (a : String)
    → contains (present (map (λ c. usable (some c)) xs)) a ≡ true
    → contains xs a ≡ true
unfolding contains usable
contains-usable [] a h = ground arith
contains-usable (x ∷ xs) a h = ground (arith, contains-usable xs a)

module _ (js : Js) (db : ContentDb js.Num) (IsOwnedBy : String → String → Type 0) where
  -- What the query for the curricula of an organisation promises: a row that it returns is of the
  -- organisation, and its id is, in lower case, one of those that are asked for.
  pub record IsOwnedQuery : Type 0 where
    pub rows_are_owned :
        (wanted : List String) (organisationid id : String)
        → contains (present (map column (db.owned_curricula wanted organisationid))) id ≡ true
        → IsOwnedBy organisationid id
    pub rows_are_wanted :
        (wanted : List String) (organisationid id : String)
        → contains (present (map column (db.owned_curricula wanted organisationid))) id ≡ true
        → (w : String) × (contains wanted w ≡ true) × (js.to_lower w ≡ js.to_lower id)

  -- The id is, in lower case, one that the organisation owns and that the list has.
  pub data IsVisible (organisationid : String) (listed : List String) (c : String) : Type 0 where
    visible :
        (v w : String)
        → IsOwnedBy organisationid v
        → contains listed w ≡ true
        → js.to_lower v ≡ js.to_lower c
        → js.to_lower w ≡ js.to_lower c
        → IsVisible organisationid listed c

  module _ (q : IsOwnedQuery) where
    owned_sound :
        (o : String) (wanted : List String) (v : String)
        → contains (owned_of js db o wanted) v ≡ true
        → IsOwnedBy o v
          × ((w : String) × (contains wanted w ≡ true) × (js.to_lower w ≡ js.to_lower v))
    unfolding contains
    owned_sound o [] v h = ground arith
    owned_sound o (x ∷ xs) v h = (q.rows_are_owned (x ∷ xs) o v h, q.rows_are_wanted (x ∷ xs) o v h)

    in_scope_sound :
        (o : String) (candidates : List String) (v : String)
        → contains (curricula_in_scope js db o none candidates) v ≡ true
        → IsOwnedBy o v
          × ((w : String) × (contains candidates w ≡ true) × (js.to_lower w ≡ js.to_lower v))
    unfolding curricula_in_scope
    in_scope_sound o candidates v h =
        let (owned, (w, k, e)) = owned_sound o _ v h in
        (owned, (w, contains-usable candidates w (sym (contains-set_of _ w) ∙ k), e))

    visible_sound :
        (user : Option Token) (caller : Caller) (v : String)
        → caller_of user ≡ some caller
        → contains (curriculum_ids_in_scope js db user) v ≡ true
        → IsOwnedBy caller.organisationid v
          × ((w : String) × (contains (candidates_of js db user caller (studentid_of js db user)) w
                ≡ true)
              × (js.to_lower w ≡ js.to_lower v))
    unfolding curriculum_ids_in_scope
    visible_sound user caller v e h =
        in_scope_sound caller.organisationid _ v (rw (e, curriculum_ids_in_scope) at h)

    IsVisible-of :
        {o : String} {listed : List String} {c : String} (v w : String)
        → IsOwnedBy o v
        → contains listed w ≡ true
        → js.to_lower v ≡ js.to_lower c
        → js.to_lower w ≡ js.to_lower v
        → IsVisible o listed c
    IsVisible-of v w owned listed same again = visible v w owned listed same (again ∙ same)

    -- If the query for the curricula of an organisation returns what it is asked for, content that a
    -- caller may see has a curriculum that the caller's organisation owns and that is in the list the
    -- caller is judged by: the school's list for staff, the learner's own for others.
    pub can_access_content-IsVisible :
        (user : Option Token) (kind : ContentKind) (id : Option String)
        → can_access_content js db user kind id ≡ true
        → (caller : Caller) × (caller_of user ≡ some caller)
          × ((c : String) × (contains (curriculum_ids_of js db true kind id) c ≡ true)
              × IsVisible caller.organisationid
                  (candidates_of js db user caller (studentid_of js db user))
                  c)
    unfolding can_access_content
    can_access_content-IsVisible user kind id h = elim (Option-cases (caller_of user)) [
      | inl gone ↦ absurd (ground (arith, rw (gone, can_access_content) at h))
      | inr (caller, e) ↦
          let allowed = rw (e, can_access_content) at h in
          let shared : any
                (λ c. contains (lowered js (curriculum_ids_in_scope js db user)) (js.to_lower c))
                (curriculum_ids_of js db true kind id)
              ≡ true =
            ground (arith, allowed) in
          let (c, k, same) = any-contains _ _ shared in
          let (v, inside, alike) = contains-map (λ x. js.to_lower x) _ _ same in
          let (owned, (w, listed, again)) = visible_sound user caller v e inside in
          (caller, e, (c, k, IsVisible-of v w owned listed alike again))
    ]

module _ (js : Js) (db : ContentDb js.Num) where
  list_of_owned-owner :
      (o : String) (s : SchoolOwnership js.Num) (w : String)
      → contains (list_of_owned js db o s) w ≡ true
      → (owner : String) × (column s.organisationid ≡ some owner)
        × (js.to_lower owner ≡ js.to_lower o)
  unfolding contains
  list_of_owned-owner o s w h = elim (Option-cases (column s.organisationid)) [
    | inl gone ↦ absurd (ground (arith, rw (gone, list_of_owned) at h))
    | inr (owner, e) ↦ elim (Bool-cases (js.to_lower owner == js.to_lower o)) [
      | inl same ↦ (owner, e, (eq_iff _ _).0 same)
      | inr other ↦
          absurd (ground (arith, rw (other, list_of_owned) at (rw (e, list_of_owned) at h)))
    ]
  ]

  -- The list of a school has an id only if the school is stored with an owner, and the owner is, in
  -- lower case, the organisation that asks.
  school_curriculum_list-owner :
      (o schoolid w : String)
      → contains (school_curriculum_list js db o schoolid) w ≡ true
      → (s : SchoolOwnership js.Num) × (db.school_row schoolid ≡ some s)
        × ((owner : String) × (column s.organisationid ≡ some owner)
            × (js.to_lower owner ≡ js.to_lower o))
  unfolding school_curriculum_list contains
  school_curriculum_list-owner o schoolid w h = elim (Option-cases (db.school_row schoolid)) [
    | inl gone ↦ absurd (ground (arith, rw (gone, school_curriculum_list) at h))
    | inr (s, e) ↦ (s, e, list_of_owned-owner o s w (rw (e, school_curriculum_list) at h))
  ]
