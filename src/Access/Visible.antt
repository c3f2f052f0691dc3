-- ===== src/Access/Visible.antt =====
-- src/business/content-access.ts: the curricula that a token's holder may see, and the content.
use edtech_lms_rpi_api.Prelude.{
  Bool, true, false, not, ◌||◌, Option, none, some, List, [], ◌∷◌, map, String, ◌==◌, if◌then◌else◌,
  any, filter, contains, set_of,
}
use edtech_lms_rpi_api.Js.{Js}
use edtech_lms_rpi_api.Access.{
  ContentKind, learner, staff, Token, Caller, SchoolOwnership, ContentDb, column, usable, present,
  is_nil, is_document, caller_kind_of, caller_of, id_list, lowered, curriculum_ids_of,
}

module _ (js : Js) (db : ContentDb js.Num) where
  -- The query for the curricula that are wanted, which is not made for none.
  abbrev pub owned_of : String → List String → List String
  owned_of organisationid [] = []
  owned_of organisationid (x ∷ xs) =
      present (map column (db.owned_curricula (x ∷ xs) organisationid))

  abbrev pub listed_of : Option (List String) → List String → List String
  listed_of none owned = owned
  listed_of (some listed) owned = filter (λ id. contains (lowered js listed) (js.to_lower id)) owned

  unfoldable pub curricula_in_scope : String → Option (List String) → List String → List String
  unfolding usable
  curricula_in_scope organisationid curriculumids candidates =
      let wanted = set_of (present (map (λ c. usable (some c)) candidates)) in
      listed_of curriculumids (owned_of organisationid wanted)

  abbrev pub list_of_owned : String → SchoolOwnership js.Num → List String
  list_of_owned organisationid school = elim (column school.organisationid) [
    | none ↦ []
    | some owner ↦
        if js.to_lower owner == js.to_lower organisationid
        then id_list js school.curriculums
        else []
  ]

  unfoldable pub school_curriculum_list : String → String → List String
  unfolding usable
  school_curriculum_list organisationid schoolid = elim (db.school_row schoolid) [
    | none ↦ []
    | some school ↦ list_of_owned organisationid school
  ]

  unfoldable pub learner_curriculum_list : Option String → List String
  unfolding usable
  learner_curriculum_list studentid = elim (usable studentid) [
    | none ↦ []
    | some id ↦ elim (db.student_curriculumids id) [ none ↦ [] | some ids ↦ id_list js ids ]
  ]

  abbrev pub candidates_of : Option Token → Caller → Option String → List String
  candidates_of user claims studentid = elim (caller_kind_of user) [
    | staff ↦ school_curriculum_list claims.organisationid claims.schoolid
    | learner ↦ learner_curriculum_list studentid
  ]

  abbrev pub studentid_of : Option Token → Option String
  studentid_of none = none
  studentid_of (some user) = user.studentid

  unfoldable pub curriculum_ids_in_scope : Option Token → List String
  unfolding curricula_in_scope caller_of
  curriculum_ids_in_scope user = elim (caller_of user) [
    | none ↦ []
    | some claims ↦
        curricula_in_scope claims.organisationid none
          (candidates_of user claims (studentid_of user))
  ]

  unfoldable pub enrolled_curriculum_ids : Option Token → List String
  unfolding curricula_in_scope caller_of
  enrolled_curriculum_ids user = elim (caller_of user) [
    | none ↦ []
    | some claims ↦
        let own = learner_curriculum_list (studentid_of user) in
        elim (caller_kind_of user) [
          | staff ↦
              curricula_in_scope claims.organisationid
                (some (school_curriculum_list claims.organisationid claims.schoolid)) own
          | learner ↦ curricula_in_scope claims.organisationid none own
        ]
  ]

  abbrev pub is_owner : String → Option String → Bool
  is_owner organisationid none = false
  is_owner organisationid (some owner) = js.to_lower owner == js.to_lower organisationid

  abbrev pub text_of_id : Option String → String
  text_of_id none = ""
  text_of_id (some id) = id

  unfoldable pub can_access_content : Option Token → ContentKind → Option String → Bool
  unfolding curriculum_ids_of curriculum_ids_in_scope
  can_access_content user kind id = elim (caller_of user) [
    | none ↦ false
    | some caller ↦
        let own = curriculum_ids_of js db true kind id in
        let visible = lowered js (curriculum_ids_in_scope user) in
        if is_nil own || is_nil visible
        then false
        else if not (any (λ c. contains visible (js.to_lower c)) own)
        then false
        else if is_document kind
        then is_owner caller.organisationid (column (db.document_owner (text_of_id id)))
        else true
  ]

  unfoldable pub grade_ids_in_scope : Option Token → List String
  unfolding curriculum_ids_in_scope
  grade_ids_in_scope user =
      let curriculumids = curriculum_ids_in_scope user in
      if is_nil curriculumids then [] else present (map column (db.grades_of curriculumids))

  unfoldable pub level_ids_in_scope : Option Token → List String
  unfolding grade_ids_in_scope
  level_ids_in_scope user =
      let gradeids = grade_ids_in_scope user in
      if is_nil gradeids then [] else present (map column (db.live_levels_of gradeids))
