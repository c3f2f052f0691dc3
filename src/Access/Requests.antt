-- ===== src/Access/Requests.antt =====
-- src/business/token-claims.ts: what a sign-in and a signed-in request must prove, and
-- src/business/report-scope.ts: whose learners a report may cover.
pub mod Claims
pub mod Reports
pub mod Filters
pub mod Named
use edtech_lms_rpi_api.Prelude.{
  Bool, true, false, not, ◌&&◌, ◌||◌, Option, none, some, List, [], ◌∷◌, map, String, ◌==◌,
  if◌then◌else◌, Result, ok, err,
}
use edtech_lms_rpi_api.Prelude.Text.{trim, is_empty}
use edtech_lms_rpi_api.Js.{Value, str, Js, as_string}
use edtech_lms_rpi_api.School.{given}
use edtech_lms_rpi_api.Access.{
  learner, staff, Token, Caller, ContentDb, column, caller_kind_of, caller_of,
}
use edtech_lms_rpi_api.Access.Visible.{school_curriculum_list}

pub record OrganisationRow : Type 0 where
  pub organisationstatus : Bool
  pub isdeleted : Bool

pub record OwnedSchoolRow : Type 0 where
  pub organisationid : Option String
  pub isdeleted : Bool

-- The queries of the two modules.
pub record ClaimsDb : Type 0 where
  pub organisation_row : String → Option OrganisationRow
  pub owned_school_row : String → Option OwnedSchoolRow
  pub schools_of : String → List String

-- The answers that refuse a request.
pub data RequestError : Type 0 where
  unauthorized : RequestError
  sign_in_required : RequestError
  invalid_input : RequestError

pub record SignInClaims : Type 0 where
  pub schoolid : Option String
  pub organisationid : Option String
  pub isdeleted : Bool

pub record ReportScope : Type 0 where
  pub organisationid : String
  pub schoolids : List String
  pub curriculumids : Option (List String)
  pub schooluserid : Option String

module _ (js : Js) (rows : ClaimsDb) where
  unfoldable pub organisation_is_active : String → Bool
  organisation_is_active organisationid = elim (rows.organisation_row (trim organisationid)) [
    | none ↦ false
    | some o ↦ not o.isdeleted && o.organisationstatus
  ]

  unfoldable pub assert_can_sign_in : SignInClaims → Result RequestError (Unit {0})
  unfolding organisation_is_active
  assert_can_sign_in claims = elim (column claims.schoolid) [
    | none ↦ err sign_in_required
    | some s ↦
        if claims.isdeleted then err sign_in_required else elim (column claims.organisationid) [
          | none ↦ err sign_in_required
          | some o ↦ if not (organisation_is_active o) then err sign_in_required else ok tt
        ]
  ]

  -- The last test of `checkTokenClaims`, on the school that is found.
  abbrev pub is_school_of : String → Option OwnedSchoolRow → Bool
  is_school_of organisationid none = false
  is_school_of organisationid (some s) = elim (column s.organisationid) [
    | none ↦ false
    | some owner ↦ not s.isdeleted && js.to_lower owner == js.to_lower (trim organisationid)
  ]

  unfoldable pub check_token_claims : Option String → Option String → Result RequestError (Unit {0})
  unfolding organisation_is_active
  check_token_claims schoolid organisationid = elim (given organisationid) [
    | none ↦ err unauthorized
    | some o ↦ elim (given schoolid) [
      | none ↦ err unauthorized
      | some s ↦
          if not (organisation_is_active o)
          then err unauthorized
          else if not (is_school_of o (rows.owned_school_row (trim s)))
          then err unauthorized
          else ok tt
    ]
  ]

  unfoldable pub school_ids_of_organisation : String → List String
  school_ids_of_organisation organisationid = elim (rows.organisation_row organisationid) [
    | none ↦ []
    | some o ↦
        if o.isdeleted || not o.organisationstatus then [] else rows.schools_of organisationid
  ]

  module _ (db : ContentDb js.Num) (is_organisation_id : String → Bool) where
    -- The header of a request with the server's key. `is_organisation_id` is the test of the
    -- regular expression; a header that is no text is `none`.
    unfoldable pub scope_of_header : Option String → Result RequestError (Option ReportScope)
    unfolding school_ids_of_organisation
    scope_of_header none = err invalid_input
    scope_of_header (some header) =
        if header == "platform"
        then ok none
        else if not (is_organisation_id (trim header))
        then err invalid_input
        else ok (
            some (record {
              organisationid = trim header;
              schoolids = school_ids_of_organisation (trim header);
              curriculumids = none;
              schooluserid = none;
            }))

    abbrev pub or_empty : Option String → String
    or_empty none = ""
    or_empty (some s) = s

    -- The scope of a signed-in user.
    unfoldable pub scope_of_user : Token → Result RequestError (Option ReportScope)
    unfolding caller_of school_curriculum_list
    scope_of_user user = elim (caller_of (some user)) [
      | none ↦ err sign_in_required
      | some claims ↦ elim (caller_kind_of (some user)) [
        | learner ↦ ok (
            some (record {
              organisationid = claims.organisationid;
              schoolids = claims.schoolid ∷ [];
              curriculumids = some [];
              schooluserid = some (or_empty user.schooluserid);
            }))
        | staff ↦ ok (
            some (record {
              organisationid = claims.organisationid;
              schoolids = claims.schoolid ∷ [];
              curriculumids =
                  some (school_curriculum_list js db claims.organisationid claims.schoolid);
              schooluserid = none;
            }))
      ]
    ]

    abbrev pub is_server : Option String → Bool
    is_server none = false
    is_server (some id) = id == "server"

    unfoldable pub resolve_report_scope :
        Option String → Option Token → Result RequestError (Option ReportScope)
    unfolding scope_of_header scope_of_user
    resolve_report_scope header none = err sign_in_required
    resolve_report_scope header (some user) =
        if is_server user.schooluserid then scope_of_header header else scope_of_user user
