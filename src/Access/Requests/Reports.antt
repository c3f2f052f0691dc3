-- ===== src/Access/Requests/Reports.antt =====
-- What a report may cover (src/business/report-scope.ts).
use edtech_lms_rpi_api.Prelude.{
  ◌≡◌, refl, ap, ◌⊎◌, inl, inr, Bool, true, Option, none, some, [], ◌∷◌, String, ◌==◌, eq_iff,
  arith, Bool-cases, Option-cases, Result, ok,
}
use edtech_lms_rpi_api.Prelude.Text.{trim}
use edtech_lms_rpi_api.Js.{Js}
use edtech_lms_rpi_api.Access.{
  Token, Caller, ContentDb, caller_of, caller_kind_of, CallerKind, learner, staff,
}
use edtech_lms_rpi_api.Access.Requests.{
  ClaimsDb, RequestError, ReportScope, scope_of_header, scope_of_user, is_server, or_empty,
  resolve_report_scope, school_ids_of_organisation,
}

kind-cases : (k : CallerKind) → (k ≡ learner) ⊎ (k ≡ staff)
kind-cases learner = inl refl
kind-cases staff = inr refl

abbrev Resolved : Type 0
Resolved = Result RequestError (Option ReportScope)

abbrev resolved : Option ReportScope → Resolved
resolved r = ok r

result-eq : {r s : Option ReportScope} → resolved r ≡ resolved s → r ≡ s
result-eq h = cc

module _ (js : Js) (rows : ClaimsDb) (db : ContentDb js.Num)
    (is_organisation_id : String → Bool) where
  -- What each scope rests on: the unscoped view on the server's key with the marker, an
  -- organisation on the key with its id, and a user's own school on the user's token.
  pub data IsAllowed (header : Option String) (user : Token) : Option ReportScope → Type 0 where
    platform :
        user.schooluserid ≡ some "server" → header ≡ some "platform" → IsAllowed header user none
    central :
        (text : String) (scope : ReportScope)
        → user.schooluserid ≡ some "server"
        → header ≡ some text
        → is_organisation_id (trim text) ≡ true
        → scope.organisationid ≡ trim text
        → scope.schoolids ≡ school_ids_of_organisation js rows (trim text)
        → IsAllowed header user (some scope)
    own :
        (c : Caller) (scope : ReportScope)
        → caller_of (some user) ≡ some c
        → scope.organisationid ≡ c.organisationid
        → scope.schoolids ≡ c.schoolid ∷ []
        → (caller_kind_of (some user) ≡ staff)
          ⊎ (scope.schooluserid ≡ some (or_empty js rows db is_organisation_id user.schooluserid))
        → IsAllowed header user (some scope)

  is_server-eq :
      (id : Option String) → is_server js rows db is_organisation_id id ≡ true → id ≡ some "server"
  is_server-eq none h = ground arith
  is_server-eq (some id) h = ap some ((eq_iff id "server").0 h)

  server-IsAllowed :
      (header : Option String) (user : Token) (scope : Option ReportScope)
      → user.schooluserid ≡ some "server"
      → scope_of_header js rows db is_organisation_id header ≡ ok scope
      → IsAllowed header user scope
  unfolding scope_of_header
  server-IsAllowed none user scope server h = ground arith
  server-IsAllowed (some text) user scope server h = elim (Bool-cases (text == "platform")) [
    | inl marker ↦
        let same : none ≡ scope = ground (arith, rw (marker, scope_of_header) at h) in
        rw (← same) (platform server (ap some ((eq_iff text "platform").0 marker)))
    | inr other ↦ elim (Bool-cases (is_organisation_id (trim text))) [
      | inr bad ↦
          absurd (ground (arith, rw (bad, scope_of_header) at (rw (other, scope_of_header) at h)))
      | inl good ↦
          let same = result-eq (rw (good, scope_of_header) at (rw (other, scope_of_header) at h)) in
          rw (← same) (central text _ server refl good refl refl)
    ]
  ]

  user-IsAllowed :
      (header : Option String) (user : Token) (scope : Option ReportScope)
      → scope_of_user js rows db is_organisation_id user ≡ ok scope
      → IsAllowed header user scope
  unfolding scope_of_user
  user-IsAllowed header user scope h = elim (Option-cases (caller_of (some user))) [
    | inl gone ↦ absurd (ground (arith, rw (gone, scope_of_user) at h))
    | inr (c, e) ↦ elim (kind-cases (caller_kind_of (some user))) [
      | inl known ↦
          let same = result-eq (rw (known, scope_of_user) at (rw (e, scope_of_user) at h)) in
          rw (← same) (own c _ e refl refl (inr refl))
      | inr member ↦
          let same = result-eq (rw (member, scope_of_user) at (rw (e, scope_of_user) at h)) in
          rw (← same) (own c _ e refl refl (inl member))
    ]
  ]

  -- A request has the unscoped view only with the server's key and the marker as its header. With the
  -- key and an organisation's id it has the schools of that organisation; a token has its own school
  -- only, and only its own login if it is a learner's.
  pub resolve_report_scope-IsAllowed :
      (header : Option String) (user : Token) (scope : Option ReportScope)
      → resolve_report_scope js rows db is_organisation_id header (some user) ≡ ok scope
      → IsAllowed header user scope
  unfolding resolve_report_scope
  resolve_report_scope-IsAllowed header user scope h =
      elim (Bool-cases (is_server js rows db is_organisation_id user.schooluserid)) [
        | inl server ↦
            server-IsAllowed header user scope (is_server-eq user.schooluserid server)
              (rw (server, resolve_report_scope) at h)
        | inr other ↦ user-IsAllowed header user scope (rw (other, resolve_report_scope) at h)
      ]
