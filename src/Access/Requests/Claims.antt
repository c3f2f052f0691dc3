-- ===== src/Access/Requests/Claims.antt =====
-- A request that is let in can use the curricula of its school (src/business/token-claims.ts).
use edtech_lms_rpi_api.Prelude.{
  ◌≡◌, refl, inl, inr, true, false, Option, none, some, String, eq_iff, arith, Option-cases, ok,
}
use edtech_lms_rpi_api.Prelude.Text.{trim}
use edtech_lms_rpi_api.Js.{Js}
use edtech_lms_rpi_api.School.{given}
use edtech_lms_rpi_api.Access.{column, Token, Caller, caller_of}
use edtech_lms_rpi_api.Access.Requests.{
  OrganisationRow, OwnedSchoolRow, ClaimsDb, organisation_is_active, is_school_of,
  check_token_claims,
}

module _ (js : Js) (rows : ClaimsDb) where
  active-row :
      (o : String)
      → organisation_is_active js rows o ≡ true
      → (r : OrganisationRow) × (rows.organisation_row (trim o) ≡ some r)
        × (r.isdeleted ≡ false)
        × (r.organisationstatus ≡ true)
  unfolding organisation_is_active
  active-row o h = elim (Option-cases (rows.organisation_row (trim o))) [
    | inl gone ↦ absurd (ground (arith, rw (gone, organisation_is_active) at h))
    | inr (r, e) ↦
        let k = rw (e, organisation_is_active) at h in (r, e, ground (arith, k), ground (arith, k))
  ]

  school-row :
      (o : String) (found : Option OwnedSchoolRow)
      → is_school_of js rows o found ≡ true
      → (s : OwnedSchoolRow) × (found ≡ some s)
        × (s.isdeleted ≡ false)
        × ((owner : String) × (column s.organisationid ≡ some owner)
            × (js.to_lower owner ≡ js.to_lower (trim o)))
  school-row o none h = ground arith
  school-row o (some s) h = elim (Option-cases (column s.organisationid)) [
    | inl gone ↦ absurd (ground (arith, rw (gone, is_school_of) at h))
    | inr (owner, e) ↦
        let k = rw (e, is_school_of) at h in
        (
          s,
          refl,
          ground (arith, k),
          (owner, e, ground (arith, k, eq_iff (js.to_lower owner) (js.to_lower (trim o)))),
        )
  ]

  -- The rows that a request proves: its organisation is stored, on and not deleted, and its school is
  -- stored, not deleted, and owned, in lower case, by the organisation.
  pub data IsProved (c : Caller) : Type 0 where
    proved :
        (o : OrganisationRow) (s : OwnedSchoolRow) (owner : String)
        → rows.organisation_row c.organisationid ≡ some o
        → o.isdeleted ≡ false
        → o.organisationstatus ≡ true
        → rows.owned_school_row c.schoolid ≡ some s
        → s.isdeleted ≡ false
        → column s.organisationid ≡ some owner
        → js.to_lower owner ≡ js.to_lower c.organisationid
        → IsProved c

  -- A token whose claims pass the check makes a caller, and the caller's organisation and school are
  -- stored, in use, and belong together.
  pub check_token_claims-IsProved :
      (user : Token)
      → check_token_claims js rows user.schoolid user.organisationid ≡ ok tt
      → (c : Caller) × (caller_of (some user) ≡ some c) × IsProved c
  unfolding check_token_claims caller_of
  check_token_claims-IsProved user h = elim (Option-cases (given user.organisationid)) [
    | inl gone ↦ absurd (ground (arith, rw (gone, check_token_claims) at h))
    | inr (o, e) ↦ elim (Option-cases (given user.schoolid)) [
      | inl gone ↦
          absurd
            (ground (arith, rw (gone, check_token_claims) at (rw (e, check_token_claims) at h)))
      | inr (s, f) ↦
          let k = rw (f, check_token_claims) at (rw (e, check_token_claims) at h) in
          let (r, at, live, on) = active-row o (ground (arith, k)) in
          let (school, there, kept, (owner, own, same)) =
            school-row o (rows.owned_school_row (trim s)) (ground (arith, k)) in
          (
            record { organisationid = trim o; schoolid = trim s },
            rw (e, caller_of) (rw (f, caller_of) refl),
            proved r school owner at live on there kept own same,
          )
    ]
  ]
