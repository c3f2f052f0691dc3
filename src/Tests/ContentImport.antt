-- ===== src/Tests/ContentImport.antt =====
-- A content payload that is accepted, and one whose grade hangs from nothing.
use edtech_lms_rpi_api.Prelude.{
  ℕ, ◌≡◌, refl, ◌==◌, true, false, none, [], ◌∷◌, String, ok, err, value_or, All, IsNodup,
}
use edtech_lms_rpi_api.Js.{Value, null, num, str, arr, obj, Fields, field, end, nil, cons, property}
use edtech_lms_rpi_api.ContentImport.{grades, spec_of, missing_parent, Tests}
use edtech_lms_rpi_api.ContentImport.Rows.{ids_in}
use edtech_lms_rpi_api.ContentImport.Sound.{IsSound, NamesRow}
use edtech_lms_rpi_api.ContentImport.Closed.{references_of, validated-IsClosed}
use edtech_lms_rpi_api.ContentImport.Validate.{
  OrganisationContent, table_rows, stored_rows, validate_organisation_content,
}
use edtech_lms_rpi_api.Tests.Data.{runtime}

abbrev tests : Tests ℕ
tests = record {
  is_uuid = λ s. s == "org";
  is_organisation_code = λ s. s == "code";
  is_language_code = λ s. true;
  is_sha256 = λ s. true;
  is_date = λ s. true;
  has_control_character = λ s. false;
  starts_as_http = λ s. false;
  parse_url = λ s. none;
  byte_length = λ s. 1;
  json_byte_length = λ v. 1;
  organisation_problem = λ v. none;
}

abbrev organisation : Value ℕ
organisation = obj (field "organisationid" (str "org") (field "organisationcode" (str "code") end))

abbrev none_in : String → Fields ℕ → Fields ℕ
none_in name rest = field name (arr nil) rest

abbrev curriculum : Value ℕ
curriculum = obj (field "curriculumid" (str "c1") (field "organisationid" (str "org") end))

abbrev grade_of : String → Value ℕ
grade_of id = obj (field "gradeid" (str "g1") (field "curriculumid" (str id) end))

-- A payload with one curriculum and one grade of the curriculum named.
abbrev payload : String → Fields ℕ
payload id = field "format" (num 3) (
    field "scope" (str "organisation") (
      field "organisationid" (str "org") (
        field "organisationcode" (str "code") (
          field "organisations" (arr (cons organisation nil)) (
            field "curriculums" (arr (cons curriculum nil)) (
              field "grades" (arr (cons (grade_of id) nil)) (
                none_in "countries" (
                  none_in "schools" (
                    none_in "standards" (
                      none_in "subjects" (
                        none_in "questions" (
                          none_in "documents" (
                            none_in "curriculumbaselines" (
                              none_in "baselinequestion" (
                                none_in "levels" (
                                  none_in "lessons" (
                                    none_in "lessonlearnings" (
                                      none_in "lessonlearningdocuments" (
                                        none_in "lessonplans" (
                                          none_in "lessonpractices" (
                                            none_in "lessonquizzes" (
                                              none_in "lessonpracticequestions" (
                                                none_in "lessonquizquestions" (
                                                  none_in "levelquizquestions" (
                                                    none_in "contenttranslations"
                                                      end)))))))))))))))))))))))))

abbrev nothing_read : OrganisationContent ℕ
nothing_read = record {
  organisationid = "";
  organisationcode = "";
  organisation = null;
  tables = λ key. [];
}

abbrev content : OrganisationContent ℕ
content = value_or nothing_read (validate_organisation_content runtime tests (obj (payload "c1")))

payload_ok : validate_organisation_content runtime tests (obj (payload "c1")) ≡ ok content
unfolding validate_organisation_content property
payload_ok = refl

dangling_run :
    validate_organisation_content runtime tests (obj (payload "c2"))
    ≡ err (record { field = "grades"; kind = missing_parent; row_count = 1 } ∷ [])
unfolding validate_organisation_content property
dangling_run = refl

validated-IsClosed_example :
    let rows = table_rows runtime tests (obj (payload "c1")) grades in
    (content.tables grades ≡ stored_rows runtime tests grades rows)
    × All (IsSound runtime content.organisationid grades) rows
    × IsNodup (ids_in runtime (spec_of grades).pk rows)
    × All (λ ref. All (NamesRow runtime tests (obj (payload "c1")) ref) rows) (references_of grades)
validated-IsClosed_example =
    validated-IsClosed runtime tests (payload "c1") content payload_ok grades
