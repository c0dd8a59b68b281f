-- ===== src/Tests/Files.antt =====
-- A database file of the second version, with an Agent and a Run of `user-a`.
use mandate_flow.Base.{ℕ, ◌≡◌, refl, String, true, Option, some}
use mandate_flow.Json.{
  Json, null, text, number, array, object, blank, item, Fields, bare, field, get,
}
use mandate_flow.Service.Migration.{migrate_run, initialize}
use mandate_flow.Service.Migration.Started.{
  AllSettled, is_started, is_readable, initialize-AllSettled,
}
use mandate_flow.Tests.Data.{redaction}

abbrev agent : Fields
agent = field "id" (text "agent-1") (field "owner" (text "user-b") bare)

abbrev run : Fields
run = field "id" (text "run-1") (
    field "ownerPrincipal" (text "user-a") (
      field "policyContextId" (text "context-1") (
        field "progress" (array (item (object (field "label" (text " Started ") bare)) blank))
          bare)))

abbrev file : Option Json
file = some (
    object (
      field "version" (number 2) (
        field "agents" (array (item (object agent) blank))
          (field "messages" (array blank) (field "runs" (array (item (object run) blank)) bare)))))

abbrev time_of : String → ℕ
time_of s = 0

abbrev digits : ℕ → String
digits n = "1"

initialize-AllSettled_example :
    (is_started (initialize redaction time_of digits file) ≡ is_readable file)
    × AllSettled (initialize redaction time_of digits file)
initialize-AllSettled_example = initialize-AllSettled redaction time_of digits file

readable : is_readable file ≡ true
readable = refl

-- The fourth version too forgets that a Run is of `user-a`.
forgotten_owner : get "ownerPrincipal" (migrate_run 4 run) ≡ some null
unfolding migrate_run
forgotten_owner = refl
