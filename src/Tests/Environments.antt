-- ===== src/Tests/Environments.antt =====
-- A server whose environment holds its access token.
use mandate_flow.Base.{◌≡◌, refl, String, Option, none, some, ◌==◌, if◌then◌else◌}
use mandate_flow.Runner.Environment.{
  look, child_environment, container_environment, environments-Closed,
}

abbrev process_env : String → Option String
process_env name =
    if name == "APP_AUTH_TOKEN"
    then some "a-token-of-24-characters"
    else if name == "PATH"
    then some "/bin"
    else none

environments-Closed_example :
    (look "APP_AUTH_TOKEN" (child_environment process_env "gsk_1" "capability" "/home") ≡ none)
    × (look "APP_AUTH_TOKEN" (container_environment process_env "gsk_1" "url" "capability") ≡ none)
environments-Closed_example =
    environments-Closed process_env "gsk_1" "url" "capability" "/home" "APP_AUTH_TOKEN" refl

passed_on : look "PATH" (child_environment process_env "gsk_1" "capability" "/home") ≡ some "/bin"
unfolding child_environment
passed_on = refl
