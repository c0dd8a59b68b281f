-- ===== src/Tests/Consoles.antt =====
-- A console with two Agents, where the answers for the first one come after the second is selected.
use mandate_flow.Base.{
  true, false, is_empty, trim, pos, ◌++◌, String, ◌≡◌, refl, none, some, List, [], ◌∷◌,
}
use mandate_flow.Model.{
  Agent, AgentRun, Database, is_ok, Message, MessageRole, MandateEvidence, user_a,
}
use mandate_flow.Control.Taken.{MandateSummary, SummaryStatus}
use mandate_flow.Config.{is_groq_configured}
use mandate_flow.Service.Runs.{
  new_run, create_run, before_admission, start_tests, require_finalized_authority,
}
use mandate_flow.Service.Finalization.{Attempt, reconcile, reconcile_runs}
use mandate_flow.Web.Console.{Console, opened, to_send}
use mandate_flow.Web.Console.Shown.{
  Event, agents_listed, selected, messages_listed, sent, polled, poll_ended, evidence_read,
  mandate_read, revoked, Own, react, react_all,
}
use mandate_flow.Web.Console.Sending.{to_send-create_run}
use mandate_flow.Web.Console.Owned.{opened-Own}
use mandate_flow.Tests.Data.{agent, evidence, run, config, answer}

abbrev other : Agent
other = record agent { id = "agent-2" }

abbrev message : Message
message = record {
  id = "message-1";
  agent_id = "agent-1";
  run_id = run.id;
  role = MessageRole.user;
  content = "Run the report";
  created_at = 3;
}

abbrev EvidenceOf : String → MandateEvidence → Type 0
EvidenceOf id e = (id ≡ "agent-1") × (e.run_id ≡ evidence.run_id)

abbrev MandateOf : String → MandateSummary → Type 0
MandateOf id m = m.agent_principal ≡ id

abbrev granted : AgentRun
unfolding new_run
granted = record run { policy_context_id = some "context-1" }

-- The first Agent's Run is sent and shown; then the second Agent is selected, and the answers for the
-- first one come late.
abbrev events : List Event
events =
    agents_listed (agent ∷ other ∷ [])
    ∷ messages_listed "agent-1" []
    ∷ sent "agent-1" message granted
    ∷ evidence_read granted evidence
    ∷ selected (some "agent-2")
    ∷ polled "agent-1" granted
    ∷ evidence_read granted evidence
    ∷ mandate_read "agent-1" none
    ∷ poll_ended granted.id
    ∷ []

opened-Own_example : Own EvidenceOf MandateOf (react_all events opened)
unfolding new_run
opened-Own_example =
    opened-Own EvidenceOf MandateOf events
      (tt, (tt, (refl, ((refl, refl), (tt, (refl, ((refl, refl), (tt, (tt, tt)))))))))

-- The late answers are not shown; the message of the first Agent still is.
late_answers :
    ((react_all events opened).active_run ≡ none)
    × ((react_all events opened).evidence ≡ none)
    × ((react_all events opened).messages ≡ message ∷ [])
unfolding react_all react new_run
late_answers = (refl, refl, refl)

abbrev mandate : MandateSummary
mandate = record {
  mandate_id = "mandate-1";
  status = SummaryStatus.revoked;
  owner_principal = user_a;
  agent_principal = "agent-1";
  policy_context_id = "context-1";
  purpose_id = "purpose-1";
  policy_id = "policy-1";
  policy_version = pos 1;
  granted_permissions = [];
  issued_at = "2026-01-01T00:00:00Z";
  expires_at = "2026-01-01T01:00:00Z";
  mandate_fingerprint = "fp-1";
  revoked_at = none;
  revoked_by = none;
  revocation_reason = none;
}

-- A revocation that is answered late is shown with the second Agent.
late_revocation :
    ((react_all (events ++ (revoked mandate agent none ∷ [])) opened).selected_id ≡ some "agent-2")
    × ((react_all (events ++ (revoked mandate agent none ∷ [])) opened).mandate ≡ some mandate)
unfolding react_all react new_run
late_revocation = (refl, refl)

abbrev listed : Console
listed = record opened { agents = agent ∷ other ∷ []; selected_id = some "agent-2" }

abbrev stored : Database
stored = record { agents = agent ∷ other ∷ []; messages = []; runs = [] }

abbrev attempt : AgentRun → Attempt
attempt _ = record { finished = true; evidence_status = none; persisted = true }

to_send-create_run_example :
    (is_ok
        (create_run config answer attempt
          (λ database. database)
          "agent-2"
          "Run the report"
          none
          true
          stored
          stored).1
      ≡ true)
    × (is_empty "Run the report" ≡ false)
unfolding to_send trim before_admission start_tests require_finalized_authority reconcile
    reconcile_runs is_groq_configured
to_send-create_run_example =
    to_send-create_run " Run the report " listed "agent-2" "Run the report" config answer attempt
      (λ database. database) stored stored stored refl refl refl refl
