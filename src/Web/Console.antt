-- ===== src/Web/Console.antt =====
-- CodeJam/apps/web/src/App.tsx: what the browser shows, and what each answer makes of it. The code
-- between two waits is one event; React has rendered before the next, so that `selectedIdRef` is the
-- state's `selected_id`. Texts of errors and which dialog is open are left out.
pub mod Shown
pub mod Owned
pub mod Sending
pub mod Texts
use mandate_flow.Base.{
  String, Bool, true, false, not, ◌&&◌, ◌||◌, ◌==◌, Option, none, some, List, [], ◌∷◌, ◌++◌, map,
  any, find, filter, is_empty, trim, truthy, same, if◌then◌else◌,
}
use mandate_flow.Model.{
  Agent, AgentStatus, busy, Message, AgentRun, MandateEvidence, PolicyReceipt, is_allow,
  is_provenance_deny, is_busy, is_stopped, is_active,
}
use mandate_flow.Control.Taken.{MandateSummary, SummaryStatus, revoked}

pub record Console : Type 0 where
  pub agents : List Agent
  pub selected_id : Option String
  pub messages : List Message
  pub active_run : Option AgentRun
  pub evidence : Option MandateEvidence
  pub mandate : Option MandateSummary
  pub revoke_pending : Bool
  pub mandate_flow_enabled : Bool
  pub mandate_flow_ready : Bool
  pub polling : List String
  pub mounted : Bool

-- `selectedIdRef.current === id`
abbrev pub is_selected : String → Console → Bool
is_selected id s = elim s.selected_id [ none ↦ false | some selected ↦ selected == id ]

abbrev pub first {ℓ} : {A : Type ℓ} → List A → Option A
first [] = none
first (a ∷ list) = some a

-- The console as the page opens.
abbrev pub opened : Console
opened = record {
  agents = [];
  selected_id = none;
  messages = [];
  active_run = none;
  evidence = none;
  mandate = none;
  revoke_pending = false;
  mandate_flow_enabled = false;
  mandate_flow_ready = false;
  polling = [];
  mounted = true;
}

-- `setSystem`
abbrev pub learn_system : Bool → Bool → Console → Console
learn_system enabled is_ready s = record s {
  mandate_flow_enabled = enabled;
  mandate_flow_ready = is_ready;
}

abbrev pub leave : Console → Console
leave s = record s { mounted = false }

-- The effect of a change of `selectedId`.
unfoldable pub select : Option String → Console → Console
select id s = if same id s.selected_id then s else record s {
  selected_id = id;
  active_run = none;
  evidence = none;
  mandate = none;
  messages = elim id [ none ↦ [] | some _ ↦ s.messages ];
}

-- The chosen Agent if it is listed, and the first one otherwise.
abbrev pub choice : List Agent → Option String → Option String
choice next none = first (map (λ agent. agent.id) next)
choice next (some id) =
    if any (λ agent. agent.id == id) next then some id else first (map (λ agent. agent.id) next)

-- `refreshAgents`, and the effect of the choice that it makes.
unfoldable pub list_agents : List Agent → Console → Console
unfolding select
list_agents next s = select (choice next s.selected_id) (record s { agents = next })

-- `refreshMessages`
unfoldable pub list_messages : String → List Message → Console → Console
list_messages agent_id messages s =
    if s.mounted && is_selected agent_id s then record s { messages = messages } else s

-- `refreshEvidence`: the answer is there where the Run has a context.
unfoldable pub refresh_evidence : AgentRun → MandateEvidence → Console → Console
refresh_evidence run evidence s =
    if not (truthy run.policy_context_id)
    then record s { evidence = none }
    else if s.mounted && is_selected run.agent_id s
    then record s { evidence = some evidence }
    else s

-- `refreshMandate`
unfoldable pub refresh_mandate : String → Option MandateSummary → Console → Console
refresh_mandate agent_id mandate s =
    if s.mounted && is_selected agent_id s then record s { mandate = mandate } else s

-- `pollRun` adds the Run to those that it polls, or ends at once; its `finally` takes it away.
unfoldable pub begin_poll : String → Console → Console
begin_poll run_id s =
    if any (λ id. id == run_id) s.polling then s else record s { polling = run_id ∷ s.polling }

unfoldable pub end_poll : String → Console → Console
end_poll run_id s = record s { polling = filter (λ id. not (id == run_id)) s.polling }

abbrev pub poll_active : Option AgentRun → Console → Console
poll_active none s = s
poll_active (some run) s = if is_active run.status then begin_poll run.id s else s

-- The Runs of a chosen Agent, once they and its messages are there.
unfoldable pub list_runs : String → List AgentRun → Console → Console
unfolding begin_poll
list_runs agent_id runs s =
    if is_selected agent_id s
    then poll_active (first runs) (record s { active_run = first runs })
    else s

-- One turn of `pollRun`
unfoldable pub poll : String → AgentRun → Console → Console
poll agent_id run s = if is_selected agent_id s then record s { active_run = some run } else s

abbrev pub mark_busy : String → List Agent → List Agent
mark_busy id agents =
    map (λ agent. if agent.id == id then record agent { status = busy } else agent) agents

-- `runPrompt`, once the message is sent, and its `catch`
unfoldable pub add_sent : String → Message → AgentRun → Console → Console
unfolding begin_poll
add_sent agent_id message run s =
    let shown =
      if is_selected agent_id s
      then record s { messages = s.messages ++ (message ∷ []); active_run = some run }
      else s in
    begin_poll run.id (record shown { agents = mark_busy agent_id shown.agents })

unfoldable pub fail_sent : Console → Console
fail_sent s = record s { active_run = none }

-- `retryRun`, up to its first wait for a refresh, and from there to the poll
unfoldable pub show_retry : AgentRun → Console → Console
show_retry run s = record s { evidence = none; active_run = some run }

unfoldable pub follow_retry : AgentRun → Console → Console
unfolding begin_poll
follow_retry run s = begin_poll run.id (record s { agents = mark_busy run.agent_id s.agents })

-- `newDemoWorkflow`, once the server has begun it
unfoldable pub begin_workflow : Console → Console
begin_workflow s = record s { active_run = none; evidence = none; mandate = none }

-- `revokeMandate`: before its request, with its answer, and at its end
unfoldable pub begin_revoke : Console → Console
begin_revoke s = record s { revoke_pending = true }

unfoldable pub show_revoked : MandateSummary → Agent → Option AgentRun → Console → Console
show_revoked mandate agent run s = record s {
  mandate = some mandate;
  active_run = run;
  agents = map (λ a. if a.id == agent.id then agent else a) s.agents;
}

unfoldable pub end_revoke : Console → Console
end_revoke s = record s { revoke_pending = false }

abbrev is_revoked : SummaryStatus → Bool
is_revoked revoked = true
is_revoked _ = false

-- `selected`
abbrev pub selected_agent : Option String → List Agent → Option Agent
selected_agent none agents = none
selected_agent (some id) agents = find (λ agent. agent.id == id) agents

-- The tests of `runPrompt` on the chosen Agent.
abbrev pub may_send : String → Agent → Console → Bool
may_send content agent s =
    not (is_empty (trim content))
    && not (is_stopped agent.status)
    && not (is_busy agent.status)
    && not s.revoke_pending
    && elim s.active_run [ none ↦ true | some run ↦ not (is_active run.status) ]
    && (not s.mandate_flow_enabled || s.mandate_flow_ready)
    && elim s.mandate [ none ↦ true | some m ↦ not (is_revoked m.status) ]

-- What `runPrompt` sends, if it sends: the Agent and the text.
unfoldable pub to_send : String → Console → Option (String × String)
to_send content s = elim (selected_agent s.selected_id s.agents) [
  | none ↦ none
  | some agent ↦ if may_send content agent s then some (agent.id, trim content) else none
]

-- The Run that `retryRun` sends, and the mandate that `revokeMandate` does.
unfoldable pub to_retry : Console → Option String
to_retry s =
    if s.revoke_pending then none else elim s.active_run [ none ↦ none | some run ↦ some run.id ]

unfoldable pub to_revoke : Console → Option String
to_revoke s =
    if s.revoke_pending then none else elim s.mandate [ none ↦ none | some m ↦ some m.mandate_id ]

abbrev retryable_denial : String → PolicyReceipt → Bool
retryable_denial run_id receipt =
    (receipt.run_id == run_id)
    && (receipt.tool == "crm.resolve_customer")
    && is_allow receipt.static_scope_decision
    && is_provenance_deny receipt.provenance_decision
    && not receipt.downstream_invoked

-- `hasRetryableDenial`
unfoldable pub has_retryable_denial : Console → Bool
has_retryable_denial s = elim s.active_run [
  | none ↦ false
  | some run ↦
      not (truthy run.retry_of_run_id)
      && elim s.evidence [ none ↦ false | some e ↦ any (retryable_denial run.id) e.receipts ]
]
