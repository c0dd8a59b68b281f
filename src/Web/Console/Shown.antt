-- ===== src/Web/Console/Shown.antt =====
-- App.tsx: the sequences of events, and whose Run, evidence and mandate the console shows.
use mandate_flow.Base.{String, ◌≡◌, Bool, false, ◌==◌, Option, none, some, List, [], ◌∷◌, any}
use mandate_flow.Model.{Agent, Message, AgentRun, MandateEvidence}
use mandate_flow.Control.Taken.{MandateSummary}
use mandate_flow.Web.Console.{
  Console, learn_system, leave, first, select, list_agents, list_messages, refresh_evidence,
  refresh_mandate, end_poll, list_runs, poll, add_sent, fail_sent, show_retry, follow_retry,
  begin_workflow, begin_revoke, show_revoked, end_revoke,
}

pub data Event : Type 0 where
  selected : Option String → Event
  agents_listed : List Agent → Event
  messages_listed : String → List Message → Event
  evidence_read : AgentRun → MandateEvidence → Event
  mandate_read : String → Option MandateSummary → Event
  runs_listed : String → List AgentRun → Event
  polled : String → AgentRun → Event
  poll_ended : String → Event
  sent : String → Message → AgentRun → Event
  retried followed : AgentRun → Event
  revoked : MandateSummary → Agent → Option AgentRun → Event
  send_failed workflow_begun revoke_begun revoke_ended left : Event
  system_read : Bool → Bool → Event

unfoldable pub react : Event → Console → Console
unfolding select list_agents list_messages refresh_evidence refresh_mandate end_poll list_runs poll
    add_sent fail_sent show_retry follow_retry begin_workflow begin_revoke show_revoked end_revoke
react (selected id) s = select id s
react (agents_listed agents) s = list_agents agents s
react (messages_listed id messages) s = list_messages id messages s
react (evidence_read run evidence) s = refresh_evidence run evidence s
react (mandate_read id mandate) s = refresh_mandate id mandate s
react (runs_listed id runs) s = list_runs id runs s
react (polled id run) s = poll id run s
react (poll_ended id) s = end_poll id s
react (sent id message run) s = add_sent id message run s
react (retried run) s = show_retry run s
react (followed run) s = follow_retry run s
react (revoked mandate agent run) s = show_revoked mandate agent run s
react send_failed s = fail_sent s
react workflow_begun s = begin_workflow s
react revoke_begun s = begin_revoke s
react revoke_ended s = end_revoke s
react left s = leave s
react (system_read enabled is_ready) s = learn_system enabled is_ready s

unfoldable pub react_all : List Event → Console → Console
react_all [] s = s
react_all (event ∷ events) s = react_all events (react event s)

-- A value that is shown is of the Agent that is selected.
abbrev pub OfSelected {ℓ} : {A : Type ℓ} → (String → A → Type 0) → Option String → Option A → Type 0
OfSelected P id none = Unit
OfSelected P none (some a) = ⊥
OfSelected P (some id) (some a) = P id a

abbrev pub RunOf : String → AgentRun → Type 0
RunOf id run = run.agent_id ≡ id

-- No text is in the list twice.
abbrev pub Distinct : List String → Type 0
Distinct [] = Unit
Distinct (s ∷ list) = (any (λ t. t == s) list ≡ false) × Distinct list

-- What the server answers is of the Agent that was asked for; the answers to a retry and to a
-- revocation come while their Agent is selected.
module _ (EvidenceOf : String → MandateEvidence → Type 0)
    (MandateOf : String → MandateSummary → Type 0) where
  abbrev pub Timely : Event → Console → Type 0
  Timely (evidence_read run evidence) s = EvidenceOf run.agent_id evidence
  Timely (mandate_read id mandate) s = OfSelected MandateOf (some id) mandate
  Timely (runs_listed id runs) s = OfSelected RunOf (some id) (first runs)
  Timely (polled id run) s = RunOf id run
  Timely (sent id message run) s = RunOf id run
  Timely (retried run) s = s.selected_id ≡ some run.agent_id
  Timely (revoked mandate agent run) s =
      OfSelected MandateOf s.selected_id (some mandate) × OfSelected RunOf s.selected_id run
  Timely _ s = Unit

  pub record Own (s : Console) : Type 0 where
    pub run : OfSelected RunOf s.selected_id s.active_run
    pub evidence : OfSelected EvidenceOf s.selected_id s.evidence
    pub mandate : OfSelected MandateOf s.selected_id s.mandate
    pub once : Distinct s.polling

  -- Each event is timely where it comes.
  abbrev pub AllTimely : List Event → Console → Type 0
  AllTimely [] s = Unit
  AllTimely (event ∷ events) s = Timely event s × AllTimely events (react event s)
