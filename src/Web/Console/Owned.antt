-- ===== src/Web/Console/Owned.antt =====
-- App.tsx: the console shows nothing of an Agent that is not selected.
use mathlib.Core.Path.{subst}
use mandate_flow.Base.{
  String, ◌≡◌, refl, sym, ap, inl, inr, Bool, true, false, not, ◌&&◌, ◌==◌, Option, none, some,
  List, [], ◌∷◌, ◌++◌, any, filter, eq_iff, Bool-cases, and_both, arith, truthy, same,
  if◌then◌else◌,
}
use mandate_flow.Model.{Agent, Message, AgentRun, MandateEvidence, is_active}
use mandate_flow.Control.Taken.{MandateSummary}
use mandate_flow.Web.Console.{
  Console, opened, is_selected, first, choice, select, refresh_evidence, begin_poll, poll_active,
  add_sent,
}
use mandate_flow.Web.Console.Shown.{
  Event, selected, agents_listed, messages_listed, evidence_read, mandate_read, runs_listed, polled,
  poll_ended, sent, retried, followed, revoked, send_failed, workflow_begun, revoke_begun,
  revoke_ended, left, system_read, react, OfSelected, RunOf, Distinct, Timely, Own, react_all,
  AllTimely,
}

is_selected-selected :
    (id : String) (chosen : Option String)
    → elim chosen [ none ↦ false | some other ↦ other == id ] ≡ true
    → chosen ≡ some id
is_selected-selected id none h = ground arith
is_selected-selected id (some other) h = ap some ((eq_iff other id).0 h)

-- What is of an Agent may be shown while that Agent is selected.
guarded {ℓ} :
    {A : Type ℓ} (P : String → A → Type 0) (id : String) (o : Option A) (s : Console)
    → is_selected id s ≡ true
    → OfSelected P (some id) o
    → OfSelected P s.selected_id o
guarded P id o s h given =
    subst (λ chosen. OfSelected P chosen o) (sym (is_selected-selected id s.selected_id h)) given

any-filter :
    (p q : String → Bool) (list : List String) → any p list ≡ false → any p (filter q list) ≡ false
any-filter p q [] h = refl
any-filter p q (s ∷ list) h =
    let rest = any-filter p q list (ground arith) in
    elim (Bool-cases (q s)) [ inl e ↦ rw e (ground arith) | inr e ↦ rw e rest ]

Distinct-filter :
    (q : String → Bool) (list : List String) → Distinct list → Distinct (filter q list)
Distinct-filter q [] d = tt
Distinct-filter q (s ∷ list) (fresh, d) = elim (Bool-cases (q s)) [
  | inl e ↦ rw e (any-filter (λ t. t == s) q list fresh, Distinct-filter q list d)
  | inr e ↦ rw e (Distinct-filter q list d)
]

module _ (E : String → MandateEvidence → Type 0) (M : String → MandateSummary → Type 0) where
  begin_poll-Own : (id : String) (s : Console) → Own E M s → Own E M (begin_poll id s)
  unfolding begin_poll
  begin_poll-Own id s own = elim (Bool-cases (any (λ t. t == id) s.polling)) [
    | inl e ↦ rw e own
    | inr e ↦ rw e (record {
      run = own.run;
      evidence = own.evidence;
      mandate = own.mandate;
      once = (e, own.once);
    })
  ]

  select-Own : (id : Option String) (s : Console) → Own E M s → Own E M (select id s)
  unfolding select
  select-Own id s own = elim (Bool-cases (same id s.selected_id)) [
    | inl e ↦ rw e own
    | inr e ↦ rw e (record { run = tt; evidence = tt; mandate = tt; once = own.once })
  ]

  -- What else the console holds does not matter.
  other_fields :
      (s : Console) (agents : List Agent) (messages : List Message)
      (pending enabled is_ready mounted : Bool)
      → Own E M s
      → Own E M (record s {
        agents = agents;
        messages = messages;
        revoke_pending = pending;
        mandate_flow_enabled = enabled;
        mandate_flow_ready = is_ready;
        mounted = mounted;
      })
  other_fields s agents messages pending enabled is_ready mounted own = record {
    run = own.run;
    evidence = own.evidence;
    mandate = own.mandate;
    once = own.once;
  }

  with_agents :
      (s : Console) (agents : List Agent) → Own E M s → Own E M (record s { agents = agents })
  with_agents s agents own =
      other_fields s agents s.messages s.revoke_pending s.mandate_flow_enabled s.mandate_flow_ready
        s.mounted own

  with_messages :
      (s : Console) (messages : List Message)
      → Own E M s
      → Own E M (record s { messages = messages })
  with_messages s messages own =
      other_fields s s.agents messages s.revoke_pending s.mandate_flow_enabled s.mandate_flow_ready
        s.mounted own

  with_run :
      (s : Console) (run : Option AgentRun)
      → OfSelected RunOf s.selected_id run
      → Own E M s
      → Own E M (record s { active_run = run })
  with_run s run h own = record {
    run = h;
    evidence = own.evidence;
    mandate = own.mandate;
    once = own.once;
  }

  with_evidence :
      (s : Console) (evidence : Option MandateEvidence)
      → OfSelected E s.selected_id evidence
      → Own E M s
      → Own E M (record s { evidence = evidence })
  with_evidence s evidence h own = record {
    run = own.run;
    evidence = h;
    mandate = own.mandate;
    once = own.once;
  }

  with_mandate :
      (s : Console) (mandate : Option MandateSummary)
      → OfSelected M s.selected_id mandate
      → Own E M s
      → Own E M (record s { mandate = mandate })
  with_mandate s mandate h own = record {
    run = own.run;
    evidence = own.evidence;
    mandate = h;
    once = own.once;
  }

  -- A test that guards a change.
  under :
      (b : Bool) (s t : Console) → Own E M s → (b ≡ true → Own E M t) → Own E M (if b then t else s)
  under true s t own h = h refl
  under false s t own h = own

  poll_active-Own : (run : Option AgentRun) (s : Console) → Own E M s → Own E M (poll_active run s)
  unfolding begin_poll
  poll_active-Own none s own = own
  poll_active-Own (some run) s own =
      under (is_active run.status) s (begin_poll run.id s) own (λ _. begin_poll-Own run.id s own)

  refresh_evidence-Own :
      (run : AgentRun) (evidence : MandateEvidence) (s : Console)
      → E run.agent_id evidence
      → Own E M s
      → Own E M (refresh_evidence run evidence s)
  unfolding refresh_evidence
  refresh_evidence-Own run evidence s h own = elim (Bool-cases (truthy run.policy_context_id)) [
    | inl e ↦ rw e (
        under (s.mounted && is_selected run.agent_id s) s (record s { evidence = some evidence })
          own
          (λ g.
            with_evidence s (some evidence)
              (guarded E run.agent_id (some evidence) s (and_both s.mounted _ g).1 h) own))
    | inr e ↦ rw e (with_evidence s none tt own)
  ]

  add_sent-Own :
      (id : String) (message : Message) (run : AgentRun) (s : Console)
      → RunOf id run
      → Own E M s
      → Own E M (add_sent id message run s)
  unfolding add_sent
  add_sent-Own id message run s h own =
      let shown = record s { messages = s.messages ++ (message ∷ []); active_run = some run } in
      let own_shown = under (is_selected id s) s shown own (λ e.
        with_run (record s { messages = s.messages ++ (message ∷ []) }) (some run)
          (guarded RunOf id (some run) s e h) (with_messages s _ own)) in
      begin_poll-Own run.id _ (with_agents (if is_selected id s then shown else s) _ own_shown)

  react-Own :
      (event : Event) (s : Console) → Timely E M event s → Own E M s → Own E M (react event s)
  unfolding react
  react-Own (selected id) s h own = select-Own id s own
  react-Own (agents_listed agents) s h own =
      select-Own (choice agents s.selected_id) (record s { agents = agents })
        (with_agents s agents own)
  react-Own (messages_listed id messages) s h own =
      under (s.mounted && is_selected id s) s (record s { messages = messages }) own
        (λ _. with_messages s messages own)
  react-Own (evidence_read run evidence) s h own = refresh_evidence-Own run evidence s h own
  react-Own (mandate_read id mandate) s h own =
      under (s.mounted && is_selected id s) s (record s { mandate = mandate }) own
        (λ e. with_mandate s mandate (guarded M id mandate s (and_both s.mounted _ e).1 h) own)
  react-Own (runs_listed id runs) s h own = under (is_selected id s) s _ own (λ e.
      poll_active-Own (first runs) (record s { active_run = first runs })
        (with_run s (first runs) (guarded RunOf id (first runs) s e h) own))
  react-Own (polled id run) s h own =
      under (is_selected id s) s (record s { active_run = some run }) own
        (λ e. with_run s (some run) (guarded RunOf id (some run) s e h) own)
  react-Own (poll_ended id) s h own = record {
    run = own.run;
    evidence = own.evidence;
    mandate = own.mandate;
    once = Distinct-filter (λ t. not (t == id)) s.polling own.once;
  }
  react-Own (sent id message run) s h own = add_sent-Own id message run s h own
  react-Own (retried run) s h own = record {
    run = subst (λ chosen. OfSelected RunOf chosen (some run)) (sym h) refl;
    evidence = tt;
    mandate = own.mandate;
    once = own.once;
  }
  react-Own (followed run) s h own = begin_poll-Own run.id _ (with_agents s _ own)
  react-Own (revoked mandate agent run) s (m, r) own = record {
    run = r;
    evidence = own.evidence;
    mandate = m;
    once = own.once;
  }
  react-Own send_failed s h own = with_run s none tt own
  react-Own workflow_begun s h own = record {
    run = tt;
    evidence = tt;
    mandate = tt;
    once = own.once;
  }
  react-Own revoke_begun s h own =
      other_fields s s.agents s.messages true s.mandate_flow_enabled s.mandate_flow_ready s.mounted
        own
  react-Own revoke_ended s h own =
      other_fields s s.agents s.messages false s.mandate_flow_enabled s.mandate_flow_ready s.mounted
        own
  react-Own left s h own =
      other_fields s s.agents s.messages s.revoke_pending s.mandate_flow_enabled
        s.mandate_flow_ready false own
  react-Own (system_read enabled is_ready) s h own =
      other_fields s s.agents s.messages s.revoke_pending enabled is_ready s.mounted own

  react_all-Own :
      (events : List Event) (s : Console)
      → AllTimely E M events s
      → Own E M s
      → Own E M (react_all events s)
  unfolding react_all
  react_all-Own [] s timely own = own
  react_all-Own (event ∷ events) s (timely, rest) own =
      react_all-Own events (react event s) rest (react-Own event s timely own)

  -- After any events since the page has opened, the Run, the evidence and the mandate that the console
  -- shows are of the Agent that is selected, and no Run is polled twice; if what the server answers is
  -- of the Agent that was asked for, and the answers to a retry and to a revocation come while their
  -- Agent is selected.
  pub opened-Own :
      (events : List Event) → AllTimely E M events opened → Own E M (react_all events opened)
  opened-Own events timely =
      react_all-Own events opened timely
        (record { run = tt; evidence = tt; mandate = tt; once = tt })
