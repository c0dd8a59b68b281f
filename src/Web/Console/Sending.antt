-- ===== src/Web/Console/Sending.antt =====
-- App.tsx and agent-service.ts: a prompt that the console sends, as `createRun` meets it.
use mathlib.Core.Path.{subst}
use mandate_flow.Base.{
  String, ◌≡◌, refl, sym, ◌⊎◌, inl, inr, true, false, Option, none, some, find, List, find_sound,
  eq_iff, is_empty, trim, arith, Bool-cases, Option-cases,
}
use mandate_flow.Model.{
  Agent, AgentRun, Database, Result, ok, err, is_ok, is_stopped, is_busy, ready, error,
}
use mandate_flow.Config.{AppConfig}
use mandate_flow.Service.Store.{Answer, agent_is, mutate}
use mandate_flow.Service.Finalization.{Attempt}
use mandate_flow.Service.Runs.{
  admit, admit_tested, create_run, before_admission, new_run, new_message,
}
use mandate_flow.Service.Admission.{admit_iff, free_iff}
use mandate_flow.Web.Console.{Console, selected_agent, may_send, to_send}

-- The chosen Agent is the one that has its identifier.
found_by_id :
    (chosen : Option String) (agents : List Agent) (agent : Agent)
    → selected_agent chosen agents ≡ some agent
    → find (agent_is agent.id) agents ≡ some agent
found_by_id none agents agent h = ground arith
found_by_id (some id) agents agent h =
    let e = (eq_iff agent.id id).0 (find_sound (agent_is id) agents agent h) in
    subst (λ x. find (agent_is x) agents ≡ some agent) (sym e) h

-- What `to_send` gives is of the chosen Agent, which has passed the tests.
to_send-inversion :
    (content : String) (s : Console) (id prompt : String)
    → to_send content s ≡ some (id, prompt)
    → (agent : Agent) × (selected_agent s.selected_id s.agents ≡ some agent)
      × (may_send content agent s ≡ true)
      × (agent.id ≡ id)
      × (trim content ≡ prompt)
unfolding to_send
to_send-inversion content s id prompt h =
    elim (Option-cases (selected_agent s.selected_id s.agents)) [
      | inl e ↦ let absurd = (rw (e, to_send) at h) in ground arith
      | inr (agent, e) ↦ elim (Bool-cases (may_send content agent s)) [
        | inl g ↦ let given = (rw (e, g, to_send) at h) in (agent, e, g, ground arith, ground arith)
        | inr g ↦ let absurd = (rw (e, g, to_send) at h) in ground arith
      ]
    ]

may_send-free :
    (content : String) (agent : Agent) (s : Console)
    → may_send content agent s ≡ true
    → ((agent.status ≡ ready) ⊎ (agent.status ≡ error)) × (is_empty (trim content) ≡ false)
may_send-free content agent s h =
    let not_stopped : is_stopped agent.status ≡ false = ground arith in
    let not_busy : is_busy agent.status ≡ false = ground arith in
    ((free_iff agent.status).0 (not_stopped, not_busy), ground arith)

mutate-is_ok :
    (mutation : Database → Result (Database × Agent)) (database : Database)
    → is_ok (mutation database) ≡ true
    → is_ok (mutate true mutation database).1 ≡ true
unfolding mutate
mutate-is_ok mutation database h = by_cases (mutation database) refl h
  where
    by_cases :
        (outcome : Result (Database × Agent))
        → mutation database ≡ outcome
        → is_ok outcome ≡ true
        → is_ok (mutate true mutation database).1 ≡ true
    by_cases (ok (next, a)) eq e = rw (eq, is_ok) refl
    by_cases (err e) eq f = cc

-- A prompt that the console sends is not empty. If the tests of `createRun` that come before its
-- mutation pass, the data then has the Agents that the console lists, and it is written, `createRun`
-- takes the prompt for the chosen Agent: the mutation has no objection. The route's tests before that,
-- of the prompt's length and of the identifier's form, are not spoken of.
pub to_send-create_run :
    (content : String) (s : Console) (id prompt : String) (config : AppConfig) (answer : Answer)
    (attempts : AgentRun → Attempt) (meanwhile : Database → Database)
    (snapshot before tested : Database)
    → to_send content s ≡ some (id, prompt)
    → before_admission config attempts answer.resolved id prompt snapshot before ≡ (tested, ok tt)
    → (meanwhile tested).agents ≡ s.agents
    → answer.persisted ≡ true
    → (is_ok (create_run config answer attempts meanwhile id prompt none true snapshot before).1
        ≡ true)
      × (is_empty prompt ≡ false)
unfolding to_send create_run admit_tested new_run
to_send-create_run content s id prompt config answer attempts meanwhile snapshot before tested sends
      passed agents written =
    let (agent, chosen, free, same_id, same_text) = to_send-inversion content s id prompt sends in
    let (able, not_empty) = may_send-free content agent s free in
    let found = found_by_id s.selected_id s.agents agent chosen in
    let run = new_run answer id prompt none in
    let message = new_message answer id prompt true in
    let admits =
      (admit_iff run message answer.now (meanwhile tested)).1
        (rw (sym same_id, agents, found) (able, tt)) in
    (
      rw (passed, written) (mutate-is_ok (admit run message answer.now) (meanwhile tested) admits),
      rw (sym same_text) not_empty,
    )
