-- ===== src/Service/Finalization.antt =====
-- agent-service.ts: `reconcilePendingFinalizations`, which ends the grants whose end could not be
-- confirmed when their Run ended.
pub mod Settled
use mathlib.Core.Path.{subst, ◌∙◌}
use mandate_flow.Base.{
  ◌≡◌, refl, sym, ◌⊎◌, inl, inr, String, Bool, true, false, not, ◌&&◌, ◌||◌, ◌==◌, Option, none,
  some, List, [], ◌∷◌, filter, any, modify, codes, has_prefix, if◌then◌else◌, Each2, Each2-refl,
  Each2-modify, Each2-trans, arith, Bool-cases, mem, eq_iff, Each2-mono,
}
use mandate_flow.Model.{
  AgentRun, RunStatus, MandateStatus, FinishStatus, Database, Result, ok, err,
  is_pending_finalization,
}
use mandate_flow.Service.Store.{run_is, modify_run, persist_error}

-- What the control plane answers about one Run: whether one of the attempts of `finishMandate`
-- resolved, and if none did, the Run's status in the evidence, unless that was refused too.
pub record Attempt : Type 0 where
  pub finished : Bool
  pub evidence_status : Option String
  pub persisted : Bool

abbrev starts_codex_finished : Option String → Bool
starts_codex_finished none = false
starts_codex_finished (some error) = has_prefix (codes "Codex finished,") (codes error)

-- What the control plane is asked to record.
pub intended_status : AgentRun → FinishStatus
intended_status run = elim run.status [
  | RunStatus.cancelled ↦ FinishStatus.cancelled
  | _ ↦ if starts_codex_finished run.error then FinishStatus.completed else FinishStatus.failed
]

abbrev terminal_status : Option String → Bool
terminal_status none = false
terminal_status (some status) = not (mem status ("PREPARED" ∷ "ACTIVE" ∷ []))

abbrev pub confirmed : Attempt → Bool
confirmed attempt = attempt.finished || terminal_status attempt.evidence_status

abbrev pub close_pending : AgentRun → AgentRun
close_pending run =
    if is_pending_finalization run.mandate_status
    then record run { mandate_status = MandateStatus.closed }
    else run

-- The loop over the Runs that were pending in the snapshot; `attempts` gives the answers for each.
-- A failed write ends it.
unfoldable pub reconcile_runs :
    (AgentRun → Attempt) → List AgentRun → Database → Database × Result (Unit {0})
reconcile_runs attempts [] database = (database, ok tt)
reconcile_runs attempts (run ∷ runs) database =
    let closed = reconcile_runs attempts runs (modify_run run.id close_pending database) in
    let skipped = reconcile_runs attempts runs database in
    if confirmed (attempts run)
    then if (attempts run).persisted then closed else (database, err persist_error)
    else skipped

abbrev concerns : Option String → AgentRun → Bool
concerns none run = true
concerns (some agent_id) run = run.agent_id == agent_id

abbrev pub pending_runs : Option String → Database → List AgentRun
pending_runs agent_id snapshot =
    filter (λ run. is_pending_finalization run.mandate_status && concerns agent_id run)
      snapshot.runs

unfoldable pub reconcile :
    Bool → (AgentRun → Attempt) → Option String → Database → Database → Database × Result (Unit {0})
unfolding reconcile_runs
reconcile client attempts agent_id snapshot database =
    if client
    then reconcile_runs attempts (pending_runs agent_id snapshot) database
    else (database, ok tt)

-- Among the Runs of a list is one with this identifier whose end is confirmed.
abbrev pub is_confirmed : (AgentRun → Attempt) → List AgentRun → String → Bool
is_confirmed attempts runs id = any (λ run. (run.id == id) && confirmed (attempts run)) runs

-- A Run is as it was, or was pending and is closed, its end confirmed.
abbrev pub Reconciled : (AgentRun → Attempt) → List AgentRun → AgentRun → AgentRun → Type 0
Reconciled attempts asked before after =
    (after ≡ before)
    ⊎ ((is_pending_finalization before.mandate_status ≡ true)
        × (after ≡ record before { mandate_status = MandateStatus.closed })
        × (is_confirmed attempts asked before.id ≡ true))

-- The data is as it was but for pending Runs that are closed.
pub record OnlyReconciled (attempts : AgentRun → Attempt) (asked : List AgentRun)
    (before after : Database) : Type 0 where
  pub closed : Each2 (Reconciled attempts asked) before.runs after.runs
  pub same_agents : after.agents ≡ before.agents
  pub same_messages : after.messages ≡ before.messages

module _ (attempts : AgentRun → Attempt) where
  Reconciled-closed :
      (run : AgentRun) (runs : List AgentRun) (x : AgentRun)
      → confirmed (attempts run) ≡ true
      → run_is run.id x ≡ true
      → Reconciled attempts (run ∷ runs) x (close_pending x)
  Reconciled-closed run runs x c i =
      let same : x.id ≡ run.id = (eq_iff x.id run.id).0 i in
      let again : (run.id == x.id) ≡ true = (eq_iff run.id x.id).1 (sym same) in
      elim (Bool-cases (is_pending_finalization x.mandate_status)) [
        | inl pending ↦ rw pending (inr (refl, refl, ground (arith, again, c)))
        | inr other ↦ rw other (inl refl)
      ]

  Reconciled-later :
      (run : AgentRun) (runs : List AgentRun) (x y : AgentRun)
      → Reconciled attempts runs x y
      → Reconciled attempts (run ∷ runs) x y
  Reconciled-later run runs x y (inl e) = inl e
  Reconciled-later run runs x y (inr (p, e, c)) = inr (p, e, ground arith)

  Reconciled-trans :
      (asked : List AgentRun) (x y z : AgentRun)
      → Reconciled attempts asked x y
      → Reconciled attempts asked y z
      → Reconciled attempts asked x z
  Reconciled-trans asked x y z (inl e) h = subst (λ b. Reconciled attempts asked b z) e h
  Reconciled-trans asked x y z (inr (p, e, c)) (inl f) = inr (p, f ∙ e, c)
  Reconciled-trans asked x y z (inr (p, e, c)) (inr (q, f, d)) = absurd (ground arith)

  Each2-later :
      (run : AgentRun) (runs : List AgentRun) (xs ys : List AgentRun)
      → Each2 (Reconciled attempts runs) xs ys
      → Each2 (Reconciled attempts (run ∷ runs)) xs ys
  Each2-later run runs =
      Each2-mono (Reconciled attempts runs) (Reconciled attempts (run ∷ runs))
        (Reconciled-later run runs)

  Each2-closed :
      (run : AgentRun) (runs : List AgentRun) (xs ys : List AgentRun)
      → confirmed (attempts run) ≡ true
      → Each2 (Reconciled attempts runs) (modify (run_is run.id) close_pending xs) ys
      → Each2 (Reconciled attempts (run ∷ runs)) xs ys
  Each2-closed run runs xs ys c h =
      Each2-trans (Reconciled attempts (run ∷ runs)) (Reconciled-trans (run ∷ runs)) xs _ ys
        (Each2-modify (Reconciled attempts (run ∷ runs)) (run_is run.id) close_pending
          (λ x. inl refl) (λ x i. Reconciled-closed run runs x c i) xs)
        (Each2-later run runs _ ys h)

  reconcile_runs-Reconciled :
      (runs : List AgentRun) (database : Database)
      → Each2
          (Reconciled attempts runs)
          database.runs
          (reconcile_runs attempts runs database).0.runs
  unfolding reconcile_runs
  reconcile_runs-Reconciled [] database =
      Each2-refl (Reconciled attempts []) (λ x. inl refl) database.runs
  reconcile_runs-Reconciled (run ∷ runs) database =
      let closed = reconcile_runs-Reconciled runs (modify_run run.id close_pending database) in
      let skipped = reconcile_runs-Reconciled runs database in
      elim (Bool-cases (confirmed (attempts run))) [
        | inl sure ↦ elim (Bool-cases (attempts run).persisted) [
          | inl written ↦ rw (sure, written) (Each2-closed run runs database.runs _ sure closed)
          | inr lost ↦
              rw (sure, lost)
                (Each2-refl (Reconciled attempts (run ∷ runs)) (λ x. inl refl) database.runs)
        ]
        | inr unsure ↦ rw unsure (Each2-later run runs database.runs _ skipped)
      ]

  reconcile_runs-others :
      (runs : List AgentRun) (database : Database)
      → ((reconcile_runs attempts runs database).0.agents ≡ database.agents)
        × ((reconcile_runs attempts runs database).0.messages ≡ database.messages)
  unfolding reconcile_runs
  reconcile_runs-others [] database = (refl, refl)
  reconcile_runs-others (run ∷ runs) database =
      let closed = reconcile_runs-others runs (modify_run run.id close_pending database) in
      let skipped = reconcile_runs-others runs database in
      elim (Bool-cases (confirmed (attempts run))) [
        | inl sure ↦ elim (Bool-cases (attempts run).persisted) [
          | inl written ↦ rw (sure, written) closed
          | inr lost ↦ rw (sure, lost) (refl, refl)
        ]
        | inr unsure ↦ rw unsure skipped
      ]

  -- Reconciling changes nothing but this: a Run that is pending may be closed, where the control
  -- plane has confirmed the end of a Run with its identifier, which the snapshot shows as pending.
  -- The Agents and the messages are as they were.
  pub reconcile-Reconciled :
      (client : Bool) (agent_id : Option String) (snapshot database : Database)
      → OnlyReconciled attempts
          (pending_runs agent_id snapshot)
          database
          (reconcile client attempts agent_id snapshot database).0
  unfolding reconcile
  reconcile-Reconciled true agent_id snapshot database = record {
    closed = reconcile_runs-Reconciled (pending_runs agent_id snapshot) database;
    same_agents = (reconcile_runs-others (pending_runs agent_id snapshot) database).0;
    same_messages = (reconcile_runs-others (pending_runs agent_id snapshot) database).1;
  }
  reconcile-Reconciled false agent_id snapshot database = record {
    closed =
        Each2-refl (Reconciled attempts (pending_runs agent_id snapshot)) (λ x. inl refl)
          database.runs;
    same_agents = refl;
    same_messages = refl;
  }
