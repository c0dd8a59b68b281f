-- ===== src/Service/Finalization/Settled.antt =====
-- agent-service.ts: what a pass of `reconcilePendingFinalizations` that is answered reaches.
use mathlib.Core.Path.{subst}
use mathlib.Core.Option
use mandate_flow.Base.{
  ◌≡◌, refl, sym, ◌∙◌, inl, inr, String, Bool, true, false, ◌&&◌, ◌==◌, Option, none, some, List,
  [], ◌∷◌, find, any, modify, eq_iff, find-modify, find-modify_other, Bool-cases, arith,
}
use mandate_flow.Model.{AgentRun, Database, ok, is_pending_finalization}
use mandate_flow.Service.Store.{run_is, modify_run}
use mandate_flow.Service.Finalization.{
  Attempt, confirmed, close_pending, reconcile_runs, reconcile, pending_runs,
}

-- The first Run with an identifier, if there is one, is not pending.
abbrev pub Settled : String → List AgentRun → Type 0
Settled id runs =
    (run : AgentRun)
    → find (run_is id) runs ≡ some run
    → is_pending_finalization run.mandate_status ≡ false

abbrev pub answered : (AgentRun → Attempt) → List AgentRun → Bool
answered attempts [] = true
answered attempts (run ∷ runs) =
    (confirmed (attempts run) && (attempts run).persisted) && answered attempts runs

close_pending-closed :
    (run : AgentRun) → is_pending_finalization (close_pending run).mandate_status ≡ false
close_pending-closed run = elim (Bool-cases (is_pending_finalization run.mandate_status)) [
  | inl pending ↦ rw pending refl
  | inr other ↦ rw (other, other) refl
]

map_close-Settled :
    (found : Option AgentRun) (run : AgentRun)
    → Option.map close_pending found ≡ some run
    → is_pending_finalization run.mandate_status ≡ false
map_close-Settled none run e = cc
map_close-Settled (some before) run e =
    let same : close_pending before ≡ run = cc in
    subst (λ r. is_pending_finalization r.mandate_status ≡ false) same (close_pending-closed before)

close_pending_same : (id : String) (run : AgentRun) → run_is id (close_pending run) ≡ run_is id run
close_pending_same id run = elim (Bool-cases (is_pending_finalization run.mandate_status)) [
  | inl pending ↦ rw pending refl
  | inr other ↦ rw other refl
]

run_is_apart :
    (id other : String)
    → (other == id) ≡ false
    → (run : AgentRun) → run_is id run ≡ true
    → run_is other run ≡ false
run_is_apart id other apart run here = elim (Bool-cases (run_is other run)) [
  | inr elsewhere ↦ elsewhere
  | inl there ↦
      let same : other ≡ id = sym ((eq_iff run.id other).0 there) ∙ (eq_iff run.id id).0 here in
      let both : (other == id) ≡ true = (eq_iff other id).1 same in cc
]

Settled-here :
    (id : String) (runs : List AgentRun) → Settled id (modify (run_is id) close_pending runs)
Settled-here id runs run e =
    map_close-Settled (find (run_is id) runs) run
      (sym (find-modify (run_is id) close_pending runs (close_pending_same id)) ∙ e)

Settled-keep :
    (id other : String) (runs : List AgentRun)
    → Settled id runs
    → Settled id (modify (run_is other) close_pending runs)
Settled-keep id other runs h = elim (Bool-cases (other == id)) [
  | inl same ↦
      subst (λ k. Settled id (modify (run_is k) close_pending runs))
        (sym ((eq_iff other id).0 same)) (Settled-here id runs)
  | inr apart ↦ λ run e. h run (
      sym (
        find-modify_other (run_is other) (run_is id) close_pending runs
          (run_is_apart id other apart) (close_pending_same id))
      ∙ e)
]

module _ (attempts : AgentRun → Attempt) where
  reconcile_runs-keep :
      (asked : List AgentRun) (id : String) (database : Database)
      → Settled id database.runs
      → Settled id (reconcile_runs attempts asked database).0.runs
  unfolding reconcile_runs
  reconcile_runs-keep [] id database h = h
  reconcile_runs-keep (run ∷ asked) id database h =
      let closed =
        reconcile_runs-keep asked id (modify_run run.id close_pending database)
          (Settled-keep id run.id database.runs h) in
      let skipped = reconcile_runs-keep asked id database h in
      elim (Bool-cases (confirmed (attempts run))) [
        | inl sure ↦ elim (Bool-cases (attempts run).persisted) [
          | inl written ↦ rw (sure, written) closed
          | inr lost ↦ rw (sure, lost) h
        ]
        | inr unsure ↦ rw unsure skipped
      ]

  answered-parts :
      (sure written rest : Bool)
      → ((sure && written) && rest) ≡ true
      → (sure ≡ true) × (written ≡ true) × (rest ≡ true)
  answered-parts sure written rest h = ground arith

  reconcile_runs-Settled :
      (asked : List AgentRun) (id : String) (database : Database)
      → answered attempts asked ≡ true
      → any (run_is id) asked ≡ true
      → Settled id (reconcile_runs attempts asked database).0.runs
  unfolding reconcile_runs
  reconcile_runs-Settled [] id database all_answered there = cc
  reconcile_runs-Settled (run ∷ asked) id database all_answered there =
      let (sure, written, rest) =
        answered-parts (confirmed (attempts run)) (attempts run).persisted (answered attempts asked)
          all_answered in
      let next = modify_run run.id close_pending database in
      let later = reconcile_runs-Settled asked id next rest in
      rw (sure, written)
        (elim (Bool-cases (run_is id run)) [
          | inr other ↦ later (rw other at there)
          | inl here ↦ reconcile_runs-keep asked id next (
              subst (λ k. Settled id (modify (run_is k) close_pending database.runs))
                (sym ((eq_iff run.id id).0 here)) (Settled-here id database.runs))
        ])

  reconcile_runs-ok :
      (asked : List AgentRun) (database : Database)
      → answered attempts asked ≡ true
      → (reconcile_runs attempts asked database).1 ≡ ok tt
  unfolding reconcile_runs
  reconcile_runs-ok [] database all_answered = refl
  reconcile_runs-ok (run ∷ asked) database all_answered =
      let (sure, written, rest) =
        answered-parts (confirmed (attempts run)) (attempts run).persisted (answered attempts asked)
          all_answered in
      rw (sure, written) (reconcile_runs-ok asked (modify_run run.id close_pending database) rest)

  -- Where there is a control plane, which confirms the end of every Run that the snapshot shows as
  -- pending, and every write succeeds, a pass of the reconciliation returns, and after it, for the
  -- identifier of each Run that was pending, the first Run that has it, which is the one that the
  -- service finds by it, is not pending.
  pub reconcile-Settled :
      (agent_id : Option String) (snapshot database : Database) (id : String)
      → answered attempts (pending_runs agent_id snapshot) ≡ true
      → any (run_is id) (pending_runs agent_id snapshot) ≡ true
      → ((reconcile true attempts agent_id snapshot database).1 ≡ ok tt)
        × Settled id (reconcile true attempts agent_id snapshot database).0.runs
  unfolding reconcile
  reconcile-Settled agent_id snapshot database id all_answered there = (
    reconcile_runs-ok (pending_runs agent_id snapshot) database all_answered,
    reconcile_runs-Settled (pending_runs agent_id snapshot) id database all_answered there,
  )
