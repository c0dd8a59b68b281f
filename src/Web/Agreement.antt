-- ===== src/Web/Agreement.antt =====
-- The browser shows what the server has validated.
use mandate_flow.Base.{
  ℕ, zero, suc, ◌≡◌, refl, Bool, true, Option, some, none, List, [], ◌∷◌, find, get_elem?, Hit,
  find_index_least, find_index_sound, arith, Bool-cases, inl, inr,
}
use mandate_flow.Model.{PolicyReceipt, MandateEvidence, AgentRun}
use mandate_flow.Proof.{validate_mandate_flow_proof, denied_crm_receipt, baseline_crm}
use mandate_flow.Proof.Sound.{complete-Choreography}
use mandate_flow.Web.{
  ProofRow, ProofRowState, complete, is_baseline, is_denial, denial_index, receipt_at, is_there,
  derive_proof_snapshot,
}

find-Hit :
    (p q : PolicyReceipt → Bool) (receipts : List PolicyReceipt) (i : ℕ) (receipt : PolicyReceipt)
    → get_elem? receipts i ≡ some receipt
    → q receipt ≡ true
    → is_there (find q receipts) ≡ true
find-Hit p q [] i receipt e h = cc
find-Hit p q (x ∷ xs) zero receipt e h = let here : q x ≡ true = ground arith in rw here refl
find-Hit p q (x ∷ xs) (suc i) receipt e h = elim (Bool-cases (q x)) [
  | inl hit ↦ rw hit refl
  | inr miss ↦ rw miss (find-Hit p q xs i receipt e h)
]

baseline_crm-is_baseline :
    (receipt : PolicyReceipt) → baseline_crm receipt ≡ true → is_baseline receipt ≡ true
baseline_crm-is_baseline receipt h = ground arith

denied_crm_receipt-is_denial :
    (receipt : PolicyReceipt) → denied_crm_receipt receipt ≡ true → is_denial receipt ≡ true
denied_crm_receipt-is_denial receipt h = ground arith

-- The state of a row by its place.
abbrev pub state_at : ℕ → List ProofRow → Option ProofRowState
state_at i rows = elim (get_elem? rows i) [ none ↦ none | some r ↦ some r.state ]

denial_shown :
    (receipts : List PolicyReceipt) (i : ℕ)
    → Hit denied_crm_receipt receipts i
    → is_there (receipt_at receipts (denial_index receipts)) ≡ true
denial_shown receipts i h =
    let (j, found, _) =
      find_index_least (λ k receipt. is_denial receipt) receipts i h.there
        (denied_crm_receipt-is_denial h.element h.passes) in
    let hit = find_index_sound (λ k receipt. is_denial receipt) receipts j found in
    rw (found, hit.there) refl

-- Evidence that the server validates as complete is shown by the browser with the rows of the first
-- CRM call and of the blocked one complete, whatever Run is active.
pub derive_proof_snapshot-complete :
    (evidence : MandateEvidence) (active_run : Option AgentRun)
    → (validate_mandate_flow_proof evidence).complete ≡ true
    → let rows = (derive_proof_snapshot (some evidence) active_run).rows in
      (state_at 0 rows ≡ some complete) × (state_at 1 rows ≡ some complete)
unfolding derive_proof_snapshot
derive_proof_snapshot-complete evidence active_run h =
    let c = complete-Choreography evidence h in
    let first =
      find-Hit baseline_crm is_baseline evidence.receipts c.baseline.third
        c.baseline.third_hit.element c.baseline.third_hit.there
        (baseline_crm-is_baseline c.baseline.third_hit.element c.baseline.third_hit.passes) in
    let second = denial_shown evidence.receipts c.denied.third c.denied.third_hit in
    (rw first refl, rw second refl)
