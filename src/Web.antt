-- ===== src/Web.antt =====
-- CodeJam/apps/web/src/proof.ts: what the browser shows of a proof. An index of -1 is `none`.
pub mod Agreement
pub mod Api
pub mod Console
use mandate_flow.Base.{
  ℕ, suc, ◌+◌, String, Bool, true, false, not, ◌&&◌, Option, none, some, List, [], ◌∷◌, find, drop,
  find_index, get_elem?, ◌==◌, ℤ, pos, leb_ℤ, eq_ℤ, ltb, truthy, if◌then◌else◌,
}
use mandate_flow.Model.{
  PolicyReceipt, MandateEvidence, AgentRun, is_allow, is_deny, is_provenance_deny, is_succeeded,
}

pub data ProofRowState : Type 0 where
  pending complete : ProofRowState

pub data RowId : Type 0 where
  baseline denial recovery persistence : RowId

pub record ProofRow : Type 0 where
  pub id : RowId
  pub label : String
  pub state : ProofRowState
  pub detail : String
  pub receipt_id : Option String

-- The counters of a blocked call that left them as they were, where the source has a text of them.
pub record ProofSnapshot : Type 0 where
  pub rows : List ProofRow
  pub denial : Option PolicyReceipt
  pub recovery : Option PolicyReceipt
  pub non_execution : Option (ℤ × ℤ)
  pub rule_id : Option String

abbrev crm_tool : String
crm_tool = "crm.resolve_customer"

abbrev pub is_baseline : PolicyReceipt → Bool
is_baseline receipt =
    (receipt.tool == crm_tool)
    && is_allow receipt.decision
    && eq_ℤ receipt.counter_before (pos 0)
    && eq_ℤ receipt.counter_after (pos 1)

abbrev pub is_denial : PolicyReceipt → Bool
is_denial receipt =
    (receipt.tool == crm_tool)
    && is_deny receipt.decision
    && is_provenance_deny receipt.provenance_decision
    && not receipt.downstream_invoked

abbrev allowed : String → PolicyReceipt → Bool
allowed tool receipt = (receipt.tool == tool) && is_allow receipt.decision

abbrev is_recovery : ℤ → PolicyReceipt → Bool
is_recovery counter receipt =
    (receipt.tool == crm_tool)
    && is_allow receipt.decision
    && is_succeeded receipt.outcome
    && leb_ℤ counter receipt.counter_before

abbrev pub denial_index : List PolicyReceipt → Option ℕ
denial_index receipts = find_index (λ i receipt. is_denial receipt) receipts

abbrev case_after : List PolicyReceipt → Option ℕ → Option ℕ
case_after receipts none = none
case_after receipts (some support) =
    find_index (λ i receipt. ltb support i && allowed "cases.lookup_subject" receipt) receipts

abbrev recovery_after : List PolicyReceipt → ℤ → Option ℕ → Option PolicyReceipt
recovery_after receipts counter none = none
recovery_after receipts counter (some case_index) =
    find (is_recovery counter) (drop (suc case_index) receipts)

-- The recovery among the receipts after the denial.
pub fresh_recovery : List PolicyReceipt → ℤ → Option PolicyReceipt
fresh_recovery after counter =
    recovery_after after counter
      (case_after after (find_index (λ i receipt. allowed "support.list_tickets" receipt) after))

abbrev pub receipt_at : List PolicyReceipt → Option ℕ → Option PolicyReceipt
receipt_at receipts none = none
receipt_at receipts (some i) = get_elem? receipts i

pub recovery_of : List PolicyReceipt → Option PolicyReceipt
unfolding fresh_recovery
recovery_of receipts = elim (denial_index receipts) [
  | none ↦ none
  | some i ↦ elim (get_elem? receipts i) [
    | none ↦ none
    | some denied ↦ fresh_recovery (drop (suc i) receipts) denied.counter_after
  ]
]

pub retry_denial : List PolicyReceipt → Option AgentRun → Option PolicyReceipt
retry_denial receipts none = none
retry_denial receipts (some run) =
    find (λ receipt. (receipt.run_id == run.id) && is_denial receipt) receipts

abbrev pub is_there {ℓ} : {A : Type ℓ} → Option A → Bool
is_there none = false
is_there (some a) = true

abbrev row : RowId → String → Bool → String → Option PolicyReceipt → ProofRow
row id label done detail receipt = record {
  id = id;
  label = label;
  state = if done then complete else pending;
  detail = detail;
  receipt_id = elim receipt [ none ↦ none | some r ↦ some r.id ];
}

abbrev counters : Option PolicyReceipt → Option (ℤ × ℤ)
counters none = none
counters (some r) =
    if eq_ℤ r.counter_before r.counter_after then some (r.counter_before, r.counter_after) else none

abbrev rule_of : Option PolicyReceipt → Option String
rule_of none = none
rule_of (some r) = r.rule_id

abbrev rows_of :
    Option PolicyReceipt
    → Option PolicyReceipt
    → Option PolicyReceipt
    → Option PolicyReceipt
    → Bool
    → List ProofRow
rows_of first denied recovered retried persistent =
    row baseline "Support → Case → CRM" (is_there first)
      (if is_there first then "Allowed · CRM completed" else "Waiting for the live Support route")
      first
    ∷ row denial "Payment → Case → CRM" (is_there denied)
        (if is_there denied
          then "Blocked before CRM · fixture not invoked"
          else "Waiting for the tainted Payment route")
        denied
    ∷ row recovery "Fresh Support → Case → CRM" (is_there recovered)
        (if is_there recovered
          then "Recovered · fresh Support lineage allowed"
          else "Waiting for safe recovery after the block")
        recovered
    ∷ row persistence "Persistent after retry" persistent
        (if persistent
          then "Still blocked with a fresh Run capability"
          else if is_there denied
          then "Run Retry denied call to verify context continuity"
          else "Available after the first denied call")
        retried
    ∷ []

abbrev receipts_of : Option MandateEvidence → List PolicyReceipt
receipts_of none = []
receipts_of (some evidence) = evidence.receipts

abbrev is_retry : Option MandateEvidence → Bool
is_retry none = false
is_retry (some evidence) = truthy evidence.retry_of_run_id

unfoldable pub derive_proof_snapshot : Option MandateEvidence → Option AgentRun → ProofSnapshot
unfolding recovery_of retry_denial
derive_proof_snapshot evidence active_run =
    let receipts = receipts_of evidence in
    let denied = receipt_at receipts (denial_index receipts) in
    let recovered = recovery_of receipts in
    let retried = retry_denial receipts active_run in
    record {
      rows =
          rows_of (find is_baseline receipts) denied recovered retried
            (is_retry evidence && is_there retried);
      denial = denied;
      recovery = recovered;
      non_execution = counters denied;
      rule_id = rule_of denied;
    }
