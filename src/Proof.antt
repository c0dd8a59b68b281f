-- ===== src/Proof.antt =====
-- CodeJam/apps/server/src/proof-validation.ts: whether the receipts of a Run hold the ordered
-- choreography of the proof. An index of -1 is `none`.
pub mod Choreography
mod Searches
pub mod Sound
pub mod Complete
use mandate_flow.Base.{
  ℕ, ℤ, negsuc, pos, ltb, leb_ℤ, ltb_ℤ, eq_ℤ, String, Bool, true, false, not, ◌&&◌, ◌||◌, ◌==◌,
  Option, none, some, List, [], ◌∷◌, ◌++◌, find_index, get_elem?, codes, lower_codes, includes,
}
use mandate_flow.Model.{
  PolicyReceipt, MandateEvidence, is_allow, is_deny, is_provenance_deny, is_succeeded,
  is_not_invoked,
}

pub record MandateFlowProofValidation : Type 0 where
  pub complete : Bool
  pub missing : List String

-- `index > startIndex`
abbrev pub beyond : Option ℕ → ℕ → Bool
beyond none i = true
beyond (some s) i = ltb s i

unfoldable pub receipt_after : List PolicyReceipt → Option ℕ → (PolicyReceipt → Bool) → Option ℕ
receipt_after receipts start predicate =
    find_index (λ i receipt. beyond start i && predicate receipt) receipts

abbrev pub allowed_receipt : String → PolicyReceipt → Bool
allowed_receipt tool receipt =
    (receipt.tool == tool)
    && is_allow receipt.decision
    && is_succeeded receipt.outcome
    && receipt.downstream_invoked

abbrev pub denied_crm_receipt : PolicyReceipt → Bool
denied_crm_receipt receipt =
    (receipt.tool == "crm.resolve_customer")
    && is_deny receipt.decision
    && is_provenance_deny receipt.provenance_decision
    && is_not_invoked receipt.outcome
    && not receipt.downstream_invoked

unfoldable pub is_mandate_flow_proof_prompt : String → Bool
is_mandate_flow_proof_prompt prompt =
    includes (codes "mandateflow verification workflow") (lower_codes (codes prompt))

-- The predicates of the calls in `validateMandateFlowProof`.
abbrev pub baseline_crm : PolicyReceipt → Bool
baseline_crm receipt =
    allowed_receipt "crm.resolve_customer" receipt
    && eq_ℤ receipt.counter_before (pos 0)
    && eq_ℤ receipt.counter_after (pos 1)

abbrev pub recovery_crm : ℤ → PolicyReceipt → Bool
recovery_crm denial_counter receipt =
    allowed_receipt "crm.resolve_customer" receipt
    && leb_ℤ denial_counter receipt.counter_before
    && ltb_ℤ receipt.counter_before receipt.counter_after

-- `receipts[index]?.counterAfter ?? -1`, and -1 where there is no index
unfoldable pub counter_at : List PolicyReceipt → Option ℕ → ℤ
counter_at receipts none = negsuc 0
counter_at receipts (some i) = elim (get_elem? receipts i) [
  | none ↦ negsuc 0
  | some receipt ↦ receipt.counter_after
]

-- `index < 0`
abbrev pub absent : Option ℕ → Bool
absent none = true
absent (some i) = false

abbrev pub missing_if : Bool → String → List String
missing_if true what = what ∷ []
missing_if false what = []

-- A path of three receipts, each the first beyond the one before.
pub record Path3 : Type 0 where
  pub first : Option ℕ
  pub second : Option ℕ
  pub third : Option ℕ

unfoldable pub path_after :
    List PolicyReceipt
    → Option ℕ
    → (PolicyReceipt → Bool)
    → (PolicyReceipt → Bool)
    → (PolicyReceipt → Bool)
    → Path3
path_after receipts start p q r =
    let first = receipt_after receipts start p in
    let second = receipt_after receipts first q in
    record { first = first; second = second; third = receipt_after receipts second r }

abbrev pub broken : Path3 → Bool
broken path = absent path.first || absent path.second || absent path.third

unfoldable pub baseline_path : List PolicyReceipt → Path3
unfolding path_after
baseline_path receipts =
    path_after receipts none (allowed_receipt "support.list_tickets")
      (allowed_receipt "cases.lookup_subject") baseline_crm

unfoldable pub denial_path : List PolicyReceipt → Path3
unfolding path_after
denial_path receipts =
    path_after receipts none (allowed_receipt "payments.list_failures")
      (allowed_receipt "cases.lookup_subject") denied_crm_receipt

unfoldable pub aggregate_index : List PolicyReceipt → Option ℕ
aggregate_index receipts =
    receipt_after receipts (denial_path receipts).third
      (allowed_receipt "payments.aggregate_failures")

unfoldable pub recovery_path : List PolicyReceipt → Path3
unfolding path_after
recovery_path receipts =
    let denial = (denial_path receipts).third in
    path_after receipts denial (allowed_receipt "support.list_tickets")
      (allowed_receipt "cases.lookup_subject") (recovery_crm (counter_at receipts denial))

abbrev is_nil : List String → Bool
is_nil [] = true
is_nil (x ∷ xs) = false

pub missing_of : List PolicyReceipt → List String
missing_of receipts =
    missing_if (broken (baseline_path receipts)) "Support → Case → CRM"
    ++ (missing_if (broken (denial_path receipts)) "Payment → Case → CRM denial"
        ++ (missing_if (absent (aggregate_index receipts)) "Payment aggregate recovery"
            ++ missing_if (broken (recovery_path receipts)) "Fresh Support → Case → CRM"))

unfoldable pub validate_mandate_flow_proof : MandateEvidence → MandateFlowProofValidation
unfolding missing_of
validate_mandate_flow_proof evidence =
    let missing = missing_of evidence.receipts in
    record { complete = is_nil missing; missing = missing }
