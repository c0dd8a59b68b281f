-- ===== src/Proof/Sound.antt =====
-- A Run that validates has the choreography among its receipts.
use mandate_flow.Base.{ℕ, ◌≡◌, refl, Bool, true, false, Option, some, none, List, Hit, ◌++◌, ◌<◌}
use mandate_flow.Model.{PolicyReceipt, MandateEvidence}
use mandate_flow.Proof.{
  validate_mandate_flow_proof, missing_if, is_nil, broken, absent, baseline_path, denial_path,
  aggregate_index, recovery_path, counter_at, allowed_receipt, denied_crm_receipt, recovery_crm,
  receipt_after, path_after,
}
use mandate_flow.Proof.Choreography.{Choreography, Chain}
use mandate_flow.Proof.Searches.{path_after_sound, receipt_after_sound, present}

four_tests :
    (a b c d : Bool)
    → is_nil (
        missing_if a "Support → Case → CRM"
        ++ (missing_if b "Payment → Case → CRM denial"
            ++ (missing_if c "Payment aggregate recovery"
                ++ missing_if d "Fresh Support → Case → CRM")))
      ≡ true
    → (a ≡ false) × (b ≡ false) × (c ≡ false) × (d ≡ false)
four_tests false false false false h = (refl, refl, refl, refl)
four_tests true b c d h = cc
four_tests false true c d h = cc
four_tests false false true d h = cc
four_tests false false false true h = cc

-- Nothing is missing only if none of the four tests fails.
complete_tests :
    (evidence : MandateEvidence)
    → (validate_mandate_flow_proof evidence).complete ≡ true
    → (broken (baseline_path evidence.receipts) ≡ false)
      × (broken (denial_path evidence.receipts) ≡ false)
      × (absent (aggregate_index evidence.receipts) ≡ false)
      × (broken (recovery_path evidence.receipts) ≡ false)
unfolding validate_mandate_flow_proof
complete_tests evidence h = four_tests _ _ _ _ h

pub counter_at-Hit :
    (receipts : List PolicyReceipt) (p : PolicyReceipt → Bool) (i : ℕ) (h : Hit p receipts i)
    → counter_at receipts (some i) ≡ h.element.counter_after
unfolding counter_at
counter_at-Hit receipts p i h = rw (h.there, counter_at)

abbrev pub Denied : List PolicyReceipt → Type 0
Denied receipts =
    Chain receipts none (allowed_receipt "payments.list_failures")
      (allowed_receipt "cases.lookup_subject") denied_crm_receipt

module _ (receipts : List PolicyReceipt) (denied : Denied receipts) (end : Option ℕ)
    (ends : end ≡ some denied.third) where
  aggregate_found :
      (i : ℕ)
      → receipt_after receipts end (allowed_receipt "payments.aggregate_failures") ≡ some i
      → (denied.third < i) × Hit (allowed_receipt "payments.aggregate_failures") receipts i
  aggregate_found i e = receipt_after_sound receipts (some denied.third) _ i (rw ends at e)

  recovery_found :
      broken (
          path_after receipts end
            (allowed_receipt "support.list_tickets")
            (allowed_receipt "cases.lookup_subject")
            (recovery_crm (counter_at receipts end)))
        ≡ false
      → Chain receipts
          (some denied.third)
          (allowed_receipt "support.list_tickets")
          (allowed_receipt "cases.lookup_subject")
          (recovery_crm denied.third_hit.element.counter_after)
  recovery_found e =
      (path_after_sound receipts (some denied.third) _ _ _ (
        rw (ends, counter_at-Hit receipts denied_crm_receipt denied.third denied.third_hit) at e)).0

-- Evidence that validates as complete holds the whole choreography, in order.
pub complete-Choreography :
    (evidence : MandateEvidence)
    → (validate_mandate_flow_proof evidence).complete ≡ true
    → Choreography evidence.receipts
unfolding baseline_path denial_path aggregate_index recovery_path
complete-Choreography evidence h =
    let (b, d, a, r) = complete_tests evidence h in
    let (denied, ends) = path_after_sound evidence.receipts _ _ _ _ d in
    let (aggregate, found) = present (aggregate_index evidence.receipts) a in
    let (after, hit) = aggregate_found evidence.receipts denied _ ends aggregate found in
    record {
      baseline = (path_after_sound evidence.receipts _ _ _ _ b).0;
      denied = denied;
      aggregate = aggregate;
      after_denial = after;
      aggregated = hit;
      recovered = recovery_found evidence.receipts denied _ ends r;
    }
