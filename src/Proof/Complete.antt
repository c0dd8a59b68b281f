-- ===== src/Proof/Complete.antt =====
-- Where the counters never fall, receipts that hold the choreography validate as complete.
use native.Mathlib.Decide.{dec_lt}
use native.Mathlib.Nat.{lt_of_le_of_lt}
use mandate_flow.Base.{
  ℕ, ◌≤◌, ◌<◌, ◌≡◌, ap, true, false, some, none, List, arith, ◌≤ℤ◌, ℤ, get_elem?,
}
use mandate_flow.Model.{PolicyReceipt, MandateEvidence}
use mandate_flow.Proof.{
  validate_mandate_flow_proof, broken, absent, baseline_path, denial_path, aggregate_index,
  recovery_path, allowed_receipt, denied_crm_receipt, recovery_crm,
}
use mandate_flow.Proof.Choreography.{Choreography, Chain, Rising}
use mandate_flow.Proof.Sound.{Denied, counter_at-Hit}
use mandate_flow.Proof.Searches.{path_after_least, path_after_sound, receipt_after_least}

recovery_crm_mono :
    (a b : ℤ) (r : PolicyReceipt) → a ≤ℤ b → recovery_crm b r ≡ true → recovery_crm a r ≡ true
recovery_crm_mono a b r h e = ground arith

counter_after-le :
    (receipts : List PolicyReceipt) (i j : ℕ) (r s : PolicyReceipt)
    → Rising receipts
    → get_elem? receipts i ≡ some r
    → get_elem? receipts j ≡ some s
    → denied_crm_receipt r ≡ true
    → denied_crm_receipt s ≡ true
    → i ≤ j
    → r.counter_after ≤ℤ s.counter_after
counter_after-le receipts i j r s rising e f d k le = elim (dec_lt i j) [
  | yes lt ↦ rising i j r s lt e f d k
  | no ge ↦
      let same : i ≡ j = omega arith in
      let equal : r ≡ s = cc (ap (get_elem? receipts) same) in rw equal (omega arith)
]

-- The denial that the search finds is no later than any other, so its counter is no higher, and
-- what recovers from the other recovers from it.
module _ (receipts : List PolicyReceipt) (rising : Rising receipts)
    (c : Choreography receipts) where
  denial_least :
      (d : Denied receipts) × ((denial_path receipts).third ≡ some d.third)
      × (d.third ≤ c.denied.third)
  unfolding denial_path
  denial_least =
      let (whole, (k, found, le)) = path_after_least receipts none _ _ _ c.denied in
      let (d, ends) = path_after_sound receipts none _ _ _ whole in
      let same : k ≡ d.third = cc (found, ends) in (d, ends, omega arith)

  aggregate_present : absent (aggregate_index receipts) ≡ false
  unfolding aggregate_index
  aggregate_present =
      let (d, ends, le) = denial_least in
      let later : d.third < c.aggregate = lt_of_le_of_lt le c.after_denial in
      let (i, found, _) =
        receipt_after_least receipts (some d.third) (allowed_receipt "payments.aggregate_failures")
          c.aggregate later c.aggregated in
      rw (ends, found)

  recovery_whole : broken (recovery_path receipts) ≡ false
  unfolding recovery_path
  recovery_whole =
      let (d, ends, le) = denial_least in
      let r = c.recovered in
      let low =
        counter_after-le receipts d.third c.denied.third d.third_hit.element
          c.denied.third_hit.element rising d.third_hit.there c.denied.third_hit.there
          d.third_hit.passes c.denied.third_hit.passes le in
      let chain : Chain receipts (some d.third) (allowed_receipt "support.list_tickets")
          (allowed_receipt "cases.lookup_subject")
          (recovery_crm d.third_hit.element.counter_after) =
        record {
          first = r.first;
          second = r.second;
          third = r.third;
          begins = lt_of_le_of_lt le r.begins;
          then_second = r.then_second;
          then_third = r.then_third;
          first_hit = r.first_hit;
          second_hit = r.second_hit;
          third_hit = record {
            element = r.third_hit.element;
            there = r.third_hit.there;
            passes =
                recovery_crm_mono d.third_hit.element.counter_after
                  c.denied.third_hit.element.counter_after r.third_hit.element low
                  r.third_hit.passes;
          };
        } in
      let same = counter_at-Hit receipts denied_crm_receipt d.third d.third_hit in
      rw (ends, same) (path_after_least receipts (some d.third) _ _ _ chain).0

-- Where the CRM counter never falls from one denied CRM call to a later one, evidence that holds the choreography
-- validates as complete.
pub Choreography-complete :
    (evidence : MandateEvidence)
    → Rising evidence.receipts
    → Choreography evidence.receipts
    → (validate_mandate_flow_proof evidence).complete ≡ true
unfolding validate_mandate_flow_proof
Choreography-complete evidence rising c =
    let b : broken (baseline_path evidence.receipts) ≡ false =
      unfold baseline_path in (path_after_least evidence.receipts none _ _ _ c.baseline).0 in
    let d : broken (denial_path evidence.receipts) ≡ false =
      unfold denial_path in (path_after_least evidence.receipts none _ _ _ c.denied).0 in
    rw (
      b,
      d,
      aggregate_present evidence.receipts rising c,
      recovery_whole evidence.receipts rising c,
    )
