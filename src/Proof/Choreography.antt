-- ===== src/Proof/Choreography.antt =====
-- What the receipts of a proof Run must show, as positions in their list.
use mandate_flow.Base.{ℕ, ◌<◌, ◌≡◌, Bool, true, Option, none, some, List, Hit, get_elem?, ◌≤ℤ◌}
use mandate_flow.Model.{PolicyReceipt}
use mandate_flow.Proof.{allowed_receipt, denied_crm_receipt, baseline_crm, recovery_crm}

abbrev pub Beyond : Option ℕ → ℕ → Type 0
Beyond none i = Unit
Beyond (some s) i = s < i

-- Three receipts in order, all beyond a position.
pub record Chain (receipts : List PolicyReceipt) (start : Option ℕ) (p q r : PolicyReceipt → Bool)
    : Type 0 where
  pub first : ℕ
  pub second : ℕ
  pub third : ℕ
  pub begins : Beyond start first
  pub then_second : first < second
  pub then_third : second < third
  pub first_hit : Hit p receipts first
  pub second_hit : Hit q receipts second
  pub third_hit : Hit r receipts third

-- A Support path that reaches CRM for the first time, a Payment path that is denied at CRM, and
-- after the denial an aggregate of payments and a fresh Support path whose CRM call counts up
-- from no less than the counter that the denial left.
pub record Choreography (receipts : List PolicyReceipt) : Type 0 where
  pub baseline :
      Chain receipts none
        (allowed_receipt "support.list_tickets")
        (allowed_receipt "cases.lookup_subject")
        baseline_crm
  pub denied :
      Chain receipts none
        (allowed_receipt "payments.list_failures")
        (allowed_receipt "cases.lookup_subject")
        denied_crm_receipt
  pub aggregate : ℕ
  pub after_denial : denied.third < aggregate
  pub aggregated : Hit (allowed_receipt "payments.aggregate_failures") receipts aggregate
  pub recovered :
      Chain receipts
        (some denied.third)
        (allowed_receipt "support.list_tickets")
        (allowed_receipt "cases.lookup_subject")
        (recovery_crm denied.third_hit.element.counter_after)

-- From one denied CRM call to a later one the CRM counter never falls.
abbrev pub Rising : List PolicyReceipt → Type 0
Rising receipts =
    (i j : ℕ) (r s : PolicyReceipt)
    → i < j
    → get_elem? receipts i ≡ some r
    → get_elem? receipts j ≡ some s
    → denied_crm_receipt r ≡ true
    → denied_crm_receipt s ≡ true
    → r.counter_after ≤ℤ s.counter_after
