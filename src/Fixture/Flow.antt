-- ===== src/Fixture/Flow.antt =====
-- What a proof run of the fixture that returns has left in its transcript.
use mandate_flow.Base.{ℕ, suc, ◌≡◌, refl, String, true, List, [], push, arith}
use mandate_flow.Model.{ok}
use mandate_flow.Json.{Fields, Json, bare}
use mandate_flow.Fixture.{Outside, lift}
use mandate_flow.Fixture.Calls.{is_ok_result, is_payment_denial, require_reference, require_success}
use mandate_flow.Fixture.Ends.{Ends, Ends-bind, Ends-mono, Ends-pure, Ends-lift, Ends-ensure}
use mandate_flow.Fixture.Receipts.{Entry, passed, resolved, denied, Recording, entry_of, counted}
use mandate_flow.Fixture.Effects.{
  After, Answered, call_tool-Ends, report-Ends, save-Ends, initialize_session-Ends,
  assert_full_grant_discovery-Ends,
}
use mandate_flow.Fixture.Steps.{RunnerRequest}
use mandate_flow.Fixture.Run.{
  by_reference, support_flow, payment_flow, aggregate_flow, prove, not_denied, discovering,
  support_path, payment_path, recording_recovery, verifying_recovery,
}

require_reference-ok :
    (result : Fields) (label : String) (reference : Json)
    → require_reference result label ≡ ok reference
    → is_ok_result result ≡ true
unfolding require_reference
require_reference-ok result label reference e = ground arith

require_success-ok :
    (result : Fields) (label : String)
    → require_success result label ≡ ok tt
    → is_ok_result result ≡ true
unfolding require_success
require_success-ok result label e = ground arith

abbrev pub support_entries : List Entry → ℕ → List Entry
support_entries es n =
    push (push (push es (passed "support.list_tickets")) (passed "cases.lookup_subject"))
      (resolved n)

abbrev pub payment_entries : List Entry → ℕ → List Entry
payment_entries es n =
    push (push (push es (passed "payments.list_failures")) (passed "cases.lookup_subject"))
      (denied n)

abbrev trusted_entries : List Entry
trusted_entries = support_entries [] 0

abbrev denied_entries : List Entry
denied_entries = payment_entries trusted_entries 1

abbrev aggregated_entries : List Entry
aggregated_entries = push denied_entries (passed "payments.aggregate_failures")

abbrev pub proof_entries : List Entry
proof_entries = support_entries aggregated_entries 1

module _ (O : Outside) (c : Recording O) (request : RunnerRequest) where
  referred-Ends :
      (es : List Entry) (n : ℕ) (name : String) (result : Fields) (label : String)
      → Ends O
          (Answered O c es n name result)
          (lift (require_reference result label))
          (λ _. After O c (push es (entry_of name n)) (counted name n))
  referred-Ends es n name result label =
      Ends-mono O (Ends-lift O _ _) λ a s h. h.1.0 (require_reference-ok result label a h.0)

  succeeded-Ends :
      (es : List Entry) (n : ℕ) (name : String) (result : Fields) (label : String)
      → Ends O
          (Answered O c es n name result)
          (lift (require_success result label))
          (λ _. After O c (push es (entry_of name n)) (counted name n))
  succeeded-Ends es n name result label =
      Ends-mono O (Ends-lift O _ _) λ a s h. h.1.0 (require_success-ok result label h.0)

  support_flow-Ends :
      (es : List Entry) (n : ℕ) (lookup transform recovery : String)
      → Ends O
          (After O c es n)
          (support_flow O request lookup transform recovery)
          (λ _. After O c (support_entries es n) (suc n))
  unfolding support_flow
  support_flow-Ends es n lookup transform recovery =
      Ends-bind O (call_tool-Ends O c es n _ "support.list_tickets" bare) λ support.
        Ends-bind O (referred-Ends es n "support.list_tickets" support lookup) λ r.
          Ends-bind O (call_tool-Ends O c _ n _ "cases.lookup_subject" (by_reference r)) λ found.
            Ends-bind O (referred-Ends _ n "cases.lookup_subject" found transform) λ r.
              Ends-bind O (call_tool-Ends O c _ n _ "crm.resolve_customer" (by_reference r))
                λ resolution. succeeded-Ends _ n "crm.resolve_customer" resolution recovery

  payment_flow-Ends :
      (es : List Entry) (n : ℕ)
      → Ends O (After O c es n) (payment_flow O request) (λ _. After O c (payment_entries es n) n)
  unfolding payment_flow
  payment_flow-Ends es n =
      Ends-bind O (call_tool-Ends O c es n _ "payments.list_failures" bare) λ payment.
        Ends-bind O (referred-Ends es n "payments.list_failures" payment _) λ r.
          Ends-bind O (call_tool-Ends O c _ n _ "cases.lookup_subject" (by_reference r)) λ found.
            Ends-bind O (referred-Ends _ n "cases.lookup_subject" found _) λ r.
              Ends-bind O (save-Ends O c _ n request r) λ _.
                Ends-bind O (call_tool-Ends O c _ n _ "crm.resolve_customer" (by_reference r))
                  λ denial.
                    Ends-mono O (Ends-ensure O _ (is_payment_denial denial) not_denied)
                      λ _ s h. h.1.1 h.0 refl

  aggregate_flow-Ends :
      (es : List Entry) (n : ℕ)
      → Ends O
          (After O c es n)
          (aggregate_flow O request)
          (λ _. After O c (push es (passed "payments.aggregate_failures")) n)
  unfolding aggregate_flow
  aggregate_flow-Ends es n =
      Ends-bind O (call_tool-Ends O c es n _ "payments.aggregate_failures" bare)
        λ result. succeeded-Ends es n "payments.aggregate_failures" result _

  pub prove-Ends : Ends O (After O c [] 0) (prove O request) (λ _. After O c proof_entries 2)
  unfolding prove
  prove-Ends = Ends-bind O (report-Ends O c _ discovering) λ _.
      Ends-bind O (initialize_session-Ends O c [] 0 _) λ _.
        Ends-bind O (assert_full_grant_discovery-Ends O c [] 0 _) λ _.
          Ends-bind O (report-Ends O c _ support_path) λ _.
            Ends-bind O (support_flow-Ends [] 0 _ _ _) λ _.
              Ends-bind O (report-Ends O c _ payment_path) λ _.
                Ends-bind O (payment_flow-Ends trusted_entries 1) λ _.
                  Ends-bind O (report-Ends O c _ recording_recovery) λ _.
                    Ends-bind O (aggregate_flow-Ends denied_entries 1) λ _.
                      Ends-bind O (report-Ends O c _ verifying_recovery) λ _.
                        Ends-bind O (support_flow-Ends aggregated_entries 1 _ _ _)
                          λ _. Ends-pure O _ _
