-- ===== src/Tests/Fixtures.antt =====
-- The fixture against a gateway that denies CRM the Payment reference.
use mandate_flow.Base.{◌≡◌, refl, none, some, [], ◌∷◌}
use mandate_flow.Model.{RunnerResult, MandateEvidence, Result, ok}
use mandate_flow.Json.{text, object, Fields, bare, field}
use mandate_flow.Fixture.{World}
use mandate_flow.Fixture.Steps.{
  load_payment_case_reference, save_payment_case_reference, RunnerRequest,
}
use mandate_flow.Fixture.Run.{run, proof_output, result_with}
use mandate_flow.Fixture.Transcript.{transcribed}
use mandate_flow.Fixture.Restart.{load-save, restarted}
use mandate_flow.Tests.Gateway.{gateway}

abbrev proof_request : RunnerRequest
proof_request = record {
  run_id = "run-1";
  agent_id = "agent-1";
  prompt = "Run the MandateFlow verification workflow";
  thread_id = none;
  codex_home_path = some "/home";
  mandate_flow_capability = "capability";
}

abbrev new_world : World (transcribed gateway)
new_world = record {
  outside = record { outside = record { file = none }; receipts = []; crm_counter = 0 };
  request_number = 0;
  payment_case_references = [];
  reported = [];
}

abbrev after : World (transcribed gateway) × Result RunnerResult
after = run (transcribed gateway) proof_request new_world

abbrev returned : RunnerResult
returned = result_with proof_request proof_output

abbrev evidence : MandateEvidence
evidence = record {
  run_id = "run-1";
  retry_of_run_id = none;
  run_status = "ACTIVE";
  receipts = after.0.outside.receipts;
}

-- The world after the reference was saved for the Run.
abbrev saved : World (transcribed gateway)
saved = record new_world {
  outside = record {
    outside = record { file = some (object (field "paymentCaseReference" (text "payment") bare)) };
    receipts = [];
    crm_counter = 0;
  };
  payment_case_references = ("agent-1", text "payment") ∷ [];
}

load-save_example :
    (load_payment_case_reference (transcribed gateway) proof_request (restarted saved)).1
    ≡ ok (text "payment")
unfolding save_payment_case_reference
load-save_example =
    load-save (transcribed gateway) proof_request proof_request "/home" "payment" new_world saved
      (λ s path value written. refl) refl refl refl refl

abbrev retry_request : RunnerRequest
retry_request = record proof_request { prompt = "Retry only the previously denied CRM call." }

abbrev retried : World (transcribed gateway) × Result RunnerResult
retried = run (transcribed gateway) retry_request saved

abbrev denial : Fields
denial = field "ruleId" (text "NO_PAYMENT_REIDENTIFICATION") bare
