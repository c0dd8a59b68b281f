-- ===== src/Control/Typed.antt =====
-- mandateflow-client.ts: a value that passes its schema is of the type that it is taken for.
pub mod Reading
pub mod Keys
pub mod Objects
use mandate_flow.Base.{
  and_both, ℕ, ◌≡◌, refl, inl, inr, ◌&&◌, arith, String, Bool, true, false, Option, none, some,
  List, [], ◌∷◌, Bool-cases,
}
use mandate_flow.Model.{
  MandatePermission, MandatePrepareRequest, MandatePrepareResult, PolicyReceipt, MandateEvidence,
}
use mandate_flow.Json.{Json, null, boolean, number, text, array, object, Fields, get}
use mandate_flow.Control.{
  any_text, nonempty, integer, any_boolean, one_of, nullable, array_of, strict, Shape, ◌&◌, no_more,
  required, all_named, accepts, accepts_keys,
}
use mandate_flow.Control.Schemas.{
  principal, outcome, summary_status, decision, provenance_decision, permission_shape,
  permission_schema, prepare_result_shape, receipt_shape, receipt_schema, evidence_shape,
  summary_before, mandate_summary_shape, revoke_result_shape, texts,
}
use mandate_flow.Control.Taken.{
  ◌>>=◌, MandateSummary, read_text, owners, decisions, provenance_decisions, outcomes,
  summary_statuses, permission_of, prepare_result_of, receipt_of, evidence_of, mandate_summary_of,
  affected_of, revocation_of,
}
use mandate_flow.Control.Answers.{
  ControlRequest, ControlReply, Answer, answered, refused, type_error, schema_error, mistaken,
  is_ok, refusal, request_answer, parsed,
}
use mandate_flow.Control.Client.{
  prepare_request, evidence_request, summary_request, revoke_request, prepare, evidence, summary,
  revoke,
}
use mandate_flow.Control.Typed.Objects.{
  IsGrant, IsMandate, permission_of-Gives, prepare_result_of-Gives, evidence_of-Gives,
  mandate_summary_of-Gives, revocation_of-Gives,
}
use mandate_flow.Control.Typed.Keys.{
  at, given_at, perhaps_at, null_at, text_at, named_at, perhaps_text_at,
}
use mandate_flow.Control.Typed.Reading.{
  Gives, Some, Given, Nonempty, some-Gives, chain, Reads, Reads-text, Reads-nonempty, Reads-integer,
  Reads-boolean, Reads-one_of, Reads-nullable, Reads-list, Reads-fields,
}

abbrev pub is_error {ℓ} : {A : Type ℓ} → Answer A → Bool
is_error (refused status message) = true
is_error type_error = true
is_error schema_error = true
is_error _ = false

-- The answer came, with a status of success, and its body fits the schema.
abbrev pub passes : Shape → Option ControlReply → Bool
passes shape none = false
passes shape (some reply) = is_ok reply.status && accepts (strict shape) reply.body

-- An answer that passes becomes a value with a property, any other an error.
pub record Outcome {ℓ} {A : Type ℓ} (P : A → Type 0) (shape : Shape) (reply : Option ControlReply)
    (answer : Answer A) : Type ℓ where
  pub value : passes shape reply ≡ true → (a : A) × (answer ≡ answered a) × P a
  pub error : passes shape reply ≡ false → is_error answer ≡ true

is_error-refusal {ℓ} :
    {A : Type ℓ} (shape : Shape) (read : Fields → Option A) (status : ℕ) (json : Json)
    → is_error (parsed shape read (refusal status json)) ≡ true
unfolding parsed
is_error-refusal shape read status null = refl
is_error-refusal shape read status (boolean b) = refl
is_error-refusal shape read status (number n) = refl
is_error-refusal shape read status (text s) = refl
is_error-refusal shape read status (array items) = refl
is_error-refusal shape read status (object fields) = refl

-- A body that comes with a status of success.
module _ {ℓ} {A : Type ℓ} {P : A → Type 0} (shape : Shape) (read : Fields → Option A)
    (gives : (fields : Fields) → accepts_keys shape fields ≡ true → Gives P (read fields)) where
  parsed-fits :
      (json : Json)
      → accepts (strict shape) json ≡ true
      → (a : A) × (parsed shape read (answered json) ≡ answered a) × P a
  unfolding parsed
  parsed-fits (object fields) h =
      let given = gives fields (and_both (all_named shape fields) _ h).1 in
      (given.value, rw (h, given.is) refl, given.holds)
  parsed-fits _ h = ground arith

  is_error-parsed :
      (json : Json)
      → accepts (strict shape) json ≡ false
      → is_error (parsed shape read (answered json)) ≡ true
  unfolding parsed
  is_error-parsed (object fields) h = rw h refl
  is_error-parsed _ h = refl

  parsed-Outcome :
      (reply : Option ControlReply)
      → Outcome P shape reply (parsed shape read (request_answer reply))
  unfolding request_answer parsed
  parsed-Outcome none = record { value = λ h. ground arith; error = λ h. refl }
  parsed-Outcome (some reply) = elim (Bool-cases (is_ok reply.status)) [
    | inl e ↦ rw e (record {
      value = λ h. parsed-fits reply.body (rw e at h);
      error = λ h. is_error-parsed reply.body (rw e at h);
    })
    | inr e ↦ rw e (record {
      value = λ h. ground arith;
      error = λ h. is_error-refusal shape read reply.status reply.body;
    })
  ]

module _ {ℓ} (World : Type ℓ) (fetch : ControlRequest → World → World × Option ControlReply)
    (encode : String → String) where
  -- Whatever the control plane answers, an answer of success that fits its schema is taken for a value
  -- of its type, and any other is an error; a grant that is taken is named and says whose mandate it is
  -- under, and a mandate that is taken names its Agent, its policy and its times.
  pub answers-Typed :
      (run_id mandate_id actor : String) (request : MandatePrepareRequest) (world : World)
      → Outcome IsGrant prepare_result_shape
          (fetch (prepare_request encode run_id request) world).1
          (prepare fetch encode run_id request world).1
        × Outcome Some evidence_shape
            (fetch (evidence_request encode run_id) world).1
            (evidence fetch encode run_id world).1
        × Outcome IsMandate mandate_summary_shape
            (fetch (summary_request encode mandate_id) world).1
            (summary fetch encode mandate_id world).1
        × Outcome
            (λ r. IsMandate r.0)
            revoke_result_shape
            (fetch (revoke_request encode mandate_id actor) world).1
            (revoke fetch encode mandate_id actor world).1
  unfolding prepare evidence summary revoke
  answers-Typed run_id mandate_id actor request world = (
    parsed-Outcome prepare_result_shape prepare_result_of prepare_result_of-Gives _,
    parsed-Outcome evidence_shape evidence_of evidence_of-Gives _,
    parsed-Outcome mandate_summary_shape mandate_summary_of (mandate_summary_of-Gives no_more) _,
    parsed-Outcome revoke_result_shape revocation_of revocation_of-Gives _,
  )
