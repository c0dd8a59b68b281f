-- ===== src/Fixture/Transcript.antt =====
-- The transcript of the fixture's tool calls: one receipt for each, made from what its gateway, whatever
-- that is, has answered.
use mathlib.Core.Path.{subst}
use mandate_flow.Base.{
  ℕ, pos, ◌≡◌, refl, sym, eq_refl, String, Bool, true, false, ◌==◌, none, List, push, or_else,
  Bool-cases, inl, inr, arith, if◌then◌else◌,
}
use mandate_flow.Model.{
  PolicyReceipt, Decision, ProvenanceDecision, ReceiptOutcome, Result, ok, err, ok_inj,
}
use mandate_flow.Json.{Fields, get, as_text}
use mandate_flow.Fixture.{McpRequest, HttpReply, Outside}
use mandate_flow.Fixture.Calls.{is_ok_result, is_payment_denial}
use mandate_flow.Fixture.Steps.{structured, reply_result}
use mandate_flow.Fixture.Receipts.{Recording, Fits, entry_of, counted, is_crm, denied}

-- What lies outside, and what is written down beside it. The counter is of the CRM calls that were
-- answered as allowed.
pub record Transcript (State : Type 0) : Type 0 where
  pub outside : State
  pub receipts : List PolicyReceipt
  pub crm_counter : ℕ

abbrev receipt : String → Bool → Bool → ℕ → ℕ → PolicyReceipt
receipt name passes flow_denied before after = record {
  id = name;
  run_id = "";
  tool = name;
  decision = if passes then Decision.allow else Decision.deny;
  static_scope_decision =
      if passes then Decision.allow else if flow_denied then Decision.allow else Decision.deny;
  provenance_decision = if passes then ProvenanceDecision.allow else ProvenanceDecision.deny;
  outcome = if passes then ReceiptOutcome.succeeded else ReceiptOutcome.not_invoked;
  downstream_invoked = passes;
  rule_id = none;
  counter_before = pos before;
  counter_after = pos after;
}

abbrev after_call : String → Bool → ℕ → ℕ
after_call name passes n = if passes then counted name n else n

-- The receipt of an answer as the code understands it: allowed, denied by the Payment rule, or another
-- refusal or failure.
abbrev written : String → ℕ → Result Fields → PolicyReceipt × ℕ
written name n (err e) = (receipt name false false n n, n)
written name n (ok result) =
    let later = after_call name (is_ok_result result) n in
    (receipt name (is_ok_result result) (is_payment_denial result) n later, later)

module _ (O : Outside) where
  abbrev take_down : Transcript O.State → String → O.State × Result HttpReply → Transcript O.State
  take_down t name answer =
      let added = written name t.crm_counter (structured O name (reply_result O answer.1)) in
      record { outside = answer.0; receipts = push t.receipts added.0; crm_counter = added.1 }

  abbrev answered :
      Transcript O.State → McpRequest → O.State × Result HttpReply → Transcript O.State
  answered t request answer =
      if request.method == "tools/call"
      then take_down t (or_else (as_text (get "name" request.params)) "") answer
      else record t { outside = answer.0 }

  -- The same gateway, disk and clock, with the transcript. The code does not see it.
  abbrev pub transcribed : Outside
  transcribed = record {
    State = Transcript O.State;
    exchange = λ t request.
        (answered t request (O.exchange t.outside request), (O.exchange t.outside request).1);
    read_json = λ t. O.read_json t.outside;
    write_json = λ t path value. (
      record t { outside = (O.write_json t.outside path value).0 },
      (O.write_json t.outside path value).1,
    );
    chmod =
        λ t path. (record t { outside = (O.chmod t.outside path).0 }, (O.chmod t.outside path).1);
    now = λ t. O.now t.outside;
    parse = O.parse;
  }

pub written-allows :
    (name : String) (n : ℕ) (outcome : Result Fields) (result : Fields)
    → outcome ≡ ok result
    → is_ok_result result ≡ true
    → Fits (entry_of name n) (written name n outcome).0
      × ((written name n outcome).1 ≡ counted name n)
written-allows name n (err e) result given good = cc
written-allows name n (ok said) result given good =
    let same : said ≡ result = ok_inj given in
    let passes : is_ok_result said ≡ true = subst (λ x. is_ok_result x ≡ true) (sym same) good in
    rw passes (elim (Bool-cases (is_crm name)) [
      | inl crm ↦ rw (crm, crm) ((refl, (refl, refl)), refl)
      | inr not_crm ↦ rw not_crm (rw (eq_refl name) (refl, refl))
    ])

-- The receipt of a CRM call that the Payment rule has denied.
flow-denied :
    (name : String) (n : ℕ) (passes flow_denied : Bool)
    → passes ≡ false
    → flow_denied ≡ true
    → is_crm name ≡ true
    → let later = after_call name passes n in
      Fits (denied n) (receipt name passes flow_denied n later) × (later ≡ n)
flow-denied name n true flow_denied fails refused crm = cc
flow-denied name n false false fails refused crm = cc
flow-denied name n false true fails refused crm = rw crm ((refl, (refl, refl)), refl)

pub written-denies :
    (name : String) (n : ℕ) (outcome : Result Fields) (result : Fields)
    → outcome ≡ ok result
    → is_payment_denial result ≡ true
    → is_crm name ≡ true
    → Fits (denied n) (written name n outcome).0 × ((written name n outcome).1 ≡ n)
written-denies name n (err e) result given bad crm = cc
written-denies name n (ok said) result given bad crm =
    let same : said ≡ result = ok_inj given in
    let refused : is_payment_denial said ≡ true =
      subst (λ x. is_payment_denial x ≡ true) (sym same) bad in
    let fails : is_ok_result said ≡ false = ground arith in
    flow-denied name n (is_ok_result said) (is_payment_denial said) fails refused crm

-- The transcript of any gateway keeps the rules.
unfoldable pub transcript : (O : Outside) → Recording (transcribed O)
transcript O = record {
  receipts = λ t. t.receipts;
  crm_counter = λ t. t.crm_counter;
  quiet = λ t request quiet. rw quiet (refl, refl);
  writes = λ t path value. (refl, refl);
  changes_mode = λ t path. (refl, refl);
  allows = λ t capability id name arguments result given good.
      let (fits, counts) = written-allows name t.crm_counter _ result given good in
      (_, refl, fits, counts);
  denies = λ t capability id name arguments result given bad crm.
      let (fits, counts) = written-denies name t.crm_counter _ result given bad crm in
      (_, refl, fits, counts);
}
