-- ===== src/Fixture/Effects.antt =====
-- What each step of the fixture does to the receipts of its calls.
use mathlib.Core.Path.{subst}
use mandate_flow.Base.{
  ℕ, suc, ◌≡◌, refl, sym, ap, ◌∙◌, ◌==◌, inl, inr, String, Bool-cases, true, false, Option, some,
  none, List, push, is_empty,
}
use mandate_flow.Model.{PolicyReceipt, Result, ok, err, RunnerProgressEvent}
use mandate_flow.Json.{bare, Fields, Json}
use mandate_flow.Fixture.{Outside, World}
use mandate_flow.Fixture.Calls.{is_ok_result, is_payment_denial}
use mandate_flow.Fixture.Ends.{Ends, Ends-bind, Ends-mono, Ends-pure, Ends-lift}
use mandate_flow.Fixture.Receipts.{
  Entry, denied, Fits, Records, Records-push, Recording, entry_of, counted, is_crm, tool_request,
}
use mandate_flow.Fixture.Steps.{
  RunnerRequest, report, mcp_request, conclude_call, call_tool, structured, reply_result,
  initialize_session, assert_full_grant_discovery, remember, state_path, write_file, change_mode,
  write_state, save_on_disk, client_params, full_grant, save_payment_case_reference,
}

module _ (O : Outside) (c : Recording O) where
  -- The receipts are those of the entries, and the CRM counter stands at `n`.
  abbrev pub After : List Entry → ℕ → O.State → Type 0
  After es n s = Records es (c.receipts s) × (c.crm_counter s ≡ n)

  -- A tool call that was answered has left its entry.
  abbrev pub Answered : List Entry → ℕ → String → Fields → O.State → Type 0
  Answered es n name result s =
      (is_ok_result result ≡ true → After (push es (entry_of name n)) (counted name n) s)
      × (is_payment_denial result ≡ true → is_crm name ≡ true → After (push es (denied n)) n s)

  After-same :
      (es : List Entry) (n : ℕ) (s s' : O.State)
      → (c.receipts s' ≡ c.receipts s) × (c.crm_counter s' ≡ c.crm_counter s)
      → After es n s
      → After es n s'
  After-same es n s s' same h = (subst (Records es) (sym same.0) h.0, same.1 ∙ h.1)

  conclude_call-ok :
      (elapsed : ℕ) (name : String) (v w : World O) (r : Result Fields) (result : Fields)
      → conclude_call O elapsed name v r ≡ (w, ok result)
      → (w.outside ≡ v.outside) × (r ≡ ok result)
  unfolding conclude_call report
  conclude_call-ok elapsed name v w (ok x) result e =
      (sym (ap (λ p. p.0.outside) e), ap (λ p. p.1) e)
  conclude_call-ok elapsed name v w (err x) result e = cc

  call_tool-ok :
      (capability name : String) (arguments result : Fields) (w w' : World O)
      → call_tool O capability name arguments w ≡ (w', ok result)
      → let x =
          O.exchange w.outside (tool_request capability (suc w.request_number) name arguments) in
        (w'.outside ≡ x.0) × (structured O name (reply_result O x.1) ≡ ok result)
  unfolding call_tool mcp_request report
  call_tool-ok capability name arguments result w w' h = conclude_call-ok _ name _ w' _ result h

  grown :
      (es : List Entry) (s s' : O.State) {t : O.State} (r : PolicyReceipt) (e : Entry) (m : ℕ)
      → t ≡ s'
      → c.receipts s' ≡ push (c.receipts s) r
      → Fits e r
      → c.crm_counter s' ≡ m
      → Records es (c.receipts s)
      → After (push es e) m t
  grown es s s' r e m there added fits counts h =
      subst (After (push es e) m) (sym there) (
        subst (Records (push es e)) (sym added) (Records-push es (c.receipts s) e r h fits),
        counts,
      )

  pub call_tool-Ends :
      (es : List Entry) (n : ℕ) (capability name : String) (arguments : Fields)
      → Ends O (After es n) (call_tool O capability name arguments) (Answered es n name)
  call_tool-Ends es n capability name arguments = record {
    at = λ w result w' h e.
        let (out, said) = call_tool-ok capability name arguments result w w' e in
        let here = suc w.request_number in
        (
          λ good.
              let (r, added, fits, counts) =
                c.allows w.outside capability here name arguments result said good in
              subst (λ k. After (push es (entry_of name k)) (counted name k) w'.outside) h.1
                (grown es _ _ r _ _ out added fits counts h.0),
          λ bad crm.
              let (r, added, fits, counts) =
                c.denies w.outside capability here name arguments result said bad crm in
              subst (λ k. After (push es (denied k)) k w'.outside) h.1
                (grown es _ _ r _ _ out added fits counts h.0),
        );
  }

  pub report-Ends :
      (P : O.State → Type 0) (event : RunnerProgressEvent) → Ends O P (report O event) (λ _. P)
  unfolding report
  report-Ends P event = record { at = λ w a w' h e. subst P (ap (λ p. p.0.outside) e) h }

  mcp_request-Ends :
      (es : List Entry) (n : ℕ) (capability method : String) (params : Fields)
      → (method == "tools/call") ≡ false
      → Ends O (After es n) (mcp_request O capability method params) (λ _. After es n)
  unfolding mcp_request
  mcp_request-Ends es n capability method params quiet = record {
    at = λ w a w' h e.
        subst (After es n) (ap (λ p. p.0.outside) e)
          (After-same es n w.outside _ (c.quiet w.outside _ quiet) h);
  }

  module _ (es : List Entry) (n : ℕ) where
    write_file-Ends :
        (path : String) (value : Json)
        → Ends O (After es n) (write_file O path value) (λ _. After es n)
    unfolding write_file
    write_file-Ends path value = record {
      at = λ w a w' h e.
          subst (After es n) (ap (λ p. p.0.outside) e)
            (After-same es n w.outside _ (c.writes w.outside path value) h);
    }

    change_mode-Ends : (path : String) → Ends O (After es n) (change_mode O path) (λ _. After es n)
    unfolding change_mode
    change_mode-Ends path = record {
      at = λ w a w' h e.
          subst (After es n) (ap (λ p. p.0.outside) e)
            (After-same es n w.outside _ (c.changes_mode w.outside path) h);
    }

    save_on_disk-Ends :
        (home : Option String) (reference : Json)
        → Ends O (After es n) (save_on_disk O home reference) (λ _. After es n)
    unfolding save_on_disk write_state
    save_on_disk-Ends none reference = Ends-pure O (After es n) tt
    save_on_disk-Ends (some home) reference = elim (Bool-cases (is_empty home)) [
      | inl empty ↦ rw empty (Ends-pure O (After es n) tt)
      | inr full ↦ rw full (
          Ends-bind O (write_file-Ends (state_path home) _) λ _. change_mode-Ends (state_path home))
    ]

    remember-Ends :
        (agent_id : String) (reference : Json)
        → Ends O (After es n) (remember O agent_id reference) (λ _. After es n)
    unfolding remember
    remember-Ends agent_id reference = record {
      at = λ w a w' h e. subst (After es n) (ap (λ p. p.0.outside) e) h;
    }

    pub save-Ends :
        (request : RunnerRequest) (reference : Json)
        → Ends O (After es n) (save_payment_case_reference O request reference) (λ _. After es n)
    unfolding save_payment_case_reference
    save-Ends request reference =
        Ends-bind O (remember-Ends request.agent_id reference)
          λ _. save_on_disk-Ends request.codex_home_path reference

    pub initialize_session-Ends :
        (capability : String)
        → Ends O (After es n) (initialize_session O capability) (λ _. After es n)
    unfolding initialize_session
    initialize_session-Ends capability =
        Ends-bind O (mcp_request-Ends es n capability "initialize" client_params refl)
          λ _. Ends-pure O (After es n) tt

    pub assert_full_grant_discovery-Ends :
        (capability : String)
        → Ends O (After es n) (assert_full_grant_discovery O capability) (λ _. After es n)
    unfolding assert_full_grant_discovery
    assert_full_grant_discovery-Ends capability =
        Ends-bind O (mcp_request-Ends es n capability "tools/list" bare refl)
          λ result. Ends-mono O (Ends-lift O (After es n) (full_grant result)) λ _ s h. h.1
