-- ===== src/Fixture/Restart.antt =====
-- The Payment reference that one Run of the fixture leaves for the retry.
use mandate_flow.Base.{◌≡◌, refl, sym, ap, ◌∙◌, String, false, some, [], is_empty}
use mandate_flow.Model.{ok}
use mandate_flow.Json.{Json, text, object, bare, field}
use mandate_flow.Fixture.{Outside, World, ◌>>=◌}
use mandate_flow.Fixture.Ends.{go_on-ok}
use mandate_flow.Fixture.Steps.{
  RunnerRequest, state_path, write_file, change_mode, write_state, save_on_disk,
  save_payment_case_reference, remember, load_payment_case_reference, load_from_disk,
}

-- The runner as a restart of the server leaves it.
abbrev pub restarted : {O : Outside} → World O → World O
restarted w = record w { payment_case_references = []; request_number = 0; reported = [] }

module _ (O : Outside) where
  -- A file that has been written and whose mode was changed holds what was written.
  abbrev pub ReadsBack : Type 0
  ReadsBack =
      (s : O.State) (path : String) (value : Json)
      → (O.write_json s path value).1 ≡ ok tt
      → O.read_json (O.chmod (O.write_json s path value).0 path).0 path ≡ ok value

  save_on_disk-ok :
      (home : String) (value : Json) (w w' : World O)
      → is_empty home ≡ false
      → save_on_disk O (some home) value w ≡ (w', ok tt)
      → let stored = object (field "paymentCaseReference" value bare) in
        let written = O.write_json w.outside (state_path home) stored in
        (written.1 ≡ ok tt) × (w'.outside ≡ (O.chmod written.0 (state_path home)).0)
  unfolding save_on_disk write_state write_file change_mode ◌>>=◌
  save_on_disk-ok home value w w' full e =
      let path = state_path home in
      let stored = object (field "paymentCaseReference" value bare) in
      let there : write_state O path value w ≡ (w', ok tt) = (rw full at e) in
      let (a, (v, (here, next))) =
        go_on-ok O (λ _. change_mode O path) (write_file O path stored w) tt w' there in
      let moved : (O.write_json w.outside path stored).0 ≡ v.outside = ap (λ p. p.0.outside) here in
      let changed : (O.chmod v.outside path).0 ≡ w'.outside = ap (λ p. p.0.outside) next in
      (ap (λ p. p.1) here, sym changed ∙ ap (λ s. (O.chmod s path).0) (sym moved))

  -- The Payment reference, a text, that a Run has saved in its home is what a later Run with that
  -- home loads after a restart, if the disk gives back what was written to it.
  pub load-save :
      (request later : RunnerRequest) (home reference : String) (w w' : World O)
      → ReadsBack
      → request.codex_home_path ≡ some home
      → later.codex_home_path ≡ some home
      → is_empty home ≡ false
      → save_payment_case_reference O request (text reference) w ≡ (w', ok tt)
      → (load_payment_case_reference O later (restarted w')).1 ≡ ok (text reference)
  unfolding save_payment_case_reference load_payment_case_reference load_from_disk remember ◌>>=◌
  load-save request later home reference w w' back here there full e =
      let saved : save_on_disk O (some home) (text reference)
            (remember O request.agent_id (text reference) w).0
          ≡ (w', ok tt) =
        (rw here at e) in
      let (written, moved) = save_on_disk-ok home (text reference) _ w' full saved in
      rw (there, full, moved, back _ _ _ written) refl
