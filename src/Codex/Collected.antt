-- ===== src/Codex/Collected.antt =====
-- What the lines of an output leave, and when they cannot be read.
use mathlib.Core.List.{append-nil, append_assoc}
use mandate_flow.Base.{
  ◌≡◌, refl, sym, ap, ◌∙◌, inl, inr, Bool, true, false, Option, none, some, String, List, [], ◌∷◌,
  ◌++◌, any, arith, not, Bool-cases, Option-cases, if◌then◌else◌,
}
use mandate_flow.Model.{ok, is_ok}
use mandate_flow.Session.{Redaction}
use mandate_flow.Json.{
  Json, null, boolean, number, text, array, object, Fields, get, as_text, as_object, says,
}
use mandate_flow.Codex.{ParsedEvents, progress_for_codex_item}
use mandate_flow.Codex.Lines.{
  parse_codex_event_line, parse_lines, message_text, said, report_any, on_event, on_item_completed,
  on_item_started, on_item_delta, on_thread_started, on_turn_started, on_turn_completed, on_error,
}

-- The text of the message that an event completes.
abbrev pub completed_message : Fields → Option String
completed_message event =
    if says "type" "item.completed" event
    then elim (as_object (get "item" event)) [ none ↦ none | some fields ↦ message_text fields ]
    else none

abbrev listed : Option String → List String
listed none = []
listed (some s) = s ∷ []

-- The texts of the Agent's messages among the lines, in their order.
abbrev pub messages_of : List (Option Json) → List String
messages_of [] = []
messages_of (some (object event) ∷ lines) = listed (completed_message event) ++ messages_of lines
messages_of (_ ∷ lines) = messages_of lines

-- A line that holds nothing but `null`.
abbrev pub is_null : Option Json → Bool
is_null (some null) = true
is_null _ = false

module _ (r : Redaction) where
  on_thread_started-keeps :
      (event : Fields) (parsed : ParsedEvents)
      → (on_thread_started event parsed).messages ≡ parsed.messages
  unfolding on_thread_started
  on_thread_started-keeps event parsed = elim (Option-cases (as_text (get "thread_id" event))) [
    | inl e ↦ rw e (ground arith)
    | inr (s, e) ↦ rw e (ground arith)
  ]

  on_item_started-keeps :
      (event : Fields) (parsed : ParsedEvents)
      → (on_item_started r event parsed).messages ≡ parsed.messages
  unfolding on_item_started
  on_item_started-keeps event parsed = elim (Option-cases (as_object (get "item" event))) [
    | inl e ↦ rw e (ground arith)
    | inr (fields, e) ↦ elim (Option-cases (progress_for_codex_item r fields false)) [
      | inl f ↦ rw (e, f) (ground arith)
      | inr (p, f) ↦ rw (e, f) (ground arith)
    ]
  ]

  on_turn_completed-keeps :
      (event : Fields) (parsed : ParsedEvents)
      → (on_turn_completed event parsed).messages ≡ parsed.messages
  unfolding on_turn_completed
  on_turn_completed-keeps event parsed = elim (Option-cases (as_object (get "usage" event))) [
    | inl e ↦ rw e (ground arith)
    | inr (u, e) ↦ rw e (ground arith)
  ]

  on_item_completed-adds :
      (event : Fields) (parsed : ParsedEvents)
      → (on_item_completed r event parsed).messages
        ≡ parsed.messages ++ listed (completed_message event)
  unfolding on_item_completed
  on_item_completed-adds event parsed = elim (Bool-cases (says "type" "item.completed" event)) [
    | inr miss ↦ rw miss (sym (append-nil parsed.messages))
    | inl hit ↦ elim (Option-cases (as_object (get "item" event))) [
      | inl e ↦ rw (hit, e) (sym (append-nil parsed.messages))
      | inr (fields, e) ↦ rw (hit, e) (said-adds fields)
    ]
  ]
    where
      said-adds :
          (fields : Fields)
          → (said
              (message_text fields)
              (report_any (progress_for_codex_item r fields true) parsed)).messages
            ≡ parsed.messages ++ listed (message_text fields)
      said-adds fields = elim (Option-cases (message_text fields)) [
        | inl m ↦ elim (Option-cases (progress_for_codex_item r fields true)) [
          | inl f ↦ rw (m, f) (sym (append-nil parsed.messages))
          | inr (p, f) ↦ rw (m, f) (sym (append-nil parsed.messages))
        ]
        | inr (t, m) ↦ elim (Option-cases (progress_for_codex_item r fields true)) [
          | inl f ↦ rw (m, f) refl
          | inr (p, f) ↦ rw (m, f) refl
        ]
      ]

  on_event-adds :
      (event : Fields) (parsed : ParsedEvents)
      → (on_event r event parsed).messages ≡ parsed.messages ++ listed (completed_message event)
  unfolding on_event on_error on_item_delta on_turn_started
  on_event-adds event parsed =
      let opening = on_turn_started event (on_thread_started event parsed) in
      let begun = on_item_started r event opening in
      let items = on_item_completed r event begun in
      let delta = on_item_delta event items in
      let first : opening.messages ≡ parsed.messages =
        ground (arith, on_thread_started-keeps event parsed) in
      let second = on_item_started-keeps event opening in
      let third = on_item_completed-adds event begun in
      let fourth : delta.messages ≡ items.messages = ground arith in
      let fifth = on_turn_completed-keeps event delta in
      let sixth : (on_error event (on_turn_completed event delta)).messages
          ≡ (on_turn_completed event delta).messages =
        ground arith in
      cc (first, second, third, fourth, fifth, sixth)

  -- An output that can be read leaves the texts of the Agent's completed messages, in their order,
  -- after those that were there.
  pub parse_lines-messages_of :
      (lines : List (Option Json)) (parsed after : ParsedEvents)
      → parse_lines r lines parsed ≡ ok after
      → after.messages ≡ parsed.messages ++ messages_of lines
  unfolding parse_lines parse_codex_event_line
  parse_lines-messages_of [] parsed after e =
      let same : parsed ≡ after = cc in rw (sym same) (sym (append-nil parsed.messages))
  parse_lines-messages_of (some (object event) ∷ lines) parsed after e =
      parse_lines-messages_of lines (on_event r event parsed) after e
      ∙ (ap (λ ms. ms ++ messages_of lines) (on_event-adds event parsed)
          ∙ append_assoc parsed.messages (listed (completed_message event)) (messages_of lines))
  parse_lines-messages_of (none ∷ lines) parsed after e =
      parse_lines-messages_of lines parsed after e
  parse_lines-messages_of (some null ∷ lines) parsed after e = cc
  parse_lines-messages_of (some (boolean b) ∷ lines) parsed after e =
      parse_lines-messages_of lines parsed after e
  parse_lines-messages_of (some (number n) ∷ lines) parsed after e =
      parse_lines-messages_of lines parsed after e
  parse_lines-messages_of (some (text s) ∷ lines) parsed after e =
      parse_lines-messages_of lines parsed after e
  parse_lines-messages_of (some (array items) ∷ lines) parsed after e =
      parse_lines-messages_of lines parsed after e

  -- Reading an output throws exactly when one of its lines is the JSON text `null`.
  pub parse_lines_lem :
      (lines : List (Option Json)) (parsed : ParsedEvents)
      → is_ok (parse_lines r lines parsed) ≡ not (any is_null lines)
  unfolding parse_lines parse_codex_event_line
  parse_lines_lem [] parsed = refl
  parse_lines_lem (some (object event) ∷ lines) parsed =
      parse_lines_lem lines (on_event r event parsed)
  parse_lines_lem (none ∷ lines) parsed = parse_lines_lem lines parsed
  parse_lines_lem (some null ∷ lines) parsed = refl
  parse_lines_lem (some (boolean b) ∷ lines) parsed = parse_lines_lem lines parsed
  parse_lines_lem (some (number n) ∷ lines) parsed = parse_lines_lem lines parsed
  parse_lines_lem (some (text s) ∷ lines) parsed = parse_lines_lem lines parsed
  parse_lines_lem (some (array items) ∷ lines) parsed = parse_lines_lem lines parsed
