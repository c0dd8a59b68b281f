-- ===== src/Session/Migration.antt =====
-- runtime-session.ts: the activity events of a database file, as they are read again.
use Prim.Native.String
use mathlib.Core.Option
use mandate_flow.Base.{
  ℕ, suc, String, Option, none, some, List, [], ◌∷◌, or_else, is_empty, trim, if◌then◌else◌,
}
use mandate_flow.Model.{RunProgressStage, RuntimeSessionSafeMetadata, RuntimeSessionEvent}
use mandate_flow.Json.{
  Json, text, array, object, Items, blank, item, Fields, get, as_text, as_number, as_object,
}
use mandate_flow.Session.{Redaction, create_runtime_session_event}
use mandate_flow.Session.Names.{lookup, stages, kinds, states}

abbrev texts_of : Items → List String
texts_of blank = []
texts_of (item (text s) items) = s ∷ texts_of items
texts_of (item json items) = texts_of items

abbrev paths_of : Option Json → Option (List String)
paths_of (some (array items)) = some (texts_of items)
paths_of _ = none

-- What the filter of `sanitizeSafeMetadata` finds; a value without the three keys gives nothing.
abbrev metadata_of : Option Json → Option RuntimeSessionSafeMetadata
metadata_of (some (object fields)) = some (record {
  paths = paths_of (get "paths" fields);
  duration_ms = as_number (get "durationMs" fields);
  tool = as_text (get "tool" fields);
})
metadata_of _ = none

-- A text that is not blank, trimmed.
abbrev said : Option String → Option String
said none = none
said (some s) = if is_empty (trim s) then none else some (trim s)

abbrev positive : Option ℕ → Option ℕ
positive (some (suc n)) = some (suc n)
positive _ = none

abbrev full : Option String → Option String
full (some s) = if is_empty s then none else some s
full none = none

-- `time_of` is the time that a text stands for, `digits` the text of a number.
module _ (r : Redaction) (time_of : String → ℕ) (digits : ℕ → String) where
  unfoldable pub migrate_runtime_session_event : String → Json → ℕ → RuntimeSessionEvent
  unfolding trim
  migrate_runtime_session_event run_id value index =
      let candidate = or_else (as_object (some value)) Fields.bare in
      let title = as_text (get "title" candidate) in
      create_runtime_session_event r run_id
        (or_else (positive (as_number (get "sequence" candidate))) (suc index))
        (or_else (full (as_text (get "id" candidate)))
          (String.◌++◌ "legacy-" (String.◌++◌ run_id (String.◌++◌ "-" (digits (suc index))))))
        (or_else (Option.map time_of (full (as_text (get "createdAt" candidate)))) 0)
        (record {
          stage = or_else (lookup stages (get "stage" candidate)) RunProgressStage.phase;
          label =
              or_else (said (as_text (get "label" candidate)))
                (or_else (said title) "Runtime activity");
          detail = or_else (as_text (get "detail" candidate)) "Runtime activity recorded.";
          kind = lookup kinds (get "kind" candidate);
          state = lookup states (get "state" candidate);
          title = title;
          safe_metadata = metadata_of (get "safeMetadata" candidate);
        })
