-- ===== src/Codex.antt =====
-- CodeJam/apps/server/src/codex-runner.ts: what the runner makes of the lines that Codex writes.
pub mod Lines
pub mod Collected
use Prim.Native.String
use mandate_flow.Base.{
  ℕ, String, Bool, true, false, not, ◌&&◌, ◌||◌, Option, none, some, List, [], ◌∷◌, ◌++◌, push,
  truthy, ◌==◌, if◌then◌else◌,
}
use mandate_flow.Model.{
  RunUsage, RunProgressStage, RuntimeSessionEventKind, RuntimeSessionEventState,
  RuntimeSessionSafeMetadata, RunnerProgressEvent, Error, other, Result, ok, err,
}
use mandate_flow.Session.{Redaction, sanitize_safe_metadata, create_runner_progress_event}
use mandate_flow.Json.{
  Json, null, boolean, number, text, array, object, Items, blank, item, Fields, get, as_text,
  as_number, as_object, says,
}

-- `reported` are the events that `onProgress` has been called with, the first one first.
pub record ParsedEvents : Type 0 where
  pub messages : List String
  pub thread_id : Option String
  pub usage : Option RunUsage
  pub errors : List String
  pub assistant_streaming : Bool
  pub reported : List RunnerProgressEvent

abbrev path_of : Json → Option String
path_of json = elim (as_object (some json)) [
  | none ↦ none
  | some fields ↦ as_text (get "path" fields)
]

abbrev change_paths : Items → List String
change_paths blank = []
change_paths (item change rest) =
    let later = change_paths rest in
    elim (path_of change) [ none ↦ later | some path ↦ path ∷ later ]

abbrev changes_of : Option Json → List String
changes_of (some (array items)) = change_paths items
changes_of _ = []

abbrev listed {ℓ} : {A : Type ℓ} → Option A → List A
listed none = []
listed (some a) = a ∷ []

pub extract_paths : Fields → List String
extract_paths fields = listed (as_text (get "path" fields)) ++ changes_of (get "changes" fields)

abbrev first_of {ℓ} : {A : Type ℓ} → Option A → Option A → Option A
first_of (some a) other_one = some a
first_of none other_one = other_one

abbrev if_any : List String → Option (List String)
if_any [] = none
if_any (path ∷ paths) = some (path ∷ paths)

abbrev if_truthy : Option String → Option String
if_truthy tool = if truthy tool then tool else none

abbrev metadata_of :
    Option (List String) → Option ℕ → Option String → Option RuntimeSessionSafeMetadata
metadata_of none none none = none
metadata_of paths duration tool =
    some (record { paths = paths; duration_ms = duration; tool = tool })

pub safe_codex_metadata : Fields → Option RuntimeSessionSafeMetadata
unfolding extract_paths
safe_codex_metadata fields =
    metadata_of (if_any (extract_paths fields))
      (first_of (as_number (get "duration_ms" fields)) (as_number (get "durationMs" fields)))
      (if_truthy (first_of (as_text (get "tool" fields)) (as_text (get "name" fields))))

pub data ItemKind : Type 0 where
  command file_change mcp assistant unknown : ItemKind

-- The cases of the `switch`.
pub item_kind : String → ItemKind
item_kind item_type =
    if item_type == "command_execution"
    then command
    else if (item_type == "file_change") || (item_type == "file_edit")
    then file_change
    else if (item_type == "mcp_tool_call") || (item_type == "tool_call")
    then mcp
    else if item_type == "agent_message"
    then assistant
    else unknown

abbrev pub has_failed : Fields → Bool → Bool
has_failed fields completed =
    completed && (says "status" "failed" fields || says "status" "error" fields)

abbrev suffix : Bool → Bool → String
suffix failed completed = if failed then " failed" else if completed then " complete" else ""

abbrev state_of : Bool → Bool → RuntimeSessionEventState
state_of failed completed =
    if failed
    then RuntimeSessionEventState.failed
    else if completed
    then RuntimeSessionEventState.completed
    else RuntimeSessionEventState.started

abbrev stage_of : Bool → RunProgressStage
stage_of failed = if failed then RunProgressStage.error else RunProgressStage.tool

abbrev detail_of : Bool → Bool → String → String → String → String
detail_of failed completed when_failed when_done when_begun =
    if completed then if failed then when_failed else when_done else when_begun

-- What an item's event shows of the item: its kind, whether it has failed or is complete, and the
-- metadata that may be shown.
pub event_of :
    ItemKind → Bool → Bool → Option RuntimeSessionSafeMetadata → Option RunnerProgressEvent
event_of command failed completed metadata = some (
    create_runner_progress_event (stage_of failed) RuntimeSessionEventKind.command
      (state_of failed completed)
      (String.◌++◌ "Running a workspace command" (suffix failed completed))
      (detail_of failed completed "The Agent command failed in the selected workspace."
        "The Agent finished a command in the selected workspace."
        "The Agent is running a command in the selected workspace.")
      metadata)
event_of file_change failed completed metadata = some (
    create_runner_progress_event (stage_of failed) RuntimeSessionEventKind.file_change
      (state_of failed completed) (String.◌++◌ "Updating workspace files" (suffix failed completed))
      (detail_of failed completed
        "The Agent could not apply a code change in the selected workspace."
        "The Agent applied a code change in the selected workspace."
        "The Agent is preparing a code change in the selected workspace.")
      metadata)
event_of mcp failed completed metadata = some (
    create_runner_progress_event (stage_of failed) RuntimeSessionEventKind.mcp
      (state_of failed completed)
      (String.◌++◌ "Checking a protected tool call" (suffix failed completed))
      (detail_of failed completed "MandateFlow could not complete the protected-tool decision."
        "MandateFlow recorded the protected-tool decision."
        "MandateFlow is checking the call before the protected service runs.")
      metadata)
event_of assistant failed completed metadata = some (
    create_runner_progress_event RunProgressStage.phase RuntimeSessionEventKind.assistant
      (if completed then RuntimeSessionEventState.completed else RuntimeSessionEventState.streaming)
      (String.◌++◌ "Preparing the Agent response" (suffix failed completed))
      "The Agent is assembling a safe summary of the work." none)
event_of unknown failed completed metadata = none

abbrev pub kind_of : Fields → ItemKind
kind_of fields = elim (as_text (get "type" fields)) [
  | none ↦ unknown
  | some item_type ↦ item_kind item_type
]

unfoldable pub progress_for_codex_item : Redaction → Fields → Bool → Option RunnerProgressEvent
unfolding item_kind event_of safe_codex_metadata
progress_for_codex_item r fields completed =
    event_of (kind_of fields) (has_failed fields completed) completed
      (sanitize_safe_metadata r (safe_codex_metadata fields))
