-- ===== src/Session.antt =====
-- CodeJam/apps/server/src/runtime-session.ts: the safe activity events of a Run.
pub mod Bounds
pub mod Names
pub mod Migration
use Prim.Native.Char.{code}
use Prim.Native.String
use mandate_flow.Base.{
  ℕ, zero, suc, leb, ltb, eqb, String, Bool, true, false, not, ◌&&◌, ◌||◌, Option, none, some, List,
  [], ◌∷◌, ◌++◌, if◌then◌else◌, codes, fold_codes, includes, or_else, is_empty, trim, length_units,
  take_units, blank_controls,
}
use mandate_flow.Model.{
  RunProgressStage, RuntimeSessionEventKind, RuntimeSessionEventState, RuntimeSessionSafeMetadata,
  RuntimeSessionEvent, RunnerProgressEvent,
}

-- What the events take from trace.ts, and the path filter of runtime-session.ts.
pub record Redaction : Type 0 where
  pub redact_runtime_text : String → List String → String
  pub safe_workspace_path : String → Option String

abbrev pub max_safe_paths : ℕ
max_safe_paths = 8

abbrev pub max_safe_duration_ms : ℕ
max_safe_duration_ms = 3600000

-- `[a-zA-Z0-9_.:-]`
abbrev pub is_tool_code : ℕ → Bool
is_tool_code c =
    (leb b'a' c && leb c b'z')
    || (leb b'A' c && leb c b'Z')
    || (leb b'0' c && leb c b'9')
    || eqb c b'_'
    || eqb c b'.'
    || eqb c b':'
    || eqb c b'-'

abbrev pub all_tool_codes : String → Bool
all_tool_codes String.[] = true
all_tool_codes (String.◌∷◌ c s) = is_tool_code (code c) && all_tool_codes s

-- The first `n` elements.
abbrev pub take {ℓ} : {A : Type ℓ} → ℕ → List A → List A
take zero xs = []
take (suc n) [] = []
take (suc n) (x ∷ xs) = x ∷ take n xs

abbrev pub filter_map {ℓ κ} : {A : Type ℓ} {B : Type κ} → (A → Option B) → List A → List B
filter_map f [] = []
filter_map f (x ∷ xs) = let rest = filter_map f xs in elim (f x) [ none ↦ rest | some y ↦ y ∷ rest ]

kind_from_legacy_event : RunProgressStage → String → RuntimeSessionEventKind
kind_from_legacy_event stage title = elim stage [
  | RunProgressStage.tool ↦
      if says "file"
      then RuntimeSessionEventKind.file_change
      else if says "protected" || says "mcp" || says "tool"
      then RuntimeSessionEventKind.mcp
      else RuntimeSessionEventKind.command
  | RunProgressStage.error ↦ RuntimeSessionEventKind.error
  | _ ↦
      if says "plan" || says "decid"
      then RuntimeSessionEventKind.plan
      else if says "response" || says "assistant"
      then RuntimeSessionEventKind.assistant
      else RuntimeSessionEventKind.status
]
  where
    says : String → Bool
    says word = includes (codes word) (fold_codes (codes title))

state_from_legacy_stage : RunProgressStage → RuntimeSessionEventState
state_from_legacy_stage RunProgressStage.complete = RuntimeSessionEventState.completed
state_from_legacy_stage RunProgressStage.error = RuntimeSessionEventState.failed
state_from_legacy_stage RunProgressStage.cancelled = RuntimeSessionEventState.cancelled
state_from_legacy_stage _ = RuntimeSessionEventState.started

abbrev non_empty {ℓ} : {A : Type ℓ} → List A → Option (List A)
non_empty [] = none
non_empty (x ∷ xs) = some (x ∷ xs)

-- `undefined` where nothing is left.
abbrev any_metadata :
    Option (List String) → Option String → Option ℕ → Option RuntimeSessionSafeMetadata
any_metadata none none none = none
any_metadata paths tool duration =
    some (record { paths = paths; duration_ms = duration; tool = tool })

abbrev keep_if {ℓ} : {A : Type ℓ} → (A → Bool) → A → Option A
keep_if p a = if p a then some a else none

abbrev bind_option {ℓ κ} : {A : Type ℓ} {B : Type κ} → Option A → (A → Option B) → Option B
bind_option none f = none
bind_option (some a) f = f a

abbrev pub create_runner_progress_event :
    RunProgressStage
    → RuntimeSessionEventKind
    → RuntimeSessionEventState
    → String
    → String
    → Option RuntimeSessionSafeMetadata
    → RunnerProgressEvent
create_runner_progress_event stage kind state title detail metadata = record {
  stage = stage;
  label = title;
  detail = detail;
  kind = some kind;
  state = some state;
  title = some title;
  safe_metadata = metadata;
}

module _ (r : Redaction) where
  unfoldable pub bound_runtime_text : String → ℕ → String
  unfolding length_units take_units blank_controls trim
  bound_runtime_text value max_length =
      let redacted = trim (blank_controls (r.redact_runtime_text value [])) in
      if ltb max_length (length_units redacted)
      then String.◌++◌ (take_units max_length redacted) "…"
      else redacted

  -- The match of `{1,120}` leaves nothing for the `slice` to cut.
  safe_tool_name : String → Option String
  safe_tool_name value =
      keep_if (λ tool. all_tool_codes tool && not (is_empty tool) && leb (length_units tool) 120)
        (r.redact_runtime_text (trim value) [])

  unfoldable pub sanitize_safe_metadata :
      Option RuntimeSessionSafeMetadata → Option RuntimeSessionSafeMetadata
  unfolding safe_tool_name
  sanitize_safe_metadata none = none
  sanitize_safe_metadata (some metadata) =
      any_metadata
        (non_empty
          (take max_safe_paths (filter_map r.safe_workspace_path (or_else metadata.paths []))))
        (bind_option metadata.tool safe_tool_name)
        (bind_option metadata.duration_ms (keep_if (λ ms. leb ms max_safe_duration_ms)))

  -- `event.title?.trim() || event.label`
  title_or_label : RunnerProgressEvent → String
  title_or_label event = elim event.title [
    | none ↦ event.label
    | some title ↦ if is_empty (trim title) then event.label else trim title
  ]

  event_title : RunnerProgressEvent → String
  unfolding title_or_label
  event_title event =
      let title = bound_runtime_text (title_or_label event) 160 in
      if is_empty title then "Runtime activity" else title

  unfoldable pub create_runtime_session_event :
      String → ℕ → String → ℕ → RunnerProgressEvent → RuntimeSessionEvent
  unfolding event_title kind_from_legacy_event state_from_legacy_stage
  create_runtime_session_event run_id sequence id created_at event =
      let title = event_title event in
      record {
        id = id;
        run_id = run_id;
        sequence = sequence;
        kind = or_else event.kind (kind_from_legacy_event event.stage title);
        state = or_else event.state (state_from_legacy_stage event.stage);
        title = title;
        detail = bound_runtime_text event.detail 500;
        stage = event.stage;
        label = title;
        safe_metadata = sanitize_safe_metadata event.safe_metadata;
        created_at = created_at;
      }
