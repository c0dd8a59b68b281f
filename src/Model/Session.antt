-- ===== src/Model/Session.antt =====
-- types.ts: the activity log of a Run.
use mandate_flow.Base.{ℕ, String, Option, List}

pub data RunProgressStage : Type 0 where
  queued phase tool complete error cancelled : RunProgressStage

pub data RuntimeSessionEventKind : Type 0 where
  status plan command file_change mcp assistant error : RuntimeSessionEventKind

pub data RuntimeSessionEventState : Type 0 where
  started streaming completed failed cancelled : RuntimeSessionEventState

pub record RuntimeSessionSafeMetadata : Type 0 where
  pub paths : Option (List String)
  pub duration_ms : Option ℕ
  pub tool : Option String

pub record RuntimeSessionEvent : Type 0 where
  pub id : String
  pub run_id : String
  pub sequence : ℕ
  pub kind : RuntimeSessionEventKind
  pub state : RuntimeSessionEventState
  pub title : String
  pub detail : String
  pub stage : RunProgressStage
  pub label : String
  pub safe_metadata : Option RuntimeSessionSafeMetadata
  pub created_at : ℕ

pub record RunnerProgressEvent : Type 0 where
  pub stage : RunProgressStage
  pub label : String
  pub detail : String
  pub kind : Option RuntimeSessionEventKind
  pub state : Option RuntimeSessionEventState
  pub title : Option String
  pub safe_metadata : Option RuntimeSessionSafeMetadata
