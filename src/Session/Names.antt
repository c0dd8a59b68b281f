-- ===== src/Session/Names.antt =====
-- runtime-session.ts: the texts that name the stages, the kinds and the states of an event.
use mandate_flow.Base.{String, ◌==◌, Option, none, some, List, [], ◌∷◌, if◌then◌else◌}
use mandate_flow.Model.{RunProgressStage, RuntimeSessionEventKind, RuntimeSessionEventState}
use mandate_flow.Json.{Json, text}

abbrev named : {A : Type 0} → List (String × A) → String → Option A
named [] s = none
named ((name, a) ∷ names) s = if name == s then some a else named names s

abbrev pub lookup : {A : Type 0} → List (String × A) → Option Json → Option A
lookup names (some (text s)) = named names s
lookup names _ = none

-- `isRunProgressStage`
abbrev pub stages : List (String × RunProgressStage)
stages =
    ("queued", RunProgressStage.queued)
    ∷ ("phase", RunProgressStage.phase)
    ∷ ("tool", RunProgressStage.tool)
    ∷ ("complete", RunProgressStage.complete)
    ∷ ("error", RunProgressStage.error)
    ∷ ("cancelled", RunProgressStage.cancelled)
    ∷ []

-- `isRuntimeSessionEventKind`
abbrev pub kinds : List (String × RuntimeSessionEventKind)
kinds =
    ("status", RuntimeSessionEventKind.status)
    ∷ ("plan", RuntimeSessionEventKind.plan)
    ∷ ("command", RuntimeSessionEventKind.command)
    ∷ ("file_change", RuntimeSessionEventKind.file_change)
    ∷ ("mcp", RuntimeSessionEventKind.mcp)
    ∷ ("assistant", RuntimeSessionEventKind.assistant)
    ∷ ("error", RuntimeSessionEventKind.error)
    ∷ []

-- `isRuntimeSessionEventState`
abbrev pub states : List (String × RuntimeSessionEventState)
states =
    ("started", RuntimeSessionEventState.started)
    ∷ ("streaming", RuntimeSessionEventState.streaming)
    ∷ ("completed", RuntimeSessionEventState.completed)
    ∷ ("failed", RuntimeSessionEventState.failed)
    ∷ ("cancelled", RuntimeSessionEventState.cancelled)
    ∷ []
