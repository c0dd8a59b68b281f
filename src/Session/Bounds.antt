-- ===== src/Session/Bounds.antt =====
-- What an event can hold at most, whatever a Runtime reports.
use Prim.Native.String
use text.Mathlib.TextLemmas.{nil-append, cons-append}
use mandate_flow.Base.{
  ℕ, zero, suc, ◌+◌, ◌≤◌, ◌≡◌, true, false, String, Option, some, none, List, [], ◌∷◌, length,
  is_empty, leb, ltb, trim, blank_controls, length_units, take_units, length-take_units, or_else,
  Bool-cases, inl, inr, arith, if◌then◌else◌, not, ◌&&◌,
}
use mandate_flow.Model.{RuntimeSessionSafeMetadata, RunnerProgressEvent}
use mandate_flow.Session.{
  Redaction, bound_runtime_text, create_runtime_session_event, take, non_empty, any_metadata,
  keep_if, bind_option, filter_map, sanitize_safe_metadata, safe_tool_name, all_tool_codes,
  max_safe_paths, max_safe_duration_ms,
}

length_units-append :
    (s t : String) → length_units (String.◌++◌ s t) ≡ length_units s + length_units t
unfolding length_units
length_units-append String.[] t = rw nil-append (omega arith)
length_units-append (String.◌∷◌ c s) t =
    rw (cons-append c s t) (omega (arith, length_units-append s t))

cut-le :
    (n : ℕ) (s : String)
    → length_units (if ltb n (length_units s) then String.◌++◌ (take_units n s) "…" else s) ≤ n + 1
cut-le n s = elim (Bool-cases (ltb n (length_units s))) [
  | inl long ↦ rw (long, length_units-append (take_units n s) "…") (cut_le_suc n s)
  | inr short ↦ rw short (ground arith)
]
  where
    cut_le_suc : (n : ℕ) (s : String) → length_units (take_units n s) + length_units "…" ≤ n + 1
    cut_le_suc n s = unfold length_units in omega (arith, length-take_units n s)

bound_runtime_text-le :
    (r : Redaction) (value : String) (max_length : ℕ)
    → length_units (bound_runtime_text r value max_length) ≤ max_length + 1
unfolding bound_runtime_text
bound_runtime_text-le r value n = cut-le n (trim (blank_controls (r.redact_runtime_text value [])))

length-take-le {ℓ} : {A : Type ℓ} (n : ℕ) (xs : List A) → length (take n xs) ≤ n
length-take-le zero xs = omega arith
length-take-le (suc n) [] = omega arith
length-take-le (suc n) (x ∷ xs) = omega (arith, length-take-le n xs)

-- What safe metadata may hold.
abbrev pub SafePaths : Option (List String) → Type 0
SafePaths none = Unit
SafePaths (some paths) = (1 ≤ length paths) × (length paths ≤ 8)

abbrev pub SafeTool : Option String → Type 0
SafeTool none = Unit
SafeTool (some tool) =
    (all_tool_codes tool ≡ true) × (is_empty tool ≡ false) × (length_units tool ≤ 120)

abbrev pub SafeDuration : Option ℕ → Type 0
SafeDuration none = Unit
SafeDuration (some ms) = ms ≤ 3600000

abbrev pub Safe : Option RuntimeSessionSafeMetadata → Type 0
Safe none = Unit
Safe (some m) = SafePaths m.paths × SafeTool m.tool × SafeDuration m.duration_ms

any_metadata-Safe :
    (paths : Option (List String)) (tool : Option String) (duration : Option ℕ)
    → SafePaths paths
    → SafeTool tool
    → SafeDuration duration
    → Safe (any_metadata paths tool duration)
any_metadata-Safe none none none p t d = tt
any_metadata-Safe (some paths) tool duration p t d = (p, t, d)
any_metadata-Safe none (some tool) duration p t d = (p, t, d)
any_metadata-Safe none none (some duration) p t d = (p, t, d)

non_empty-SafePaths : (paths : List String) → length paths ≤ 8 → SafePaths (non_empty paths)
non_empty-SafePaths [] h = tt
non_empty-SafePaths (p ∷ paths) h = (omega arith, h)

kept_tool :
    (s : String)
    → SafeTool (
        keep_if
          (λ tool. all_tool_codes tool && not (is_empty tool) && leb (length_units tool) 120)
          s)
kept_tool s = elim (Bool-cases (all_tool_codes s && not (is_empty s) && leb (length_units s) 120)) [
  | inl fits ↦ rw fits (ground arith)
  | inr unfit ↦ rw unfit tt
]

safe_tool : (r : Redaction) (tool : Option String) → SafeTool (bind_option tool (safe_tool_name r))
unfolding safe_tool_name
safe_tool r none = tt
safe_tool r (some tool) = kept_tool (r.redact_runtime_text (trim tool) [])

safe_duration :
    (ms : Option ℕ) → SafeDuration (bind_option ms (keep_if (λ n. leb n max_safe_duration_ms)))
safe_duration none = tt
safe_duration (some ms) = elim (Bool-cases (leb ms max_safe_duration_ms)) [
  | inl fits ↦ rw fits (ground arith)
  | inr unfit ↦ rw unfit tt
]

sanitize-Safe :
    (r : Redaction) (metadata : Option RuntimeSessionSafeMetadata)
    → Safe (sanitize_safe_metadata r metadata)
unfolding sanitize_safe_metadata
sanitize-Safe r none = tt
sanitize-Safe r (some m) =
    any_metadata-Safe _ _ _
      (non_empty-SafePaths _
        (length-take-le max_safe_paths (filter_map r.safe_workspace_path (or_else m.paths []))))
      (safe_tool r m.tool) (safe_duration m.duration_ms)

title-le :
    (s : String)
    → length_units s ≤ 161
    → length_units (if is_empty s then "Runtime activity" else s) ≤ 161
unfolding length_units
title-le s h = elim (Bool-cases (is_empty s)) [
  | inl empty ↦ rw empty (omega arith)
  | inr full ↦ rw full h
]

-- Every event that the log takes has a title of at most 161 units, a detail of at most 501, and
-- metadata within its limits: 1 to 8 paths, a tool name of at most 120 safe characters, and an hour.
pub create_runtime_session_event-bounds :
    (r : Redaction) (run_id : String) (sequence : ℕ) (id : String) (created_at : ℕ)
    (event : RunnerProgressEvent)
    → let e = create_runtime_session_event r run_id sequence id created_at event in
      (length_units e.title ≤ 161) × (length_units e.detail ≤ 501) × Safe e.safe_metadata
unfolding create_runtime_session_event
create_runtime_session_event-bounds r run_id sequence id created_at event = (
  title-le _ (bound_runtime_text-le r _ 160),
  bound_runtime_text-le r event.detail 500,
  sanitize-Safe r event.safe_metadata,
)
