-- ===== src/Service/Progress.antt =====
-- agent-service.ts: the bounded activity log of a Run, `addRunProgress`.
use mandate_flow.Base.{
  ℕ, zero, suc, ◌+◌, ◌-◌, ◌≤◌, ◌<◌, String, none, some, List, [], ◌∷◌, max, length, drop, push,
  length-drop, ltb, if◌then◌else◌, arith, Bool-cases, inl, inr,
}
use mandate_flow.Model.{AgentRun, RuntimeSessionEvent, RunnerProgressEvent}
use mandate_flow.Session.{Redaction, sanitize_safe_metadata, create_runtime_session_event}

abbrev pub max_run_progress_events : ℕ
max_run_progress_events = 80

-- The `reduce` over the sequence numbers.
pub max_sequence : List RuntimeSessionEvent → ℕ → ℕ
max_sequence [] m = m
max_sequence (e ∷ events) m = max_sequence events (max m e.sequence)

-- What `splice` leaves.
pub keep_last : ℕ → List RuntimeSessionEvent → List RuntimeSessionEvent
keep_last n events = if ltb n (length events) then drop (length events - n) events else events

-- Sequence numbers rise from above a bound.
abbrev pub Rising : ℕ → List RuntimeSessionEvent → Type 0
Rising n [] = Unit
Rising n (e ∷ events) = (n < e.sequence) × Rising e.sequence events

-- A log: its numbers rise from 1 on, and it is bounded.
pub record IsLog (events : List RuntimeSessionEvent) : Type 0 where
  pub rising : Rising 0 events
  pub bounded : length events ≤ 80

module _ (r : Redaction) (uuid : String) (now : ℕ) where
  abbrev sanitized : RunnerProgressEvent → RunnerProgressEvent
  sanitized event = elim (sanitize_safe_metadata r event.safe_metadata) [
    | none ↦ event
    | some metadata ↦ record event { safe_metadata = some metadata }
  ]

  unfoldable pub add_run_progress : AgentRun → RunnerProgressEvent → AgentRun
  unfolding max_sequence keep_last
  add_run_progress run event =
      let normalized =
        create_runtime_session_event r run.id (max_sequence run.progress 0 + 1) uuid now
          (sanitized event) in
      record run { progress = keep_last max_run_progress_events (push run.progress normalized) }

le-max_sequence : (events : List RuntimeSessionEvent) (m : ℕ) → m ≤ max_sequence events m
unfolding max_sequence
le-max_sequence [] m = omega arith
le-max_sequence (e ∷ events) m = omega (arith, le-max_sequence events (max m e.sequence))

Rising-push :
    (n : ℕ) (events : List RuntimeSessionEvent) (m : ℕ) (e : RuntimeSessionEvent)
    → Rising n events
    → n ≤ m
    → max_sequence events m < e.sequence
    → Rising n (push events e)
unfolding max_sequence
Rising-push n [] m e h le lt = (omega arith, tt)
Rising-push n (x ∷ events) m e (first, later) le lt =
    (first, Rising-push x.sequence events (max m x.sequence) e later (omega arith) lt)

Rising-weaken :
    (n m : ℕ) (events : List RuntimeSessionEvent) → n ≤ m → Rising m events → Rising n events
Rising-weaken n m [] le h = tt
Rising-weaken n m (e ∷ events) le h = (omega arith, h.1)

Rising-drop :
    (n k : ℕ) (events : List RuntimeSessionEvent) → Rising n events → Rising n (drop k events)
Rising-drop n zero events h = h
Rising-drop n (suc k) [] h = tt
Rising-drop n (suc k) (e ∷ events) h =
    Rising-drop n k events (Rising-weaken n e.sequence events (omega arith) h.1)

keep_last-IsLog :
    (events : List RuntimeSessionEvent) → Rising 0 events → IsLog (keep_last 80 events)
unfolding keep_last
keep_last-IsLog events h = elim (Bool-cases (ltb 80 (length events))) [
  | inl long ↦ rw long (record {
    rising = Rising-drop 0 (length events - 80) events h;
    bounded = ground (arith, length-drop (length events - 80) events);
  })
  | inr short ↦ rw short (record { rising = h; bounded = ground arith })
]

-- Whatever a Runtime reports, the log of a Run stays within 80 events, numbered in rising order.
pub add_run_progress-IsLog :
    (r : Redaction) (uuid : String) (now : ℕ) (run : AgentRun) (event : RunnerProgressEvent)
    → IsLog run.progress
    → IsLog (add_run_progress r uuid now run event).progress
unfolding add_run_progress create_runtime_session_event
add_run_progress-IsLog r uuid now run event h =
    keep_last-IsLog _ (Rising-push 0 run.progress 0 _ h.rising (omega arith) (omega arith))
