-- ===== src/Tests/Runners.antt =====
-- The output of a Runtime that comes in pieces.
use Prim.Native.String
use mandate_flow.Base.{
  ℕ, eqb, String, ◌≡◌, refl, ◌==◌, false, none, some, List, [], ◌∷◌, trim, take_units, arith,
  if◌then◌else◌,
}
use mandate_flow.Model.{RunnerResult}
use mandate_flow.Json.{text, object, Fields, bare, field}
use mandate_flow.Codex.{progress_for_codex_item}
use mandate_flow.Codex.Lines.{parse_lines}
use mandate_flow.Runner.{Target, Chunk, Reader, consume_all, after_lines, cut}
use mandate_flow.Runner.Chunks.{IsUnsplit, consume_all_lem, read_so_far, started}
use mandate_flow.Runner.Outcome.{Words, Ending, codex_words, close_stream, conclude}
use mandate_flow.Runner.Whole.{run_runtime, run_runtime-RunResult, RunResult, nothing_parsed}
use mandate_flow.Tests.Data.{redaction}

abbrev message : Fields
message = field "type" (text "agent_message") (field "text" (text "Done.") bare)

abbrev completed : Fields
completed = field "type" (text "item.completed") (field "item" (object message) bare)

-- A line end, and one byte for a text that the test names.
abbrev word : ℕ → String
word byte =
    if eqb byte 10 then "\n" else if eqb byte 1 then "compl" else if eqb byte 2 then "eted" else "x"

abbrev decode : List ℕ → String
decode [] = ""
decode (byte ∷ bytes) = String.◌++◌ (word byte) (decode bytes)

abbrev reader : Reader
reader = record {
  decode = decode;
  read_line = λ line. if line == "completed" then some (object completed) else none;
  keep_tail = λ s. s;
}

abbrev chunks : List Chunk
chunks =
    record { target = Target.stdout; bytes = 1 ∷ [] }
    ∷ record { target = Target.stderr; bytes = 3 ∷ 3 ∷ [] }
    ∷ record { target = Target.stdout; bytes = 2 ∷ 10 ∷ [] }
    ∷ record { target = Target.stdout; bytes = 3 ∷ [] }
    ∷ []

unsplit : IsUnsplit reader chunks
unsplit = (refl, (tt, (refl, (refl, refl))))

consume_all_lem_example :
    read_so_far (consume_all redaction reader 20 chunks (started (nothing_parsed none)))
    ≡ after_lines redaction reader (nothing_parsed none) (cut "completed\nx" "")
consume_all_lem_example =
    consume_all_lem redaction reader 20 chunks (nothing_parsed none) unsplit (omega arith)

abbrev words : Words
words = record {
  timed_out = "Codex timed out after 1000 ms";
  exited = "Codex exited with code ";
  runtime_instance_id = "local-process-run-1";
}

codex_words_here : codex_words 1000 "run-1" ≡ words
unfolding codex_words take_units
codex_words_here = refl

abbrev ending : Ending
ending = record { cancelled = false; timed_out = false; exit_code = some 0 }

abbrev result : RunnerResult
result = record {
  output = "Done.";
  thread_id = none;
  usage = none;
  runtime_instance_id = "local-process-run-1";
}

run_runtime-RunResult_example :
    RunResult redaction reader words (λ s. s) 20 none chunks ending result
unfolding run_runtime close_stream conclude consume_all cut parse_lines trim progress_for_codex_item
run_runtime-RunResult_example =
    run_runtime-RunResult redaction reader words (λ s. s) 20 none chunks ending result unsplit refl
