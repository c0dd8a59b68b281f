-- ===== src/Runner/Outcome.antt =====
-- How `run` of a runner ends, once its process has: the tests behind the wait for the exit code.
use Prim.Native.String
use mandate_flow.Base.{
  ℕ, zero, suc, ◌/◌, ◌%◌, ltb, eqb, String, Bool, true, false, not, Option, none, some, List, last?,
  or_else, trim, is_empty, take_units, if◌then◌else◌, ◌≡◌, refl, arith,
}
use mandate_flow.Model.{RunnerResult, run_cancelled, other, Result, ok, ◌>>◌, throw_if}
use mandate_flow.Config.{AppConfig}
use mandate_flow.Container.{container_name}
use mandate_flow.Session.{Redaction}
use mandate_flow.Codex.{ParsedEvents}
use mandate_flow.Codex.Lines.{parse_codex_event_line}
use mandate_flow.Runner.{Reader, Stream}

abbrev digit : ℕ → String
digit d =
    if eqb d 0
    then "0"
    else if eqb d 1
    then "1"
    else if eqb d 2
    then "2"
    else if eqb d 3
    then "3"
    else if eqb d 4
    then "4"
    else if eqb d 5
    then "5"
    else if eqb d 6
    then "6"
    else if eqb d 7
    then "7"
    else if eqb d 8
    then "8"
    else "9"

-- A number in a text, of at most as many digits as the first argument.
decimal : ℕ → ℕ → String
decimal zero n = ""
decimal (suc k) n =
    let more = String.◌++◌ (decimal k (n / 10)) (digit (n % 10)) in
    if ltb n 10 then digit n else more

-- What the two runners say, and the name that they give the Runtime.
pub record Words : Type 0 where
  pub timed_out : String
  pub exited : String
  pub runtime_instance_id : String

-- `timeout_ms` is `codexTimeoutMs`, of at most ten digits.
unfoldable pub codex_words : ℕ → String → Words
unfolding decimal
codex_words timeout_ms run_id = record {
  timed_out = String.◌++◌ "Codex timed out after " (String.◌++◌ (decimal 10 timeout_ms) " ms");
  exited = "Codex exited with code ";
  runtime_instance_id = String.◌++◌ "local-process-" (take_units 12 run_id);
}

unfoldable pub container_words : AppConfig → String → ℕ → String → Words
unfolding decimal
container_words config container_engine timeout_ms run_id = record {
  timed_out = String.◌++◌ "Runtime timed out after " (String.◌++◌ (decimal 10 timeout_ms) " ms");
  exited = String.◌++◌ container_engine " Runtime exited with code ";
  runtime_instance_id = container_name run_id config.runtime_instance_id;
}

-- What the process and its timers leave; an exit by a signal has code 1.
pub record Ending : Type 0 where
  pub cancelled : Bool
  pub timed_out : Bool
  pub exit_code : Option ℕ

-- The line that is open when the process ends.
unfoldable pub close_stream : Redaction → Reader → Stream → Result ParsedEvents
close_stream r reader s =
    let last_line = trim s.stdout in
    let read = parse_codex_event_line r (reader.read_line last_line) s.parsed in
    if is_empty last_line then ok s.parsed else read

-- The text of an error is there, empty or not, so that the third choice is never taken.
abbrev pub detail : (String → String) → ParsedEvents → String → String
detail redact parsed stderr = or_else (last? parsed.errors) (redact (trim stderr))

-- What an output is made of: the last message, trimmed and redacted.
abbrev pub output_of : (String → String) → List String → String
output_of redact messages = redact (trim (or_else (last? messages) ""))

-- `redact` is `redactRuntimeText` of `redactRuntimeOutput`, with the Run's capability and the key.
unfoldable pub conclude :
    Words → (String → String) → Ending → Bool → ParsedEvents → String → Result RunnerResult
unfolding decimal
conclude words redact ending output_exceeded parsed stderr = do
  throw_if ending.cancelled run_cancelled
  throw_if ending.timed_out (other words.timed_out)
  throw_if output_exceeded (other "Codex output exceeded CODEX_MAX_OUTPUT_BYTES")
  throw_if (not (eqb (or_else ending.exit_code 1) 0)) (
      other (
        String.◌++◌ words.exited (
          String.◌++◌ (decimal 10 (or_else ending.exit_code 1))
            (String.◌++◌ ": " (detail redact parsed stderr)))))
  throw_if (is_empty (output_of redact parsed.messages))
      (other "Codex completed without an agent message")
  ok (record {
    output = output_of redact parsed.messages;
    thread_id = parsed.thread_id;
    usage = parsed.usage;
    runtime_instance_id = words.runtime_instance_id;
  })

-- The end of `run` in container-codex-runner.ts.
unfoldable pub container_conclude :
    AppConfig
    → String
    → ℕ
    → String
    → (String → String)
    → Ending
    → Bool
    → ParsedEvents
    → String
    → Result RunnerResult
unfolding conclude container_words
container_conclude config container_engine timeout_ms run_id =
    conclude (container_words config container_engine timeout_ms run_id)

-- What a result says of how the process ended.
pub record Concluded (words : Words) (redact : String → String) (ending : Ending)
    (output_exceeded : Bool) (parsed : ParsedEvents) (result : RunnerResult) : Type 0 where
  pub not_cancelled : ending.cancelled ≡ false
  pub in_time : ending.timed_out ≡ false
  pub within_limit : output_exceeded ≡ false
  pub exited_well : ending.exit_code ≡ some 0
  pub output_is : result.output ≡ output_of redact parsed.messages
  pub output_there : is_empty result.output ≡ false
  pub thread_is : result.thread_id ≡ parsed.thread_id
  pub instance_is : result.runtime_instance_id ≡ words.runtime_instance_id

exit_zero : (code : Option ℕ) → eqb (or_else code 1) 0 ≡ true → code ≡ some 0
exit_zero none h = cc
exit_zero (some n) h = let zero_code : n ≡ 0 = ground arith in rw zero_code refl

pub conclude-Concluded :
    (words : Words) (redact : String → String) (ending : Ending) (output_exceeded : Bool)
    (parsed : ParsedEvents) (stderr : String) (result : RunnerResult)
    → conclude words redact ending output_exceeded parsed stderr ≡ ok result
    → Concluded words redact ending output_exceeded parsed result
unfolding conclude
conclude-Concluded words redact ending output_exceeded parsed stderr result e =
    ground (arith, exit_zero ending.exit_code)
