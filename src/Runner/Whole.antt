-- ===== src/Runner/Whole.antt =====
-- A run of a runner from the first chunk to its result.
use mathlib.Core.Path.{subst}
use Prim.Native.String
use mandate_flow.Base.{
  ℕ, ◌+◌, ◌≤◌, ◌≡◌, refl, sym, ap, ◌∙◌, inl, inr, ltb, String, Bool, true, false, ◌||◌, leb, Option,
  none, some, List, [], ◌∷◌, ◌++◌, map, length, arith, Bool-cases, is_empty, trim, if◌then◌else◌,
}
use mandate_flow.Model.{RunnerResult, Result, ok, ok_inj, ◌>>=◌, >>=-eq-ok}
use mandate_flow.Json.{Json}
use mandate_flow.Session.{Redaction}
use mandate_flow.Codex.{ParsedEvents}
use mandate_flow.Codex.Lines.{parse_codex_event_line, parse_lines}
use mandate_flow.Codex.Collected.{messages_of, parse_lines-messages_of}
use mandate_flow.Runner.{
  Target, Chunk, Reader, Stream, cut, after_lines, left_open, consume, consume_all, take_in, kept,
}
use mandate_flow.Runner.Chunks.{
  bytes_of, stdout_bytes, IsUnsplit, started, read_so_far, consume_all_lem, parse_lines-append,
}
use mandate_flow.Runner.Outcome.{
  Words, Ending, close_stream, conclude, conclude-Concluded, output_of,
}

-- `ParsedEvents` as `run` makes it.
abbrev pub nothing_parsed : Option String → ParsedEvents
nothing_parsed thread_id = record {
  messages = [];
  thread_id = thread_id;
  usage = none;
  errors = [];
  assistant_streaming = false;
  reported = [];
}

module _ (r : Redaction) (reader : Reader) (words : Words) (redact : String → String)
    (max_output_bytes : ℕ) where
  unfoldable pub run_runtime : Option String → List Chunk → Ending → Result RunnerResult
  run_runtime thread_id chunks ending =
      consume_all r reader max_output_bytes chunks (started (nothing_parsed thread_id)) >>= λ s.
      close_stream r reader s >>= λ parsed.
      conclude words redact ending s.output_exceeded parsed s.stderr

  -- The lines of an output, the last one without a line end.
  abbrev last_line : String → List (Option Json)
  last_line rest = if is_empty (trim rest) then [] else reader.read_line (trim rest) ∷ []

  abbrev pub lines_of : String → List (Option Json)
  lines_of text = map reader.read_line (cut text "").0 ++ last_line (cut text "").1

  -- The bytes are counted, and the flag is set once they are more than the limit.
  record IsCounted (total : ℕ) (s : Stream) : Type 0 where
    counted : s.total_bytes ≡ total
    flagged : (s.output_exceeded || leb s.total_bytes max_output_bytes) ≡ true

  take_in-IsCounted :
      (target : Target) (chunk : Chunk) (total : ℕ) (s next : Stream)
      → ltb max_output_bytes total ≡ false
      → take_in r reader target chunk total s ≡ ok next
      → IsCounted total next
  take_in-IsCounted Target.stderr chunk total s next fits e =
      let same : (record s {
        stderr = reader.keep_tail (String.◌++◌ s.stderr (reader.decode chunk.bytes));
        total_bytes = total;
      })
          ≡ next =
        ok_inj e in
      rw (sym same) (record { counted = refl; flagged = ground arith })
  take_in-IsCounted Target.stdout chunk total s next fits e =
      let (read, (_, made)) =
        >>=-eq-ok
          (after_lines r reader s.parsed
            (cut (String.◌++◌ s.stdout (reader.decode chunk.bytes)) ""))
          (λ read. ok (kept r reader s total read)) e in
      let same : kept r reader s total read ≡ next = ok_inj made in
      rw (sym same) (record { counted = refl; flagged = ground arith })

  consume-IsCounted :
      (chunk : Chunk) (s next : Stream)
      → consume r reader max_output_bytes chunk s ≡ ok next
      → IsCounted (s.total_bytes + length chunk.bytes) next
  unfolding consume
  consume-IsCounted chunk s next e =
      elim (Bool-cases (ltb max_output_bytes (s.total_bytes + length chunk.bytes))) [
        | inl over ↦
            let made = (rw over at e) in
            subst (IsCounted (s.total_bytes + length chunk.bytes)) (ok_inj made)
              (record { counted = refl; flagged = refl })
        | inr fits ↦
            take_in-IsCounted chunk.target chunk (s.total_bytes + length chunk.bytes) s next fits
              (rw fits at e)
      ]

  consume_all-IsCounted :
      (chunks : List Chunk) (s last : Stream)
      → IsCounted s.total_bytes s
      → consume_all r reader max_output_bytes chunks s ≡ ok last
      → IsCounted (s.total_bytes + bytes_of chunks) last
  unfolding consume_all
  consume_all-IsCounted [] s last h e =
      subst (IsCounted (s.total_bytes + bytes_of [])) (ok_inj e)
        (record { counted = omega arith; flagged = h.flagged })
  consume_all-IsCounted (chunk ∷ chunks) s last h e =
      let (next, (one, others)) = >>=-eq-ok _ _ e in
      let c = consume-IsCounted chunk s next one in
      let again : IsCounted next.total_bytes next = record {
        counted = refl;
        flagged = c.flagged;
      } in
      let l = consume_all-IsCounted chunks next last again others in
      record { counted = omega (arith, l.counted, c.counted); flagged = l.flagged }

  not_over :
      (over : Bool) (total : ℕ)
      → (over || leb total max_output_bytes) ≡ true
      → over ≡ false
      → total ≤ max_output_bytes
  not_over over total h k = ground arith

  close_here :
      (s : Stream) (parsed : ParsedEvents)
      → close_stream r reader s ≡ ok parsed
      → parse_lines r (last_line s.stdout) s.parsed ≡ ok parsed
  unfolding close_stream parse_lines
  close_here s parsed closed = elim (Bool-cases (is_empty (trim s.stdout))) [
    | inl empty ↦ rw empty (rw empty at closed)
    | inr full ↦
        let read : parse_codex_event_line r (reader.read_line (trim s.stdout)) s.parsed
            ≡ ok parsed =
          (rw full at closed) in
        rw (full, read) refl
  ]

  -- What the lines and the last one leave.
  closed-lines :
      (s : Stream) (text : String) (first parsed : ParsedEvents)
      → after_lines r reader first (cut text "") ≡ ok (s.stdout, s.parsed)
      → close_stream r reader s ≡ ok parsed
      → parse_lines r (lines_of text) first ≡ ok parsed
  unfolding close_stream parse_lines
  closed-lines s text first parsed read closed =
      let (middle, (lines, made)) = >>=-eq-ok _ (left_open (cut text "").1) read in
      let rest : (cut text "").1 ≡ s.stdout = cc in
      let same : middle ≡ s.parsed = cc in
      parse_lines-append r (map reader.read_line (cut text "").0) (last_line (cut text "").1) first
      ∙ (ap (λ given. given >>= parse_lines r (last_line (cut text "").1)) lines
          ∙ subst (λ open_line. parse_lines r (last_line open_line) middle ≡ ok parsed) (sym rest)
              (subst (λ p. parse_lines r (last_line s.stdout) p ≡ ok parsed) (sym same)
                (close_here s parsed closed)))

  -- A result of a run: the process ended well and in time, not cancelled, its output is within the
  -- limit, and the result is the last message that the Agent has completed.
  pub record RunResult (thread_id : Option String) (chunks : List Chunk) (ending : Ending)
      (result : RunnerResult) : Type 0 where
    pub not_cancelled : ending.cancelled ≡ false
    pub in_time : ending.timed_out ≡ false
    pub exited_well : ending.exit_code ≡ some 0
    pub within_limit : bytes_of chunks ≤ max_output_bytes
    pub output_is :
        result.output
        ≡ output_of redact (messages_of (lines_of (reader.decode (stdout_bytes chunks))))
    pub output_there : is_empty result.output ≡ false
    pub instance_is : result.runtime_instance_id ≡ words.runtime_instance_id

  -- Where each chunk of stdout ends where a character does, a run gives a result only if its process
  -- ended well and in time, was not cancelled, and wrote no more bytes than the limit; the result, which
  -- is not empty, is then the last of the messages that the Agent has completed in the whole of stdout,
  -- decoded at once, however that was divided into those chunks.
  pub run_runtime-RunResult :
      (thread_id : Option String) (chunks : List Chunk) (ending : Ending) (result : RunnerResult)
      → IsUnsplit reader chunks
      → run_runtime thread_id chunks ending ≡ ok result
      → RunResult thread_id chunks ending result
  unfolding run_runtime
  run_runtime-RunResult thread_id chunks ending result unsplit e =
      let first = nothing_parsed thread_id in
      let (s, (consumed, after)) = >>=-eq-ok _ _ e in
      let (parsed, (closed, concluded)) = >>=-eq-ok _ _ after in
      let c =
        conclude-Concluded words redact ending s.output_exceeded parsed s.stderr result concluded in
      let counts =
        consume_all-IsCounted chunks (started first) s
          (record { counted = refl; flagged = ground arith }) consumed in
      let bound : s.total_bytes ≤ max_output_bytes =
        not_over s.output_exceeded s.total_bytes counts.flagged c.within_limit in
      let within : bytes_of chunks ≤ max_output_bytes = omega (arith, bound, counts.counted) in
      let read : after_lines r reader first (cut (reader.decode (stdout_bytes chunks)) "")
          ≡ ok (s.stdout, s.parsed) =
        sym (consume_all_lem r reader max_output_bytes chunks first unsplit within)
        ∙ ap read_so_far consumed in
      let said =
        parse_lines-messages_of r (lines_of (reader.decode (stdout_bytes chunks))) first parsed
          (closed-lines s (reader.decode (stdout_bytes chunks)) first parsed read closed) in
      record {
        not_cancelled = c.not_cancelled;
        in_time = c.in_time;
        exited_well = c.exited_well;
        within_limit = within;
        output_is = c.output_is ∙ ap (output_of redact) said;
        output_there = c.output_there;
        instance_is = c.instance_is;
      }
