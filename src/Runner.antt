-- ===== src/Runner.antt =====
-- CodeJam/apps/server/src/codex-runner.ts and container-codex-runner.ts: how the output of a Runtime
-- is read, and how a Run of it ends. What both runners do alike is here once.
pub mod Chunks
pub mod Outcome
pub mod Whole
pub mod Environment
use Prim.Native.Char.{code}
use Prim.Native.String
use mandate_flow.Base.{
  ℕ, ◌+◌, ltb, eqb, String, Bool, true, ◌&&◌, Option, List, [], ◌∷◌, map, length, is_empty,
  if◌then◌else◌,
}
use mandate_flow.Model.{Result, ok, err, ◌>>=◌}
use mandate_flow.Json.{Json}
use mandate_flow.Session.{Redaction}
use mandate_flow.Codex.{ParsedEvents}
use mandate_flow.Codex.Lines.{parse_lines}

pub data Target : Type 0 where
  stdout stderr : Target

-- What a data event brings: a buffer.
pub record Chunk : Type 0 where
  pub target : Target
  pub bytes : List ℕ

-- `decode` is `toString("utf8")` of a buffer, each for itself; `read_line` redacts a line and gives it to `JSON.parse`; `keep_tail` is `slice(-16384)` where a text
-- is longer.
pub record Reader : Type 0 where
  pub decode : List ℕ → String
  pub read_line : String → Option Json
  pub keep_tail : String → String

-- The locals of `run` that `consume` assigns.
pub record Stream : Type 0 where
  pub stdout : String
  pub stderr : String
  pub total_bytes : ℕ
  pub output_exceeded : Bool
  pub parsed : ParsedEvents

-- Of `\r?\n` the `\r`: one at the end of a line.
unfoldable pub chomp : String → String
chomp String.[] = ""
chomp (String.◌∷◌ c s) =
    let rest = chomp s in if eqb (code c) 13 && is_empty s then "" else String.◌∷◌ c rest

abbrev then_line : String → List String × String → List String × String
then_line line (lines, rest) = (line ∷ lines, rest)

-- `split(/\r?\n/)` and `pop()`: the lines that have ended, and what follows the last one. The second
-- argument is the line that is open.
unfoldable pub cut : String → String → List String × String
unfolding chomp
cut String.[] open_line = ([], open_line)
cut (String.◌∷◌ c s) open_line =
    let ended = then_line (chomp open_line) (cut s "") in
    let going_on = cut s (String.◌++◌ open_line (String.◌∷◌ c "")) in
    if eqb (code c) 10 then ended else going_on

abbrev pub left_open : String → ParsedEvents → Result (String × ParsedEvents)
left_open rest parsed = ok (rest, parsed)

module _ (r : Redaction) (reader : Reader) where
  abbrev pub after_lines : ParsedEvents → List String × String → Result (String × ParsedEvents)
  after_lines parsed (lines, rest) =
      parse_lines r (map reader.read_line lines) parsed >>= left_open rest

  abbrev pub kept : Stream → ℕ → String × ParsedEvents → Stream
  kept s total (rest, parsed) = record s { stdout = rest; parsed = parsed; total_bytes = total }

  abbrev pub take_in : Target → Chunk → ℕ → Stream → Result Stream
  take_in stdout chunk total s =
      after_lines s.parsed (cut (String.◌++◌ s.stdout (reader.decode chunk.bytes)) "") >>= λ read.
      ok (kept s total read)
  take_in stderr chunk total s = ok (record s {
    stderr = reader.keep_tail (String.◌++◌ s.stderr (reader.decode chunk.bytes));
    total_bytes = total;
  })

module _ (r : Redaction) (reader : Reader) (max_output_bytes : ℕ) where
  -- A line that throws does so in a listener.
  unfoldable pub consume : Chunk → Stream → Result Stream
  unfolding cut
  consume chunk s =
      let total = s.total_bytes + length chunk.bytes in
      if ltb max_output_bytes total
      then ok (record s { total_bytes = total; output_exceeded = true })
      else take_in r reader chunk.target chunk total s

  unfoldable pub consume_all : List Chunk → Stream → Result Stream
  unfolding consume
  consume_all [] s = ok s
  consume_all (chunk ∷ chunks) s = consume chunk s >>= λ next. consume_all chunks next
