-- ===== src/Runner/Chunks.antt =====
-- How the output is divided into chunks does not matter, unless a character is divided.
use Prim.Native.Char.{code}
use Prim.Native.String
use text.Mathlib.TextLemmas.{nil-append, cons-append, append_assoc, append-nil}
use mathlib.Core.List.{map-append}
use mandate_flow.Base.{
  ℕ, ◌+◌, ◌≤◌, ◌≡◌, refl, sym, ap, ◌∙◌, inl, inr, eqb, ltb, String, Bool, true, false, not, ◌&&◌,
  List, [], Option, ◌∷◌, ◌++◌, map, length, arith, Bool-cases,
}
use mandate_flow.Model.{Result, ok, err, ◌>>=◌}
use mandate_flow.Session.{Redaction}
use mandate_flow.Codex.{ParsedEvents}
use mandate_flow.Codex.Lines.{parse_codex_event_line, parse_lines}
use mandate_flow.Json.{Json}
use mandate_flow.Runner.{
  Target, Chunk, Reader, Stream, cut, take_in, kept, left_open, after_lines, consume_all,
}

abbrev both : List String → List String × String → List String × String
both lines (more, rest) = (lines ++ more, rest)

-- A text is cut in two steps as in one.
cut-append :
    (s t open_line : String)
    → cut (String.◌++◌ s t) open_line ≡ both (cut s open_line).0 (cut t (cut s open_line).1)
unfolding cut
cut-append String.[] t open_line = rw nil-append refl
cut-append (String.◌∷◌ c s) t open_line = elim (Bool-cases (eqb (code c) 10)) [
  | inl ends ↦ rw (cons-append c s t, ends, cut-append s t "") refl
  | inr goes ↦
      rw (cons-append c s t, goes, cut-append s t (String.◌++◌ open_line (String.◌∷◌ c ""))) refl
]

abbrev no_newline : String → Bool
no_newline String.[] = true
no_newline (String.◌∷◌ c s) = not (eqb (code c) 10) && no_newline s

cut_plain :
    (s open_line : String) → no_newline s ≡ true → cut s open_line ≡ ([], String.◌++◌ open_line s)
unfolding cut
cut_plain String.[] open_line h = rw append-nil refl
cut_plain (String.◌∷◌ c s) open_line h =
    let goes : eqb (code c) 10 ≡ false = ground arith in
    let later : no_newline s ≡ true = ground arith in
    rw
      (
        goes,
        cut_plain s (String.◌++◌ open_line (String.◌∷◌ c "")) later,
        append_assoc open_line (String.◌∷◌ c "") s,
        cons-append c "" s,
        nil-append s,
      )
      refl

no_newline-append :
    (s t : String) → no_newline s ≡ true → no_newline t ≡ true → no_newline (String.◌++◌ s t) ≡ true
no_newline-append String.[] t h k = rw nil-append k
no_newline-append (String.◌∷◌ c s) t h k =
    rw (cons-append c s t) (ground (arith, no_newline-append s t))

cut_rest :
    (s open_line : String) → no_newline open_line ≡ true → no_newline (cut s open_line).1 ≡ true
unfolding cut
cut_rest String.[] open_line h = h
cut_rest (String.◌∷◌ c s) open_line h = elim (Bool-cases (eqb (code c) 10)) [
  | inl ends ↦ rw ends (cut_rest s "" refl)
  | inr goes ↦ rw goes (
      cut_rest s (String.◌++◌ open_line (String.◌∷◌ c ""))
        (no_newline-append open_line (String.◌∷◌ c "") h (rw goes refl)))
]

-- What is left of one text goes on with the next.
cut_again : (s t : String) → no_newline s ≡ true → cut (String.◌++◌ s t) "" ≡ cut t s
cut_again s t h = rw (cut-append s t "", cut_plain s "" h, nil-append s) refl

module _ (r : Redaction) where
  pub parse_lines-append :
      (xs ys : List (Option Json)) (parsed : ParsedEvents)
      → parse_lines r (xs ++ ys) parsed ≡ (parse_lines r xs parsed >>= parse_lines r ys)
  unfolding parse_lines
  parse_lines-append [] ys parsed = refl
  parse_lines-append (x ∷ xs) ys parsed =
      by_line (parse_codex_event_line r x parsed) (parse_lines-append xs ys)
    where
      by_line :
          (given : Result ParsedEvents)
          → ((next : ParsedEvents)
              → parse_lines r (xs ++ ys) next ≡ (parse_lines r xs next >>= parse_lines r ys))
          → (given >>= λ next. parse_lines r (xs ++ ys) next)
            ≡ ((given >>= λ next. parse_lines r xs next) >>= parse_lines r ys)
      by_line (err e) ih = refl
      by_line (ok next) ih = ih next

abbrev is_stdout : Target → Bool
is_stdout Target.stdout = true
is_stdout Target.stderr = false

-- The bytes of all chunks, and the text of those of stdout.
abbrev pub bytes_of : List Chunk → ℕ
bytes_of [] = 0
bytes_of (chunk ∷ chunks) = length chunk.bytes + bytes_of chunks

abbrev text_then : Target → String → String → String
text_then Target.stdout s t = String.◌++◌ s t
text_then Target.stderr s t = t

abbrev stdout_of : Reader → List Chunk → String
stdout_of reader [] = ""
stdout_of reader (chunk ∷ chunks) =
    text_then chunk.target (reader.decode chunk.bytes) (stdout_of reader chunks)

abbrev bytes_then : Target → List ℕ → List ℕ → List ℕ
bytes_then Target.stdout bytes later = bytes ++ later
bytes_then Target.stderr bytes later = later

-- The bytes of stdout, however they are divided.
abbrev pub stdout_bytes : List Chunk → List ℕ
stdout_bytes [] = []
stdout_bytes (chunk ∷ chunks) = bytes_then chunk.target chunk.bytes (stdout_bytes chunks)

-- A decoder may take some bytes of stdout and those after them each for themselves.
abbrev EndsWhole : Target → Reader → List ℕ → List ℕ → Type 0
EndsWhole Target.stdout reader bytes later =
    reader.decode (bytes ++ later) ≡ String.◌++◌ (reader.decode bytes) (reader.decode later)
EndsWhole Target.stderr reader bytes later = Unit

-- Each chunk of stdout ends where a character does: what it decodes to is followed by what the bytes
-- after it decode to. Of nothing a decoder makes nothing.
abbrev pub IsUnsplit : Reader → List Chunk → Type 0
IsUnsplit reader [] = reader.decode [] ≡ ""
IsUnsplit reader (chunk ∷ chunks) =
    EndsWhole chunk.target reader chunk.bytes (stdout_bytes chunks) × IsUnsplit reader chunks

decode-stdout_bytes :
    (reader : Reader) (chunks : List Chunk)
    → IsUnsplit reader chunks
    → reader.decode (stdout_bytes chunks) ≡ stdout_of reader chunks
decode-stdout_bytes reader [] h = h
decode-stdout_bytes reader (chunk ∷ chunks) (here, h) =
    by_target chunk.target here (decode-stdout_bytes reader chunks h)
  where
    by_target :
        (target : Target)
        → EndsWhole target reader chunk.bytes (stdout_bytes chunks)
        → reader.decode (stdout_bytes chunks) ≡ stdout_of reader chunks
        → reader.decode (bytes_then target chunk.bytes (stdout_bytes chunks))
          ≡ text_then target (reader.decode chunk.bytes) (stdout_of reader chunks)
    by_target Target.stdout one later = one ∙ ap (String.◌++◌ (reader.decode chunk.bytes)) later
    by_target Target.stderr one later = later

-- What the lines have left, and the line that is open.
abbrev pub read_so_far : Result Stream → Result (String × ParsedEvents)
read_so_far outcome = outcome >>= λ s. ok (s.stdout, s.parsed)

module _ (r : Redaction) (reader : Reader) where
  after_lines-both :
      (parsed : ParsedEvents) (lines : List String) (next : List String × String)
      → after_lines r reader parsed (both lines next)
        ≡ (parse_lines r (map reader.read_line lines) parsed >>= λ p. after_lines r reader p next)
  after_lines-both parsed lines (more, rest) =
      rw
        (
          map-append reader.read_line lines more,
          parse_lines-append r (map reader.read_line lines) (map reader.read_line more) parsed,
        )
        (by_lines (parse_lines r (map reader.read_line lines) parsed))
    where
      by_lines :
          (given : Result ParsedEvents)
          → ((given >>= parse_lines r (map reader.read_line more)) >>= left_open rest)
            ≡ (given >>= λ p. after_lines r reader p (more, rest))
      by_lines (err e) = refl
      by_lines (ok p) = refl

module _ (r : Redaction) (reader : Reader) (max_output_bytes : ℕ) where
  consume_all-read :
      (chunks : List Chunk) (s : Stream)
      → no_newline s.stdout ≡ true
      → s.total_bytes + bytes_of chunks ≤ max_output_bytes
      → read_so_far (consume_all r reader max_output_bytes chunks s)
        ≡ after_lines r reader s.parsed (cut (String.◌++◌ s.stdout (stdout_of reader chunks)) "")
  unfolding consume_all parse_lines
  consume_all-read [] s h le =
      rw (append-nil s.stdout, cut_plain s.stdout "" h, nil-append s.stdout) refl
  consume_all-read (chunk ∷ chunks) s h le =
      let fits : ltb max_output_bytes (s.total_bytes + length chunk.bytes) ≡ false = ground arith in
      rw fits (by_target chunk.target (λ next. consume_all-read chunks next))
    where
      by_target :
          (target : Target)
          → ((next : Stream)
              → no_newline next.stdout ≡ true
              → next.total_bytes + bytes_of chunks ≤ max_output_bytes
              → read_so_far (consume_all r reader max_output_bytes chunks next)
                ≡ after_lines r reader next.parsed
                    (cut (String.◌++◌ next.stdout (stdout_of reader chunks)) ""))
          → read_so_far (
              take_in r reader target chunk (s.total_bytes + length chunk.bytes) s >>= λ next.
              consume_all r reader max_output_bytes chunks next)
            ≡ after_lines r reader s.parsed (
                cut
                  (String.◌++◌ s.stdout
                    (text_then target (reader.decode chunk.bytes) (stdout_of reader chunks)))
                  "")
      by_target Target.stderr ih = ih _ h (omega (arith, le))
      by_target Target.stdout ih =
          let whole = String.◌++◌ s.stdout (reader.decode chunk.bytes) in
          let rest = (cut whole "").1 in
          let later = stdout_of reader chunks in
          let again : after_lines r reader s.parsed
                (cut (String.◌++◌ s.stdout (String.◌++◌ (reader.decode chunk.bytes) later)) "")
              ≡ (parse_lines r (map reader.read_line (cut whole "").0) s.parsed >>= λ p.
                  after_lines r reader p (cut later rest)) =
            rw
              (
                sym (append_assoc s.stdout (reader.decode chunk.bytes) later),
                cut-append whole later "",
              )
              (after_lines-both r reader s.parsed (cut whole "").0 (cut later rest)) in
          by_lines rest (cut_rest whole "" refl)
            (parse_lines r (map reader.read_line (cut whole "").0) s.parsed)
          ∙ sym again
        where
          by_lines :
              (rest : String)
              → no_newline rest ≡ true
              → (given : Result ParsedEvents)
              → read_so_far (
                  ((given >>= left_open rest) >>= λ read.
                  ok (kept r reader s (s.total_bytes + length chunk.bytes) read))
                  >>= λ next. consume_all r reader max_output_bytes chunks next)
                ≡ (given >>= λ p. after_lines r reader p (cut (stdout_of reader chunks) rest))
          by_lines rest plain (err e) = refl
          by_lines rest plain (ok p) =
              ih (kept r reader s (s.total_bytes + length chunk.bytes) (rest, p)) plain
                (omega (arith, le))
              ∙ ap (after_lines r reader p) (cut_again rest (stdout_of reader chunks) plain)

abbrev pub started : ParsedEvents → Stream
started parsed = record {
  stdout = "";
  stderr = "";
  total_bytes = 0;
  output_exceeded = false;
  parsed = parsed;
}

-- However the output is divided into chunks, as long as each chunk of stdout ends where a character
-- does and the output stays within the limit, what has been read is what the lines of the whole of
-- stdout, decoded at once, leave, in their order, and the line that is open is what follows the last of
-- them; what stderr brings in between changes neither.
pub consume_all_lem :
    (r : Redaction) (reader : Reader) (max_output_bytes : ℕ) (chunks : List Chunk)
    (parsed : ParsedEvents)
    → IsUnsplit reader chunks
    → bytes_of chunks ≤ max_output_bytes
    → read_so_far (consume_all r reader max_output_bytes chunks (started parsed))
      ≡ after_lines r reader parsed (cut (reader.decode (stdout_bytes chunks)) "")
consume_all_lem r reader max_output_bytes chunks parsed unsplit le =
    rw (decode-stdout_bytes reader chunks unsplit, sym (nil-append (stdout_of reader chunks)))
      (consume_all-read r reader max_output_bytes chunks (started parsed) refl (omega (arith, le)))
