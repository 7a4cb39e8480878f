-- ===== src/Mcp/Source.antt =====
-- internal/mcpserver/server.go: the tools ReadSymbolSource and ProjectStatus. A file is the list of
-- its lines as bufio.Scanner gives them, and whether reading then fails; the cancellation of a
-- request while it reads is left out.
pub mod Window
pub mod Answers
mod Tests
use soft_ue_index.Base.{
  ℕ, zero, suc, ◌+◌, ◌-◌, Bool, true, false, not, ◌&&◌, ◌||◌, List, [], ◌∷◌, ◌++◌, length, take,
  ltb, leb, ◌==◌, if◌then◌else◌, some, none, min,
}
use soft_ue_index.Base.Text.{Bytes, is_empty}
use soft_ue_index.Base.Int.{ℤ, pos, negsuc, positive}
use soft_ue_index.Base.Result.{Result, ok, err, ◌>>=◌, unless}
use soft_ue_index.Mcp.Limits.{Bounds, output_limit}
use soft_ue_index.Mcp.Fit.{Fitting, fit_text}
use soft_ue_index.Mcp.Search.{ToolError, World, Project, project, limit_exceeded, phase_of, bounded}

-- `b`, `end` and `truncated` of the loop
pub record Reading : Type 0 where
  pub text : Bytes
  pub last : ℕ
  pub truncated : Bool

-- How the loop ends: at a `break` or the early return, or because there are no more lines.
pub data Ending : Type 0 where
  left ran_out : Ending

-- a newline is due when a line was written before
abbrev pub separator : ℕ → Reading → Bytes
separator start s = if leb start s.last then 10 ∷ [] else []

module _ (start stop limit : ℕ) where
  -- a line that fits
  abbrev pub whole_line : ℕ → Bytes → Reading → Reading
  whole_line line part s = record s { text = (s.text ++ separator start s) ++ part; last = line }

  -- what is still written of a line that does not fit
  abbrev pub cut_line : ℕ → Bytes → Reading → Reading
  cut_line line part s =
      let remaining = limit - length s.text in
      let separated = take remaining (separator start s) in
      let left_over = remaining - length separated in
      record {
        text = (s.text ++ separated) ++ take (min left_over (length part)) part;
        last = if ltb 0 (length separated) || ltb 0 left_over then line else s.last;
        truncated = true;
      }

  -- The loop, on the lines that are left: `line` lines were scanned before them.
  unfoldable pub read_loop : ℕ → List Bytes → Reading → Reading × ℕ × Ending
  read_loop line [] s = (s, line, ran_out)
  read_loop line (part ∷ rest) s =
      let now = suc line in
      let next = read_loop now rest (if ltb now start then s else whole_line now part s) in
      if ltb now start
      then next
      else if ltb stop now
      then (s, now, left)
      else if ltb limit (length s.text + (length (separator start s) + length part))
      then (cut_line now part s, now, left)
      else if now == stop
      then (whole_line now part s, now, left)
      else next

pub record SourceResult : Type 0 where
  pub path : Bytes
  pub start_line : ℕ
  pub end_line : ℕ
  pub text : Bytes
  pub truncated : Bool

pub record SourceInput : Type 0 where
  pub project_id : Bytes
  pub path : Bytes
  pub start_line : ℤ
  pub end_line : ℤ
  pub max_bytes : ℤ

-- ProjectStatusResult
pub record ProjectStatus : Type 0 where
  pub id : Bytes
  pub name : Bytes
  pub engine_version : Bytes
  pub ready : Bool
  pub last_fingerprint : Bytes
  pub index_state : Bytes

pub data SourceError : Type 0 where
  tool : ToolError → SourceError
  invalid_line_range : SourceError
  start_outside_file : SourceError
  read_failed : SourceError

pub record SourceWorld : Type 0 where
  pub world : World
  pub open_file : Bytes → Result SourceError (List Bytes × Bool)
  pub wire_source : SourceResult → ℕ
  pub wire_status : ProjectStatus → ℕ
  pub to_valid : Bytes → Bytes
  pub starts : Bytes → List ℕ

abbrev pub lift : {A : Type 0} → Result ToolError A → Result SourceError A
lift (ok a) = ok a
lift (err e) = err (tool e)

-- `start_line < 1 || end_line < start_line`
abbrev pub line_range : ℤ → ℤ → Result SourceError (ℕ × ℕ)
line_range (pos (suc start)) (pos stop) =
    unless (ltb stop (suc start)) invalid_line_range (ok (suc start, stop))
line_range _ _ = err invalid_line_range

abbrev pub byte_limit : Bounds → ℤ → ℕ
byte_limit b max_bytes = elim (positive max_bytes) [
  | none ↦ b.max_source_bytes
  | some n ↦ if ltb n b.max_source_bytes then n else b.max_source_bytes
]

abbrev pub source_fitting : SourceWorld → Bytes → ℕ → Reading → Fitting SourceResult
source_fitting o path start s = record {
  to_valid = o.to_valid;
  starts = o.starts;
  build = λ text shortened. record {
    path = path;
    start_line = start;
    end_line = s.last;
    text = text;
    truncated = s.truncated || shortened;
  };
  wire = o.wire_source;
}

-- fitSourceResult
abbrev pub fit_source : SourceWorld → Bytes → ℕ → Reading → Result SourceError SourceResult
fit_source o path start s =
    lift (fit_text (source_fitting o path start s) (output_limit o.world.bounds) s.text)

-- after the loop
abbrev pub after_loop :
    SourceWorld → Bytes → ℕ → Bool → Reading × ℕ × Ending → Result SourceError SourceResult
after_loop o path start fails (s, line, left) = fit_source o path start s
after_loop o path start fails (s, line, ran_out) =
    unless fails read_failed
      (unless (ltb line start) start_outside_file (fit_source o path start s))

abbrev pub first_reading : ℕ → Reading
first_reading start = record { text = []; last = start - 1; truncated = false }

unfoldable pub read_symbol_source : SourceWorld → SourceInput → Result SourceError SourceResult
read_symbol_source o input = do
  let w = o.world
  p ← lift (project w.limits_ok w.projects input.project_id)
  unless (is_empty input.path || ltb w.bounds.max_path_bytes (length input.path))
      (tool limit_exceeded)
      (do
        range ← line_range input.start_line input.end_line
        path ← lift (w.safe_path p input.path)
        file ← o.open_file path
        after_loop o path range.0 file.1 (
            read_loop range.0 range.1 (byte_limit w.bounds input.max_bytes) 0 file.0
              (first_reading range.0)))

unfoldable pub project_status : SourceWorld → Bytes → Result SourceError ProjectStatus
project_status o id = do
  let w = o.world
  p ← lift (project w.limits_ok w.projects id)
  lift (
      bounded o.wire_status (output_limit w.bounds) (record {
        id = p.id;
        name = p.name;
        engine_version = p.engine_version;
        ready = p.ready;
        last_fingerprint = p.last_fingerprint;
        index_state = if w.has_queries then phase_of (w.index_state p) else [];
      }))
