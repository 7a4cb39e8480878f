-- ===== src/Mcp/Source/Answers.antt =====
-- What an answer of ReadSymbolSource promises.
use soft_ue_index.Base.{
  ℕ, zero, suc, ◌≤◌, ◌≡◌, refl, subst, Bool, false, ◌||◌, List, length, ltb, arith,
}
use soft_ue_index.Base.Text.{Bytes, is_empty}
use soft_ue_index.Base.Int.{ℤ, pos, negsuc}
use soft_ue_index.Base.Result.{Result, ok, err, through, unless_ok}
use soft_ue_index.Mcp.Limits.{output_limit}
use soft_ue_index.Mcp.Fit.{fit_text, fit_text_lem, Fitted, FitOutcome}
use soft_ue_index.Mcp.Search.{ToolError, Project, project}
use soft_ue_index.Mcp.Search.Answers.{project-id}
use soft_ue_index.Mcp.Source.{
  Reading, Ending, left, ran_out, read_loop, first_reading, SourceResult, SourceInput, SourceError,
  SourceWorld, lift, line_range, byte_limit, source_fitting, fit_source, after_loop,
  read_symbol_source,
}
use soft_ue_index.Mcp.Source.Window.{joined, window, IsStartOf, read_loop-IsStartOf}

lift_ok : {A : Type 0} (x : Result ToolError A) {a : A} → lift x ≡ ok a → x ≡ ok a
lift_ok (ok b) e = cc
lift_ok (err b) e = absurd cc

fit_source-Fitted :
    (o : SourceWorld) (path : Bytes) (start : ℕ) (s : Reading) {r : SourceResult}
    → fit_source o path start s ≡ ok r
    → Fitted (source_fitting o path start s) (output_limit o.world.bounds) s.text r
fit_source-Fitted o path start s h =
    let f = source_fitting o path start s in
    let limit = output_limit o.world.bounds in
    subst (FitOutcome f limit s.text) (lift_ok (fit_text f limit s.text) h)
      (fit_text_lem f limit s.text)

after_loop-Fitted :
    (o : SourceWorld) (path : Bytes) (start : ℕ) (fails : Bool) (x : Reading × ℕ × Ending)
    {r : SourceResult}
    → after_loop o path start fails x ≡ ok r
    → Fitted (source_fitting o path start x.0) (output_limit o.world.bounds) x.0.text r
after_loop-Fitted o path start fails (s, line, left) h = fit_source-Fitted o path start s h
after_loop-Fitted o path start fails (s, line, ran_out) h =
    fit_source-Fitted o path start s (unless_ok (ltb line start) _ _ (unless_ok fails _ _ h).1).1

value_ok : {A : Type 0} {a b : A} → ◌≡◌ {A = Result SourceError A} (ok a) (ok b) → a ≡ b
value_ok e = cc

not_above : (a b : ℕ) → ltb a b ≡ false → b ≤ a
not_above a b h = ground (arith, h)

line_range_lem :
    (a b : ℤ) {r : ℕ × ℕ}
    → line_range a b ≡ ok r
    → (a ≡ pos r.0) × (b ≡ pos r.1) × (1 ≤ r.0) × (r.0 ≤ r.1)
line_range_lem (pos zero) b e = absurd cc
line_range_lem (negsuc n) b e = absurd cc
line_range_lem (pos (suc n)) (negsuc m) e = absurd cc
line_range_lem (pos (suc n)) (pos m) {r} e =
    let (fine, same) = unless_ok (ltb m (suc n)) _ _ e in
    subst (λ (x : ℕ × ℕ). (pos (suc n) ≡ pos x.0) × (pos m ≡ pos x.1) × (1 ≤ x.0) × (x.0 ≤ x.1))
      (value_ok same) (refl, refl, omega arith, not_above m (suc n) fine)

-- A query for the source of some lines that answered.
pub record AnsweredSource (o : SourceWorld) (input : SourceInput) (r : SourceResult) : Type 0 where
  pub project : Project
  pub safe : Bytes
  pub start : ℕ
  pub stop : ℕ
  pub lines : List Bytes
  pub fails : Bool
  pub reading : Reading
  pub registered : project.id ≡ input.project_id
  pub inside : o.world.safe_path project input.path ≡ ok safe
  pub range : line_range input.start_line input.end_line ≡ ok (start, stop)
  pub opened : o.open_file safe ≡ ok (lines, fails)
  pub read :
      IsStartOf start stop
        (byte_limit o.world.bounds input.max_bytes)
        (joined (window start stop 0 lines))
        reading
  pub shown :
      Fitted (source_fitting o safe start reading) (output_limit o.world.bounds) reading.text r

-- Every answer of ReadSymbolSource is about the project and a path that passed the test. What was
-- read is the text of the requested lines of that file with newlines between them, up to the byte
-- limit, and is marked as truncated exactly if that text is longer than the limit; the answer shows
-- it whole, or cut and marked, so that it fits the response limit.
pub read_symbol_source_sound :
    (o : SourceWorld) (input : SourceInput) {r : SourceResult}
    → read_symbol_source o input ≡ ok r
    → AnsweredSource o input r
unfolding read_symbol_source
read_symbol_source_sound o input h =
    let w = o.world in
    let (p, found, h1) = through (lift (project w.limits_ok w.projects input.project_id)) _ h in
    let (_, h2) =
      unless_ok (is_empty input.path || ltb w.bounds.max_path_bytes (length input.path)) _ _ h1 in
    let (range, valid, h3) = through (line_range input.start_line input.end_line) _ h2 in
    let (safe, inside, h4) = through (lift (w.safe_path p input.path)) _ h3 in
    let (file, opened, h5) = through (o.open_file safe) _ h4 in
    let limit = byte_limit w.bounds input.max_bytes in
    let looped = read_loop range.0 range.1 limit 0 file.0 (first_reading range.0) in
    let (_, _, low, high) = line_range_lem input.start_line input.end_line valid in
    record {
      project = p;
      safe = safe;
      start = range.0;
      stop = range.1;
      lines = file.0;
      fails = file.1;
      reading = looped.0;
      registered = project-id w.limits_ok w.projects input.project_id p (lift_ok _ found);
      inside = lift_ok _ inside;
      range = valid;
      opened = opened;
      read = read_loop-IsStartOf range.0 range.1 limit file.0 0 low high;
      shown = after_loop-Fitted o safe range.0 file.1 looped h5;
    }
