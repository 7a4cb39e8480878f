-- ===== src/Mcp/Outline/Hovers.antt =====
-- What an answer of Hover promises.
use soft_ue_index.Base.{ℕ, sym, ◌≤◌, ◌≡◌, false, not, Option, some, none, subst}
use soft_ue_index.Base.Text.{Bytes}
use soft_ue_index.Base.Result.{ok, through, unless_ok}
use soft_ue_index.Mcp.Limits.{output_limit}
use soft_ue_index.Mcp.Fit.{fit_text_lem, Fitted, FitOutcome}
use soft_ue_index.Mcp.Search.{Project, project, TextPosition, validate_position}
use soft_ue_index.Mcp.Search.Answers.{bounded_ok, project-id}
use soft_ue_index.Mcp.Outline.{
  HoverItem, HoverResult, OutlineWorld, hover_fitting, hover_result, hover,
}

-- The result for what clangd answered: nothing, or its text as it fits.
abbrev pub Shown : OutlineWorld → ℕ → Option HoverItem → HoverResult → Type 0
Shown o limit none r = r ≡ record { item = none; truncated = false }
Shown o limit (some v) r = Fitted (hover_fitting o v) limit v.contents.value r

-- A query for a hover text that answered.
pub record AnsweredHover (o : OutlineWorld) (id : Bytes) (position : TextPosition) (r : HoverResult)
    : Type 0 where
  pub project : Project
  pub checked : Bytes
  pub answer : Option HoverItem
  pub registered : project.id ≡ id
  pub valid : validate_position o.world project position ≡ ok checked
  pub asked : o.hover project position ≡ ok answer
  pub shown : Shown o (output_limit o.world.bounds) answer r
  pub fits : o.wire_hover r ≤ output_limit o.world.bounds

hover_result-Shown :
    (o : OutlineWorld) (limit : ℕ) (answer : Option HoverItem) (r : HoverResult)
    → hover_result o limit answer ≡ ok r
    → Shown o limit answer r × (o.wire_hover r ≤ limit)
unfolding hover_result
hover_result-Shown o limit none r h =
    let (same, fits) = bounded_ok o.wire_hover limit _ r h in
    (sym same, subst (λ v. o.wire_hover v ≤ limit) same fits)
hover_result-Shown o limit (some v) r h =
    let fitted =
      subst (FitOutcome (hover_fitting o v) limit v.contents.value) h
        (fit_text_lem (hover_fitting o v) limit v.contents.value) in
    (fitted, fitted.fits)

-- Every answer of Hover is about the project and a position that passed the test, shows what clangd
-- answered, whole or cut to the longest prefix that fits as the search finds it, and fits the
-- response limit; no answer of clangd is shown as none.
pub hover_sound :
    (o : OutlineWorld) (id : Bytes) (position : TextPosition) {r : HoverResult}
    → hover o id position ≡ ok r
    → AnsweredHover o id position r
unfolding hover
hover_sound o id position {r} h =
    let w = o.world in
    let (p, found, h1) = through (project w.limits_ok w.projects id) _ h in
    let (checked, valid, h2) =
      through (validate_position w p position) _ (unless_ok (not w.has_queries) _ _ h1).1 in
    let (answer, asked, h3) = through (o.hover p position) _ h2 in
    let (shown, fits) = hover_result-Shown o (output_limit w.bounds) answer r h3 in
    record {
      project = p;
      checked = checked;
      answer = answer;
      registered = project-id w.limits_ok w.projects id p found;
      valid = valid;
      asked = asked;
      shown = shown;
      fits = fits;
    }
