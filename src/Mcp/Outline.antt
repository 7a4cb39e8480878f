-- ===== src/Mcp/Outline.antt =====
-- internal/mcpserver/server.go: the tools DocumentSymbols and Hover. What clangd answers, through
-- internal/app, is an argument; the client's limit on it is internal/lsp's.
pub mod Answers
pub mod Hovers
mod Tests
use soft_ue_index.Base.{
  ℕ, suc, Bool, true, false, not, List, [], ◌∷◌, ◌++◌, ◌+◌, Option, some, none, length, ltb, take,
  if◌then◌else◌,
}
use soft_ue_index.Base.Text.{Bytes}
use soft_ue_index.Base.Int.{ℤ, pos}
use soft_ue_index.Base.Result.{Result, ok, err, ◌>>=◌, unless}
use soft_ue_index.Lsp.Outline.{
  Span, Entry, DocumentSymbol, DocumentSymbols, symbol, nil, cons, limit_document_symbols,
}
use soft_ue_index.Mcp.Limits.{output_limit, item_limit}
use soft_ue_index.Mcp.Fit.{Fitting, fit_text}
use soft_ue_index.Mcp.Search.{
  ToolError, unavailable, World, Project, project, safe_project_path, TextPosition,
  validate_position, cut, trim, Found, found_of, bounded,
}

-- `walk` of flattenSymbols: `out` grows at its end
unfoldable mutual
  pub walk_symbol : DocumentSymbol → List Entry → List Entry
  walk_symbol (symbol e children) out = walk_symbols children (out ++ (e ∷ []))

  pub walk_symbols : DocumentSymbols → List Entry → List Entry
  walk_symbols nil out = out
  walk_symbols (cons v rest) out = walk_symbols rest (walk_symbol v out)

unfoldable pub flatten_symbols : DocumentSymbols → List Entry
unfolding walk_symbols
flatten_symbols items = walk_symbols items []

abbrev pub entry_size : Entry → ℕ
entry_size v = length v.name + 96

-- What DocumentSymbols does with the outline that the query returned.
module _ (limit max : ℕ) where
  unfoldable pub shape_outline : DocumentSymbols → List Entry × Bool
  shape_outline items =
      let (kept, t) = cut max (flatten_symbols items) false in trim entry_size limit 0 kept t

pub record MarkupContent : Type 0 where
  pub kind : Bytes
  pub value : Bytes

pub record HoverItem : Type 0 where
  pub contents : MarkupContent
  pub range : Option Span

pub record HoverResult : Type 0 where
  pub item : Option HoverItem
  pub truncated : Bool

pub record OutlineWorld : Type 0 where
  pub world : World
  pub document_symbol : Project → Bytes → Result ToolError DocumentSymbols
  pub hover : Project → TextPosition → Result ToolError (Option HoverItem)
  pub wire_outline : Found Entry → ℕ
  pub wire_hover : HoverResult → ℕ
  pub to_valid : Bytes → Bytes
  pub starts : Bytes → List ℕ

-- the query: clangd's answer, limited by the client
unfoldable pub query_document_symbols :
    OutlineWorld → Project → Bytes → ℕ → Result ToolError DocumentSymbols
query_document_symbols o p path n = do
  items ← o.document_symbol p path
  ok (limit_document_symbols items (pos n))

unfoldable pub document_symbols : OutlineWorld → Bytes → Bytes → ℤ → Result ToolError (Found Entry)
document_symbols o project_id path max_items = do
  let w = o.world
  p ← project w.limits_ok w.projects project_id
  unless (not w.has_queries) unavailable (do
    safe ← safe_project_path w p path
    let max = item_limit w.bounds max_items
    items ← query_document_symbols o p safe (suc max)
    bounded o.wire_outline (output_limit w.bounds)
        (found_of (shape_outline (output_limit w.bounds) max items)))

-- the result with its text replaced
abbrev pub with_text : HoverItem → Bytes → Bool → HoverResult
with_text v text truncated = record {
  item = some (record v { contents = record { kind = v.contents.kind; value = text } });
  truncated = truncated;
}

abbrev pub hover_fitting : OutlineWorld → HoverItem → Fitting HoverResult
hover_fitting o v = record {
  to_valid = o.to_valid;
  starts = o.starts;
  build = with_text v;
  wire = o.wire_hover;
}

unfoldable pub hover_result : OutlineWorld → ℕ → Option HoverItem → Result ToolError HoverResult
hover_result o limit none = bounded o.wire_hover limit (record { item = none; truncated = false })
hover_result o limit (some v) = fit_text (hover_fitting o v) limit v.contents.value

unfoldable pub hover : OutlineWorld → Bytes → TextPosition → Result ToolError HoverResult
hover o project_id position = do
  let w = o.world
  p ← project w.limits_ok w.projects project_id
  unless (not w.has_queries) unavailable (do
    checked ← validate_position w p position
    v ← o.hover p position
    hover_result o (output_limit w.bounds) v)
