-- ===== src/Lsp/Outline.antt =====
-- internal/lsp/client.go: the symbols of a document, as a tree, and the limits on what a query
-- returns.
pub mod Flat
use soft_ue_index.Base.{
  ℕ, zero, suc, List, [], ◌∷◌, ◌++◌, some, none, length, ltb, take, if◌then◌else◌,
}
use soft_ue_index.Base.Text.{Bytes}
use soft_ue_index.Base.Int.{ℤ, positive}

pub record Span : Type 0 where
  pub start_line : ℤ
  pub start_character : ℤ
  pub end_line : ℤ
  pub end_character : ℤ

-- a DocumentSymbol without its children
pub record Entry : Type 0 where
  pub name : Bytes
  pub kind : ℤ
  pub range : Span
  pub selection_range : Span

-- A DocumentSymbol, and a list of them.
mutual
  pub data DocumentSymbol : Type 0 where
    symbol : Entry → DocumentSymbols → DocumentSymbol

  pub data DocumentSymbols : Type 0 where
    nil : DocumentSymbols
    cons : DocumentSymbol → DocumentSymbols → DocumentSymbols

-- `visit` of limitDocumentSymbols: what is kept, and how many may still be kept
unfoldable mutual
  pub visit_symbol : DocumentSymbol → ℕ → DocumentSymbol × ℕ
  visit_symbol (symbol e children) remaining =
      let (kept, left) = visit_symbols children remaining in (symbol e kept, left)

  pub visit_symbols : DocumentSymbols → ℕ → DocumentSymbols × ℕ
  visit_symbols nil remaining = (nil, remaining)
  visit_symbols (cons v rest) zero = (nil, 0)
  visit_symbols (cons v rest) (suc remaining) =
      let (kept, left) = visit_symbol v remaining in
      let (others, last) = visit_symbols rest left in (cons kept others, last)

unfoldable pub limit_document_symbols : DocumentSymbols → ℤ → DocumentSymbols
limit_document_symbols items max = elim (positive max) [
  | none ↦ items
  | some n ↦ (visit_symbols items n).0
]

-- `limit`, on the items of the other queries
unfoldable pub limit : {A : Type 0} → ℤ → List A → List A
limit max items = elim (positive max) [
  | none ↦ items
  | some n ↦ if ltb n (length items) then take n items else items
]
