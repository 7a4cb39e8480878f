-- ===== src/Lsp/Outline/Flat.antt =====
-- A limited outline holds the first symbols in document order.
use soft_ue_index.Base.{
  ℕ, zero, suc, ◌-◌, ◌≡◌, refl, List, [], ◌∷◌, ◌++◌, length, take, take-append, take-nil, arith,
  length-append, sym,
}
use soft_ue_index.Base.Int.{pos}
use soft_ue_index.Lsp.Outline.{
  Entry, DocumentSymbol, DocumentSymbols, symbol, nil, cons, visit_symbols, visit_symbol,
  limit_document_symbols,
}

-- the symbols of an outline, each before its children
unfoldable mutual
  pub entries_one : DocumentSymbol → List Entry
  entries_one (symbol e children) = e ∷ entries children

  pub entries : DocumentSymbols → List Entry
  entries nil = []
  entries (cons v rest) = entries_one v ++ entries rest

mutual
  unfolding visit_symbols entries

  visit_symbol_lem :
      (v : DocumentSymbol) (n : ℕ)
      → (entries_one (visit_symbol v n).0 ≡ take (suc n) (entries_one v))
        × ((visit_symbol v n).1 ≡ suc n - length (entries_one v))
  visit_symbol_lem (symbol e children) n =
      let (a, b) = visit_symbols_lem children n in (cc a, omega (arith, b))

  visit_symbols_lem :
      (items : DocumentSymbols) (n : ℕ)
      → (entries (visit_symbols items n).0 ≡ take n (entries items))
        × ((visit_symbols items n).1 ≡ n - length (entries items))
  visit_symbols_lem nil n = (sym (take-nil n), omega arith)
  visit_symbols_lem (cons v rest) zero = (refl, omega arith)
  visit_symbols_lem (cons v rest) (suc n) =
      let (a, b) = visit_symbol_lem v n in
      let (c, d) = visit_symbols_lem rest (visit_symbol v n).1 in
      (
        rw (take-append (suc n) (entries_one v) (entries rest), a, c, b) refl,
        omega (arith, b, d, length-append (entries_one v) (entries rest)),
      )

-- What is left of an outline is its first symbols in document order.
pub limit_document_symbols_lem :
    (items : DocumentSymbols) (n : ℕ)
    → entries (limit_document_symbols items (pos (suc n))) ≡ take (suc n) (entries items)
unfolding limit_document_symbols
limit_document_symbols_lem items n = (visit_symbols_lem items (suc n)).0
