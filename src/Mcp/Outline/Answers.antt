-- ===== src/Mcp/Outline/Answers.antt =====
-- What an answer of DocumentSymbols promises.
use soft_ue_index.Base.{
  ◌+◌, ℕ, zero, suc, ◌≤◌, ◌≡◌, refl, sym, ap, ◌∙◌, Bool, true, false, not, List, [], ◌∷◌, ◌++◌,
  length, take, ltb, if_intro, arith, ◌⊎◌, subst, append-nil, append_assoc, length-take,
}
use soft_ue_index.Base.Text.{Bytes}
use soft_ue_index.Base.Int.{ℤ, pos}
use soft_ue_index.Base.Result.{ok, through, unless_ok}
use soft_ue_index.Lsp.Outline.{
  Entry, DocumentSymbol, DocumentSymbols, symbol, nil, cons, limit_document_symbols,
}
use soft_ue_index.Lsp.Outline.Flat.{entries, entries_one, limit_document_symbols_lem}
use soft_ue_index.Mcp.Limits.{output_limit, item_limit}
use soft_ue_index.Mcp.Search.{cut, trim, Found, Project, project, safe_project_path}
use soft_ue_index.Mcp.Search.Shape.{
  total, total-trim, length-trim, length-cut, Told, trim-Told, cut-Told,
}
use soft_ue_index.Mcp.Search.Answers.{bounded_ok, project-id}
use soft_ue_index.Mcp.Outline.{
  walk_symbols, walk_symbol, flatten_symbols, entry_size, shape_outline, OutlineWorld,
  query_document_symbols, document_symbols,
}

mutual
  unfolding walk_symbols entries

  walk_symbol_lem :
      (v : DocumentSymbol) (out : List Entry) → walk_symbol v out ≡ out ++ entries_one v
  walk_symbol_lem (symbol e children) out =
      walk_symbols_lem children (out ++ (e ∷ [])) ∙ append_assoc out (e ∷ []) (entries children)

  walk_symbols_lem :
      (items : DocumentSymbols) (out : List Entry) → walk_symbols items out ≡ out ++ entries items
  walk_symbols_lem nil out = sym (append-nil out)
  walk_symbols_lem (cons v rest) out =
      rw (walk_symbol_lem v out, walk_symbols_lem rest (out ++ entries_one v))
        (append_assoc out (entries_one v) (entries rest))

flatten_symbols-entries : (items : DocumentSymbols) → flatten_symbols items ≡ entries items
unfolding flatten_symbols
flatten_symbols-entries items = walk_symbols_lem items []

-- The items stand at the start of the outline.
abbrev pub IsStart : {A : Type 0} → List A → List A → Type 0
IsStart xs ys = xs ≡ take (length xs) ys

take_more : {A : Type 0} (n : ℕ) (xs : List A) → length xs ≤ n → take n xs ≡ xs
take_more zero [] h = refl
take_more zero (x ∷ xs) h = absurd (omega (arith, h))
take_more (suc n) [] h = refl
take_more (suc n) (x ∷ xs) h = cc (take_more n xs (omega (arith, h)))

take-take : {A : Type 0} (m n : ℕ) (xs : List A) → m ≤ n → take m (take n xs) ≡ take m xs
take-take zero n xs h = refl
take-take (suc m) zero xs h = absurd (omega (arith, h))
take-take (suc m) (suc n) [] h = refl
take-take (suc m) (suc n) (x ∷ xs) h = cc (take-take m n xs (omega (arith, h)))

trim-IsStart :
    {A : Type 0} (size : A → ℕ) (max used : ℕ) (items : List A) (t : Bool)
    → IsStart (trim size max used items t).0 items
unfolding trim
trim-IsStart size max used [] t = refl
trim-IsStart size max used (v ∷ rest) t =
    if_intro (λ (o : List _ × Bool). IsStart o.0 (v ∷ rest)) (ltb max (used + size v)) _ _
      (λ _. refl) (λ _. ap (λ xs. v ∷ xs) (trim-IsStart size max (used + size v) rest t))

-- Cutting what is cut at one more is cutting the whole.
cut_once_more :
    {A : Type 0} (max : ℕ) (items : List A)
    → cut max (take (suc max) items) false ≡ cut max items false
cut_once_more max items = ground (
  arith,
  length-take (suc max) items,
  take-take max (suc max) items (omega arith),
  take_more (suc max) items,
)

take-IsStart : {A : Type 0} (n : ℕ) (items : List A) → IsStart (take n items) items
take-IsStart zero items = refl
take-IsStart (suc n) [] = refl
take-IsStart (suc n) (x ∷ items) = ap (λ xs. x ∷ xs) (take-IsStart n items)

cut-IsStart : {A : Type 0} (max : ℕ) (items : List A) (t : Bool) → IsStart (cut max items t).0 items
cut-IsStart max items t =
    if_intro (λ (o : List _ × Bool). IsStart o.0 items) (ltb max (length items)) _ _
      (λ _. take-IsStart max items) (λ _. sym (take_more (length items) items (omega arith)))

IsStart-trans :
    {A : Type 0} (xs ys zs : List A)
    → IsStart xs ys
    → IsStart ys zs
    → length xs ≤ length ys
    → IsStart xs zs
IsStart-trans xs ys zs a b le =
    a ∙ ap (take (length xs)) b ∙ take-take (length xs) (length ys) zs le

stays_whole :
    {A : Type 0} (o k : List A × Bool) (source : List A)
    → Told o k
    → Told k (source, false)
    → (o.1 ≡ true) ⊎ (o.0 ≡ source)
stays_whole o k source a b = ground arith

-- What comes out of the pipeline of DocumentSymbols, the client's limit included.
record Shaped (limit max : ℕ) (source : List Entry) (o : List Entry × Bool) : Type 0 where
  start : IsStart o.0 source
  few : length o.0 ≤ max
  small : total entry_size o.0 ≤ limit
  told : (o.1 ≡ true) ⊎ (o.0 ≡ source)

whole-Shaped :
    (limit max : ℕ) (source : List Entry)
    → Shaped limit max source
        (trim entry_size limit 0 (cut max source false).0 (cut max source false).1)
whole-Shaped limit max source =
    let kept = cut max source false in
    record {
      start =
          IsStart-trans _ kept.0 source (trim-IsStart entry_size limit 0 kept.0 kept.1)
            (cut-IsStart max source false) (length-trim entry_size limit 0 kept.0 kept.1);
      few =
          omega (arith, length-trim entry_size limit 0 kept.0 kept.1, length-cut max source false);
      small = omega (arith, total-trim entry_size limit 0 kept.0 kept.1 (omega arith));
      told =
          stays_whole _ kept source (trim-Told entry_size limit 0 kept.0 kept.1)
            (cut-Told max source false);
    }

shape_outline-Shaped :
    (limit max : ℕ) (outline : DocumentSymbols)
    → Shaped limit max
        (entries outline)
        (shape_outline limit max (limit_document_symbols outline (pos (suc max))))
unfolding shape_outline
shape_outline-Shaped limit max outline =
    let flat =
      flatten_symbols-entries (limit_document_symbols outline (pos (suc max)))
      ∙ limit_document_symbols_lem outline max in
    let same = ap (λ xs. cut max xs false) flat ∙ cut_once_more max (entries outline) in
    subst
      (λ (k : List Entry × Bool).
        Shaped limit max (entries outline) (trim entry_size limit 0 k.0 k.1))
      (sym same) (whole-Shaped limit max (entries outline))

-- A query for the outline of a file that answered.
pub record AnsweredOutline (o : OutlineWorld) (id path : Bytes) (max_items : ℤ) (r : Found Entry)
    : Type 0 where
  pub project : Project
  pub safe : Bytes
  pub outline : DocumentSymbols
  pub registered : project.id ≡ id
  pub inside : safe_project_path o.world project path ≡ ok safe
  pub asked : o.document_symbol project safe ≡ ok outline
  pub start : IsStart r.items (entries outline)
  pub few : length r.items ≤ item_limit o.world.bounds max_items
  pub small : total entry_size r.items ≤ output_limit o.world.bounds
  pub fits : o.wire_outline r ≤ output_limit o.world.bounds
  pub complete : (r.truncated ≡ true) ⊎ (r.items ≡ entries outline)

-- Every answer of DocumentSymbols is about the project and a path that passed the test, and holds
-- the first symbols of clangd's outline in document order, within the item limit and the response
-- limit; unless it says that it is truncated, it holds them all, although the client cut the tree.
pub document_symbols_sound :
    (o : OutlineWorld) (id path : Bytes) (max_items : ℤ) {r : Found Entry}
    → document_symbols o id path max_items ≡ ok r
    → AnsweredOutline o id path max_items r
unfolding document_symbols query_document_symbols
document_symbols_sound o id path max_items {r} h =
    let w = o.world in
    let (p, found, h1) = through (project w.limits_ok w.projects id) _ h in
    let (safe, inside, h2) =
      through (safe_project_path w p path) _ (unless_ok (not w.has_queries) _ _ h1).1 in
    let (items, limited, h3) =
      through (query_document_symbols o p safe (suc (item_limit w.bounds max_items))) _ h2 in
    let (outline, asked, h4) = through (o.document_symbol p safe) _ limited in
    let max = item_limit w.bounds max_items in
    let cut_tree : limit_document_symbols outline (pos (suc max)) ≡ items = cc in
    let shaped =
      subst
        (λ t.
          Shaped (output_limit w.bounds) max (entries outline)
            (shape_outline (output_limit w.bounds) max t))
        cut_tree (shape_outline-Shaped (output_limit w.bounds) max outline) in
    let (same, fits) = bounded_ok o.wire_outline (output_limit w.bounds) _ r h3 in
    subst (AnsweredOutline o id path max_items) same (record {
      project = p;
      safe = safe;
      outline = outline;
      registered = project-id w.limits_ok w.projects id p found;
      inside = inside;
      asked = asked;
      start = shaped.start;
      few = shaped.few;
      small = shaped.small;
      fits = fits;
      complete = shaped.told;
    })
