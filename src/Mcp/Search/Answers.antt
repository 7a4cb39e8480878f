-- ===== src/Mcp/Search/Answers.antt =====
-- What a tool that answered with items promises of them.
use soft_ue_index.Base.{
  ℕ, suc, ◌≤◌, ◌≡◌, refl, Bool, true, false, not, ◌&&◌, Option, some, none, List, [], ◌∷◌, length,
  arith, leb, if◌then◌else◌, is_some, All, inl, inr, ◌⊎◌, Bool-cases, if_true, if_false, sym, ◌∙◌,
}
use soft_ue_index.Base.Text.{Bytes}
use soft_ue_index.Base.Result.{Result, ok, err}
use soft_ue_index.Mcp.Limits.{output_limit, item_limit}
use soft_ue_index.Base.{subst}
use soft_ue_index.Base.Text.{eqb, eqb_iff}
use soft_ue_index.Base.Result.{through, unless_ok}
use soft_ue_index.Mcp.Search.{
  ToolError, limit_exceeded, Symbol, filter_items, symbol_size, cut, only_scoped, shape_symbols,
  shape_after, bounded, Project, choose, project, SearchInput, World, SearchResult, scope_of,
  symbol_allowed, symbol_within, search_symbols, unavailable,
}
use soft_ue_index.Mcp.Search.Shape.{
  Told, total, filter_items-All, filter_items-Told, length-filter_items, filter_items-keeps,
  only_scoped-All, total-trim, trim-Told, length-trim, trim-keeps, cut-Told, length-cut, cut-keeps,
}

-- What comes out of the pipeline of SearchSymbols.
record Shaped (allowed in_scope : Symbol → Bool) (limit max : ℕ) (source : List Symbol) (t : Bool)
    (o : List Symbol × Bool) : Type 0 where
  inside : All (λ v. allowed v ≡ true) o.0
  within : All (λ v. in_scope v ≡ true) o.0
  few : length o.0 ≤ max
  small : total symbol_size o.0 ≤ limit
  told : (o.1 ≡ true) ⊎ ((o.0 ≡ source) × (t ≡ false))

pub whole_or_cut :
    {A : Type 0} (o i k : List A × Bool) (source : List A) (t : Bool)
    → Told o i
    → Told i k
    → Told k (source, t)
    → (o.1 ≡ true) ⊎ ((o.0 ≡ source) × (t ≡ false))
whole_or_cut o i k source t a b c = ground arith

module _ (allowed in_scope : Symbol → Bool) (limit max : ℕ) where
  shape-Shaped :
      (source : List Symbol) (t : Bool)
      → All (λ v. in_scope v ≡ true) source
      → Shaped allowed in_scope limit max source t
          (shape_after allowed in_scope limit max (cut max source t))
  shape-Shaped source t scoped =
      let kept = cut max source t in
      let inner = filter_items allowed kept.0 kept.1 in
      record {
        inside =
            trim-keeps symbol_size limit (λ v. allowed v ≡ true) 0 inner.0 inner.1
              (filter_items-All allowed kept.0 kept.1);
        within =
            trim-keeps symbol_size limit (λ v. in_scope v ≡ true) 0 inner.0 inner.1
              (filter_items-keeps allowed (λ v. in_scope v ≡ true) kept.0 kept.1
                (cut-keeps (λ v. in_scope v ≡ true) max source t scoped));
        few = omega (
          arith,
          length-trim symbol_size limit 0 inner.0 inner.1,
          length-filter_items allowed kept.0 kept.1,
          length-cut max source t,
        );
        small = omega (arith, total-trim symbol_size limit 0 inner.0 inner.1 (omega arith));
        told =
            whole_or_cut _ inner kept source t (trim-Told symbol_size limit 0 inner.0 inner.1)
              (filter_items-Told allowed kept.0 kept.1) (cut-Told max source t);
      }

pub untold : {P Q : Type 0} (t : Bool) (b : Bool) → P ⊎ (Q × (t ≡ b)) → P ⊎ Q
untold t b (inl p) = inl p
untold t b (inr q) = inr q.0

pub bounded_ok :
    {A : Type 0} (wire : A → ℕ) (limit : ℕ) (value r : A)
    → bounded wire limit value ≡ ok r
    → (value ≡ r) × (wire value ≤ limit)
bounded_ok wire limit value r h = ground arith

choose-id : (id : Bytes) (ps : List Project) (p : Project) → choose id ps ≡ ok p → p.id ≡ id
unfolding choose
choose-id id [] p h = cc
choose-id id (q ∷ rest) p h = ground (arith, eqb_iff q.id id, choose-id id rest p)

pub project-id :
    (limits_ok : Bool) (o : Option (Result ToolError (List Project))) (id : Bytes) (p : Project)
    → project limits_ok o id ≡ ok p
    → p.id ≡ id
unfolding project
project-id limits_ok none id p h = ground arith
project-id limits_ok (some (err e)) id p h = ground arith
project-id limits_ok (some (ok all)) id p h = ground (arith, choose-id id all p)

-- An element of a list.
pub data Listed {A : Type 0} (a : A) : List A → Type 0 where
  here : {rest : List A} → Listed a (a ∷ rest)
  there : {b : A} {rest : List A} → Listed a rest → Listed a (b ∷ rest)

choose-Listed : (id : Bytes) (ps : List Project) {p : Project} → choose id ps ≡ ok p → Listed p ps
unfolding choose
choose-Listed id [] h = absurd cc
choose-Listed id (q ∷ rest) {p} h = elim (Bool-cases (eqb q.id id)) [
  | inl b ↦
      (let same : q ≡ p = value_ok (sym (if_true _ _ _ b) ∙ h) in
        subst (λ x. Listed x (q ∷ rest)) same here)
  | inr b ↦ there (choose-Listed id rest (sym (if_false _ _ _ b) ∙ h))
]
  where
    value_ok : {a b : Project} → ◌≡◌ {A = Result ToolError Project} (ok a) (ok b) → a ≡ b
    value_ok e = cc

-- The project is in the registry that was loaded.
abbrev pub Registered : Option (Result ToolError (List Project)) → Project → Type 0
Registered none p = ⊥
Registered (some (err e)) p = ⊥
Registered (some (ok all)) p = Listed p all

project-Registered :
    (limits_ok : Bool) (o : Option (Result ToolError (List Project))) (id : Bytes) {p : Project}
    → project limits_ok o id ≡ ok p
    → Registered o p
unfolding project
project-Registered limits_ok none id h = absurd (ground (arith, h))
project-Registered limits_ok (some (err e)) id h = absurd (ground (arith, h))
project-Registered limits_ok (some (ok all)) id {p} h = choose-Listed id all (ground (arith, h))

-- A search that answered.
pub record Answered (w : World) (input : SearchInput) (r : SearchResult) : Type 0 where
  pub project : Project
  pub scope : Option Bytes
  pub returned : List Symbol
  pub registered : Registered w.projects project
  pub named : project.id ≡ input.project_id
  pub scoped : scope_of w project input.path_prefix ≡ ok scope
  pub asked :
      w.symbols project input.query (
        if is_some scope then suc w.bounds.max_items else suc (item_limit w.bounds input.max_items))
      ≡ ok returned
  pub inside : All (λ v. symbol_allowed w project v ≡ true) r.items
  pub within : All (λ v. symbol_within w scope v ≡ true) r.items
  pub few : length r.items ≤ item_limit w.bounds input.max_items
  pub small : total symbol_size r.items ≤ output_limit w.bounds
  pub fits : w.wire_symbols r ≤ output_limit w.bounds
  pub complete :
      (r.truncated ≡ true)
      ⊎ (r.items
          ≡ (if is_some scope then only_scoped (symbol_within w scope) returned else returned))

All-true : (items : List Symbol) → All {A = Symbol} (λ v. ◌≡◌ {A = Bool} true true) items
All-true [] = tt
All-true (v ∷ rest) = (refl, All-true rest)

-- the source of the pipeline lies in the scope
scoped_source :
    (w : World) (scope : Option Bytes) (items : List Symbol)
    → All
        (λ v. symbol_within w scope v ≡ true)
        (if is_some scope then only_scoped (symbol_within w scope) items else items)
scoped_source w none items = All-true items
scoped_source w (some scope) items = only_scoped-All (symbol_within w (some scope)) items

-- Every answer of SearchSymbols is about a project of the registry, the one with the ID that was
-- asked for; each of its symbols has no URI or one inside the roots of the project, and lies in the
-- requested scope; it is within the item limit and the response limit, and, unless it says that it
-- is truncated, holds every symbol that clangd returned for the query within that scope.
pub search_symbols_sound :
    (w : World) (input : SearchInput) {r : SearchResult}
    → search_symbols w input ≡ ok r
    → Answered w input r
unfolding search_symbols shape_symbols
search_symbols_sound w input {r} h =
    let (p, found, h1) =
      through (project w.limits_ok w.projects input.project_id) _
        (unless_ok _ limit_exceeded _ h).1 in
    let (scope, scoped, h2) =
      through (scope_of w p input.path_prefix) _
        (unless_ok (not w.has_queries) unavailable _ h1).1 in
    let (items, asked, h3) = through (w.symbols p input.query _) _ h2 in
    let max = item_limit w.bounds input.max_items in
    let source = (if is_some scope then only_scoped (symbol_within w scope) items else items) in
    let n = (if is_some scope then suc w.bounds.max_items else suc max) in
    let shaped =
      shape-Shaped (symbol_allowed w p) (symbol_within w scope) (output_limit w.bounds) max source
        (is_some scope && leb n (length items)) (scoped_source w scope items) in
    let (same, fits) = bounded_ok w.wire_symbols (output_limit w.bounds) _ r h3 in
    subst (Answered w input) same (record {
      project = p;
      scope = scope;
      returned = items;
      registered = project-Registered w.limits_ok w.projects input.project_id found;
      named = project-id w.limits_ok w.projects input.project_id p found;
      scoped = scoped;
      asked = asked;
      inside = shaped.inside;
      within = shaped.within;
      few = shaped.few;
      small = shaped.small;
      fits = fits;
      complete = untold _ _ shaped.told;
    })
