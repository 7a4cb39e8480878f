-- ===== src/Mcp/Search.antt =====
-- internal/mcpserver/server.go: the tools that answer with a list of items (SearchSymbols,
-- locations, DocumentSymbols, ListProjects), how their items are filtered, cut and trimmed, and
-- how a project is chosen. The clangd queries, the file system test behind `allowed` and the size
-- of a JSON text are arguments.
pub mod Shape
pub mod Answers
pub mod Locations
use soft_ue_index.Base.{
  ℕ, zero, suc, ◌+◌, ◌-◌, ◌≤◌, ◌<◌, ◌≡◌, refl, Bool, true, false, not, ◌&&◌, ◌||◌, Option, some,
  none, List, [], ◌∷◌, ◌++◌, map, length, arith, ltb, leb, ◌==◌, if◌then◌else◌, take, is_some, All,
  ap, sym, ◌∙◌, Bool-cases, inl, inr, ◌⊎◌,
}
use soft_ue_index.Base.Text.{Bytes, eqb, is_empty}
use soft_ue_index.Base.Int.{ℤ, pos, negsuc, is_neg}
use soft_ue_index.Base.Result.{Result, ok, err, ◌>>=◌, unless}
use soft_ue_index.Mcp.Limits.{Bounds, output_limit, item_limit}

pub data ToolError : Type 0 where
  project_required : ToolError
  project_not_found : ToolError
  registry_unavailable : ToolError
  unavailable : ToolError
  limit_exceeded : ToolError
  invalid_limits : ToolError
  path_forbidden : ToolError
  negative_position : ToolError
  bad_direction : ToolError
  backend : Bytes → ToolError

pub record Symbol : Type 0 where
  pub name : Bytes
  pub container_name : Bytes
  pub uri : Bytes

pub record Location : Type 0 where
  pub uri : Bytes
  pub position : ℕ

-- the loop of filterSymbols, filterLocations and filterCalls: an item that is dropped marks the
-- result as truncated
module _ {A : Type 0} (keep : A → Bool) where
  unfoldable pub filter_items : List A → Bool → List A × Bool
  filter_items [] truncated = ([], truncated)
  filter_items (v ∷ rest) truncated =
      let (out, t) = filter_items rest truncated in if keep v then (v ∷ out, t) else (out, true)

-- the loop of trimSymbols, trimLocations and trimDocumentSymbols: `used` bytes are taken already
module _ {A : Type 0} (size : A → ℕ) (max : ℕ) where
  unfoldable pub trim : ℕ → List A → Bool → List A × Bool
  trim used [] truncated = ([], truncated)
  trim used (v ∷ rest) truncated =
      let (out, t) = trim (used + size v) rest truncated in
      if ltb max (used + size v) then ([], true) else (v ∷ out, t)

abbrev pub symbol_size : Symbol → ℕ
symbol_size v = length v.name + length v.container_name + 128

abbrev pub location_size : Location → ℕ
location_size v = length v.uri + 96

-- `if len(items) > max { items = items[:max]; truncated = true }`
abbrev pub cut {ℓ} : {A : Type ℓ} → ℕ → List A → Bool → List A × Bool
cut max items truncated =
    if ltb max (length items) then (take max items, true) else (items, truncated)

-- filterSymbolsByPathScope does not mark what it drops
module _ {A : Type 0} (keep : A → Bool) where
  unfoldable pub only_scoped : List A → List A
  only_scoped [] = []
  only_scoped (v ∷ rest) = let out = only_scoped rest in if keep v then v ∷ out else out

pub record Found (A : Type 0) : Type 0 where
  pub items : List A
  pub truncated : Bool

-- bounded: the JSON text of a result may not be longer than the limit
abbrev pub bounded : {A : Type 0} → (A → ℕ) → ℕ → A → Result ToolError A
bounded wire limit value = if ltb limit (wire value) then err limit_exceeded else ok value

abbrev pub found_of : {A : Type 0} → List A × Bool → Found A
found_of (items, truncated) = record { items = items; truncated = truncated }

-- What SearchSymbols does with the symbols that clangd returned when it was asked for `n`: the
-- scope, the item limit, the roots of the project, the response budget.
module _ (allowed : Symbol → Bool) (in_scope : Symbol → Bool) (limit max : ℕ) where
  abbrev pub shape_after : List Symbol × Bool → List Symbol × Bool
  shape_after (items, truncated) =
      trim symbol_size limit 0 (filter_items allowed items truncated).0
        (filter_items allowed items truncated).1

  unfoldable pub shape_symbols : Bool → ℕ → List Symbol → List Symbol × Bool
  shape_symbols scoped n items = shape_after (
      cut max (if scoped then only_scoped in_scope items else items)
        (scoped && leb n (length items)))

-- What locations does with the locations that clangd returned.
module _ (allowed : Location → Bool) (limit max : ℕ) where
  unfoldable pub shape_locations : List Location → List Location × Bool
  shape_locations items =
      let (kept, t) = cut max items false in
      let (inside, t') = filter_items allowed kept t in trim location_size limit 0 inside t'

pub record Project : Type 0 where
  pub id : Bytes
  pub name : Bytes
  pub engine_version : Bytes
  pub last_fingerprint : Bytes
  pub ready : Bool

unfoldable pub choose : Bytes → List Project → Result ToolError Project
choose id [] = err project_not_found
choose id (p ∷ rest) = let later = choose id rest in if eqb p.id id then ok p else later

-- Server.project: `projects` is the loader, if there is one
unfoldable pub project :
    Bool → Option (Result ToolError (List Project)) → Bytes → Result ToolError Project
project limits_ok projects id =
    if not limits_ok
    then err invalid_limits
    else if is_empty id
    then err project_required
    else elim projects [
      | none ↦ err registry_unavailable
      | some loaded ↦ (do all ← loaded; choose id all)
    ]

pub record SearchInput : Type 0 where
  pub project_id : Bytes
  pub query : Bytes
  pub max_items : ℤ
  pub path_prefix : Bytes

pub record TextPosition : Type 0 where
  pub path : Bytes
  pub line : ℤ
  pub character : ℤ

-- SearchSymbolsResult
pub record SearchResult : Type 0 where
  pub items : List Symbol
  pub truncated : Bool
  pub index_state : Bytes

-- The server's surroundings, for one call: the registry, the clangd queries, and the tests on paths.
pub record World : Type 0 where
  pub limits_ok : Bool
  pub bounds : Bounds
  pub projects : Option (Result ToolError (List Project))
  pub has_queries : Bool
  pub symbols : Project → Bytes → ℕ → Result ToolError (List Symbol)
  pub locations : Project → Bytes → TextPosition → ℕ → Result ToolError (List Location)
  pub safe_path : Project → Bytes → Result ToolError Bytes
  pub allowed : Project → Bytes → Bool
  pub within : Bytes → Bytes → Bool
  pub index_state : Project → Result ToolError Bytes
  pub wire_symbols : SearchResult → ℕ
  pub wire_locations : Found Location → ℕ

-- safeProjectPath, with the length test in front of safePath
unfoldable pub safe_project_path : World → Project → Bytes → Result ToolError Bytes
safe_project_path w p path =
    if is_empty path || ltb w.bounds.max_path_bytes (length path)
    then err limit_exceeded
    else w.safe_path p path

-- the optional scope of a search: `none` when no prefix is given
abbrev pub scope_of : World → Project → Bytes → Result ToolError (Option Bytes)
scope_of w p [] = ok none
scope_of w p (c ∷ s) = do scope ← safe_project_path w p (c ∷ s); ok (some scope)

abbrev pub symbol_allowed : World → Project → Symbol → Bool
symbol_allowed w p v = is_empty v.uri || w.allowed p v.uri

abbrev pub symbol_within : World → Option Bytes → Symbol → Bool
symbol_within w none v = true
symbol_within w (some scope) v = w.within scope v.uri

-- the phase of the index, left empty if asking for it fails
abbrev pub phase_of : Result ToolError Bytes → Bytes
phase_of (ok phase) = phase
phase_of (err e) = []

abbrev pub search_result : List Symbol × Bool → Bytes → SearchResult
search_result (items, truncated) phase = record {
  items = items;
  truncated = truncated;
  index_state = phase;
}

unfoldable pub search_symbols : World → SearchInput → Result ToolError SearchResult
search_symbols w input =
    unless (ltb w.bounds.max_query_bytes (length input.query)) limit_exceeded (do
      p ← project w.limits_ok w.projects input.project_id
      unless (not w.has_queries) unavailable (do
        scope ← scope_of w p input.path_prefix
        let max = item_limit w.bounds input.max_items
        let n = if is_some scope then suc w.bounds.max_items else suc max
        items ← w.symbols p input.query n
        bounded w.wire_symbols (output_limit w.bounds) (
            search_result
              (shape_symbols (symbol_allowed w p) (symbol_within w scope) (output_limit w.bounds)
                max (is_some scope) n items)
              (phase_of (w.index_state p)))))

unfoldable pub validate_position : World → Project → TextPosition → Result ToolError Bytes
validate_position w p v =
    unless (is_neg v.line || is_neg v.character) negative_position (safe_project_path w p v.path)

-- FindDefinition, FindReferences and FindImplementations differ by `kind`
unfoldable pub find_locations :
    World → Bytes → Bytes → TextPosition → ℤ → Result ToolError (Found Location)
find_locations w kind project_id position max_items = do
  p ← project w.limits_ok w.projects project_id
  unless (not w.has_queries) unavailable (do
    checked ← validate_position w p position
    let max = item_limit w.bounds max_items
    items ← w.locations p kind position (suc max)
    bounded w.wire_locations (output_limit w.bounds)
        (found_of (shape_locations (λ v. w.allowed p v.uri) (output_limit w.bounds) max items)))

pub record ProjectSummary : Type 0 where
  pub id : Bytes
  pub name : Bytes
  pub engine_version : Bytes
  pub ready : Bool

-- the loop of ListProjects: `left` items may still be added
unfoldable pub summaries : ℕ → List Project → List ProjectSummary × Bool
summaries left [] = ([], false)
summaries zero (p ∷ rest) = ([], true)
summaries (suc left) (p ∷ rest) =
    let (out, t) = summaries left rest in
    (
      record { id = p.id; name = p.name; engine_version = p.engine_version; ready = p.ready } ∷ out,
      t,
    )

unfoldable pub list_projects :
    World → (Found ProjectSummary → ℕ) → ℤ → Result ToolError (Found ProjectSummary)
list_projects w wire max_items = unless (not w.limits_ok) invalid_limits (elim w.projects [
  | none ↦ err registry_unavailable
  | some loaded ↦ (do
    all ← loaded
    bounded wire (output_limit w.bounds) (found_of (summaries (item_limit w.bounds max_items) all)))
])
