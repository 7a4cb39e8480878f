-- ===== src/Mcp/Calls/Answers.antt =====
-- What an answer of CallHierarchy promises.
use soft_ue_index.Base.{
  ℕ, zero, suc, ◌≡◌, refl, Bool, true, false, not, ◌⊎◌, Option, if_true, if_false, List, [], ◌∷◌,
  map, All, arith, Bool-cases, inl, inr, sym, ◌∙◌, subst,
}
use soft_ue_index.Base.Int.{ℤ}
use soft_ue_index.Base.Text.{Bytes, eqb_iff, one_of}
use soft_ue_index.Base.Result.{Result, ok, err, through, unless_ok}
use soft_ue_index.Mcp.Limits.{output_limit, item_limit}
use soft_ue_index.Mcp.Search.{ToolError, Project, project, filter_items, validate_position}
use soft_ue_index.Mcp.Search.Shape.{filter_items-All}
use soft_ue_index.Mcp.Search.Answers.{project-id}
use soft_ue_index.Mcp.Calls.{
  CallItem, Call, CallNode, CallResult, Walk, Direction, prepare, incoming, outgoing, CallInput,
  CallWorld, call_key, add_calls, expand, levels,
}
use soft_ue_index.Mcp.Calls.Tool.{
  direction_of, target_of, query_of, item_allowed, start_walk, walk_from, depth_of, or_err,
  call_hierarchy,
}
use soft_ue_index.Mcp.Calls.Graph.{ids, IsWalk, All-weaken}
use soft_ue_index.Mcp.Calls.Steps.{Grows, add_calls-Kept}
use soft_ue_index.Mcp.Calls.Roots.{add_roots-IsWalk}
use soft_ue_index.Mcp.Calls.Trimmed.{Fits, IfOk, trim_call_hierarchy-Fits}

ok_same : {E A : Type 0} {a b : A} → ◌≡◌ {A = Result E A} (ok a) (ok b) → a ≡ b
ok_same e = cc

module _ (show : ℤ → Bytes) (allowed : CallItem → Bool) (max : ℕ) (target : Call → Option CallItem)
    (query : CallItem → Result ToolError (List Call)) where
  -- the items were seen
  abbrev Known : Walk → List CallItem → Type 0
  Known s items = All (λ v. one_of (call_key show v) s.seen ≡ true) items

  Known-Grows : (s s' : Walk) (items : List CallItem) → Grows s s' → Known s items → Known s' items
  Known-Grows s s' items g k =
      All-weaken (λ v. one_of (call_key show v) s.seen ≡ true)
        (λ v. one_of (call_key show v) s'.seen ≡ true) items (λ v j. g (call_key show v) j) k

  expand-IsWalk :
      (frontier : List CallItem) (s s' : Walk)
      → IsWalk show allowed max s
      → Known s frontier
      → expand show max allowed target query frontier s ≡ ok s'
      → IsWalk show allowed max s'
  unfolding expand
  expand-IsWalk [] s s' h k e = subst (IsWalk show allowed max) (ok_same e) h
  expand-IsWalk (from ∷ rest) s s' h k e =
      let (calls, asked, e1) = through (query from) _ e in
      let kept = add_calls-Kept show allowed max target from calls s h k.0 in
      expand-IsWalk rest (add_calls show max allowed target from calls s) s' kept.walk
        (Known-Grows s (add_calls show max allowed target from calls s) rest kept.grows k.1) e1

  levels-IsWalk :
      (d : ℕ) (frontier : List CallItem) (s s' : Walk)
      → IsWalk show allowed max s
      → Known s frontier
      → levels show max allowed target query d frontier s ≡ ok s'
      → IsWalk show allowed max s'
  unfolding levels
  levels-IsWalk zero frontier s s' h k e = subst (IsWalk show allowed max) (ok_same e) h
  levels-IsWalk (suc d) [] s s' h k e = subst (IsWalk show allowed max) (ok_same e) h
  levels-IsWalk (suc d) (from ∷ rest) s s' h k e = elim (Bool-cases s.result.truncated) [
    | inl t ↦
        subst (IsWalk show allowed max) (ok_same (sym (if_true s.result.truncated _ _ t) ∙ e)) h
    | inr f ↦
        (let (s1, walked, e1) =
            through (expand show max allowed target query (from ∷ rest) (record s { next = [] })) _
              (sym (if_false s.result.truncated _ _ f) ∙ e) in
          let h1 =
            expand-IsWalk (from ∷ rest) (record s { next = [] }) s1
              (record { graph = h.graph; same_keys = h.same_keys; next_known = tt }) k walked in
          levels-IsWalk d s1.next s1 s' h1 h1.next_known e1)
  ]

-- An answer of CallHierarchy.
pub record AnsweredCalls (w : CallWorld) (input : CallInput) (r : CallResult) : Type 0 where
  pub project : Project
  pub registered : project.id ≡ input.project_id
  pub fits :
      Fits w.show
        (item_allowed w project)
        (item_limit w.world.bounds input.max_items)
        w.wire_calls
        (output_limit w.world.bounds)
        r

-- the first frontier was seen
nodes-Known :
    (show : ℤ → Bytes) (allowed : CallItem → Bool) (max : ℕ) (s : Walk) (nodes : List CallNode)
    → All (λ v. v.id ≡ call_key show v.item) nodes
    → ((k : Bytes) → one_of k (ids nodes) ≡ true → one_of k s.seen ≡ true)
    → All (λ v. one_of (call_key show v) s.seen ≡ true) (map (λ v. v.item) nodes)
unfolding one_of
nodes-Known show allowed max s [] h f = tt
nodes-Known show allowed max s (v ∷ rest) h f = (
  f (call_key show v.item) (ground (arith, eqb_iff (call_key show v.item) v.id)),
  nodes-Known show allowed max s rest h.1 (λ k j. f k (ground arith)),
)

module _ (w : CallWorld) (p : Project) (max : ℕ) where
  start_walk-IsWalk :
      (roots : List CallItem) → IsWalk w.show (item_allowed w p) max (start_walk w p max roots)
  unfolding start_walk one_of
  start_walk-IsWalk roots =
      let kept = filter_items (item_allowed w p) roots false in
      add_roots-IsWalk w.show (item_allowed w p) max kept.0
        (record {
          result = record { nodes = []; edges = []; roots = []; truncated = kept.1 };
          seen = [];
          next = [];
        })
        (record {
          graph = record {
            distinct = tt;
            keyed = tt;
            inside = tt;
            few = omega arith;
            joined = tt;
            rooted = tt;
          };
          same_keys = λ k. refl;
          next_known = tt;
        })
        (filter_items-All (item_allowed w p) roots false) refl

  walk_from-IsWalk :
      (direction : Direction) (depth : ℕ) (s s' : Walk)
      → IsWalk w.show (item_allowed w p) max s
      → walk_from w p max direction depth s ≡ ok s'
      → IsWalk w.show (item_allowed w p) max s'
  unfolding walk_from
  walk_from-IsWalk prepare depth s s' h e =
      subst (IsWalk w.show (item_allowed w p) max) (ok_same e) h
  walk_from-IsWalk incoming depth s s' h e =
      levels-IsWalk w.show (item_allowed w p) max (target_of incoming) (query_of w p incoming) depth
        (map (λ v. v.item) s.result.nodes) s s' h
        (nodes-Known w.show (item_allowed w p) max s s.result.nodes h.graph.keyed
          (λ k j. h.same_keys k ∙ j))
        e
  walk_from-IsWalk outgoing depth s s' h e =
      levels-IsWalk w.show (item_allowed w p) max (target_of outgoing) (query_of w p outgoing) depth
        (map (λ v. v.item) s.result.nodes) s s' h
        (nodes-Known w.show (item_allowed w p) max s s.result.nodes h.graph.keyed
          (λ k j. h.same_keys k ∙ j))
        e

if_ok :
    (show : ℤ → Bytes) (allowed : CallItem → Bool) (max : ℕ) (wire : CallResult → ℕ) (limit : ℕ)
    (s r : CallResult) (o : Result ToolError CallResult)
    → o ≡ ok r
    → IfOk show allowed max wire limit
        (λ r'. Fits show allowed max wire limit r' × ((r' ≡ s) ⊎ (r'.truncated ≡ true)))
        o
    → Fits show allowed max wire limit r
if_ok show allowed max wire limit s r (err x) e h = absurd cc
if_ok show allowed max wire limit s r (ok r') e h =
    subst (Fits show allowed max wire limit) (ok_same e) h.0

-- Every answer of CallHierarchy is about the project that was asked for. Its nodes are distinct,
-- lie inside the roots of the project and stand under their keys; its edges and roots are among
-- its nodes; nodes and edges together are within the item limit, and the text within the response
-- limit.
pub call_hierarchy_sound :
    (w : CallWorld) (input : CallInput) {r : CallResult}
    → call_hierarchy w input ≡ ok r
    → AnsweredCalls w input r
unfolding call_hierarchy
call_hierarchy_sound w input {r} h =
    let (p, found, h1) =
      through (project w.world.limits_ok w.world.projects input.project_id) _ h in
    let (checked, _, h2) =
      through (validate_position w.world p input.position) _
        (unless_ok (not w.world.has_queries) _ _ h1).1 in
    let (direction, _, h3) = through (or_err _ (direction_of input.direction)) _ h2 in
    let (depth, _, h4) = through (or_err _ (depth_of w.world.bounds input.max_depth)) _ h3 in
    let (roots, _, h5) = through (w.prepared p input.position) _ h4 in
    let max = item_limit w.world.bounds input.max_items in
    let (s, walked, h6) =
      through (walk_from w p max direction depth (start_walk w p max roots)) _ h5 in
    let walk =
      walk_from-IsWalk w p max direction depth (start_walk w p max roots) s
        (start_walk-IsWalk w p max roots) walked in
    record {
      project = p;
      registered = project-id w.world.limits_ok w.world.projects input.project_id p found;
      fits =
          if_ok w.show (item_allowed w p) max w.wire_calls (output_limit w.world.bounds) s.result r
            _ h6
            (trim_call_hierarchy-Fits w.show (item_allowed w p) max w.wire_calls
              (output_limit w.world.bounds) s.result walk.graph);
    }
