-- ===== src/Mcp/Calls.antt =====
-- internal/mcpserver/server.go: CallHierarchy, the bounded walk over the calls around a position,
-- and trimCallHierarchy. The clangd queries, the file system test, the text of a number and the
-- size of a JSON text are arguments.
pub mod Graph
pub mod Tool
pub mod Steps
pub mod Roots
pub mod Trimmed
pub mod Answers
mod Tests
use soft_ue_index.Base.{
  ℕ, zero, suc, ◌+◌, ◌-◌, Bool, true, false, not, ◌&&◌, ◌||◌, Option, some, none, List, [], ◌∷◌,
  ◌++◌, map, length, take, drop, ltb, leb, ◌==◌, if◌then◌else◌,
}
use soft_ue_index.Base.Text.{Bytes, str, eqb, one_of, is_empty}
use soft_ue_index.Base.Int.{ℤ, pos, negsuc, is_neg}
use soft_ue_index.Base.Result.{Result, ok, err, ◌>>=◌, unless}
use soft_ue_index.Mcp.Limits.{Bounds, output_limit, item_limit}
use soft_ue_index.Mcp.Search.{
  ToolError, limit_exceeded, unavailable, bad_direction, bounded, filter_items, World, Project,
  TextPosition, project, validate_position,
}

pub record CallItem : Type 0 where
  pub uri : Bytes
  pub name : Bytes
  pub start_line : ℤ
  pub start_character : ℤ
  pub end_line : ℤ
  pub end_character : ℤ

pub record Call : Type 0 where
  pub from : Option CallItem
  pub to : Option CallItem

pub record CallNode : Type 0 where
  pub id : Bytes
  pub item : CallItem

pub record CallEdge : Type 0 where
  pub from : Bytes
  pub to : Bytes

pub record CallResult : Type 0 where
  pub nodes : List CallNode
  pub edges : List CallEdge
  pub roots : List Bytes
  pub truncated : Bool

pub data Direction : Type 0 where
  prepare : Direction
  incoming : Direction
  outgoing : Direction

pub record CallInput : Type 0 where
  pub project_id : Bytes
  pub position : TextPosition
  pub direction : Bytes
  pub max_items : ℤ
  pub max_depth : ℤ

-- What CallHierarchy asks of its surroundings, beside what every tool asks.
pub record CallWorld : Type 0 where
  pub world : World
  pub show : ℤ → Bytes
  pub prepared : Project → TextPosition → Result ToolError (List CallItem)
  pub incoming_calls : Project → CallItem → Result ToolError (List Call)
  pub outgoing_calls : Project → CallItem → Result ToolError (List Call)
  pub wire_calls : CallResult → ℕ

-- callKey
unfoldable pub call_key : (ℤ → Bytes) → CallItem → Bytes
call_key show v =
    v.uri
    ++ (b':' ∷ show v.start_line)
    ++ (b':' ∷ show v.start_character)
    ++ (b':' ∷ show v.end_line)
    ++ (b':' ∷ show v.end_character)

-- The state of the walk: the result so far, the keys that were seen, the next frontier.
pub record Walk : Type 0 where
  pub result : CallResult
  pub seen : List Bytes
  pub next : List CallItem

abbrev pub truncate : Walk → Walk
truncate s = record s { result = record s.result { truncated = true } }

-- addCallNode, and whether the node is new
abbrev pub append_node : Bytes → CallItem → Walk → Walk
append_node id item s = record s {
  result = record s.result { nodes = s.result.nodes ++ (record { id = id; item = item } ∷ []) };
  seen = id ∷ s.seen;
}

unfoldable pub add_call_node : Bytes → CallItem → Walk → Bool × Walk
add_call_node id item s = if one_of id s.seen then (false, s) else (true, append_node id item s)

abbrev pub add_root : Bytes → Bool × Walk → Walk
add_root id (false, s) = s
add_root id (true, s) = record s {
  result = record s.result { roots = s.result.roots ++ (id ∷ []) };
}

abbrev pub items_of : CallResult → ℕ
items_of r = length r.nodes + length r.edges

module _ (show : ℤ → Bytes) (max : ℕ) where
  -- the loop over the roots
  unfoldable pub add_roots : List CallItem → Walk → Walk
  add_roots [] s = s
  add_roots (root ∷ rest) s =
      let id = call_key show root in
      let after = add_roots rest (add_root id (add_call_node id root s)) in
      if leb max (length s.result.nodes) then truncate s else after

  abbrev pub push_next : CallItem → Bool × Walk → Walk
  push_next to (false, s) = s
  push_next to (true, s) = record s { next = s.next ++ (to ∷ []) }

  abbrev pub add_edge : Bytes → Bytes → Bool × Walk → Bool × Walk
  add_edge from to (added, s) = (
    added,
    record s {
      result = record s.result { edges = s.result.edges ++ (record { from = from; to = to } ∷ []) };
    },
  )

  abbrev pub cost_of : Bytes → Walk → ℕ
  cost_of key s = if one_of key s.seen then 1 else 2

  abbrev pub link : CallItem → CallItem → Walk → Walk
  link from to s =
      push_next to
        (add_edge (call_key show from) (call_key show to) (add_call_node (call_key show to) to s))

  module _ (allowed : CallItem → Bool) (target : Call → Option CallItem) (from : CallItem) where
    -- one call whose other end is `to`, and whether the loop goes on
    abbrev pub visit : CallItem → Walk → Bool × Walk
    visit to s =
        if not (allowed to)
        then (true, truncate s)
        else if ltb max (items_of s.result + cost_of (call_key show to) s)
        then (false, truncate s)
        else (true, link from to s)

    -- the loop over the calls of `from`; a call that does not fit ends it
    unfoldable pub add_calls : List Call → Walk → Walk
    add_calls [] s = s
    add_calls (call ∷ rest) s = elim (target call) [
      | none ↦ add_calls rest (truncate s)
      | some to ↦
          (let next = visit to s in
            let after = add_calls rest next.1 in if next.0 then after else next.1)
    ]

  module _ (allowed : CallItem → Bool) (target : Call → Option CallItem)
      (query : CallItem → Result ToolError (List Call)) where
    -- the loop over the frontier
    unfoldable pub expand : List CallItem → Walk → Result ToolError Walk
    expand [] s = ok s
    expand (from ∷ rest) s = do
      calls ← query from
      expand rest (add_calls allowed target from calls s)

    -- the loop over the depth
    unfoldable pub levels : ℕ → List CallItem → Walk → Result ToolError Walk
    levels zero frontier s = ok s
    levels (suc d) [] s = ok s
    levels (suc d) (from ∷ rest) s =
        if s.result.truncated
        then ok s
        else do s' ← expand (from ∷ rest) (record s { next = [] }); levels d s'.next s'

abbrev pub last_id : List CallNode → Bytes
last_id [] = []
last_id (v ∷ []) = v.id
last_id (v ∷ u ∷ rest) = last_id (u ∷ rest)

-- removeCallID
unfoldable pub remove_call_id : Bytes → List Bytes → List Bytes
remove_call_id id [] = []
remove_call_id id (v ∷ rest) = let out = remove_call_id id rest in if eqb v id then out else v ∷ out

module _ (wire : CallResult → ℕ) (limit : ℕ) where
  abbrev pub without_last : ℕ → CallResult → CallResult
  without_last n r = record r {
    nodes = take n r.nodes;
    roots = remove_call_id (last_id r.nodes) r.roots;
  }

  -- `n` nodes are left
  unfoldable pub drop_nodes : ℕ → CallResult → Result ToolError CallResult
  drop_nodes zero r = bounded wire limit r
  drop_nodes (suc n) r =
      let later = drop_nodes n (without_last n r) in
      if ltb limit (wire (without_last n r)) then later else ok (without_last n r)

  -- `n` edges are left
  unfoldable pub drop_edges : ℕ → CallResult → Result ToolError CallResult
  drop_edges zero r = drop_nodes (length r.nodes) r
  drop_edges (suc n) r =
      let r' = record r { edges = take n r.edges } in
      let later = drop_edges n r' in if ltb limit (wire r') then later else ok r'

  unfoldable pub trim_call_hierarchy : CallResult → Result ToolError CallResult
  trim_call_hierarchy r =
      let later = drop_edges (length r.edges) (record r { truncated = true }) in
      if ltb limit (wire r) then later else ok r
