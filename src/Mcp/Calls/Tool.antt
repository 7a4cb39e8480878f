-- ===== src/Mcp/Calls/Tool.antt =====
-- internal/mcpserver/server.go: CallHierarchy, over the walk and the trimming.
use soft_ue_index.Base.{
  ℕ, Bool, false, not, Option, some, none, List, [], ◌∷◌, map, ltb, if◌then◌else◌,
}
use soft_ue_index.Base.Text.{Bytes, str, eqb}
use soft_ue_index.Base.Int.{ℤ, pos, negsuc}
use soft_ue_index.Base.Result.{Result, ok, err, ◌>>=◌, unless}
use soft_ue_index.Mcp.Limits.{Bounds, output_limit, item_limit}
use soft_ue_index.Mcp.Search.{
  ToolError, limit_exceeded, unavailable, bad_direction, filter_items, Project, project,
  validate_position,
}
use soft_ue_index.Mcp.Calls.{
  CallItem, Call, CallResult, Direction, CallInput, CallWorld, Walk, add_roots, levels,
  trim_call_hierarchy, prepare, incoming, outgoing,
}

-- the direction; an empty one means prepare
unfoldable pub direction_of : Bytes → Option Direction
direction_of [] = some prepare
direction_of (c ∷ s) =
    if eqb (c ∷ s) (str "prepare")
    then some prepare
    else if eqb (c ∷ s) (str "incoming")
    then some incoming
    else if eqb (c ∷ s) (str "outgoing")
    then some outgoing
    else none

abbrev pub target_of : Direction → Call → Option CallItem
target_of incoming call = call.from
target_of _ call = call.to

abbrev pub query_of : CallWorld → Project → Direction → CallItem → Result ToolError (List Call)
query_of w p incoming = w.incoming_calls p
query_of w p _ = w.outgoing_calls p

abbrev pub item_allowed : CallWorld → Project → CallItem → Bool
item_allowed w p v = w.world.allowed p v.uri

-- The first nodes, from what prepare returned.
unfoldable pub start_walk : CallWorld → Project → ℕ → List CallItem → Walk
start_walk w p max roots =
    let (kept, filtered) = filter_items (item_allowed w p) roots false in
    add_roots w.show max kept (record {
      result = record { nodes = []; edges = []; roots = []; truncated = filtered };
      seen = [];
      next = [];
    })

unfoldable pub walk_from : CallWorld → Project → ℕ → Direction → ℕ → Walk → Result ToolError Walk
walk_from w p max prepare depth s = ok s
walk_from w p max direction depth s =
    levels w.show max (item_allowed w p) (target_of direction) (query_of w p direction) depth
      (map (λ v. v.item) s.result.nodes) s

-- the depth, if it is within the limit
abbrev pub depth_of : Bounds → ℤ → Option ℕ
depth_of b (negsuc n) = none
depth_of b (pos n) = if ltb b.max_call_depth n then none else some n

abbrev pub or_err : {A : Type 0} → ToolError → Option A → Result ToolError A
or_err e none = err e
or_err e (some v) = ok v

unfoldable pub call_hierarchy : CallWorld → CallInput → Result ToolError CallResult
call_hierarchy w input = do
  p ← project w.world.limits_ok w.world.projects input.project_id
  unless (not w.world.has_queries) unavailable (do
    checked ← validate_position w.world p input.position
    direction ← or_err bad_direction (direction_of input.direction)
    depth ← or_err limit_exceeded (depth_of w.world.bounds input.max_depth)
    roots ← w.prepared p input.position
    let max = item_limit w.world.bounds input.max_items
    s ← walk_from w p max direction depth (start_walk w p max roots)
    trim_call_hierarchy w.wire_calls (output_limit w.world.bounds) s.result)
