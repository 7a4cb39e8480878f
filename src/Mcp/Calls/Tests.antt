-- ===== src/Mcp/Calls/Tests.antt =====
-- A run of CallHierarchy around a function that calls itself and another one.
use soft_ue_index.Base.{◌+◌, ◌≡◌, refl, true, false, some, none, [], ◌∷◌, length, leb}
use soft_ue_index.Base.Text.{str, eqb, one_of}
use soft_ue_index.Base.Int.{pos, negsuc}
use soft_ue_index.Base.Result.{ok, err}
use soft_ue_index.Mcp.Limits.{item_limit, output_limit}
use soft_ue_index.Mcp.Search.{
  Project, path_forbidden, project, choose, filter_items, validate_position, safe_project_path,
}
use soft_ue_index.Mcp.Calls.{
  CallItem, CallInput, CallWorld, CallResult, call_key, add_roots, levels, expand, add_calls,
  add_call_node, trim_call_hierarchy,
}
use soft_ue_index.Mcp.Calls.Tool.{call_hierarchy, direction_of, start_walk, walk_from}
use soft_ue_index.Mcp.Calls.Answers.{AnsweredCalls, call_hierarchy_sound}

abbrev game : Project
game = record {
  id = str "game";
  name = str "Game";
  engine_version = str "5.4";
  last_fingerprint = [];
  ready = true;
}

abbrev tick : CallItem
tick = record {
  uri = str "a";
  name = str "Tick";
  start_line = pos 1;
  start_character = pos 0;
  end_line = pos 1;
  end_character = pos 4;
}

abbrev move : CallItem
move = record {
  uri = str "b";
  name = str "Move";
  start_line = pos 2;
  start_character = pos 0;
  end_line = pos 2;
  end_character = pos 4;
}

abbrev calls_world : CallWorld
calls_world = record {
  world = record {
    limits_ok = true;
    bounds = record {
      max_items = 9;
      max_query_bytes = 10;
      max_path_bytes = 20;
      max_source_bytes = 100;
      max_response_bytes = 2000;
      max_request_bytes = 100;
      max_request_id_bytes = 10;
      max_call_depth = 2;
      max_concurrent_tools = 1;
      timeout = 30;
    };
    projects = some (ok (game ∷ []));
    has_queries = true;
    symbols = λ p query n. ok [];
    locations = λ p kind position n. ok [];
    safe_path = λ p path. ok path;
    allowed = λ p uri. leb (length uri) 1;
    within = λ scope uri. true;
    index_state = λ p. err path_forbidden;
    wire_symbols = λ r. 100;
    wire_locations = λ r. 100;
  };
  show = λ n. elim n [ pos k ↦ (k + 48) ∷ [] | negsuc k ↦ 45 ∷ (k + 49) ∷ [] ];
  prepared = λ p position. ok (tick ∷ []);
  incoming_calls = λ p v. ok [];
  outgoing_calls = λ p v.
      ok (record { from = none; to = some tick } ∷ record { from = none; to = some move } ∷ []);
  wire_calls = λ r. 300;
}

abbrev from_tick : CallInput
from_tick = record {
  project_id = str "game";
  position = record { path = str "a"; line = pos 1; character = pos 0 };
  direction = str "outgoing";
  max_items = pos 5;
  max_depth = pos 1;
}

abbrev self_and_move : CallResult
self_and_move = record {
  nodes =
      record { id = str "a:1:0:1:4"; item = tick }
      ∷ record { id = str "b:2:0:2:4"; item = move }
      ∷ [];
  edges =
      record { from = str "a:1:0:1:4"; to = str "a:1:0:1:4" }
      ∷ record { from = str "a:1:0:1:4"; to = str "b:2:0:2:4" }
      ∷ [];
  roots = str "a:1:0:1:4" ∷ [];
  truncated = false;
}

walks : call_hierarchy calls_world from_tick ≡ ok self_and_move
unfolding call_hierarchy project choose validate_position safe_project_path direction_of start_walk
    walk_from filter_items add_roots levels expand add_calls add_call_node call_key
    trim_call_hierarchy item_limit output_limit str eqb one_of
walks = refl

call_hierarchy_sound_example : AnsweredCalls calls_world from_tick self_and_move
call_hierarchy_sound_example = call_hierarchy_sound calls_world from_tick walks
