-- ===== src/Mcp/Tests.antt =====
-- Concrete runs of the tools, the limits and the frame writer.
use soft_ue_index.Base.{
  Bool, ◌≡◌, ◌++◌, refl, true, false, some, [], ◌∷◌, length, ◌+◌, ◌-◌, ◌==◌, if◌then◌else◌, arith,
  leb,
}
use soft_ue_index.Base.Text.{Bytes, str, eqb}
use soft_ue_index.Base.Int.{pos, negsuc}
use soft_ue_index.Base.Result.{ok, err}
use soft_ue_index.Mcp.Limits.{
  Limits, Bounds, normalized, validate, item_limit, output_limit, IsUsable, normalized-IsUsable,
}
use soft_ue_index.Mcp.Fit.{
  Fitting, FitOutcome, fit_text, cut_point, search_cut, boundary, fit_text_lem,
}
use soft_ue_index.Mcp.Stdio.Delivered.{Delivered, write_lem}
use soft_ue_index.Mcp.Stdio.{Writer, Sink, write, drain, newline_at, accepted, short_write}
use soft_ue_index.Mcp.Search.{
  Project, Symbol, SearchInput, SearchResult, World, path_forbidden, search_symbols, project,
  choose, shape_symbols, filter_items, trim, only_scoped,
}
use soft_ue_index.Mcp.Search.{
  Location, TextPosition, Found, find_locations, validate_position, safe_project_path,
  shape_locations,
}
use soft_ue_index.Mcp.Search.Locations.{AnsweredLocations, find_locations_sound}
use soft_ue_index.Mcp.Search.Answers.{Answered, search_symbols_sound}

abbrev half_a_frame : Writer
half_a_frame = record { max_frame = 4; pending = 123 ∷ []; written = (125 ∷ 10 ∷ []) ∷ [] }

-- a stream that takes every frame whole, and one that takes a byte less of the second frame
abbrev whole : Sink
whole written frame = (length frame, false)

abbrev failing : Sink
failing written frame = (if length written == 2 then length frame - 1 else length frame, false)

two_frames : write whole half_a_frame (125 ∷ 10 ∷ 10 ∷ 123 ∷ []) ≡ (
  accepted,
  record {
    max_frame = 4;
    pending = 123 ∷ [];
    written = (125 ∷ 10 ∷ []) ∷ (123 ∷ 125 ∷ 10 ∷ []) ∷ (10 ∷ []) ∷ [];
  },
)
unfolding write drain newline_at
two_frames = refl

half_written : write failing half_a_frame (125 ∷ 10 ∷ 10 ∷ 123 ∷ []) ≡ (
  short_write,
  record {
    max_frame = 4;
    pending = 10 ∷ 123 ∷ [];
    written = (125 ∷ 10 ∷ []) ∷ (123 ∷ 125 ∷ 10 ∷ []) ∷ [] ∷ [];
  },
)
unfolding write drain newline_at
half_written = refl

write_lem_example :
    Delivered
      (record half_a_frame { pending = half_a_frame.pending ++ (125 ∷ 10 ∷ 10 ∷ 123 ∷ []) })
      (write whole half_a_frame (125 ∷ 10 ∷ 10 ∷ 123 ∷ []))
unfolding newline_at
write_lem_example =
    write_lem whole half_a_frame (125 ∷ 10 ∷ 10 ∷ 123 ∷ []) ((refl, omega arith, omega arith), tt)

abbrev narrow : Limits
narrow = record {
  max_items = negsuc 0;
  max_query_bytes = pos 0;
  max_path_bytes = pos 100;
  max_source_bytes = pos 0;
  max_response_bytes = pos 512;
  max_request_bytes = pos 2;
  max_request_id_bytes = pos 128;
  max_call_depth = pos 0;
  max_concurrent_tools = pos 1;
  timeout = pos 0;
}

narrow-validate : validate narrow ≡ true
unfolding validate
narrow-validate = refl

normalized-IsUsable_example : IsUsable (normalized narrow)
normalized-IsUsable_example = normalized-IsUsable narrow narrow-validate

abbrev bounds : Bounds
bounds = record {
  max_items = 3;
  max_query_bytes = 10;
  max_path_bytes = 20;
  max_source_bytes = 100;
  max_response_bytes = 2000;
  max_request_bytes = 100;
  max_request_id_bytes = 10;
  max_call_depth = 2;
  max_concurrent_tools = 1;
  timeout = 30;
}

abbrev game : Project
game = record {
  id = str "game";
  name = str "Game";
  engine_version = str "5.4";
  last_fingerprint = [];
  ready = true;
}

abbrev actor : Symbol
actor = record { name = str "AActor"; container_name = []; uri = str "a" }

abbrev secret : Symbol
secret = record { name = str "Secret"; container_name = []; uri = str "zz" }

abbrev small_world : World
small_world = record {
  limits_ok = true;
  bounds = bounds;
  projects = some (ok (game ∷ []));
  has_queries = true;
  symbols = λ p query n. ok (actor ∷ secret ∷ []);
  locations = λ p kind position n.
      ok (record { uri = str "a"; position = 3 } ∷ record { uri = str "zz"; position = 4 } ∷ []);
  safe_path = λ p path. ok path;
  allowed = λ p uri. leb (length uri) 1;
  within = λ scope uri. leb (length uri) 1;
  index_state = λ p. err path_forbidden;
  wire_symbols = λ r. 100;
  wire_locations = λ r. 100;
}

abbrev find_actor : SearchInput
find_actor = record {
  project_id = str "game";
  query = str "Actor";
  max_items = pos 2;
  path_prefix = [];
}

abbrev only_actor : SearchResult
only_actor = record { items = actor ∷ []; truncated = true; index_state = [] }

actor-found : search_symbols small_world find_actor ≡ ok only_actor
unfolding search_symbols project choose shape_symbols filter_items trim only_scoped item_limit
    output_limit str eqb
actor-found = refl

search_symbols_sound_example : Answered small_world find_actor only_actor
search_symbols_sound_example = search_symbols_sound small_world find_actor actor-found

-- one byte for each character, and a result as long as its text, and ten bytes more
abbrev bytes_wide : Fitting (Bytes × Bool)
bytes_wide = record {
  to_valid = λ s. s;
  starts = λ s. 0 ∷ 1 ∷ 2 ∷ 3 ∷ [];
  build = λ s shortened. (s, shortened);
  wire = λ v. length v.0 + 10;
}

shortened : fit_text bytes_wide 12 (str "abcd") ≡ ok (str "ab", true)
unfolding fit_text cut_point search_cut boundary str
shortened = refl

fit_text_lem_example : FitOutcome bytes_wide 12 (str "abcd") (fit_text bytes_wide 12 (str "abcd"))
fit_text_lem_example = fit_text_lem bytes_wide 12 (str "abcd")

abbrev at_actor : TextPosition
at_actor = record { path = str "a"; line = pos 1; character = pos 2 }

abbrev one_place : Found Location
one_place = record { items = record { uri = str "a"; position = 3 } ∷ []; truncated = true }

place-found :
    find_locations small_world (str "definition") (str "game") at_actor (pos 2) ≡ ok one_place
unfolding find_locations validate_position safe_project_path project choose shape_locations
    filter_items trim item_limit output_limit str eqb
place-found = refl

find_locations_sound_example :
    AnsweredLocations small_world (str "definition") (str "game") at_actor (pos 2) one_place
find_locations_sound_example =
    find_locations_sound small_world (str "definition") (str "game") at_actor (pos 2) place-found
