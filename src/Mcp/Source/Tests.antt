-- ===== src/Mcp/Source/Tests.antt =====
-- Two lines of a file of four, of which four bytes may be read.
use soft_ue_index.Base.{◌≡◌, refl, true, false, some, [], ◌∷◌, ◌++◌}
use soft_ue_index.Base.Text.{str, eqb}
use soft_ue_index.Base.Int.{pos}
use soft_ue_index.Base.Result.{ok, err}
use soft_ue_index.Mcp.Limits.{Bounds, output_limit}
use soft_ue_index.Mcp.Fit.{fit_text}
use soft_ue_index.Mcp.Search.{path_forbidden, project, choose}
use soft_ue_index.Mcp.Source.{
  SourceResult, SourceInput, SourceWorld, read_loop, read_symbol_source, start_outside_file,
}
use soft_ue_index.Mcp.Source.Answers.{AnsweredSource, read_symbol_source_sound}

abbrev bounds : Bounds
bounds = record {
  max_items = 2;
  max_query_bytes = 10;
  max_path_bytes = 20;
  max_source_bytes = 4;
  max_response_bytes = 600;
  max_request_bytes = 100;
  max_request_id_bytes = 10;
  max_call_depth = 2;
  max_concurrent_tools = 1;
  timeout = 30;
}

abbrev files : SourceWorld
files = record {
  world = record {
    limits_ok = true;
    bounds = bounds;
    projects = some (
        ok (
          record {
            id = str "g";
            name = str "G";
            engine_version = [];
            last_fingerprint = [];
            ready = true;
          }
          ∷ []));
    has_queries = true;
    symbols = λ p query n. err path_forbidden;
    locations = λ p kind position n. err path_forbidden;
    safe_path = λ p path. ok path;
    allowed = λ p uri. true;
    within = λ scope uri. true;
    index_state = λ p. err path_forbidden;
    wire_symbols = λ r. 100;
    wire_locations = λ r. 100;
  };
  open_file = λ path. ok (str "a" ∷ str "bb" ∷ str "cc" ∷ str "d" ∷ [], false);
  wire_source = λ r. 100;
  wire_status = λ r. 100;
  to_valid = λ s. s;
  starts = λ s. [];
}

abbrev two_lines : SourceInput
two_lines = record {
  project_id = str "g";
  path = str "f";
  start_line = pos 2;
  end_line = pos 3;
  max_bytes = pos 0;
}

abbrev most_of_them : SourceResult
most_of_them = record {
  path = str "f";
  start_line = 2;
  end_line = 3;
  text = str "bb" ++ (10 ∷ str "c");
  truncated = true;
}

read_symbol_source_sound_example : AnsweredSource files two_lines most_of_them
unfolding read_symbol_source read_loop fit_text project choose str eqb output_limit
read_symbol_source_sound_example = read_symbol_source_sound files two_lines refl

outside :
    read_symbol_source files (record two_lines { start_line = pos 5; end_line = pos 5 })
    ≡ err start_outside_file
unfolding read_symbol_source read_loop fit_text project choose str eqb output_limit
outside = refl
