-- ===== src/Mcp/Outline/Tests.antt =====
-- An outline of three symbols, of which two may be shown.
use soft_ue_index.Base.{refl, true, some, none, [], ◌∷◌, ◌+◌, length}
use soft_ue_index.Base.Text.{Bytes, str, eqb}
use soft_ue_index.Base.Int.{pos}
use soft_ue_index.Base.Result.{ok, err}
use soft_ue_index.Lsp.Outline.{
  Span, Entry, DocumentSymbols, symbol, nil, cons, visit_symbols, limit_document_symbols,
}
use soft_ue_index.Mcp.Limits.{Bounds, item_limit, output_limit}
use soft_ue_index.Mcp.Fit.{fit_text, cut_point, search_cut, boundary}
use soft_ue_index.Mcp.Search.{
  path_forbidden, World, TextPosition, Found, project, choose, safe_project_path, validate_position,
  trim,
}
use soft_ue_index.Mcp.Outline.{
  walk_symbols, flatten_symbols, shape_outline, HoverItem, HoverResult, OutlineWorld,
  query_document_symbols, document_symbols, hover_result, hover,
}
use soft_ue_index.Mcp.Outline.Answers.{AnsweredOutline, document_symbols_sound}
use soft_ue_index.Mcp.Outline.Hovers.{AnsweredHover, hover_sound}

abbrev bounds : Bounds
bounds = record {
  max_items = 2;
  max_query_bytes = 10;
  max_path_bytes = 20;
  max_source_bytes = 100;
  max_response_bytes = 600;
  max_request_bytes = 100;
  max_request_id_bytes = 10;
  max_call_depth = 2;
  max_concurrent_tools = 1;
  timeout = 30;
}

abbrev line : Span
line = record {
  start_line = pos 1;
  start_character = pos 0;
  end_line = pos 1;
  end_character = pos 9;
}

abbrev named : Bytes → Entry
named name = record { name = name; kind = pos 5; range = line; selection_range = line }

-- a class with a method, and a function behind it
abbrev tree : DocumentSymbols
tree =
    cons (symbol (named (str "A")) (cons (symbol (named (str "f")) nil) nil))
      (cons (symbol (named (str "main")) nil) nil)

abbrev small_world : World
small_world = record {
  limits_ok = true;
  bounds = bounds;
  projects = some (
      ok (
        record {
          id = str "g";
          name = str "G";
          engine_version = [];
          last_fingerprint = [];
          ready = true;
        }
        ∷ []));
  has_queries = true;
  symbols = λ p query n. err path_forbidden;
  locations = λ p kind position n. err path_forbidden;
  safe_path = λ p path. ok path;
  allowed = λ p uri. true;
  within = λ scope uri. true;
  index_state = λ p. err path_forbidden;
  wire_symbols = λ r. 100;
  wire_locations = λ r. 100;
}

abbrev five : HoverItem
five = record { contents = record { kind = str "plaintext"; value = str "abcde" }; range = none }

-- no text of more than two bytes fits
abbrev outlines : OutlineWorld
outlines = record {
  world = small_world;
  document_symbol = λ p path. ok tree;
  hover = λ p position. ok (some five);
  wire_outline = λ r. 100;
  wire_hover = λ r. elim r.item [ none ↦ 0 | some v ↦ 342 + length v.contents.value ];
  to_valid = λ s. s;
  starts = λ s. 0 ∷ 1 ∷ 2 ∷ 3 ∷ 4 ∷ [];
}

abbrev first_two : Found Entry
first_two = record { items = named (str "A") ∷ named (str "f") ∷ []; truncated = true }

document_symbols_sound_example : AnsweredOutline outlines (str "g") (str "a.cpp") (pos 9) first_two
unfolding document_symbols query_document_symbols project choose safe_project_path shape_outline
    flatten_symbols walk_symbols limit_document_symbols visit_symbols trim str eqb item_limit
    output_limit
document_symbols_sound_example =
    document_symbols_sound outlines (str "g") (str "a.cpp") (pos 9) refl

abbrev here : TextPosition
here = record { path = str "a.cpp"; line = pos 3; character = pos 4 }

abbrev two_bytes : HoverResult
two_bytes = record {
  item =
      some
        (record { contents = record { kind = str "plaintext"; value = str "ab" }; range = none });
  truncated = true;
}

hover_sound_example : AnsweredHover outlines (str "g") here two_bytes
unfolding hover hover_result fit_text cut_point search_cut boundary project choose validate_position
    safe_project_path str eqb item_limit output_limit
hover_sound_example = hover_sound outlines (str "g") here refl
