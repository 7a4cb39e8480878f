-- ===== src/Cli/Tests.antt =====
-- Command lines that the parser takes or refuses.
use soft_ue_index.Base.{◌≡◌, refl, [], ◌∷◌}
use soft_ue_index.Base.Text.{str}
use soft_ue_index.Base.Result.{ok, err}
use soft_ue_index.Cli.{
  parse, finish, scan, scan_arg, dispatch, check_flags, new_command, scope_misplaced, Command,
}
use soft_ue_index.Cli.Laws.{parse-IsValid, parse-json, IsValid, with_json, map_ok}
use soft_ue_index.Base.Text.{eqb, one_of}
use soft_ue_index.Base.{◌++◌}

parse_generate :
    parse (str "generate" ∷ str "--engine-scope=full" ∷ str "game" ∷ [])
    ≡ ok (record new_command {
      name = str "generate";
      engine_scope = str "full";
      project_name = str "game";
    })
unfolding parse finish scan scan_arg dispatch check_flags str eqb one_of
parse_generate = refl

parse_scope_misplaced : parse (str "--engine-scope" ∷ str "list" ∷ []) ≡ err scope_misplaced
unfolding parse finish scan scan_arg dispatch check_flags str eqb one_of
parse_scope_misplaced = refl

abbrev parsed : Command
parsed = record new_command {
  name = str "generate";
  engine_scope = str "full";
  project_name = str "game";
}

parse-IsValid_example : IsValid parsed
parse-IsValid_example =
    parse-IsValid (str "generate" ∷ str "--engine-scope=full" ∷ str "game" ∷ []) parse_generate

parse-json_example :
    parse ((str "status" ∷ []) ++ str "--json" ∷ str "game" ∷ [])
    ≡ map_ok with_json (parse ((str "status" ∷ []) ++ str "game" ∷ []))
parse-json_example = parse-json (str "status" ∷ []) (str "game" ∷ [])
