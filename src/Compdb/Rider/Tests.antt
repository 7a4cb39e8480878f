-- ===== src/Compdb/Rider/Tests.antt =====
-- A project `/p` with a module in `/p/m` and one in `/p/m/n`, and an engine `/e` with one in `/e/c`.
use soft_ue_index.Base.{◌≡◌, refl, true, false, some, List, [], ◌∷◌, ◌++◌}
use soft_ue_index.Base.Text.{Bytes, str, has_prefix, eqb, to_lower, lower_byte, one_of}
use soft_ue_index.Base.Paths.Unix.{dir, rooted, before_slash, dir-Climbs}
use soft_ue_index.Base.Assoc.{lookup, insert}
use soft_ue_index.Base.Result.{ok}
use soft_ue_index.Compdb.Entries.{DatabaseEntry}
use soft_ue_index.Compdb.Rider.{RiderRules, RiderModule, ResolvedModule, PathOps}
use soft_ue_index.Compdb.Rider.Modules.{
  index_modules, lookup_from, lookup_module, is_covered, walk_roots, insert_by, sort_by,
  text_before, rider_module_walk_roots,
}
use soft_ue_index.Compdb.Rider.Target.{RiderTarget, select_rider_target, matches, is_match}
use soft_ue_index.Compdb.Rider.Synthesis.{
  RiderInput, RiderResult, RiderWorld, resolve_modules, api_definitions, unit_of, has_file,
  add_units, walk_all, translation_unit_class, count_units, set_up, synthesize_rider,
}
use soft_ue_index.Compdb.Rider.Nearest.{Answer, lookup_module-Owner}
use soft_ue_index.Compdb.Rider.Units.{Synthesized, synthesize_rider_sound}

abbrev ops : PathOps
ops = record {
  is_abs = λ s. true;
  join = λ a b. a ++ b;
  dir = dir;
  clean = λ s. s;
  path_key = λ s. s;
  within = has_prefix;
}

abbrev no_rules : RiderRules
no_rules = record {
  public_include_paths = [];
  private_include_paths = [];
  include_paths = [];
  definitions = [];
  public_definitions = [];
  private_definitions = [];
  force_include_files = [];
  public_system_include_paths = [];
  system_include_paths = [];
  internal_include_paths = [];
  legacy_public_include_paths = [];
  project_definitions = [];
  api_definitions = [];
}

abbrev module_at : Bytes → ResolvedModule
module_at d = record { name = d; dir = d; generated_dir = []; rules = no_rules }

abbrev modules : List ResolvedModule
modules = module_at (str "/e/c") ∷ module_at (str "/p/m") ∷ module_at (str "/p/m/n") ∷ []

inner_module :
    lookup_module ops (index_modules ops modules []) (str "/p/m/n/x")
    ≡ some (some (module_at (str "/p/m/n")))
unfolding lookup_module lookup_from index_modules lookup insert str eqb before_slash
inner_module = refl

lookup_module-Owner_example :
    Answer ops modules
      (str "/p/m/n")
      (lookup_module ops (index_modules ops modules []) (str "/p/m/n/x"))
unfolding str before_slash
lookup_module-Owner_example =
    lookup_module-Owner ops rooted dir-Climbs modules (str "/p/m/n/x") refl

two_roots : rider_module_walk_roots ops modules ≡ str "/e/c" ∷ str "/p/m" ∷ []
unfolding rider_module_walk_roots walk_roots is_covered sort_by insert_by text_before one_of str eqb
    before_slash
two_roots = refl

abbrev raw_module : Bytes → RiderModule
raw_module d = record { directory = d; generated_code_directory = []; rules = no_rules }

abbrev game : RiderTarget
game = record {
  name = str "G";
  target_file = str "/p/t";
  compiler_path = str "cl";
  modules = (str "E", raw_module (str "/e/c")) ∷ (str "M", raw_module (str "/p/m")) ∷ [];
  include_paths = [];
  definitions = [];
}

-- each root holds one source
abbrev world : RiderWorld
world = record {
  files = record {
    ops = ops;
    metadata = (str "f", some game) ∷ [];
    canonical = λ s. some s;
    base = λ s. str "g.target.cs";
  };
  canonical_including_missing = λ s. some s;
  is_bad_dir = λ s. false;
  walk = λ root. (root ++ str "/a") ∷ (root ++ str "/A") ∷ [];
  ext = λ s. str ".cpp";
  store = λ s. ok (str "r");
  make_staging = true;
  write_database = λ es. true;
  digest = λ es. str "d";
}

abbrev input : RiderInput
input = record {
  project_root = str "/p";
  engine_root = str "/e";
  target = str "g";
  target_file = [];
  clang_cl = [];
  engine_scope_full = false;
}

abbrev unit_in : Bytes → DatabaseEntry
unit_in d = record {
  directory = d;
  file = d ++ str "/a";
  command = [];
  arguments = str "cl" ∷ str "@r" ∷ (d ++ str "/a") ∷ [];
}

abbrev result : RiderResult
result = record {
  project_translation_units = 1;
  engine_translation_units = 1;
  fingerprint = str "d";
}

synthesize_rider_sound_example :
    Synthesized world input (unit_in (str "/p/m") ∷ unit_in (str "/e/c") ∷ []) result
unfolding synthesize_rider set_up select_rider_target matches is_match resolve_modules
    api_definitions walk_all add_units unit_of has_file translation_unit_class count_units
    lookup_module lookup_from index_modules lookup insert rider_module_walk_roots walk_roots
    is_covered sort_by insert_by text_before one_of str eqb to_lower lower_byte has_prefix
    before_slash
synthesize_rider_sound_example = synthesize_rider_sound world input refl
