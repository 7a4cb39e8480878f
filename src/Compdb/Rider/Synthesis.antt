-- ===== src/Compdb/Rider/Synthesis.antt =====
-- internal/compdb/rider.go: SynthesizeRider, from the metadata to the entries of the database.
use soft_ue_index.Base.{
  ℕ, suc, Bool, false, not, ◌||◌, Option, some, none, List, [], ◌∷◌, ◌++◌, ltb, ◌==◌, if◌then◌else◌,
  is_some,
}
use soft_ue_index.Base.Text.{Bytes, str, eqb, is_empty, to_lower, one_of}
use soft_ue_index.Base.Assoc.{Assoc, lookup}
use soft_ue_index.Base.Result.{Result, ok, err, ◌>>=◌, unless}
use soft_ue_index.Compdb.Entries.{DatabaseEntry}
use soft_ue_index.Compdb.Rider.{RiderModule, ResolvedModule, unique, response}
use soft_ue_index.Compdb.Rider.Modules.{
  index_modules, lookup_module, sort_by, text_before, rider_module_walk_roots,
}
use soft_ue_index.Compdb.Rider.Target.{
  RiderTarget, RiderError, not_resolved, no_compiler, module_escapes, generated_escapes,
  not_written, insufficient_coverage, MetadataFiles, select_rider_target,
}

pub record RiderInput : Type 0 where
  pub project_root : Bytes
  pub engine_root : Bytes
  pub target : Bytes
  pub target_file : Bytes
  pub clang_cl : Bytes
  pub engine_scope_full : Bool

pub record RiderResult : Type 0 where
  pub project_translation_units : ℕ
  pub engine_translation_units : ℕ
  pub fingerprint : Bytes

-- The file system. `walk` lists the files below a root that WalkDir shows, without the directories
-- that are skipped; `store` writes a response file under the hash of its text and gives its path;
-- `is_bad_dir` says of a path that it exists and is no directory, or cannot be looked at.
pub record RiderWorld : Type 0 where
  pub files : MetadataFiles
  pub canonical_including_missing : Bytes → Option Bytes
  pub is_bad_dir : Bytes → Bool
  pub walk : Bytes → List Bytes
  pub ext : Bytes → Bytes
  pub store : Bytes → Result RiderError Bytes
  pub make_staging : Bool
  pub write_database : List DatabaseEntry → Bool
  pub digest : List DatabaseEntry → Bytes

abbrev pub resolved : RiderWorld → Bytes → Result RiderError Bytes
resolved w path = elim (w.files.canonical path) [ none ↦ err (not_resolved path) | some p ↦ ok p ]

-- within the project or the engine
abbrev pub is_inside : RiderWorld → Bytes → Bytes → Bytes → Bool
is_inside w project engine path = w.files.ops.within path project || w.files.ops.within path engine

abbrev pub chosen_compiler : RiderInput → RiderTarget → Bytes
chosen_compiler input target =
    if is_empty input.clang_cl then target.compiler_path else input.clang_cl

-- the modules of the editor that the target does not have
unfoldable pub add_modules : Assoc RiderModule → Assoc RiderModule → Assoc RiderModule
add_modules modules [] = modules
add_modules modules ((name, m) ∷ rest) =
    add_modules (if is_some (lookup name modules) then modules else modules ++ ((name, m) ∷ []))
      rest

abbrev pub all_modules :
    RiderWorld → RiderInput → Bytes → RiderTarget → Result RiderError (Assoc RiderModule)
all_modules w input engine target =
    if input.engine_scope_full
    then (do
      editor ← select_rider_target w.files (str "UnrealEditor") [] engine
      ok (add_modules target.modules editor.modules))
    else ok target.modules

-- the directory of generated code, which need not exist yet
abbrev pub generated_of :
    RiderWorld → Bytes → Bytes → Bytes → Bytes → Bytes → Result RiderError Bytes
generated_of w project engine name dir [] = ok []
generated_of w project engine name dir (c ∷ generated) =
    let path =
      if w.files.ops.is_abs (c ∷ generated)
      then c ∷ generated
      else w.files.ops.join dir (c ∷ generated) in
    elim (w.canonical_including_missing path) [
      | none ↦ err (generated_escapes name)
      | some p ↦
          unless (w.is_bad_dir p || not (is_inside w project engine p)) (generated_escapes name)
            (ok p)
    ]

abbrev pub module_dir : RiderWorld → Bytes → Bytes → Bytes → Bytes → Result RiderError Bytes
module_dir w project engine name directory = elim (w.files.canonical directory) [
  | none ↦ err (module_escapes name)
  | some d ↦ unless (not (is_inside w project engine d)) (module_escapes name) (ok d)
]

-- the loop over the modules
unfoldable pub resolve_modules :
    RiderWorld → Bytes → Bytes → Assoc RiderModule → Result RiderError (List ResolvedModule)
resolve_modules w project engine [] = ok []
resolve_modules w project engine ((name, m) ∷ rest) = do
  d ← module_dir w project engine name m.directory
  generated ← generated_of w project engine name d m.generated_code_directory
  others ← resolve_modules w project engine rest
  ok (record { name = name; dir = d; generated_dir = generated; rules = m.rules } ∷ others)

abbrev pub module_before : ResolvedModule → ResolvedModule → Bool
module_before a b = if eqb a.dir b.dir then text_before a.name b.name else text_before a.dir b.dir

unfoldable pub api_definitions : List ResolvedModule → List Bytes
api_definitions [] = []
api_definitions (m ∷ rest) = m.rules.api_definitions ++ api_definitions rest

-- the sources of C and C++
abbrev pub is_unit : Bytes → Bool
is_unit ext = one_of ext (str ".c" ∷ str ".cc" ∷ str ".cpp" ∷ str ".cxx" ∷ [])

-- What is set up before the walk.
pub record Setup : Type 0 where
  pub project : Bytes
  pub engine : Bytes
  pub compiler : Bytes
  pub modules : List ResolvedModule
  pub include_paths : List Bytes
  pub root_definitions : List Bytes

abbrev pub owned : Bytes → Option (Option ResolvedModule) → Option (Bytes × ResolvedModule)
owned source (some (some m)) = some (source, m)
owned source _ = none

-- the module of a source file inside the roots
abbrev pub module_of_source : RiderWorld → Setup → Option Bytes → Option (Bytes × ResolvedModule)
module_of_source w u none = none
module_of_source w u (some source) =
    if is_inside w u.project u.engine source
    then owned source (lookup_module w.files.ops (index_modules w.files.ops u.modules []) source)
    else none

unfoldable pub unit_of : RiderWorld → Setup → Bytes → Option (Bytes × ResolvedModule)
unit_of w u path =
    if is_unit (to_lower (w.ext path)) then module_of_source w u (w.files.canonical path) else none

abbrev pub entry_of : Bytes → ResolvedModule → Bytes → Bytes → DatabaseEntry
entry_of compiler m rsp source = record {
  directory = m.dir;
  file = source;
  command = [];
  arguments = compiler ∷ (b'@' ∷ rsp) ∷ source ∷ [];
}

unfoldable pub has_file : Bytes → List DatabaseEntry → Bool
has_file key [] = false
has_file key (e ∷ rest) = eqb (to_lower e.file) key || has_file key rest

-- one file of the walk; `seen` is what the entries hold
abbrev pub add_unit :
    RiderWorld
    → Setup
    → Option (Bytes × ResolvedModule)
    → List DatabaseEntry
    → Result RiderError (List DatabaseEntry)
add_unit w u none entries = ok entries
add_unit w u (some (source, m)) entries = do
  rsp ← w.store (response w.files.ops m u.include_paths u.root_definitions)
  ok (
      if has_file (to_lower source) entries
      then entries
      else entries ++ (entry_of u.compiler m rsp source ∷ []))

unfoldable pub add_units :
    RiderWorld → Setup → List Bytes → List DatabaseEntry → Result RiderError (List DatabaseEntry)
add_units w u [] entries = ok entries
add_units w u (path ∷ rest) entries = do
  more ← add_unit w u (unit_of w u path) entries
  add_units w u rest more

unfoldable pub walk_all :
    RiderWorld → Setup → List Bytes → List DatabaseEntry → Result RiderError (List DatabaseEntry)
walk_all w u [] entries = ok entries
walk_all w u (root ∷ rest) entries = do
  more ← add_units w u (w.walk root) entries
  walk_all w u rest more

unfoldable pub translation_unit_class : RiderWorld → Bytes → Bytes → Bytes → ℕ
translation_unit_class w project engine file =
    if w.files.ops.within file project then 0 else if w.files.ops.within file engine then 1 else 2

abbrev pub unit_before : RiderWorld → Setup → DatabaseEntry → DatabaseEntry → Bool
unit_before w u a b =
    let left = translation_unit_class w u.project u.engine a.file in
    let right = translation_unit_class w u.project u.engine b.file in
    if not (left == right)
    then ltb left right
    else if not (eqb (to_lower a.file) (to_lower b.file))
    then text_before (to_lower a.file) (to_lower b.file)
    else text_before a.file b.file

-- the counts of the loop over the entries
unfoldable pub count_units : RiderWorld → Setup → List DatabaseEntry → ℕ × ℕ
count_units w u [] = (0, 0)
count_units w u (e ∷ rest) =
    let (in_project, in_engine) = count_units w u rest in
    if w.files.ops.within e.file u.project
    then (suc in_project, in_engine)
    else if w.files.ops.within e.file u.engine
    then (in_project, suc in_engine)
    else (in_project, in_engine)

unfoldable pub set_up : RiderWorld → RiderInput → Result RiderError Setup
set_up w input = do
  project ← resolved w input.project_root
  engine ← resolved w input.engine_root
  target ← select_rider_target w.files input.target input.target_file project
  let compiler = chosen_compiler input target
  unless (is_empty compiler) no_compiler (do
    found ← all_modules w input engine target
    all ← resolve_modules w project engine found
    let modules = sort_by module_before all
    ok (record {
      project = project;
      engine = engine;
      compiler = compiler;
      modules = modules;
      include_paths = target.include_paths;
      root_definitions =
          unique (target.definitions ++ sort_by text_before (api_definitions modules));
    }))

-- SynthesizeRider: the entries that were written, and the result
unfoldable pub synthesize_rider :
    RiderWorld → RiderInput → Result RiderError (List DatabaseEntry × RiderResult)
synthesize_rider w input = do
  u ← set_up w input
  unless (not w.make_staging) not_written (do
    found ← walk_all w u (rider_module_walk_roots w.files.ops u.modules) []
    let entries = sort_by (unit_before w u) found
    let counts = count_units w u entries
    unless (not (w.write_database entries)) not_written (
        unless (counts.0 == 0 || counts.1 == 0) insufficient_coverage (
          ok (
            entries,
            record {
              project_translation_units = counts.0;
              engine_translation_units = counts.1;
              fingerprint = w.digest entries;
            },
          ))))
