-- ===== src/Compdb/Rider.antt =====
-- internal/compdb/rider.go: a compilation database from the project metadata that Rider keeps. The
-- files that are read, JSON, the hash and package filepath are arguments.
pub mod Modules
pub mod Target
pub mod Synthesis
pub mod Nearest
pub mod Covered
pub mod Units
mod Tests
use soft_ue_index.Base.{
  Bool, true, false, ◌&&◌, ◌||◌, Option, some, none, List, [], ◌∷◌, ◌++◌, map, ◌==◌, if◌then◌else◌,
}
use soft_ue_index.Base.Text.{Bytes, str, is_empty, one_of}

pub record RiderRules : Type 0 where
  pub public_include_paths : List Bytes
  pub private_include_paths : List Bytes
  pub include_paths : List Bytes
  pub definitions : List Bytes
  pub public_definitions : List Bytes
  pub private_definitions : List Bytes
  pub force_include_files : List Bytes
  pub public_system_include_paths : List Bytes
  pub system_include_paths : List Bytes
  pub internal_include_paths : List Bytes
  pub legacy_public_include_paths : List Bytes
  pub project_definitions : List Bytes
  pub api_definitions : List Bytes

pub record RiderModule : Type 0 where
  pub directory : Bytes
  pub generated_code_directory : Bytes
  pub rules : RiderRules

pub record ResolvedModule : Type 0 where
  pub name : Bytes
  pub dir : Bytes
  pub generated_dir : Bytes
  pub rules : RiderRules

-- Package filepath and the tests of the database code that stand on it.
pub record PathOps : Type 0 where
  pub is_abs : Bytes → Bool
  pub join : Bytes → Bytes → Bytes
  pub dir : Bytes → Bytes
  pub clean : Bytes → Bytes
  pub path_key : Bytes → Bytes
  pub within : Bytes → Bytes → Bool

-- the loop of unique, with what it has seen
unfoldable pub unique_from : List Bytes → List Bytes → List Bytes
unique_from seen [] = []
unique_from seen (x ∷ rest) =
    let skipped = is_empty x || one_of x seen in
    let others = unique_from (if skipped then seen else x ∷ seen) rest in
    if skipped then others else x ∷ others

abbrev pub unique : List Bytes → List Bytes
unique xs = unique_from [] xs

unfoldable pub merge_rider_rules : RiderRules → RiderRules → RiderRules
merge_rider_rules a b = record {
  public_include_paths = unique (a.public_include_paths ++ b.public_include_paths);
  private_include_paths = unique (a.private_include_paths ++ b.private_include_paths);
  include_paths = unique (a.include_paths ++ b.include_paths);
  definitions = unique (a.definitions ++ b.definitions);
  public_definitions = unique (a.public_definitions ++ b.public_definitions);
  private_definitions = unique (a.private_definitions ++ b.private_definitions);
  force_include_files = unique (a.force_include_files ++ b.force_include_files);
  public_system_include_paths =
      unique (a.public_system_include_paths ++ b.public_system_include_paths);
  system_include_paths = unique (a.system_include_paths ++ b.system_include_paths);
  internal_include_paths = unique (a.internal_include_paths ++ b.internal_include_paths);
  legacy_public_include_paths =
      unique (a.legacy_public_include_paths ++ b.legacy_public_include_paths);
  project_definitions = unique (a.project_definitions ++ b.project_definitions);
  api_definitions = unique (a.api_definitions ++ b.api_definitions);
}

-- strings.ContainsAny(s, " \t\"")
unfoldable pub needs_quotes : Bytes → Bool
needs_quotes [] = false
needs_quotes (c ∷ s) = (c == 32 || (c == 9 || c == 34)) || needs_quotes s

-- strings.ReplaceAll(s, "\"", "\\\"")
unfoldable pub escape_quotes : Bytes → Bytes
escape_quotes [] = []
escape_quotes (c ∷ s) = let rest = escape_quotes s in if c == 34 then 92 ∷ 34 ∷ rest else c ∷ rest

unfoldable pub quote_rsp : Bytes → Bytes
quote_rsp s = if needs_quotes s then (34 ∷ escape_quotes s) ++ (34 ∷ []) else s

abbrev pub absolute_in : PathOps → Bytes → Bytes → Bytes
absolute_in p dir x = if p.is_abs x then x else p.join dir x

-- the include paths, the definitions, and the lines of a response file
unfoldable pub includes_of : ResolvedModule → List Bytes → List Bytes
includes_of m root_includes =
    let all = unique (
      ((((((root_includes ++ m.rules.public_include_paths) ++ m.rules.private_include_paths)
              ++ m.rules.include_paths)
            ++ m.rules.public_system_include_paths)
          ++ m.rules.system_include_paths)
        ++ m.rules.internal_include_paths)
      ++ m.rules.legacy_public_include_paths) in
    if is_empty m.generated_dir then all else unique (all ++ (m.generated_dir ∷ []))

unfoldable pub definitions_of : ResolvedModule → List Bytes → List Bytes
definitions_of m root_definitions = unique (
    ((((root_definitions ++ m.rules.definitions) ++ m.rules.public_definitions)
        ++ m.rules.private_definitions)
      ++ m.rules.project_definitions)
    ++ m.rules.api_definitions)

abbrev pub fixed_arguments : List Bytes
fixed_arguments =
    str "/nologo"
    ∷ str "/TP"
    ∷ str "/std:c++20"
    ∷ str "--target=x86_64-pc-windows-msvc"
    ∷ str "/utf-8"
    ∷ str "/Zc:__cplusplus"
    ∷ str "/permissive-"
    ∷ []

abbrev pub flagged : Bytes → Bytes → Bytes
flagged flag x = flag ++ quote_rsp x

unfoldable pub response_lines : PathOps → ResolvedModule → List Bytes → List Bytes → List Bytes
response_lines p m root_includes root_definitions =
    ((fixed_arguments
        ++ map (λ x. flagged (str "/I") (absolute_in p m.dir x)) (includes_of m root_includes))
      ++ map (λ x. flagged (str "/D") x) (definitions_of m root_definitions))
    ++ map (λ x. flagged (str "/FI") (absolute_in p m.dir x)) m.rules.force_include_files

-- every line ends with a carriage return and a newline
unfoldable pub join_lines : List Bytes → Bytes
join_lines [] = []
join_lines (line ∷ rest) = (line ++ (13 ∷ 10 ∷ [])) ++ join_lines rest

unfoldable pub response : PathOps → ResolvedModule → List Bytes → List Bytes → Bytes
response p m root_includes root_definitions =
    join_lines (response_lines p m root_includes root_definitions)
