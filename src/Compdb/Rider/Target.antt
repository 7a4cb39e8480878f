-- ===== src/Compdb/Rider/Target.antt =====
-- internal/compdb/rider.go: which of Rider's metadata files describes a target.
use soft_ue_index.Base.{Bool, true, ◌&&◌, ◌||◌, Option, some, none, List, [], ◌∷◌, ◌++◌}
use soft_ue_index.Base.Text.{Bytes, str, eqb, is_empty, to_lower}
use soft_ue_index.Base.Assoc.{Assoc}
use soft_ue_index.Base.Result.{Result, ok, err}
use soft_ue_index.Compdb.Rider.{RiderModule, PathOps}

-- what JSON finds in a metadata file, with the strings that stringsFromJSON collects
pub record RiderTarget : Type 0 where
  pub name : Bytes
  pub target_file : Bytes
  pub compiler_path : Bytes
  pub modules : Assoc RiderModule
  pub include_paths : List Bytes
  pub definitions : List Bytes

pub data RiderError : Type 0 where
  not_resolved : Bytes → RiderError
  metadata_ambiguous : Bytes → RiderError
  metadata_missing : Bytes → RiderError
  no_compiler : RiderError
  module_escapes : Bytes → RiderError
  generated_escapes : Bytes → RiderError
  not_written : RiderError
  insufficient_coverage : RiderError

-- The files that are read. `metadata` gives the JSON files of the directory, `none` for one that
-- cannot be read; `canonical` is `none` on an error.
pub record MetadataFiles : Type 0 where
  pub ops : PathOps
  pub metadata : List (Bytes × Option RiderTarget)
  pub canonical : Bytes → Option Bytes
  pub base : Bytes → Bytes

abbrev pub equal_fold : Bytes → Bytes → Bool
equal_fold a b = eqb (to_lower a) (to_lower b)

-- a value whose error is not looked at
abbrev pub or_empty : Option Bytes → Bytes
or_empty none = []
or_empty (some x) = x

unfoldable pub is_match : MetadataFiles → Bytes → Bytes → Bytes → RiderTarget → Bool
is_match f name target_file project_root r =
    let file = or_empty (f.canonical r.target_file) in
    let wanted = or_empty (f.canonical target_file) in
    (equal_fold r.name name
      && (f.ops.within file project_root && equal_fold (f.base file) (name ++ str ".Target.cs")))
    && (is_empty target_file || equal_fold file wanted)

-- the loop over the files: a match whose own path cannot be resolved is skipped
abbrev pub matching : Bool → RiderTarget → Option Bytes → List RiderTarget → List RiderTarget
matching true r (some path) others = r ∷ others
matching _ r _ others = others

unfoldable pub matches :
    (RiderTarget → Bool)
    → (Bytes → Option Bytes)
    → List (Bytes × Option RiderTarget)
    → List RiderTarget
matches match canonical [] = []
matches match canonical ((file, none) ∷ rest) = matches match canonical rest
matches match canonical ((file, some r) ∷ rest) =
    matching (match r) r (canonical file) (matches match canonical rest)

abbrev pub only_one : Bytes → List RiderTarget → Result RiderError RiderTarget
only_one name [] = err (metadata_missing name)
only_one name (r ∷ []) = ok r
only_one name (r ∷ s ∷ rest) = err (metadata_ambiguous name)

unfoldable pub select_rider_target :
    MetadataFiles → Bytes → Bytes → Bytes → Result RiderError RiderTarget
select_rider_target f name target_file project_root =
    only_one name (matches (is_match f name target_file project_root) f.canonical f.metadata)
