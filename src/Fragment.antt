-- ===== src/Fragment.antt =====
-- internal/engineindex/fragment.go: the .clangd file at the root of an engine, which projects share:
-- its text, the marker in its first line, and who may replace it.
pub mod Marker
pub mod Ownership
mod Tests
use soft_ue_index.Base.{
  ℕ, zero, suc, Bool, true, false, not, ◌&&◌, ◌||◌, Option, some, none, List, [], ◌∷◌, ◌++◌, length,
  drop, leb, ltb, ◌==◌, if◌then◌else◌,
}
use soft_ue_index.Base.Text.{Bytes, str, eqb, has_prefix}
unfoldable pub use soft_ue_index.Base.Strings.{cut_at, is_space, trim_left, trim_right, trim_space}
use soft_ue_index.Base.Result.{Result, ok, err}

-- fragmentMarker, with the space that follows it
abbrev pub marker_prefix : Bytes
marker_prefix = str "# soft-ue-index:generated-engine-index "

abbrev pub owner_field : Bytes
owner_field = str " owner="

abbrev pub newline : ℕ
newline = 10

-- strings.Cut at one byte, without what follows it
unfoldable pub first_line : Bytes → Bytes
first_line [] = []
first_line (c ∷ s) = let rest = first_line s in if c == newline then [] else c ∷ rest

abbrev pub key_and_owner : Option (Bytes × Bytes) → Option (Bytes × Bytes)
key_and_owner none = none
key_and_owner (some (key, owner)) = some (trim_space key, trim_space owner)

-- parseFragmentMarker: the key and the owner
unfoldable pub parse_fragment_marker : Bytes → Option (Bytes × Bytes)
parse_fragment_marker content =
    let line = first_line content in
    if has_prefix line marker_prefix
    then key_and_owner (cut_at owner_field (drop (length marker_prefix) line))
    else none

-- strings.ReplaceAll(path, "'", "''")
unfoldable pub double_quotes : Bytes → Bytes
double_quotes [] = []
double_quotes (c ∷ s) = let rest = double_quotes s in if c == 39 then 39 ∷ 39 ∷ rest else c ∷ rest

abbrev pub body : Bytes → Bytes
body index_path =
    str "If:"
    ++ (newline
        ∷ (str "  PathMatch: \"Engine/.*\""
            ++ (newline
                ∷ (str "Index:"
                    ++ (newline
                        ∷ (str "  External:"
                            ++ (newline
                                ∷ (str "    File: '"
                                    ++ (double_quotes index_path
                                        ++ (str "'"
                                            ++ (newline
                                                ∷ (str "    MountPoint: Engine"
                                                    ++ (newline ∷ [])))))))))))))

unfoldable pub fragment_content : Bytes → Bytes → Bytes → Bytes
fragment_content index_path key owner =
    marker_prefix ++ (key ++ (owner_field ++ (owner ++ (newline ∷ body index_path))))

pub data FragmentError : Type 0 where
  hand_written : FragmentError
  other_project : Bytes → Bytes → FragmentError
  system : Bytes → FragmentError

-- Whether the file that is there may be replaced.
abbrev pub conflict : Bytes → Bytes → Option (Bytes × Bytes) → Option FragmentError
conflict key owner none = some hand_written
conflict key owner (some (old_key, old_owner)) =
    if not (eqb old_key key) && not (eqb old_owner owner)
    then some (other_project old_owner old_key)
    else none

abbrev pub conflict_with : Bytes → Bytes → Option Bytes → Option FragmentError
conflict_with key owner none = none
conflict_with key owner (some existing) = conflict key owner (parse_fragment_marker existing)

abbrev pub or_keep :
    Option Bytes → Bytes → Option FragmentError → Option FragmentError × Option Bytes
or_keep file contents none = (none, some contents)
or_keep file contents (some e) = (some e, file)

abbrev pub first_error : Option FragmentError → Option FragmentError → Option FragmentError
first_error none e = e
first_error (some e) rest = some e

-- WriteFragment: its error and the file after it. `read_fails` is a failure to read the file that
-- is there, `write_fails` a failure to write or rename the new one.
unfoldable pub write_fragment :
    Option FragmentError
    → Option FragmentError
    → Bytes
    → Bytes
    → Bytes
    → Option Bytes
    → Option FragmentError × Option Bytes
write_fragment read_fails write_fails index_path key owner file =
    or_keep file (fragment_content index_path key owner)
      (first_error read_fails (first_error (conflict_with key owner file) write_fails))
