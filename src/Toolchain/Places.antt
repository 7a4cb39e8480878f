-- ===== src/Toolchain/Places.antt =====
-- internal/toolchain/toolchain.go: where clangd and the engine's dotnet are looked for. The
-- environment, the file system and package filepath are arguments.
use soft_ue_index.Base.{
  Bool, true, false, ◌&&◌, ◌||◌, Option, some, none, List, [], ◌∷◌, ◌++◌, map, ltb, ◌==◌,
  if◌then◌else◌,
}
use soft_ue_index.Base.Text.{Bytes, str, is_empty, to_lower, has_suffix, one_of}
use soft_ue_index.Base.Result.{ok, err}
use soft_ue_index.Toolchain.{
  Version, same, compare_version, is_greater, Texts, parse_version, Source, Candidate,
  source_explicit, source_llvm_path, source_path, source_standard_install, source_visual_studio,
}

-- The environment, the conventional places, and the files.
pub record Machine : Type 0 where
  pub lookup_env : Bytes → Option Bytes
  pub exists : Bytes → Bool
  pub glob : Bytes → List Bytes
  pub sort : List Bytes → List Bytes
  pub windows_path : List Bytes → Bytes
  pub trim_space : Bytes → Bytes
  pub split_semicolon : Bytes → List Bytes

-- strings.TrimRight(path, "/\\")
unfoldable pub trim_slashes : Bytes → Bytes
trim_slashes [] = []
trim_slashes (c ∷ rest) =
    let kept = trim_slashes rest in if is_empty kept && (c == b'/' || c == 92) then [] else c ∷ kept

abbrev pub with_executable : Bytes → Bytes
with_executable [] = []
with_executable (c ∷ path) =
    if has_suffix (to_lower (c ∷ path)) (str "clangd.exe")
    then c ∷ path
    else (c ∷ path) ++ str "/clangd.exe"

unfoldable pub join_clangd : Machine → Bytes → Bytes
join_clangd m path = with_executable (trim_slashes (m.trim_space path))

-- StandardCandidates: the value of ProgramFiles, if it is set
abbrev pub standard_in : Machine → Option Bytes → List Candidate
standard_in m none = []
standard_in m (some program_files) =
    if is_empty (m.trim_space program_files)
    then []
    else record {
      path = m.windows_path (program_files ∷ str "LLVM" ∷ str "bin" ∷ str "clangd.exe" ∷ []);
      source = source_standard_install;
    }
      ∷ []

unfoldable pub standard_candidates : Machine → List Candidate
standard_candidates m = standard_in m (m.lookup_env (str "ProgramFiles"))

unfoldable pub existing : Machine → List Bytes → List Candidate
existing m [] = []
existing m (p ∷ rest) =
    let others = existing m rest in
    if m.exists p then record { path = p; source = source_visual_studio } ∷ others else others

abbrev pub visual_studio_pattern : Machine → Bytes → Bytes → Bytes
visual_studio_pattern m program_files architecture = m.windows_path (
    program_files
    ∷ str "Microsoft Visual Studio"
    ∷ str "*"
    ∷ str "*"
    ∷ str "VC"
    ∷ str "Tools"
    ∷ str "Llvm"
    ∷ architecture
    ∷ str "bin"
    ∷ str "clangd.exe"
    ∷ [])

abbrev pub visual_studio_in : Machine → Option Bytes → List Candidate
visual_studio_in m none = []
visual_studio_in m (some program_files) =
    if is_empty (m.trim_space program_files)
    then []
    else existing m (m.sort (m.glob (visual_studio_pattern m program_files (str "x64"))))
      ++ existing m (m.sort (m.glob (visual_studio_pattern m program_files (str "x86"))))

unfoldable pub visual_studio_candidates : Machine → List Candidate
visual_studio_candidates m = visual_studio_in m (m.lookup_env (str "ProgramFiles"))

-- `add` of DiscoverCandidates: what it appends
abbrev pub added : Source → Bytes → List Candidate
added source [] = []
added source (c ∷ path) = record { path = c ∷ path; source = source } ∷ []

abbrev pub add : Machine → Bytes → Source → List Candidate
add m path source = added source (m.trim_space path)

unfoldable pub add_all : Machine → Source → List Bytes → List Candidate
add_all m source [] = []
add_all m source (p ∷ rest) = add m p source ++ add_all m source rest

abbrev pub add_env : Machine → (Bytes → List Candidate) → Option Bytes → List Candidate
add_env m f none = []
add_env m f (some value) = f value

unfoldable pub all_candidates : Machine → Bytes → List Candidate
all_candidates m path =
    add m path source_explicit
    ++ add_env m (λ v. add m (join_clangd m v) source_llvm_path) (m.lookup_env (str "LLVM_PATH"))
    ++ add_env m (λ v. add_all m source_path (map (join_clangd m) (m.split_semicolon v)))
        (m.lookup_env (str "PATH"))
    ++ add_all m source_standard_install (map (λ c. c.path) (standard_candidates m))
    ++ add_all m source_visual_studio (map (λ c. c.path) (visual_studio_candidates m))

abbrev pub mark : Bytes → List Bytes → List Bytes
mark key seen = if one_of key seen then seen else key ∷ seen

-- the loop that removes paths that were there before, in whatever case
unfoldable pub remove_seen : List Bytes → List Candidate → List Candidate
remove_seen seen [] = []
remove_seen seen (c ∷ rest) =
    let later = remove_seen (mark (to_lower c.path) seen) rest in
    if one_of (to_lower c.path) seen then later else c ∷ later

unfoldable pub discover_candidates : Machine → Bytes → List Candidate
discover_candidates m path = remove_seen [] (all_candidates m path)

-- `path < selected`, byte by byte
unfoldable pub before : Bytes → Bytes → Bool
before [] [] = false
before [] (b ∷ t) = true
before (a ∷ s) [] = false
before (a ∷ s) (b ∷ t) = ltb a b || ((a == b) && before s t)

-- the version in a dotnet's path, if it exists and has one
abbrev pub dotnet_version : Texts → Machine → (Bytes → Bytes) → Bytes → Option Version
dotnet_version t m version_dir p =
    if m.exists p
    then (elim (parse_version t (version_dir p)) [ err e ↦ none | ok v ↦ some v ])
    else none

-- one round of FindBundledDotnet; nothing is selected before the first
abbrev pub select_dotnet :
    Bytes → Option Version → Option (Bytes × Version) → Option (Bytes × Version)
select_dotnet p none selected = selected
select_dotnet p (some v) none = some (p, v)
select_dotnet p (some v) (some (q, w)) =
    if is_greater (compare_version v w) then some (p, v) else elim (compare_version v w) [
      | same ↦ if before p q then some (p, v) else some (q, w)
      | _ ↦ some (q, w)
    ]

unfoldable pub select_dotnets :
    (Bytes → Option Version) → List Bytes → Option (Bytes × Version) → Option (Bytes × Version)
select_dotnets version [] selected = selected
select_dotnets version (p ∷ rest) selected =
    select_dotnets version rest (select_dotnet p (version p) selected)

abbrev pub dotnet_paths : Machine → Bytes → List Bytes
dotnet_paths m engine_root = m.sort (
    m.glob (
      m.windows_path (
        engine_root
        ∷ str "Engine"
        ∷ str "Binaries"
        ∷ str "ThirdParty"
        ∷ str "DotNet"
        ∷ str "*"
        ∷ str "win-x64"
        ∷ str "dotnet.exe"
        ∷ [])))

unfoldable pub find_bundled_dotnet :
    Texts → Machine → (Bytes → Bytes) → Bytes → Option (Bytes × Version)
find_bundled_dotnet t m version_dir engine_root =
    select_dotnets (dotnet_version t m version_dir) (dotnet_paths m engine_root) none
