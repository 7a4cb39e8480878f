-- ===== src/Toolchain/Tests.antt =====
-- Two compilers and two runtimes.
use soft_ue_index.Base.{◌≡◌, refl, true, some, none, [], ◌∷◌, if◌then◌else◌}
use soft_ue_index.Base.Text.{Bytes, str, eqb}
use soft_ue_index.Base.Result.{ok}
use soft_ue_index.Toolchain.{
  Version, compare_version, range_contains, Texts, parse_version, Config, Candidate,
  source_explicit, source_path, Range, select_clangd, offer_all, offer, first_found,
}
use soft_ue_index.Toolchain.Choice.{best, select_clangd-best}
use soft_ue_index.Toolchain.Places.{
  Machine, discover_candidates, all_candidates, find_bundled_dotnet, dotnet_version, dotnet_paths,
}
use soft_ue_index.Toolchain.Discovery.{Distinct, find_key, discover_candidates_lem}
use soft_ue_index.Toolchain.Dotnet.{Bundled, find_bundled_dotnet-Bundled}

-- a version is its major number, as one byte
abbrev texts : Texts
texts = record {
  version_match = λ s. some (s, [], []);
  clangd_match = λ s. some s;
  atoi = λ s. elim s [ [] ↦ none | c ∷ rest ↦ some c ];
  trim_space = λ s. s;
  split_dash = λ s. s ∷ [];
}

abbrev v : Bytes → Version
v [] = record { major = 0; minor = 0; patch = 0 }
v (c ∷ rest) = record { major = c; minor = 0; patch = 0 }

abbrev only : Bytes → Range
only s = record { minimum = v s; maximum = v s }

abbrev config : Config
config = record {
  preferred = v (str "8");
  preferred_ranges = only (str "8") ∷ only (str "9") ∷ [];
  minimum = v (str "7");
}

abbrev nine : Candidate
nine = record { path = str "9"; source = source_explicit }

abbrev eight : Candidate
eight = record { path = str "8"; source = source_path }

-- the range of the first candidate is the second one
choice :
    select_clangd texts (λ p. some p) config (nine ∷ eight ∷ [])
    ≡ ok (record { path = str "8"; source = source_path; version = v (str "8") })
unfolding select_clangd offer_all offer first_found parse_version range_contains compare_version str
choice = refl

select_clangd-best_example :
    select_clangd texts (λ p. some p) config (nine ∷ eight ∷ [])
    ≡ best texts
        (v (str "7"))
        (λ p. some p)
        (nine ∷ eight ∷ [])
        (only (str "8") ∷ only (str "9") ∷ [])
select_clangd-best_example = select_clangd-best texts (λ p. some p) config (nine ∷ eight ∷ [])

abbrev machine : Machine
machine = record {
  lookup_env = λ name. if eqb name (str "PATH") then some (str "a") else none;
  exists = λ p. true;
  glob = λ p. str "8" ∷ str "9" ∷ [];
  sort = λ xs. xs;
  windows_path = λ parts. [];
  trim_space = λ s. s;
  split_semicolon = λ s. str "B" ∷ str "b/" ∷ str "A" ∷ [];
}

discover_candidates_lem_example :
    Distinct (discover_candidates machine (str "b/clangd.exe"))
    × (find_key (str "a/clangd.exe") (discover_candidates machine (str "b/clangd.exe"))
        ≡ find_key (str "a/clangd.exe") (all_candidates machine (str "b/clangd.exe")))
discover_candidates_lem_example =
    discover_candidates_lem machine (str "b/clangd.exe") (str "a/clangd.exe")

find_bundled_dotnet-Bundled_example :
    Bundled
      (dotnet_version texts machine (λ p. p))
      (dotnet_paths machine [])
      (find_bundled_dotnet texts machine (λ p. p) [])
find_bundled_dotnet-Bundled_example = find_bundled_dotnet-Bundled texts machine (λ p. p) []
