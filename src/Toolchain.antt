-- ===== src/Toolchain.antt =====
-- internal/toolchain/toolchain.go: versions and ranges of clang, and the choice of a clangd. Package regexp, strconv.Atoi, JSON, package filepath and the
-- commands that are run are arguments.
pub mod Order
pub mod Places
pub mod Choice
pub mod Discovery
pub mod Dotnet
mod Tests
use soft_ue_index.Base.{
  ℕ, zero, suc, Bool, true, false, not, ◌&&◌, ◌||◌, Option, some, none, List, [], ◌∷◌, ◌++◌, map,
  ltb, leb, ◌==◌, if◌then◌else◌, is_some,
}
use soft_ue_index.Base.Text.{Bytes, str, eqb, is_empty, to_lower, has_suffix, one_of}
use soft_ue_index.Base.Result.{Result, ok, err, ◌>>=◌, unless}

pub record Version : Type 0 where
  pub major : ℕ
  pub minor : ℕ
  pub patch : ℕ

-- the result of Compare: -1, 0 and 1
pub data Sign : Type 0 where
  less same greater : Sign

unfoldable pub compare_version : Version → Version → Sign
compare_version v other =
    if not (v.major == other.major)
    then (if ltb v.major other.major then less else greater)
    else if not (v.minor == other.minor)
    then (if ltb v.minor other.minor then less else greater)
    else if not (v.patch == other.patch)
    then (if ltb v.patch other.patch then less else greater)
    else same

-- `a.Compare(b) <= 0`, `a.Compare(b) < 0`, `a.Compare(b) > 0`
abbrev pub is_at_most : Sign → Bool
is_at_most less = true
is_at_most same = true
is_at_most greater = false

abbrev pub is_less : Sign → Bool
is_less less = true
is_less _ = false

abbrev pub is_greater : Sign → Bool
is_greater greater = true
is_greater _ = false

pub record Range : Type 0 where
  pub minimum : Version
  pub maximum : Version

unfoldable pub range_contains : Range → Version → Bool
range_contains r version =
    is_at_most (compare_version r.minimum version) && is_at_most (compare_version version r.maximum)

pub data ToolchainError : Type 0 where
  invalid_version : Bytes → ToolchainError
  invalid_range : Bytes → ToolchainError
  malformed_sdk_config : ToolchainError
  compatible_clangd_not_found : ToolchainError

-- Packages regexp, strconv and strings. `version_match` gives the three groups of versionPattern,
-- empty where a group does not take part.
pub record Texts : Type 0 where
  pub version_match : Bytes → Option (Bytes × Bytes × Bytes)
  pub clangd_match : Bytes → Option Bytes
  pub atoi : Bytes → Option ℕ
  pub trim_space : Bytes → Bytes
  pub split_dash : Bytes → List Bytes

abbrev pub part : Texts → Bytes → Bytes → Result ToolchainError ℕ
part t text [] = ok 0
part t text (c ∷ digits) = elim (t.atoi (c ∷ digits)) [
  | none ↦ err (invalid_version text)
  | some n ↦ ok n
]

abbrev pub version_of_match :
    Texts → Bytes → Option (Bytes × Bytes × Bytes) → Result ToolchainError Version
version_of_match t text none = err (invalid_version text)
version_of_match t text (some (a, b, c)) = do
  major ← part t text a
  minor ← part t text b
  patch ← part t text c
  ok (record { major = major; minor = minor; patch = patch })

unfoldable pub parse_version : Texts → Bytes → Result ToolchainError Version
parse_version t text = version_of_match t text (t.version_match text)

abbrev pub range_of_parts : Texts → Bytes → List Bytes → Result ToolchainError Range
range_of_parts t text (low ∷ high ∷ []) = do
  minimum ← parse_version t low
  maximum ← parse_version t high
  unless (is_greater (compare_version minimum maximum)) (invalid_range text)
      (ok (record { minimum = minimum; maximum = maximum }))
range_of_parts t text _ = err (invalid_range text)

unfoldable pub parse_range : Texts → Bytes → Result ToolchainError Range
parse_range t text = range_of_parts t text (t.split_dash (t.trim_space text))

pub record Config : Type 0 where
  pub preferred : Version
  pub preferred_ranges : List Range
  pub minimum : Version

-- what JSON finds in Windows_SDK.json
pub record RawConfig : Type 0 where
  pub preferred : Bytes
  pub preferred_ranges : List Bytes
  pub minimum : Bytes

-- every error of a part is reported as a malformed configuration
abbrev pub or_malformed : {A : Type 0} → Result ToolchainError A → Result ToolchainError A
or_malformed (ok a) = ok a
or_malformed (err e) = err malformed_sdk_config

abbrev pub range_texts : RawConfig → List Bytes
range_texts raw =
    if is_empty raw.preferred then raw.preferred_ranges else elim raw.preferred_ranges [
      | [] ↦ (raw.preferred ++ (b'-' ∷ []) ++ raw.preferred) ∷ []
      | text ∷ rest ↦ text ∷ rest
    ]

-- the loop over the texts of the ranges
unfoldable pub parse_ranges : Texts → Version → List Bytes → Result ToolchainError (List Range)
parse_ranges t minimum [] = ok []
parse_ranges t minimum (text ∷ rest) = do
  range ← or_malformed (parse_range t text)
  unless (is_less (compare_version range.maximum minimum)) malformed_sdk_config
      (do ranges ← parse_ranges t minimum rest; ok (range ∷ ranges))

abbrev pub config_of : Version → List Range → Result ToolchainError Config
config_of minimum [] = err malformed_sdk_config
config_of minimum (first ∷ rest) =
    ok (record { preferred = first.minimum; preferred_ranges = first ∷ rest; minimum = minimum })

-- ParseSDKConfig, from what JSON makes of the file
unfoldable pub parse_sdk_config : Texts → Option RawConfig → Result ToolchainError Config
parse_sdk_config t none = err malformed_sdk_config
parse_sdk_config t (some raw) = do
  minimum ← or_malformed (parse_version t raw.minimum)
  ranges ← parse_ranges t minimum (range_texts raw)
  config_of minimum ranges

pub data Source : Type 0 where
  source_explicit source_llvm_path source_path source_standard_install source_visual_studio : Source

pub record Candidate : Type 0 where
  pub path : Bytes
  pub source : Source

pub record Selection : Type 0 where
  pub path : Bytes
  pub source : Source
  pub version : Version

-- the version that a candidate reports, if it is one and not below the minimum
abbrev pub above_minimum : Version → Result ToolchainError Version → Option Version
above_minimum minimum (err e) = none
above_minimum minimum (ok version) =
    if is_less (compare_version version minimum) then none else some version

abbrev pub reported : Texts → Version → Option Bytes → Option Version
reported t minimum none = none
reported t minimum (some output) = elim (t.clangd_match output) [
  | none ↦ none
  | some text ↦ above_minimum minimum (parse_version t text)
]

-- The loop over the ranges for one candidate: a range takes the first candidate that it contains.
-- `none` stands for `found[index]` unset.
unfoldable pub offer : List Range → Selection → List (Option Selection) → List (Option Selection)
offer (r ∷ ranges) chosen (some s ∷ rest) = some s ∷ offer ranges chosen rest
offer (r ∷ ranges) chosen (none ∷ rest) =
    (if range_contains r chosen.version then some chosen else none) ∷ offer ranges chosen rest
offer _ chosen rest = rest

abbrev pub offer_reported :
    List Range → Candidate → Option Version → List (Option Selection) → List (Option Selection)
offer_reported ranges c none found = found
offer_reported ranges c (some version) found =
    offer ranges (record { path = c.path; source = c.source; version = version }) found

unfoldable pub offer_all :
    Texts
    → Version
    → (Bytes → Option Bytes)
    → List Range
    → List Candidate
    → List (Option Selection)
    → List (Option Selection)
offer_all t minimum run ranges [] found = found
offer_all t minimum run ranges (c ∷ candidates) found =
    offer_all t minimum run ranges candidates
      (offer_reported ranges c (reported t minimum (run c.path)) found)

unfoldable pub first_found : List (Option Selection) → Result ToolchainError Selection
first_found [] = err compatible_clangd_not_found
first_found (some s ∷ rest) = ok s
first_found (none ∷ rest) = first_found rest

abbrev pub no_version : Version → Bool
no_version v = v.major == 0 && (v.minor == 0 && v.patch == 0)

abbrev pub ranges_of : Config → List Range
ranges_of config = elim config.preferred_ranges [
  | [] ↦
      if no_version config.preferred
      then []
      else record { minimum = config.preferred; maximum = config.preferred } ∷ []
  | r ∷ rest ↦ r ∷ rest
]

-- SelectClangd: `run` is the output of a candidate's --version, if it can be run
unfoldable pub select_clangd :
    Texts → (Bytes → Option Bytes) → Config → List Candidate → Result ToolchainError Selection
select_clangd t run config candidates =
    let ranges = ranges_of config in
    first_found (offer_all t config.minimum run ranges candidates (map (λ _. none) ranges))
