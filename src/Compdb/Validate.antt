-- ===== src/Compdb/Validate.antt =====
-- internal/compdb/validate.go: the test of a generated database, and its promotion over the last
-- good one. JSON, the file system and package filepath are arguments.
pub mod Units
pub mod Promoted
mod Tests
use soft_ue_index.Base.{
  ℕ, zero, suc, Bool, true, false, not, ◌&&◌, ◌||◌, Option, some, none, List, [], ◌∷◌, ◌++◌, ◌==◌,
  if◌then◌else◌,
}
use soft_ue_index.Base.Text.{Bytes, is_empty, str, eqb, has_prefix}
use soft_ue_index.Base.Result.{Result, ok, err, ◌>>=◌, unless}
use soft_ue_index.Compdb.CommandLine.{split_command, trim_quotes_left, trim_quotes_right}
use soft_ue_index.Compdb.Rider.Modules.{sort_by, text_before}
use soft_ue_index.Compdb.Entries.{DatabaseEntry}

pub data ValidationError : Type 0 where
  not_an_array trailing_data insufficient_coverage : ValidationError
  missing_field no_compiler : ValidationError
  not_decoded : ValidationError
  not_resolved : Bytes → ValidationError
  not_regular : Bytes → ValidationError
  no_response : Bytes → ValidationError
  not_written : ValidationError

-- The file system, and package filepath. `abs` may fail; `eval_symlinks` and `rel` are `none` on an
-- error. `hash` is the digest of a text in hexadecimal.
pub record Tree : Type 0 where
  pub abs : Bytes → Option Bytes
  pub eval_symlinks : Bytes → Option Bytes
  pub clean : Bytes → Bytes
  pub rel : Bytes → Bytes → Option Bytes
  pub is_abs : Bytes → Bool
  pub join : Bytes → Bytes → Bytes
  pub to_slash : Bytes → Bytes
  pub separator : Bytes
  pub is_regular : Bytes → Bool
  pub exists : Bytes → Bool
  pub hash : Bytes → Bytes

abbrev pub canonical : Tree → Bytes → Option Bytes
canonical t path = elim (t.abs path) [
  | none ↦ none
  | some absolute ↦ elim (t.eval_symlinks absolute) [
    | none ↦ some (t.clean absolute)
    | some resolved ↦ some (t.clean resolved)
  ]
]

-- the test of `within` on the relative path
abbrev pub stays : Tree → Option Bytes → Bool
stays t none = false
stays t (some relative) =
    not (eqb relative (str ".."))
    && (not (has_prefix relative (str ".." ++ t.separator)) && not (t.is_abs relative))

abbrev pub within : Tree → Bytes → Bytes → Bool
within t path root = stays t (t.rel root path)

-- the response file that an argument names
abbrev pub response_of : Bytes → Option Bytes
response_of [] = none
response_of (c ∷ s) = if c == 64 then some (trim_quotes_right (trim_quotes_left s)) else none

-- a database as the decoder sees it: `none` where an entry cannot be decoded
pub record DatabaseText : Type 0 where
  pub is_array : Bool
  pub items : List (Option DatabaseEntry)
  pub is_closed : Bool
  pub is_whole : Bool

abbrev pub resolve : Tree → Bytes → Result ValidationError Bytes
resolve t path = elim (canonical t path) [ none ↦ err (not_resolved path) | some p ↦ ok p ]

abbrev pub rooted : Tree → Bytes → Bytes → Bytes
rooted t directory path = if t.is_abs path then path else t.join directory path

abbrev pub no_arguments : List Bytes → Bool
no_arguments [] = true
no_arguments (a ∷ rest) = false

abbrev pub response_exists : Tree → Bytes → Option Bytes → Bool
response_exists t directory none = true
response_exists t directory (some path) = t.exists (rooted t directory path)

-- the loop over the arguments behind the compiler
unfoldable pub check_responses : Tree → Bytes → List Bytes → Result ValidationError Unit
check_responses t directory [] = ok tt
check_responses t directory (arg ∷ rest) =
    unless (not (response_exists t directory (response_of arg))) (no_response arg)
      (check_responses t directory rest)

pub data Scope : Type 0 where
  in_project in_engine elsewhere : Scope

abbrev pub unit_scope : Tree → Bytes → Bytes → Bytes → Scope
unit_scope t project engine source =
    if within t source project
    then in_project
    else if within t source engine
    then in_engine
    else elsewhere

abbrev pub check_compiler : Tree → Bytes → List Bytes → Result ValidationError Unit
check_compiler t directory [] = err no_compiler
check_compiler t directory (compiler ∷ rest) =
    unless (not (t.is_regular (rooted t directory compiler))) (not_regular compiler)
      (check_responses t directory rest)

abbrev pub arguments_of : DatabaseEntry → List Bytes
arguments_of e = if no_arguments e.arguments then split_command e.command else e.arguments

-- strings.Join with a zero byte
unfoldable pub joined : List Bytes → Bytes
joined [] = []
joined (a ∷ []) = a
joined (a ∷ b ∷ rest) = a ++ (0 ∷ joined (b ∷ rest))

-- validateEntry: the text of the entry, and where its source lies
unfoldable pub validate_entry :
    Tree → Bytes → Bytes → DatabaseEntry → Result ValidationError (Bytes × Scope)
validate_entry t project engine e =
    unless
      (is_empty e.directory
        || (is_empty e.file || (is_empty e.command && no_arguments e.arguments)))
      missing_field
      (do
        directory ← resolve t e.directory
        source ← resolve t (rooted t directory e.file)
        unless (not (t.is_regular source)) (not_regular source) (do
          checked ← check_compiler t directory (arguments_of e)
          ok (
            t.to_slash source ++ (0 ∷ joined (arguments_of e)),
            unit_scope t project engine source,
          )))

pub record Coverage : Type 0 where
  pub project_units : ℕ
  pub engine_units : ℕ
  pub normalized : List Bytes

abbrev pub count : Scope → Coverage → Coverage
count in_project c = record c { project_units = suc c.project_units }
count in_engine c = record c { engine_units = suc c.engine_units }
count elsewhere c = c

-- the loop over the entries
unfoldable pub validate_items :
    Tree → Bytes → Bytes → List (Option DatabaseEntry) → Coverage → Result ValidationError Coverage
validate_items t project engine [] c = ok c
validate_items t project engine (none ∷ rest) c = err not_decoded
validate_items t project engine (some e ∷ rest) c = do
  found ← validate_entry t project engine e
  validate_items t project engine rest
      (count found.1 (record c { normalized = c.normalized ++ (found.0 ∷ []) }))

pub record ValidationResult : Type 0 where
  pub project_translation_units : ℕ
  pub engine_translation_units : ℕ
  pub fingerprint : Bytes

abbrev pub no_coverage : Coverage
no_coverage = record { project_units = 0; engine_units = 0; normalized = [] }

unfoldable pub lines_of : List Bytes → Bytes
lines_of [] = []
lines_of (s ∷ rest) = s ++ (10 ∷ lines_of rest)

abbrev pub fingerprint_of : Tree → List Bytes → Bytes
fingerprint_of t normalized = t.hash (lines_of (sort_by text_before normalized))

-- Validate behind the roots
abbrev pub validate_text :
    Tree → Bytes → Bytes → Option DatabaseText → Result ValidationError ValidationResult
validate_text t project engine none = err not_decoded
validate_text t project engine (some text) = unless (not text.is_array) not_an_array (do
  c ← validate_items t project engine text.items no_coverage
  unless (not text.is_closed) not_decoded (
      unless (not text.is_whole) trailing_data (
        unless (c.project_units == 0 || c.engine_units == 0) insufficient_coverage (
          ok (record {
            project_translation_units = c.project_units;
            engine_translation_units = c.engine_units;
            fingerprint = fingerprint_of t c.normalized;
          })))))

-- Validate, on the text of the database, `none` where the file cannot be opened
unfoldable pub validate_database :
    Tree → Bytes → Bytes → Option DatabaseText → Result ValidationError ValidationResult
validate_database t project_root engine_root found = do
  project ← resolve t project_root
  engine ← resolve t engine_root
  validate_text t project engine found

-- The steps of a promotion. `copy` is what copyFile leaves in the temporary file and whether it
-- succeeds, `replace` whether the rename succeeds; `decode` is what JSON makes of a file.
pub record Promotion : Type 0 where
  pub make_destination : Bool
  pub create_temporary : Bool
  pub copy : Bytes → Bytes × Bool
  pub replace : Bool
  pub decode : Bytes → Option DatabaseText

-- the two files of the destination
pub record Destination : Type 0 where
  pub database : Option Bytes
  pub temporary : Option Bytes

-- the rename: what fails moves nothing
abbrev pub rename : Bool → Destination → Destination
rename true d = record { database = d.temporary; temporary = none }
rename false d = d

-- the removal of the temporary file, on every way out
abbrev pub cleaned : Destination → Destination
cleaned d = record d { temporary = none }

abbrev pub moved :
    ValidationResult → Bool → Destination → Result ValidationError ValidationResult × Destination
moved r true d = (ok r, cleaned (rename true d))
moved r false d = (err not_written, cleaned (rename false d))

abbrev pub replaced :
    Bool
    → ValidationResult
    → Bytes × Bool
    → Destination
    → Result ValidationError ValidationResult × Destination
replaced moves r (contents, false) d =
    (err not_written, cleaned (record d { temporary = some contents }))
replaced moves r (contents, true) d = moved r moves (record d { temporary = some contents })

abbrev pub promote :
    Promotion
    → Bytes
    → Destination
    → Result ValidationError ValidationResult
    → Result ValidationError ValidationResult × Destination
promote s staged d (err e) = (err e, d)
promote s staged d (ok r) =
    if not s.make_destination
    then (err not_written, d)
    else if not s.create_temporary
    then (err not_written, d)
    else replaced s.replace r (s.copy staged) (record d { temporary = some [] })

-- ValidateAndPromote: `staged` is the text of the new database; the result, and the destination
-- afterwards
unfoldable pub validate_and_promote :
    Tree
    → Promotion
    → Bytes
    → Bytes
    → Bytes
    → Destination
    → Result ValidationError ValidationResult × Destination
validate_and_promote t s project_root engine_root staged d =
    promote s staged d (validate_database t project_root engine_root (s.decode staged))
