-- ===== src/Cli.antt =====
-- internal/cli/cli.go: the command line. A usage error keeps what its message is made of.
pub mod Laws
mod Tests
use soft_ue_index.Base.{
  ◌≡◌, Bool, true, false, not, ◌&&◌, ◌||◌, List, [], ◌∷◌, ◌++◌, if◌then◌else◌, Option, some, none,
  refl, arith,
}
use soft_ue_index.Base.Text.{Bytes, str, eqb, is_empty, one_of}
use soft_ue_index.Base.Result.{Result, ok, err, ◌>>=◌}

pub record Command : Type 0 where
  pub name : Bytes
  pub project_path : Bytes
  pub project_name : Bytes
  pub json : Bool
  pub engine_scope : Bytes
  pub daemon_action : Bytes
  pub child : Bool

pub data UsageError : Type 0 where
  missing_command : UsageError
  no_arguments : Bytes → UsageError
  needs_path : UsageError
  needs_name : Bytes → UsageError
  needs_action : UsageError
  unknown_command : Bytes → UsageError
  scope_misplaced : UsageError
  child_misplaced : UsageError

abbrev pub new_command : Command
new_command = record {
  name = [];
  project_path = [];
  project_name = [];
  json = false;
  engine_scope = [];
  daemon_action = [];
  child = false;
}

-- The state of the loop over `args`: the command so far, and the positionals.
pub record Scan : Type 0 where
  pub command : Command
  pub positionals : List Bytes

unfoldable pub scan_arg : Scan → Bytes → Scan
scan_arg s arg =
    if eqb arg (str "--json")
    then record s { command = record c { json = true } }
    else if eqb arg (str "--child")
    then record s { command = record c { child = true } }
    else if eqb arg (str "--engine-scope") || eqb arg (str "--engine-scope=project")
    then record s { command = record c { engine_scope = str "project" } }
    else if eqb arg (str "--engine-scope=full")
    then record s { command = record c { engine_scope = str "full" } }
    else record s { positionals = s.positionals ++ (arg ∷ []) }
  where
    open s use {command as c}

unfoldable pub scan : Scan → List Bytes → Scan
scan s [] = s
scan s (arg ∷ args) = scan (scan_arg s arg) args

-- `positionals[1]`, where `len(positionals) == 2`
abbrev pub only : List Bytes → Option Bytes
only (p ∷ []) = some p
only _ = none

abbrev pub is_action : Bytes → Bool
is_action a = eqb a (str "run") || (eqb a (str "status") || eqb a (str "stop"))

-- the cases of the `switch`, given what follows the command's name
abbrev pub plain : Command → List Bytes → Result UsageError Command
plain c [] = ok c
plain c (_ ∷ _) = err (no_arguments c.name)

abbrev pub with_path : Command → Option Bytes → Result UsageError Command
with_path c (some p) = ok (record c { project_path = p })
with_path c none = err needs_path

abbrev pub with_name : Command → Option Bytes → Result UsageError Command
with_name c (some p) = ok (record c { project_name = p })
with_name c none = err (needs_name c.name)

abbrev pub with_action : Command → Option Bytes → Result UsageError Command
with_action c (some a) =
    if is_action a then ok (record c { daemon_action = a }) else err needs_action
with_action c none = err needs_action

unfoldable pub dispatch : Command → List Bytes → Result UsageError Command
dispatch c rest =
    if one_of c.name (str "doctor" ∷ str "list" ∷ str "watch" ∷ str "mcp" ∷ [])
    then plain c rest
    else if eqb c.name (str "add")
    then with_path c (only rest)
    else if one_of c.name (str "generate" ∷ str "status" ∷ str "remove" ∷ str "index-engine" ∷ [])
    then with_name c (only rest)
    else if eqb c.name (str "daemon")
    then with_action c (only rest)
    else err (unknown_command c.name)

-- the two tests after the `switch`
unfoldable pub check_flags : Command → Result UsageError Command
check_flags c =
    if not (is_empty c.engine_scope) && not (eqb c.name (str "generate"))
    then err scope_misplaced
    else if c.child && (not (eqb c.name (str "daemon")) || not (eqb c.daemon_action (str "run")))
    then err child_misplaced
    else ok c

unfoldable pub finish : Scan → Result UsageError Command
finish s = elim s.positionals [
  | [] ↦ err missing_command
  | name ∷ rest ↦ dispatch (record s.command { name = name }) rest >>= check_flags
]

unfoldable pub parse : List Bytes → Result UsageError Command
parse args = finish (scan (record { command = new_command; positionals = [] }) args)
