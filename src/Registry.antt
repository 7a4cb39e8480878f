-- ===== src/Registry.antt =====
-- internal/registry/model.go and store.go: the registered projects, what makes a registry valid,
-- and its locked, atomic update on disk. The file system and JSON are arguments.
pub mod Valid
pub mod Atomic
mod Tests
use soft_ue_index.Base.{
  ℕ, zero, suc, ◌+◌, ◌-◌, Bool, true, false, not, ◌&&◌, ◌||◌, Option, some, none, List, [], ◌∷◌,
  ◌++◌, length, ltb, leb, ◌==◌, if◌then◌else◌,
}
use soft_ue_index.Base.Text.{Bytes, eqb, one_of, is_empty, to_lower}
use soft_ue_index.Base.Result.{Result, ok, err, ◌>>=◌, unless}

pub record Project : Type 0 where
  pub id : Bytes
  pub name : Bytes
  pub uproject : Bytes
  pub target : Bytes
  pub platform : Bytes
  pub configuration : Bytes
  pub watch_enabled : Bool
  pub engine_root : Bytes
  pub engine_version : Bytes
  pub clangd_path : Bytes
  pub clangd_version : Bytes
  pub compilation_database : Bytes
  pub cache_dir : Bytes
  pub last_fingerprint : Bytes
  pub last_generated_at : Bytes
  pub invalidation_reason : Bytes

pub record Registry : Type 0 where
  pub version : ℕ
  pub projects : List Project

abbrev pub current_version : ℕ
current_version = 1

pub data RegistryError : Type 0 where
  unsupported_version : ℕ → RegistryError
  duplicate_id : Bytes → RegistryError
  duplicate_path : Bytes → RegistryError
  id_required : RegistryError
  mutation_required : RegistryError
  lock_unavailable : RegistryError
  canceled : RegistryError
  system : Bytes → RegistryError

-- Package filepath.
pub record Paths : Type 0 where
  pub abs : Bytes → Result RegistryError Bytes
  pub eval_symlinks : Bytes → Option Bytes
  pub dir : Bytes → Bytes
  pub base : Bytes → Bytes
  pub join : Bytes → Bytes → Bytes
  pub clean : Bytes → Bytes

-- the loop that puts the missing components back, the last one found first
unfoldable pub rejoin : (Bytes → Bytes → Bytes) → Bytes → List Bytes → Bytes
rejoin join resolved [] = resolved
rejoin join resolved (part ∷ rest) = rejoin join (join resolved part) rest

-- The loop of resolvePathIdentity, on fuel. `missing` has the component found last at its head.
unfoldable pub resolve_from : Paths → ℕ → Bytes → Bytes → List Bytes → Option Bytes
resolve_from os zero path current missing = none
resolve_from os (suc fuel) path current missing =
    let later = resolve_from os fuel path (os.dir current) (os.base current ∷ missing) in
    elim (os.eval_symlinks current) [
      | some resolved ↦ some (os.clean (rejoin os.join resolved missing))
      | none ↦ (if eqb (os.dir current) current then some (os.clean path) else later)
    ]

abbrev pub or_path : Bytes → Option Bytes → Bytes
or_path path none = path
or_path path (some resolved) = resolved

unfoldable pub resolve_path_identity : Paths → Bytes → Bytes
resolve_path_identity os path = or_path path (resolve_from os (suc (length path)) path path [])

abbrev pub normalize_path : Paths → Bytes → Result RegistryError Bytes
normalize_path os [] = ok []
normalize_path os (c ∷ s) = do abs ← os.abs (c ∷ s); ok (resolve_path_identity os abs)

unfoldable pub normalize_project : Paths → Project → Result RegistryError Project
normalize_project os p = do
  uproject ← normalize_path os p.uproject
  engine_root ← normalize_path os p.engine_root
  clangd_path ← normalize_path os p.clangd_path
  compilation_database ← normalize_path os p.compilation_database
  cache_dir ← normalize_path os p.cache_dir
  ok (record p {
    uproject = uproject;
    engine_root = engine_root;
    clangd_path = clangd_path;
    compilation_database = compilation_database;
    cache_dir = cache_dir;
  })

-- the loop over the projects, with the keys of the earlier ones
unfoldable pub check_projects :
    Paths → List Project → List Bytes → List Bytes → Result RegistryError (List Project)
check_projects os [] ids paths = ok []
check_projects os (p ∷ rest) ids paths = do
  q ← normalize_project os p
  unless (is_empty q.id) id_required (
      unless (one_of (to_lower q.id) ids) (duplicate_id q.id) (
        unless (one_of (to_lower q.uproject) paths) (duplicate_path q.uproject) (do
          checked ← check_projects os rest (to_lower q.id ∷ ids) (to_lower q.uproject ∷ paths)
          ok (q ∷ checked))))

unfoldable pub normalize_and_validate : Paths → Registry → Result RegistryError Registry
normalize_and_validate os r =
    unless (not (r.version == current_version)) (unsupported_version r.version)
      (do checked ← check_projects os r.projects [] []; ok (record r { projects = checked }))

pub data Attempt : Type 0 where
  acquired : Attempt
  contended : Attempt
  failed : Bytes → Attempt

-- The registry's file and the temporary file beside it.
pub record Place : Type 0 where
  pub file : Option Bytes
  pub temporary : Option Bytes

-- What one call of the store meets: the lock at each attempt, the context at each test of it (the
-- waits between attempts, then the tests of Update itself), and the calls of the system. `others`
-- is what other processes have made of the file by the time that an attempt gets the lock, and
-- `encode` what reaches the temporary file with an error of the writes to it.
pub record Disk : Type 0 where
  pub paths : Paths
  pub attempt : ℕ → Attempt
  pub others : ℕ → Option Bytes → Option Bytes
  pub canceled_waiting : ℕ → Bool
  pub canceled_first : Bool
  pub canceled_last : Bool
  pub make_dir : Option RegistryError
  pub read_error : Option RegistryError
  pub decode : Bytes → Result RegistryError Registry
  pub create : Option RegistryError
  pub encode : Registry → Bytes × Option RegistryError
  pub promote : Option RegistryError

abbrev pub lock_retries : ℕ
lock_retries = 20

-- the loop of lock, with `left` attempts left: the attempt that got it
unfoldable pub lock : Disk → ℕ → ℕ → Result RegistryError ℕ
lock os zero k = err lock_unavailable
lock os (suc left) k =
    let later = lock os left (suc k) in
    elim (os.attempt k) [
      | acquired ↦ ok k
      | failed e ↦ err (system e)
      | contended ↦ (if os.canceled_waiting k then err canceled else later)
    ]

abbrev pub fails :
    {A : Type 0} → Option RegistryError → Result RegistryError A → Result RegistryError A
fails none rest = rest
fails (some e) rest = err e

-- loadUnlocked; `file` is the registry's file, if there is one
unfoldable pub load_unlocked : Disk → Option Bytes → Result RegistryError Registry
load_unlocked os none = ok (record { version = current_version; projects = [] })
load_unlocked os (some contents) =
    fails os.read_error (do r ← os.decode contents; normalize_and_validate os.paths r)

unfoldable pub load : Disk → Option Bytes → Result RegistryError Registry
load os file =
    unless os.canceled_first canceled
      (fails os.make_dir (do k ← lock os lock_retries 0; load_unlocked os (os.others k file)))

-- A step that changes the files, with its error.
abbrev pub Outcome : Type 0
Outcome = Result RegistryError Unit × Place

-- promoteFile: a rename that fails moves nothing
abbrev pub promote_file : Option RegistryError → Place → Outcome
promote_file none p = (ok tt, record { file = p.temporary; temporary = none })
promote_file (some e) p = (err e, p)

-- the removal of the temporary file, on every way out
abbrev pub removed : Outcome → Outcome
removed (r, p) = (r, record p { temporary = none })

-- the writes to the temporary file, and the promotion if none failed
abbrev pub write_temporary : Option RegistryError → Bytes × Option RegistryError → Place → Outcome
write_temporary promote (text, some e) p = (err e, record p { temporary = some text })
write_temporary promote (text, none) p = promote_file promote (record p { temporary = some text })

abbrev pub with_temporary : Disk → Registry → Place → Option RegistryError → Outcome
with_temporary os r p (some e) = (err e, p)
with_temporary os r p none =
    removed (write_temporary os.promote (os.encode r) (record p { temporary = some [] }))

unfoldable pub save_unlocked : Disk → Registry → Place → Outcome
save_unlocked os r p = with_temporary os r p os.create

-- an error, or a step that changes the files
abbrev pub if_ok : {A : Type 0} → Result RegistryError A → Place → (A → Outcome) → Outcome
if_ok (err e) p next = (err e, p)
if_ok (ok a) p next = next a

-- what Update decides to save, under the lock
unfoldable pub changed_registry :
    Disk → (Registry → Result RegistryError Registry) → Option Bytes → Result RegistryError Registry
changed_registry os mutate file = do
  r ← load_unlocked os file
  changed ← mutate r
  checked ← normalize_and_validate os.paths changed
  unless os.canceled_last canceled (ok checked)

-- what Update does under the lock
abbrev pub update_locked : Disk → (Registry → Result RegistryError Registry) → Place → Outcome
update_locked os mutate p = if_ok (changed_registry os mutate p.file) p (λ r. save_unlocked os r p)

-- the files when attempt `k` has got the lock
abbrev pub at_lock : Disk → ℕ → Place → Place
at_lock os k p = record p { file = os.others k p.file }

-- the way to the lock
abbrev pub to_lock : Disk → Result RegistryError ℕ
to_lock os = fails os.make_dir (lock os lock_retries 0)

-- Update, with the files after it
unfoldable pub update : Disk → (Registry → Result RegistryError Registry) → Place → Outcome
update os mutate p =
    if_ok (unless os.canceled_first canceled (to_lock os)) p
      (λ k. update_locked os mutate (at_lock os k p))

-- Save
unfoldable pub save : Disk → Registry → Place → Outcome
save os r p = if_ok (normalize_and_validate os.paths r) p (λ checked. if_ok (to_lock os) p (λ k.
    let q = at_lock os k p in
    if_ok (unless os.canceled_last canceled (ok checked)) q (λ r. save_unlocked os r q)))
