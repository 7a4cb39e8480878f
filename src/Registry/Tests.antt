-- ===== src/Registry/Tests.antt =====
-- Runs of the registry's checks and of an update.
use soft_ue_index.Base.{
  zero, suc, if◌then◌else◌, ◌==◌, ◌≡◌, refl, true, false, some, none, is_some, [], ◌∷◌, arith,
}
use soft_ue_index.Base.Text.{Bytes, str, eqb, one_of, to_lower, lower_byte}
use soft_ue_index.Base.Result.{Result, ok, err}
use soft_ue_index.Base.Paths.Unix.{dir, rooted, dir-Climbs}
use soft_ue_index.Registry.{
  Project, Registry, RegistryError, duplicate_id, Paths, resolve_from, resolve_path_identity,
  rejoin, normalize_project, check_projects, normalize_and_validate, acquired, contended, Disk,
  lock, lock_unavailable, load_unlocked, changed_registry, save_unlocked, Place, update,
}
use soft_ue_index.Registry.Valid.{IsValid, normalize_and_validate-IsValid, resolve_from-ends}

abbrev tail_of : Bytes → Bytes
tail_of [] = []
tail_of (c ∷ s) = s

-- paths whose directory is the path without its first byte, and which all exist
abbrev flat : Paths
flat = record {
  abs = λ p. ok p;
  eval_symlinks = λ p. none;
  dir = tail_of;
  base = λ p. [];
  join = λ p q. p;
  clean = λ p. p;
}

-- Unix paths of which only the root exists
abbrev unix : Paths
unix = record {
  abs = λ p. ok p;
  eval_symlinks = λ p. if eqb p (str "/") then some p else none;
  dir = dir;
  base = λ p. [];
  join = λ p q. p;
  clean = λ p. p;
}

resolve_from-ends_example : is_some (resolve_from unix 5 (str "/a/b") (str "/a/b") []) ≡ true
unfolding str
resolve_from-ends_example =
    resolve_from-ends unix rooted dir-Climbs 5 (str "/a/b") (str "/a/b") [] refl (omega arith)

abbrev registered : Bytes → Bytes → Project
registered id path = record {
  id = id;
  name = id;
  uproject = path;
  target = [];
  platform = [];
  configuration = [];
  watch_enabled = false;
  engine_root = [];
  engine_version = [];
  clangd_path = [];
  clangd_version = [];
  compilation_database = [];
  cache_dir = [];
  last_fingerprint = [];
  last_generated_at = [];
  invalidation_reason = [];
}

abbrev one : Registry
one = record { version = 1; projects = registered (str "a") (str "p") ∷ [] }

abbrev two : Registry
two = record {
  version = 1;
  projects = registered (str "a") (str "p") ∷ registered (str "b") (str "q") ∷ [];
}

twice :
    normalize_and_validate flat (record {
      version = 1;
      projects = registered (str "a") (str "p") ∷ registered (str "A") (str "q") ∷ [];
    })
    ≡ err (duplicate_id (str "A"))
unfolding normalize_and_validate check_projects normalize_project resolve_path_identity resolve_from
    rejoin one_of to_lower lower_byte str eqb
twice = refl

two-accepted : normalize_and_validate flat two ≡ ok two
unfolding normalize_and_validate check_projects normalize_project resolve_path_identity resolve_from
    rejoin one_of to_lower lower_byte str eqb
two-accepted = refl

normalize_and_validate-IsValid_example : IsValid two
normalize_and_validate-IsValid_example = normalize_and_validate-IsValid flat two two two-accepted

-- the lock is free at the second attempt
abbrev disk : Disk
disk = record {
  paths = flat;
  attempt = λ k. elim k [ zero ↦ contended | suc n ↦ acquired ];
  canceled_waiting = λ k. false;
  canceled_first = false;
  canceled_last = false;
  others = λ k file. if k == 1 then some (str "theirs") else file;
  make_dir = none;
  read_error = none;
  decode = λ text. if eqb text (str "theirs") then ok one else err (duplicate_id []);
  create = none;
  encode = λ r. (str "two", none);
  promote = none;
}

abbrev register_two : Registry → Result RegistryError Registry
register_two r = ok two

abbrev nothing : Place
nothing = record { file = none; temporary = none }

registers :
    update disk register_two nothing ≡ (ok tt, record { file = some (str "two"); temporary = none })
unfolding update lock load_unlocked changed_registry save_unlocked normalize_and_validate
    check_projects normalize_project resolve_path_identity resolve_from rejoin one_of to_lower
    lower_byte str eqb
registers = refl

-- the rename of the temporary file fails
not_moved :
    update (record disk { promote = some lock_unavailable }) register_two nothing
    ≡ (err lock_unavailable, record { file = some (str "theirs"); temporary = none })
unfolding update lock load_unlocked changed_registry save_unlocked normalize_and_validate
    check_projects normalize_project resolve_path_identity resolve_from rejoin one_of to_lower
    lower_byte str eqb
not_moved = refl
