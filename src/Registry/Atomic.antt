-- ===== src/Registry/Atomic.antt =====
-- What Update does to the registry's file.
use soft_ue_index.Base.{ℕ, ◌<◌, ◌≡◌, some, none, ◌⊎◌}
use soft_ue_index.Base.Text.{Bytes}
use soft_ue_index.Base.Result.{Result, ok, err}
use soft_ue_index.Registry.{
  Registry, RegistryError, normalize_and_validate, acquired, Disk, lock_retries, load_unlocked,
  Place, Outcome,
}
use soft_ue_index.Registry.Valid.{IsValid}

-- What an Update that succeeded did: it got the lock at attempt `k`, loaded what the file held then,
-- and put the text of the changed registry in its place.
pub record Committed (os : Disk) (mutate : Registry → Result RegistryError Registry)
    (p after : Place) : Type 0 where
  pub k : ℕ
  pub locked : (k < lock_retries) × (os.attempt k ≡ acquired)
  pub before : Registry
  pub changed : Registry
  pub stored : Registry
  pub loaded : load_unlocked os (os.others k p.file) ≡ ok before
  pub mutated : mutate before ≡ ok changed
  pub accepted : normalize_and_validate os.paths changed ≡ ok stored
  pub valid : IsValid stored
  pub text : Bytes
  pub encoded : os.encode stored ≡ (text, none)
  pub written : after.file ≡ some text

-- The file is as it was, or as others had left it when the lock was got.
abbrev pub Untouched : Disk → Place → Place → Type 0
Untouched os p after =
    (after.file ≡ p.file)
    ⊎ ((k : ℕ) × (k < lock_retries) × (os.attempt k ≡ acquired) × (after.file ≡ os.others k p.file))

-- What an Update may do: commit, or leave the file alone and say why.
abbrev pub Updated : Disk → (Registry → Result RegistryError Registry) → Place → Outcome → Type 0
Updated os mutate p (ok done, after) = Committed os mutate p after × (after.temporary ≡ none)
Updated os mutate p (err e, after) = Untouched os p after × (after.temporary ≡ none)
