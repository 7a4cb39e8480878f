-- ===== src/Compdb/Validate/Promoted.antt =====
-- What ValidateAndPromote leaves in place.
use soft_ue_index.Base.{◌≡◌, true, Option, some, none}
use soft_ue_index.Base.Text.{Bytes}
use soft_ue_index.Base.Result.{Result, ok, err}
use soft_ue_index.Compdb.Validate.{
  ValidationError, Tree, DatabaseText, Destination, ValidationResult, Promotion,
}
use soft_ue_index.Compdb.Validate.Units.{Covers}

module _ (t : Tree) (s : Promotion) (project_root engine_root staged : Bytes)
    (old : Option Bytes) where
  abbrev start : Destination
  start = record { database = old; temporary = none }

  -- A result and the destination with it: with an error the database that was there, and otherwise
  -- the copy of the staged one, which covers both roots; and no temporary file.
  abbrev pub Kept : Result ValidationError ValidationResult → Destination → Type 0
  Kept (err e) d = (d.database ≡ old) × (d.temporary ≡ none)
  Kept (ok r) d =
      (text : DatabaseText) × (s.decode staged ≡ some text)
      × Covers t project_root engine_root text r
      × (new : Bytes) × (s.copy staged ≡ (new, true))
      × (d.database ≡ some new)
      × (d.temporary ≡ none)

  abbrev KeptBoth : Result ValidationError ValidationResult × Destination → Type 0
  KeptBoth x = Kept x.0 x.1
