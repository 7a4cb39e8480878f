-- ===== src/Compdb/Entries.antt =====
-- internal/compdb/validate.go: an entry of a compilation database.
use soft_ue_index.Base.{List}
use soft_ue_index.Base.Text.{Bytes}

pub record DatabaseEntry : Type 0 where
  pub directory : Bytes
  pub file : Bytes
  pub command : Bytes
  pub arguments : List Bytes
