-- ===== src/Base/Paths.antt =====
-- What the program relies on in filepath.Dir.
pub mod Unix
use Prim.Native.Nat.{ℕ, ◌<◌}
use mathlib.Core.Path.{◌≡◌}
use mathlib.Core.Logic.{◌⊎◌}
use mathlib.Core.Bool.{Bool, true}
use soft_ue_index.Base.Lists.{length}
use soft_ue_index.Base.Text.{Bytes}

-- For `rooted`, the test on absolute and clean paths: the directory of such a path is one, too, and
-- it is the path itself or shorter.
abbrev pub Climbs : (Bytes → Bool) → (Bytes → Bytes) → Type 0
Climbs rooted dir =
    (d : Bytes)
    → rooted d ≡ true
    → (rooted (dir d) ≡ true) × ((dir d ≡ d) ⊎ (length (dir d) < length d))
