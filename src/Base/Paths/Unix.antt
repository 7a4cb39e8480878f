-- ===== src/Base/Paths/Unix.antt =====
-- filepath.Dir on the clean paths of Unix: the text before the last slash, `/` if that is empty,
-- and `.` if there is no slash.
use Prim.Native.Nat.{ℕ, suc, ◌<◌}
use mathlib.Core.Path.{◌≡◌, refl}
use mathlib.Core.Logic.{◌⊎◌, inr}
use mathlib.Core.Bool.{Bool, true, false}
use mathlib.Core.Option.{Option, none, some}
use mathlib.Core.List.{[], ◌∷◌}
use native.Mathlib.Omega.{arith}
use soft_ue_index.Base.Lists.{length}
use soft_ue_index.Base.Tests.{◌==◌, if◌then◌else◌}
use soft_ue_index.Base.Text.{Bytes}
use soft_ue_index.Base.Paths.{Climbs}

abbrev before_on : ℕ → Option Bytes → Option Bytes
before_on c (some t) = some (c ∷ t)
before_on c none = if c == b'/' then some [] else none

unfoldable pub before_slash : Bytes → Option Bytes
before_slash [] = none
before_slash (c ∷ s) = before_on c (before_slash s)

abbrev or_root : Option Bytes → Bytes
or_root none = b'.' ∷ []
or_root (some []) = b'/' ∷ []
or_root (some (c ∷ t)) = c ∷ t

abbrev pub dir : Bytes → Bytes
dir s = or_root (before_slash s)

abbrev pub rooted : Bytes → Bool
rooted [] = false
rooted (c ∷ s) = c == b'/'

shorter : (s t : Bytes) → before_slash s ≡ some t → length t < length s
unfolding before_slash
shorter [] t h = cc
shorter (c ∷ s) t h = on_rest (before_slash s) (shorter s) t h
  where
    on_rest :
        (o : Option Bytes)
        → ((t : Bytes) → o ≡ some t → length t < length s)
        → (t : Bytes) → before_on c o ≡ some t
        → length t < suc (length s)
    on_rest (some u) ih t h = ground (arith, h, ih u refl)
    on_rest none ih t h = ground (arith, h)

pub dir-Climbs : Climbs rooted dir
unfolding before_slash
dir-Climbs [] h = absurd cc
dir-Climbs (c ∷ s) h = on_rest (before_slash s) (shorter s)
  where
    on_rest :
        (o : Option Bytes)
        → ((t : Bytes) → o ≡ some t → length t < length s)
        → (rooted (or_root (before_on c o)) ≡ true)
          × ((or_root (before_on c o) ≡ c ∷ s)
              ⊎ (length (or_root (before_on c o)) < suc (length s)))
    on_rest (some u) ih = (h, inr (ground (arith, ih u refl)))
    on_rest none ih = ground (arith, h)
