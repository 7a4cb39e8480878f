-- ===== src/Base/Store.antt =====
-- A store of objects behind pointers: pointers are numbers.
use Prim.Native.Nat.{ℕ}
use mathlib.Core.Option.{Option, some}
use soft_ue_index.Base.Tests.{◌==◌, if◌then◌else◌}

abbrev pub Store {ℓ} : Type ℓ → Type ℓ
Store V = ℕ → Option V

abbrev pub put_at {ℓ} : {V : Type ℓ} → Store V → ℕ → V → Store V
put_at h k v j = if k == j then some v else h j
