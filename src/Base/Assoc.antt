-- ===== src/Base/Assoc.antt =====
-- Go maps with string keys, as association lists in insertion order.
use mathlib.Core.Path.{◌≡◌, refl}
use mathlib.Core.Option.{Option, none, some}
use mathlib.Core.List.{List, [], ◌∷◌}
use native.Mathlib.Omega.{arith}
use soft_ue_index.Base.Tests.{if◌then◌else◌}
use soft_ue_index.Base.Text.{Bytes, eqb, eqb_iff, eqb_refl}

abbrev pub Assoc {ℓ} : Type ℓ → Type ℓ
Assoc V = List (Bytes × V)

-- `m[key]`
unfoldable pub lookup {ℓ} : {V : Type ℓ} → Bytes → Assoc V → Option V
lookup key [] = none
lookup key ((name, value) ∷ rest) = if eqb name key then some value else lookup key rest

-- `m[key] = new`
unfoldable pub insert {ℓ} : {V : Type ℓ} → Bytes → V → Assoc V → Assoc V
insert key new [] = (key, new) ∷ []
insert key new ((name, value) ∷ rest) =
    let kept = (name, value) ∷ insert key new rest in
    if eqb name key then (key, new) ∷ rest else kept

-- `delete(m, key)`
unfoldable pub remove {ℓ} : {V : Type ℓ} → Bytes → Assoc V → Assoc V
remove key [] = []
remove key ((name, value) ∷ rest) =
    let others = remove key rest in if eqb name key then others else (name, value) ∷ others

module _ {ℓ} {V : Type ℓ} (key other : Bytes) where
  pub lookup-insert :
      (new : V) (entries : Assoc V)
      → lookup other (insert key new entries)
        ≡ (if eqb key other then some new else lookup other entries)
  unfolding lookup insert
  lookup-insert new [] = refl
  lookup-insert new ((name, value) ∷ rest) =
      ground
        (arith, lookup-insert new rest, eqb_iff name key, eqb_iff name other, eqb_iff key other)

  pub lookup-remove :
      (entries : Assoc V)
      → lookup other (remove key entries) ≡ (if eqb key other then none else lookup other entries)
  unfolding lookup remove
  lookup-remove [] = ground arith
  lookup-remove ((name, value) ∷ rest) =
      ground (arith, lookup-remove rest, eqb_iff name key, eqb_iff name other, eqb_iff key other)

pub lookup-insert_self {ℓ} :
    {V : Type ℓ} (key : Bytes) (new : V) (entries : Assoc V)
    → lookup key (insert key new entries) ≡ some new
lookup-insert_self key new entries = simp (lookup-insert, eqb_refl)
