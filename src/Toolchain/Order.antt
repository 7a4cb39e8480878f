-- ===== src/Toolchain/Order.antt =====
-- The order of versions.
use soft_ue_index.Base.{subst, ℕ, ◌≡◌, refl, not, ltb, ◌==◌, if◌then◌else◌, ◌↔◌, arith}
use soft_ue_index.Toolchain.{Version, Sign, less, same, greater, compare_version}

abbrev pub opposite : Sign → Sign
opposite less = greater
opposite same = same
opposite greater = less

-- One component decides, or the next ones do.
abbrev then_by : ℕ → ℕ → Sign → Sign
then_by a b next = if not (a == b) then (if ltb a b then less else greater) else next

then_by-opposite :
    (a b : ℕ) (s t : Sign) → s ≡ opposite t → then_by a b s ≡ opposite (then_by b a t)
then_by-opposite a b s t h = ground (arith, h)

then_by_same : (a b : ℕ) (s : Sign) → then_by a b s ≡ same → (a ≡ b) × (s ≡ same)
then_by_same a b s h = ground (arith, h)

then_by_trans :
    (a b c : ℕ) (s t u : Sign)
    → (s ≡ less → t ≡ less → u ≡ less)
    → then_by a b s ≡ less
    → then_by b c t ≡ less
    → then_by a c u ≡ less
then_by_trans a b c s t u next h k = ground (arith, next, h, k)

-- comparing the other way round
compare_version-opposite : (v w : Version) → compare_version v w ≡ opposite (compare_version w v)
unfolding compare_version
compare_version-opposite v w =
    then_by-opposite v.major w.major _ _
      (then_by-opposite v.minor w.minor _ _ (then_by-opposite v.patch w.patch same same refl))

compare_version-same : (v w : Version) → compare_version v w ≡ same → v ≡ w
unfolding compare_version
compare_version-same v w h =
    let (a, h1) = then_by_same v.major w.major _ h in
    let (b, h2) = then_by_same v.minor w.minor _ h1 in
    let (c, _) = then_by_same v.patch w.patch _ h2 in cc

compare_version_refl : (v : Version) → compare_version v v ≡ same
unfolding compare_version
compare_version_refl v = ground arith

compare_version_trans :
    (u v w : Version)
    → compare_version u v ≡ less
    → compare_version v w ≡ less
    → compare_version u w ≡ less
unfolding compare_version
compare_version_trans u v w = then_by_trans u.major v.major w.major _ _ _ (
    then_by_trans u.minor v.minor w.minor _ _ _
      (then_by_trans u.patch v.patch w.patch _ _ _ (λ h k. absurd cc)))

-- The versions are in a total order.
pub record IsTotal (v w x : Version) : Type 0 where
  pub equal : (compare_version v w ≡ same) ↔ (v ≡ w)
  pub converse : compare_version v w ≡ opposite (compare_version w v)
  pub transitive :
      compare_version v w ≡ less → compare_version w x ≡ less → compare_version v x ≡ less

-- Compare is a total order: it says that two versions are the same only if they are, comparing the
-- other way round gives the opposite, and a version below one that is below a third is below it.
pub compare_version-IsTotal : (v w x : Version) → IsTotal v w x
compare_version-IsTotal v w x = record {
  equal = (
    compare_version-same v w,
    λ e. subst (λ y. compare_version v y ≡ same) e (compare_version_refl v),
  );
  converse = compare_version-opposite v w;
  transitive = compare_version_trans v w x;
}
