-- ===== src/Compdb/Rider/Nearest.antt =====
-- The module of a file is the one of the nearest directory above it.
use soft_ue_index.Base.{
  ℕ, zero, suc, ◌<◌, ◌≡◌, refl, sym, ◌∙◌, Bool, true, false, inl, inr, Option, some, none, List, [],
  ◌∷◌, length, if◌then◌else◌, arith, if_intro, is_some,
}
use soft_ue_index.Base.Text.{Bytes, eqb, eqb_iff}
use soft_ue_index.Base.Paths.{Climbs}
use soft_ue_index.Base.Assoc.{Assoc, lookup, insert, lookup-insert}
use soft_ue_index.Compdb.Rider.{ResolvedModule, PathOps}
use soft_ue_index.Compdb.Rider.Modules.{index_modules, lookup_from, lookup_module}

module _ (p : PathOps) where
  -- the first module of a directory
  unfoldable pub first_module : List ResolvedModule → Bytes → Option ResolvedModule
  first_module [] key = none
  first_module (m ∷ rest) key =
      let later = first_module rest key in if eqb (p.path_key m.dir) key then some m else later

  abbrev or_in : Option ResolvedModule → Option ResolvedModule → Option ResolvedModule
  or_in (some m) o = some m
  or_in none o = o

  or_in-none : (o : Option ResolvedModule) → or_in o none ≡ o
  or_in-none none = refl
  or_in-none (some m) = refl

  index_modules-first_module :
      (modules : List ResolvedModule) (index : Assoc ResolvedModule) (key : Bytes)
      → lookup key (index_modules p modules index)
        ≡ or_in (lookup key index) (first_module modules key)
  unfolding index_modules first_module
  index_modules-first_module [] index key = sym (or_in-none (lookup key index))
  index_modules-first_module (m ∷ rest) index key =
      index_modules-first_module rest
        (if is_some (lookup (p.path_key m.dir) index)
          then index
          else insert (p.path_key m.dir) m index)
        key
      ∙ ground (arith, lookup-insert (p.path_key m.dir) key m index, eqb_iff (p.path_key m.dir) key)

  -- The module that a directory belongs to: its own, or the one of the directory above it.
  pub data Owner (modules : List ResolvedModule) : Bytes → Option ResolvedModule → Type 0 where
    own :
        {d : Bytes} {m : ResolvedModule}
        → first_module modules (p.path_key d) ≡ some m
        → Owner modules d (some m)
    inherited :
        {d : Bytes} {o : Option ResolvedModule}
        → first_module modules (p.path_key d) ≡ none
        → Owner modules (p.dir d) o
        → Owner modules d o
    nobody :
        {d : Bytes}
        → first_module modules (p.path_key d) ≡ none
        → p.dir d ≡ d
        → Owner modules d none

  -- the owner that a lookup answers with
  abbrev pub Answer : List ResolvedModule → Bytes → Option (Option ResolvedModule) → Type 0
  Answer modules d none = ⊥
  Answer modules d (some o) = Owner modules d o

  inherit :
      (modules : List ResolvedModule) (d : Bytes) (o : Option (Option ResolvedModule))
      → first_module modules (p.path_key d) ≡ none
      → Answer modules (p.dir d) o
      → Answer modules d o
  inherit modules d none e h = h
  inherit modules d (some o) e h = inherited e h

  module _ (rooted : Bytes → Bool) (climbs : Climbs rooted p.dir)
      (modules : List ResolvedModule) where
    shorter : (d : Bytes) → rooted d ≡ true → eqb (p.dir d) d ≡ false → length (p.dir d) < length d
    shorter d here b = elim (climbs d here).1 [
      | inl e ↦ absurd (ground (arith, e, eqb_iff (p.dir d) d))
      | inr h ↦ h
    ]

    index : Assoc ResolvedModule
    index = index_modules p modules []

    index_lem : (key : Bytes) → lookup key index ≡ first_module modules key
    unfolding index lookup
    index_lem key = index_modules-first_module modules [] key

    lookup_from-Answer :
        (fuel : ℕ) (d : Bytes)
        → rooted d ≡ true
        → length d < fuel
        → Answer modules d (lookup_from fuel p index d)
    unfolding lookup_from
    lookup_from-Answer zero d here h = absurd (omega arith)
    lookup_from-Answer (suc fuel) d here h =
        on_lookup (lookup_from-Answer fuel (p.dir d) (climbs d here).0)
          (lookup (p.path_key d) index) (sym (index_lem (p.path_key d)))
      where
        on_lookup :
            (length (p.dir d) < fuel
              → Answer modules (p.dir d) (lookup_from fuel p index (p.dir d)))
            → (o : Option ResolvedModule) → first_module modules (p.path_key d) ≡ o
            → Answer modules d (elim o [
              | some m ↦ some (some m)
              | none ↦ if eqb (p.dir d) d then some none else lookup_from fuel p index (p.dir d)
            ])
        on_lookup later (some m) e = own e
        on_lookup later none e =
            if_intro (Answer modules d) (eqb (p.dir d) d) _ _
              (λ b. nobody e ((eqb_iff (p.dir d) d).0 b))
              (λ b. inherit modules d _ e (later (omega (arith, shorter d here b))))

    -- If the directory of an absolute, clean path is such a path, and is the path itself or shorter,
    -- then the lookup of a file in such a directory ends, within as many probes as the directory has
    -- bytes and one more, with the owner of that directory: the first module of the nearest
    -- directory above the file that is a module's, or none if there is none up to the root.
    pub lookup_module-Owner :
        (file : Bytes)
        → rooted (p.dir (p.clean file)) ≡ true
        → Answer modules (p.dir (p.clean file)) (lookup_module p (index_modules p modules []) file)
    unfolding lookup_module index
    lookup_module-Owner file here =
        let d = p.dir (p.clean file) in lookup_from-Answer (suc (length d)) d here (omega arith)
