-- ===== src/Compdb/Rider/Covered.antt =====
-- The directories that are walked cover the modules, and none lies below one before it.
use soft_ue_index.Base.{
  ◌≡◌, subst, Bool, true, inl, inr, List, [], ◌∷◌, map, if_true, if_false, if_intro, All,
  Bool-cases,
}
use soft_ue_index.Base.Text.{Bytes, one_of}
use soft_ue_index.Compdb.Rider.{PathOps}
use soft_ue_index.Compdb.Rider.Modules.{walk_roots, insert_by, sort_by}

module _ (p : PathOps) where
  abbrev pub key_in : List Bytes → Bytes → Bool
  key_in roots d = one_of (p.path_key d) (map p.path_key roots)

  -- A directory is one of the roots or lies below one.
  pub data Under (roots : List Bytes) : Bytes → Type 0 where
    root_here : {d : Bytes} → key_in roots d ≡ true → Under roots d
    root_above : {d : Bytes} → Under roots (p.dir d) → Under roots d

  -- the roots in the order in which they were found, behind those that were there
  unfoldable found_after : List Bytes → List Bytes → List Bytes
  found_after roots [] = roots
  found_after roots (r ∷ rest) = found_after (r ∷ roots) rest

  -- No root is below one that was found before it.
  unfoldable pub Fresh : List Bytes → List Bytes → Type 0
  Fresh roots [] = Unit
  Fresh roots (r ∷ rest) = (¬ Under roots r) × Fresh (r ∷ roots) rest

  after : List Bytes → List Bytes → List Bytes
  after roots dirs = found_after roots (walk_roots p (map p.path_key roots) dirs)

module _ {A : Type 0} (less : A → A → Bool) (P : A → Type 0) where
  All-insert_by : (x : A) (xs : List A) → All P (insert_by less x xs) → P x × All P xs
  unfolding insert_by
  All-insert_by x [] h = h
  All-insert_by x (y ∷ rest) h = elim (Bool-cases (less y x)) [
    | inl b ↦
        (let both : P y × All P (insert_by less x rest) =
            subst (All P) (if_true (less y x) _ _ b) h in
          let (px, others) = All-insert_by x rest both.1 in (px, (both.0, others)))
    | inr b ↦ subst (All P) (if_false (less y x) _ _ b) h
  ]

  pub All-sort_by : (xs : List A) → All P (sort_by less xs) → All P xs
  unfolding sort_by
  All-sort_by [] h = tt
  All-sort_by (x ∷ xs) h =
      let (px, others) = All-insert_by x (sort_by less xs) h in (px, All-sort_by xs others)

  insert_by-All : (x : A) (xs : List A) → P x → All P xs → All P (insert_by less x xs)
  unfolding insert_by
  insert_by-All x [] h hs = (h, tt)
  insert_by-All x (y ∷ rest) h hs =
      if_intro (All P) (less y x) _ _ (λ _. (hs.0, insert_by-All x rest h hs.1)) (λ _. (h, hs))

  pub sort_by-All : (xs : List A) → All P xs → All P (sort_by less xs)
  unfolding sort_by
  sort_by-All [] h = tt
  sort_by-All (x ∷ xs) h = insert_by-All x (sort_by less xs) h.0 (sort_by-All xs h.1)
