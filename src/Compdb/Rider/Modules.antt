-- ===== src/Compdb/Rider/Modules.antt =====
-- internal/compdb/rider.go: which module a file belongs to, and which directories are walked.
use soft_ue_index.Base.{
  ℕ, zero, suc, Bool, true, false, ◌&&◌, ◌||◌, Option, some, none, List, [], ◌∷◌, map, length, ltb,
  ◌==◌, if◌then◌else◌, is_some,
}
use soft_ue_index.Base.Text.{Bytes, eqb, one_of}
use soft_ue_index.Base.Assoc.{Assoc, lookup, insert}
use soft_ue_index.Compdb.Rider.{ResolvedModule, PathOps}

-- newRiderModuleIndex: the first module of each directory
unfoldable pub index_modules :
    PathOps → List ResolvedModule → Assoc ResolvedModule → Assoc ResolvedModule
index_modules p [] index = index
index_modules p (m ∷ rest) index =
    index_modules p rest (
      if is_some (lookup (p.path_key m.dir) index)
      then index
      else insert (p.path_key m.dir) m index)

-- The loop of lookupWithProbes, on fuel; `none` when the fuel is spent. A round takes a directory's
-- parent.
unfoldable pub lookup_from :
    ℕ → PathOps → Assoc ResolvedModule → Bytes → Option (Option ResolvedModule)
lookup_from zero p index dir = none
lookup_from (suc fuel) p index dir =
    let above = lookup_from fuel p index (p.dir dir) in
    elim (lookup (p.path_key dir) index) [
      | some m ↦ some (some m)
      | none ↦ if eqb (p.dir dir) dir then some none else above
    ]

unfoldable pub lookup_module :
    PathOps → Assoc ResolvedModule → Bytes → Option (Option ResolvedModule)
lookup_module p index file =
    let dir = p.dir (p.clean file) in lookup_from (suc (length dir)) p index dir

-- the inner loop of riderModuleWalkRoots, on fuel: is a root among a directory and its ancestors?
unfoldable pub is_covered : ℕ → PathOps → List Bytes → Bytes → Bool
is_covered zero p keys dir = false
is_covered (suc fuel) p keys dir =
    let above = is_covered fuel p keys (p.dir dir) in
    if one_of (p.path_key dir) keys then true else if eqb (p.dir dir) dir then false else above

-- its outer loop: the roots, with their keys
unfoldable pub walk_roots : PathOps → List Bytes → List Bytes → List Bytes
walk_roots p keys [] = []
walk_roots p keys (dir ∷ rest) =
    let covered = is_covered (suc (length dir)) p keys dir in
    let later = walk_roots p (if covered then keys else p.path_key dir ∷ keys) rest in
    if covered then later else dir ∷ later

-- `less` of sort.Slice, and the sort
unfoldable pub insert_by : {A : Type 0} → (A → A → Bool) → A → List A → List A
insert_by less x [] = x ∷ []
insert_by less x (y ∷ rest) =
    let later = insert_by less x rest in if less y x then y ∷ later else x ∷ y ∷ rest

unfoldable pub sort_by : {A : Type 0} → (A → A → Bool) → List A → List A
sort_by less [] = []
sort_by less (x ∷ rest) = insert_by less x (sort_by less rest)

unfoldable pub text_before : Bytes → Bytes → Bool
text_before [] [] = false
text_before [] (b ∷ t) = true
text_before (a ∷ s) [] = false
text_before (a ∷ s) (b ∷ t) = ltb a b || ((a == b) && text_before s t)

-- shorter directories first
abbrev pub dir_before : Bytes → Bytes → Bool
dir_before a b = if length a == length b then text_before a b else ltb (length a) (length b)

unfoldable pub rider_module_walk_roots : PathOps → List ResolvedModule → List Bytes
rider_module_walk_roots p modules = walk_roots p [] (sort_by dir_before (map (λ m. m.dir) modules))
