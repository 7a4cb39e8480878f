-- ===== src/Toolchain/Dotnet.antt =====
-- The dotnet of the engine: the newest one, and of several with its version the first by path.
use soft_ue_index.Base.{
  ◌≡◌, refl, sym, ◌∙◌, subst, Bool, true, false, Option, some, none, List, [], ◌∷◌, All, arith, ◌⊎◌,
  inl, inr, Bool-cases,
}
use soft_ue_index.Base.Text.{Bytes, one_of, eqb_refl}
use soft_ue_index.Toolchain.{Version, Sign, less, same, greater, compare_version, Texts}
use soft_ue_index.Toolchain.Order.{compare_version-IsTotal}
use soft_ue_index.Toolchain.Places.{
  Machine, before, select_dotnet, select_dotnets, dotnet_version, dotnet_paths, find_bundled_dotnet,
}

abbrev wins : Sign → Bool → Bool
wins greater _ = true
wins same first = first
wins less _ = false

-- The first path and version are preferred to the second ones.
unfoldable pub preferred : Bytes × Version → Bytes × Version → Bool
preferred (p, v) (q, w) = wins (compare_version v w) (before p q)

before_trans : (p q r : Bytes) → before p q ≡ true → before q r ≡ true → before p r ≡ true
unfolding before
before_trans [] [] r h k = absurd cc
before_trans [] (b ∷ q) [] h k = absurd cc
before_trans [] (b ∷ q) (c ∷ r) h k = refl
before_trans (a ∷ p) [] r h k = absurd cc
before_trans (a ∷ p) (b ∷ q) [] h k = absurd cc
before_trans (a ∷ p) (b ∷ q) (c ∷ r) h k = ground (arith, before_trans p q r, h, k)

before_irrefl : (p : Bytes) → before p p ≡ false
unfolding before
before_irrefl [] = refl
before_irrefl (a ∷ p) = ground (arith, before_irrefl p)

greater_trans :
    (u v w : Version)
    → compare_version u v ≡ greater
    → compare_version v w ≡ greater
    → compare_version u w ≡ greater
greater_trans u v w h k = ground (
  arith,
  (compare_version-IsTotal u v w).converse,
  (compare_version-IsTotal v w u).converse,
  (compare_version-IsTotal u w v).converse,
  (compare_version-IsTotal w v u).transitive,
  h,
  k,
)

preferred_trans :
    (a b c : Bytes × Version) → preferred a b ≡ true → preferred b c ≡ true → preferred a c ≡ true
unfolding preferred
preferred_trans (p, u) (q, v) (r, w) h k = grind (
  arith,
  before_trans p q r,
  greater_trans u v w,
  (compare_version-IsTotal u v w).equal,
  (compare_version-IsTotal v w u).equal,
  (compare_version-IsTotal u w v).equal,
  h,
  k,
)

preferred_irrefl : (a : Bytes × Version) → preferred a a ≡ false
unfolding preferred
preferred_irrefl (p, v) = ground (arith, (compare_version-IsTotal v v v).equal, before_irrefl p)

before_total : (p q : Bytes) → before p q ≡ false → (before q p ≡ true) ⊎ (p ≡ q)
unfolding before
before_total [] [] h = inr refl
before_total [] (b ∷ q) h = absurd cc
before_total (a ∷ p) [] h = inl refl
before_total (a ∷ p) (b ∷ q) h = ground (arith, before_total p q, h)

preferred_total : (a b : Bytes × Version) → preferred a b ≡ false → (preferred b a ≡ true) ⊎ (a ≡ b)
unfolding preferred
preferred_total (p, u) (q, v) h = grind (
  arith,
  before_total p q,
  (compare_version-IsTotal u v u).equal,
  (compare_version-IsTotal v u u).equal,
  (compare_version-IsTotal u v u).converse,
  h,
)

no_confusion : true ≡ false → ⊥
no_confusion e = cc

not_preferred_trans :
    (a b c : Bytes × Version)
    → preferred a b ≡ false
    → preferred b c ≡ false
    → preferred a c ≡ false
not_preferred_trans a b c h k = elim (preferred_total a b h) [
  | inl above ↦ elim (Bool-cases (preferred a c)) [
    | inl yes_a ↦ absurd (no_confusion (sym (preferred_trans b a c above yes_a) ∙ k))
    | inr no_a ↦ no_a
  ]
  | inr same_one ↦ subst (λ x. preferred x c ≡ false) (sym same_one) k
]

preferred_asym : (a b : Bytes × Version) → preferred a b ≡ true → preferred b a ≡ false
preferred_asym a b h = elim (Bool-cases (preferred b a)) [
  | inl k ↦ absurd (no_confusion (sym (preferred_trans a b a h k) ∙ preferred_irrefl a))
  | inr k ↦ k
]

taken_first :
    (p : Bytes) (v : Version) (o : Bytes × Version)
    → preferred (p, v) o ≡ true
    → select_dotnet p (some v) (some o) ≡ some (p, v)
unfolding preferred
taken_first p v (q, w) h = ground (arith, h)

kept_first :
    (p : Bytes) (v : Version) (o : Bytes × Version)
    → preferred (p, v) o ≡ false
    → select_dotnet p (some v) (some o) ≡ some o
unfolding preferred
kept_first p v (q, w) h = ground (arith, h)

module _ (version : Bytes → Option Version) where
  abbrev pub beats : Bytes → Bytes × Version → Bool
  beats q s = elim (version q) [ none ↦ false | some w ↦ preferred (q, w) s ]

  -- A path that was selected: it is one of the paths and has the version, and no path with a
  -- version is preferred to it.
  pub record Newest (paths : List Bytes) (p : Bytes) (v : Version) : Type 0 where
    pub among : one_of p paths ≡ true
    pub has_version : version p ≡ some v
    pub unbeaten : All (λ q. beats q (p, v) ≡ false) paths

  -- What is selected after the paths, from what was selected before.
  abbrev From : List Bytes → Option (Bytes × Version) → Option (Bytes × Version) → Type 0
  From paths none none = All (λ q. version q ≡ none) paths
  From paths (some o) none = ⊥
  From paths none (some (p, v)) = Newest paths p v
  From paths (some o) (some s) =
      ((o ≡ s) ⊎ (Newest paths s.0 s.1))
      × All (λ q. beats q s ≡ false) paths
      × (preferred o s ≡ false)

  among_more : (x p : Bytes) (rest : List Bytes) → one_of x rest ≡ true → one_of x (p ∷ rest) ≡ true
  unfolding one_of
  among_more x p rest h = ground (arith, h)

  among_first : (p : Bytes) (rest : List Bytes) → one_of p (p ∷ rest) ≡ true
  unfolding one_of
  among_first p rest = ground (arith, eqb_refl p)

  silent : (p : Bytes) (s : Bytes × Version) → version p ≡ none → beats p s ≡ false
  silent p s e = rw (e, beats) refl

  speaks :
      (p : Bytes) (v : Version) (s : Bytes × Version)
      → version p ≡ some v
      → preferred (p, v) s ≡ false
      → beats p s ≡ false
  speaks p v s e h = rw (e, beats) h

  Newest-more :
      (p : Bytes) (rest : List Bytes) (s : Bytes × Version)
      → beats p s ≡ false
      → Newest rest s.0 s.1
      → Newest (p ∷ rest) s.0 s.1
  Newest-more p rest s e h = record {
    among = among_more s.0 p rest h.among;
    has_version = h.has_version;
    unbeaten = (e, h.unbeaten);
  }

  -- the path itself was selected and stayed so, or a later one was
  Newest-first :
      (p : Bytes) (v : Version) (rest : List Bytes) (s : Bytes × Version)
      → version p ≡ some v
      → ((p, v) ≡ s) ⊎ (Newest rest s.0 s.1)
      → All (λ q. beats q s ≡ false) rest
      → preferred (p, v) s ≡ false
      → Newest (p ∷ rest) s.0 s.1
  Newest-first p v rest s e (inl here) unbeaten h =
      subst (λ (x : Bytes × Version). Newest (p ∷ rest) x.0 x.1) here
        (record {
          among = among_first p rest;
          has_version = e;
          unbeaten =
              subst (λ x. All (λ q. beats q x ≡ false) (p ∷ rest)) (sym here)
                (speaks p v s e h, unbeaten);
        })
  Newest-first p v rest s e (inr later) unbeaten h = Newest-more p rest s (speaks p v s e h) later

  select_none :
      (p : Bytes) (rest : List Bytes) (o r : Option (Bytes × Version))
      → version p ≡ none
      → From rest o r
      → From (p ∷ rest) o r
  select_none p rest none none e h = (e, h)
  select_none p rest (some o) none e h = h
  select_none p rest none (some s) e h = Newest-more p rest s (silent p s e) h
  select_none p rest (some o) (some s) e (inl same_one, unbeaten, top) =
      (inl same_one, (silent p s e, unbeaten), top)
  select_none p rest (some o) (some s) e (inr later, unbeaten, top) =
      (inr (Newest-more p rest s (silent p s e) later), (silent p s e, unbeaten), top)

  select_first :
      (p : Bytes) (v : Version) (rest : List Bytes) (r : Option (Bytes × Version))
      → version p ≡ some v
      → From rest (some (p, v)) r
      → From (p ∷ rest) none r
  select_first p v rest none e h = absurd h
  select_first p v rest (some s) e (what, unbeaten, top) =
      Newest-first p v rest s e what unbeaten top

  select_better :
      (p : Bytes) (v : Version) (rest : List Bytes) (o : Bytes × Version)
      (r : Option (Bytes × Version))
      → version p ≡ some v
      → preferred (p, v) o ≡ true
      → From rest (some (p, v)) r
      → From (p ∷ rest) (some o) r
  select_better p v rest o none e better h = h
  select_better p v rest o (some s) e better (what, unbeaten, top) = (
    inr (Newest-first p v rest s e what unbeaten top),
    (speaks p v s e top, unbeaten),
    not_preferred_trans o (p, v) s (preferred_asym (p, v) o better) top,
  )

  select_worse :
      (p : Bytes) (v : Version) (rest : List Bytes) (o : Bytes × Version)
      (r : Option (Bytes × Version))
      → version p ≡ some v
      → preferred (p, v) o ≡ false
      → From rest (some o) r
      → From (p ∷ rest) (some o) r
  select_worse p v rest o none e worse h = h
  select_worse p v rest o (some s) e worse (inl same_one, unbeaten, top) =
      (inl same_one, (speaks p v s e (not_preferred_trans (p, v) o s worse top), unbeaten), top)
  select_worse p v rest o (some s) e worse (inr later, unbeaten, top) =
      let below = speaks p v s e (not_preferred_trans (p, v) o s worse top) in
      (inr (Newest-more p rest s below later), (below, unbeaten), top)

  select-From :
      (p : Bytes) (rest : List Bytes) (o r : Option (Bytes × Version)) (vp : Option Version)
      → version p ≡ vp
      → From rest (select_dotnet p vp o) r
      → From (p ∷ rest) o r
  select-From p rest o r none e h = select_none p rest o r e h
  select-From p rest none r (some v) e h = select_first p v rest r e h
  select-From p rest (some o) r (some v) e h = elim (Bool-cases (preferred (p, v) o)) [
    | inl b ↦ select_better p v rest o r e b (subst (λ x. From rest x r) (taken_first p v o b) h)
    | inr b ↦ select_worse p v rest o r e b (subst (λ x. From rest x r) (kept_first p v o b) h)
  ]

  select_dotnets-From :
      (paths : List Bytes) (o : Option (Bytes × Version))
      → From paths o (select_dotnets version paths o)
  unfolding select_dotnets
  select_dotnets-From [] none = tt
  select_dotnets-From [] (some o) = (inl refl, tt, preferred_irrefl o)
  select_dotnets-From (p ∷ rest) o =
      select-From p rest o _ (version p) refl
        (select_dotnets-From rest (select_dotnet p (version p) o))

abbrev pub Bundled : (Bytes → Option Version) → List Bytes → Option (Bytes × Version) → Type 0
Bundled version paths none = All (λ q. version q ≡ none) paths
Bundled version paths (some (p, v)) = Newest version paths p v

From-Bundled :
    (version : Bytes → Option Version) (paths : List Bytes) (r : Option (Bytes × Version))
    → From version paths none r
    → Bundled version paths r
From-Bundled version paths none h = h
From-Bundled version paths (some (p, v)) h = h

-- FindBundledDotnet selects, of the executables that exist and whose directory names a version, one
-- with the newest version, and of several such the one whose path comes first, in whatever order
-- they are found; it selects none only if there is none.
pub find_bundled_dotnet-Bundled :
    (t : Texts) (m : Machine) (version_dir : Bytes → Bytes) (engine_root : Bytes)
    → Bundled
        (dotnet_version t m version_dir)
        (dotnet_paths m engine_root)
        (find_bundled_dotnet t m version_dir engine_root)
unfolding find_bundled_dotnet
find_bundled_dotnet-Bundled t m version_dir engine_root =
    From-Bundled _ (dotnet_paths m engine_root) _
      (select_dotnets-From (dotnet_version t m version_dir) (dotnet_paths m engine_root) none)
