-- ===== src/Compdb/Rider/Units.antt =====
-- What a synthesized database holds.
use soft_ue_index.Base.{
  ℕ, ◌+◌, ◌≤◌, ◌≡◌, refl, sym, ◌∙◌, subst, Bool, true, false, not, ◌||◌, ◌==◌, Option, some, none,
  List, [], ◌∷◌, ◌++◌, length, if_intro, if_true, if_false, arith, All, All-append, Bool-cases, inl,
  inr,
}
use soft_ue_index.Base.Text.{Bytes, eqb, eqb_iff, to_lower}
use soft_ue_index.Base.Result.{Result, ok, through, unless_ok}
use soft_ue_index.Compdb.Entries.{DatabaseEntry}
use soft_ue_index.Compdb.Rider.{ResolvedModule, response}
use soft_ue_index.Compdb.Rider.Modules.{
  insert_by, sort_by, lookup_module, index_modules, rider_module_walk_roots,
}
use soft_ue_index.Compdb.Rider.Covered.{sort_by-All}
use soft_ue_index.Compdb.Rider.Target.{RiderError}
use soft_ue_index.Compdb.Rider.Synthesis.{
  RiderInput, RiderResult, RiderWorld, is_inside, is_unit, owned, Setup, module_of_source, unit_of,
  entry_of, has_file, add_unit, add_units, walk_all, unit_before, count_units, set_up,
  synthesize_rider,
}

-- No two entries are for the same file, in whatever case.
abbrev pub Distinct : List DatabaseEntry → Type 0
Distinct [] = Unit
Distinct (e ∷ rest) = (has_file (to_lower e.file) rest ≡ false) × Distinct rest

has_file-append :
    (key : Bytes) (xs : List DatabaseEntry) (e : DatabaseEntry)
    → has_file key (xs ++ (e ∷ [])) ≡ (has_file key xs || eqb (to_lower e.file) key)
unfolding has_file
has_file-append key [] e = ground arith
has_file-append key (x ∷ xs) e = ground (arith, has_file-append key xs e)

Distinct-append :
    (xs : List DatabaseEntry) (e : DatabaseEntry)
    → has_file (to_lower e.file) xs ≡ false
    → Distinct xs
    → Distinct (xs ++ (e ∷ []))
unfolding has_file
Distinct-append [] e h d = (refl, tt)
Distinct-append (x ∷ xs) e h d = (
  ground (
    arith,
    has_file-append (to_lower x.file) xs e,
    d.0,
    h,
    eqb_iff (to_lower x.file) (to_lower e.file),
    eqb_iff (to_lower e.file) (to_lower x.file),
  ),
  Distinct-append xs e (ground (arith, h)) d.1,
)

module _ (less : DatabaseEntry → DatabaseEntry → Bool) where
  has_file-insert_by :
      (key : Bytes) (e : DatabaseEntry) (xs : List DatabaseEntry)
      → has_file key (insert_by less e xs) ≡ (eqb (to_lower e.file) key || has_file key xs)
  unfolding has_file insert_by
  has_file-insert_by key e [] = refl
  has_file-insert_by key e (x ∷ xs) = ground (arith, has_file-insert_by key e xs)

  has_file-sort_by :
      (key : Bytes) (xs : List DatabaseEntry) → has_file key (sort_by less xs) ≡ has_file key xs
  unfolding has_file sort_by
  has_file-sort_by key [] = refl
  has_file-sort_by key (x ∷ xs) =
      has_file-insert_by key x (sort_by less xs) ∙ cc (has_file-sort_by key xs)

  Distinct-insert_by :
      (e : DatabaseEntry) (xs : List DatabaseEntry)
      → has_file (to_lower e.file) xs ≡ false
      → Distinct xs
      → Distinct (insert_by less e xs)
  unfolding insert_by has_file
  Distinct-insert_by e [] h d = (refl, tt)
  Distinct-insert_by e (x ∷ xs) h d =
      if_intro Distinct (less x e) _ _
        (λ _. (
          has_file-insert_by (to_lower x.file) e xs
              ∙ ground (
                arith,
                h,
                d.0,
                eqb_iff (to_lower x.file) (to_lower e.file),
                eqb_iff (to_lower e.file) (to_lower x.file),
              ),
          Distinct-insert_by e xs (ground (arith, h)) d.1,
        ))
        (λ _. (h, d))

  Distinct-sort_by : (xs : List DatabaseEntry) → Distinct xs → Distinct (sort_by less xs)
  unfolding sort_by
  Distinct-sort_by [] d = tt
  Distinct-sort_by (x ∷ xs) d =
      Distinct-insert_by x (sort_by less xs) (has_file-sort_by (to_lower x.file) xs ∙ d.0)
        (Distinct-sort_by xs d.1)

value_ok : {A : Type 0} {a b : A} → ◌≡◌ {A = Result RiderError A} (ok a) (ok b) → a ≡ b
value_ok e = cc

no_some : {A : Type 0} (a : A) → none ≡ some a → ⊥
no_some a e = cc

module _ (w : RiderWorld) (u : Setup) where
  -- The file lies inside the project or the engine, and is compiled from its response file.
  pub record IsUnit (e : DatabaseEntry) : Type 0 where
    pub inside : is_inside w u.project u.engine e.file ≡ true
    pub rsp : Bytes
    pub compiled : e.arguments ≡ u.compiler ∷ (b'@' ∷ rsp) ∷ e.file ∷ []

  pub record Good (entries : List DatabaseEntry) : Type 0 where
    pub units : All IsUnit entries
    pub distinct : Distinct entries

  module_of_source-inside :
      (o : Option Bytes) {source : Bytes} {m : ResolvedModule}
      → module_of_source w u o ≡ some (source, m)
      → is_inside w u.project u.engine source ≡ true
  module_of_source-inside none h = cc
  module_of_source-inside (some s) {source} {m} h =
      elim (Bool-cases (is_inside w u.project u.engine s)) [
        | inl b ↦
            subst (λ x. is_inside w u.project u.engine x ≡ true)
              (same_source (lookup_module w.files.ops (index_modules w.files.ops u.modules []) s)
                (sym (if_true _ _ _ b) ∙ h))
              b
        | inr b ↦ absurd (no_some _ (sym (if_false _ _ _ b) ∙ h))
      ]
    where
      same_source :
          (found : Option (Option ResolvedModule)) → owned s found ≡ some (source, m) → s ≡ source
      same_source none e = absurd (no_some _ e)
      same_source (some none) e = absurd (no_some _ e)
      same_source (some (some k)) e = cc

  unit_of-inside :
      (path : Bytes) {source : Bytes} {m : ResolvedModule}
      → unit_of w u path ≡ some (source, m)
      → is_inside w u.project u.engine source ≡ true
  unfolding unit_of
  unit_of-inside path {source} {m} h = elim (Bool-cases (is_unit (to_lower (w.ext path)))) [
    | inl b ↦ module_of_source-inside (w.files.canonical path) (sym (if_true _ _ _ b) ∙ h)
    | inr b ↦ absurd (no_some _ (sym (if_false _ _ _ b) ∙ h))
  ]

  add_unit-Good :
      (o : Option (Bytes × ResolvedModule)) (entries : List DatabaseEntry)
      {more : List DatabaseEntry} (path : Bytes)
      → unit_of w u path ≡ o
      → Good entries
      → add_unit w u o entries ≡ ok more
      → Good more
  add_unit-Good none entries path e g h = subst Good (value_ok h) g
  add_unit-Good (some (source, m)) entries path e g h =
      let (rsp, _, h1) =
        through (w.store (response w.files.ops m u.include_paths u.root_definitions)) _ h in
      let entry = entry_of u.compiler m rsp source in
      subst Good (value_ok h1) (
        if_intro Good (has_file (to_lower source) entries) entries (entries ++ (entry ∷ []))
          (λ _. g)
          (λ b. record {
            units =
                All-append IsUnit entries (entry ∷ []) g.units
                  (record { inside = unit_of-inside path e; rsp = rsp; compiled = refl }, tt);
            distinct = Distinct-append entries entry b g.distinct;
          }))

  add_units-Good :
      (paths : List Bytes) (entries : List DatabaseEntry) {last : List DatabaseEntry}
      → Good entries
      → add_units w u paths entries ≡ ok last
      → Good last
  unfolding add_units
  add_units-Good [] entries g h = subst Good (value_ok h) g
  add_units-Good (path ∷ rest) entries g h =
      let (more, h0, h1) = through (add_unit w u (unit_of w u path) entries) _ h in
      add_units-Good rest more (add_unit-Good (unit_of w u path) entries path refl g h0) h1

  walk_all-Good :
      (roots : List Bytes) (entries : List DatabaseEntry) {last : List DatabaseEntry}
      → Good entries
      → walk_all w u roots entries ≡ ok last
      → Good last
  unfolding walk_all
  walk_all-Good [] entries g h = subst Good (value_ok h) g
  walk_all-Good (root ∷ rest) entries g h =
      let (more, h0, h1) = through (add_units w u (w.walk root) entries) _ h in
      walk_all-Good rest more (add_units-Good (w.walk root) entries g h0) h1

  count_units_lem :
      (entries : List DatabaseEntry)
      → All IsUnit entries
      → (count_units w u entries).0 + (count_units w u entries).1 ≡ length entries
  unfolding count_units
  count_units_lem [] h = refl
  count_units_lem (e ∷ rest) h = ground (arith, h.0.inside, count_units_lem rest h.1)

was_true : (b : Bool) → not b ≡ false → b ≡ true
was_true b h = ground (arith, h)

first_some : (a b : ℕ) → (a == 0 || b == 0) ≡ false → 1 ≤ a
first_some a b h = ground (arith, h)

second_some : (a b : ℕ) → (a == 0 || b == 0) ≡ false → 1 ≤ b
second_some a b h = ground (arith, h)

-- A database that was synthesized.
pub record Synthesized (w : RiderWorld) (input : RiderInput) (entries : List DatabaseEntry)
    (r : RiderResult) : Type 0 where
  pub setup : Setup
  pub from_metadata : set_up w input ≡ ok setup
  pub units : All (IsUnit w setup) entries
  pub distinct : Distinct entries
  pub written : w.write_database entries ≡ true
  pub counted : r.project_translation_units + r.engine_translation_units ≡ length entries
  pub project_covered : 1 ≤ r.project_translation_units
  pub engine_covered : 1 ≤ r.engine_translation_units

-- Every database that SynthesizeRider writes and accepts holds, for each source file at most once in
-- whatever case, an entry that lies inside the project or the engine and is compiled by the chosen
-- compiler from a response file; each of its entries is counted for the project or for the engine,
-- and both have some.
pub synthesize_rider_sound :
    (w : RiderWorld) (input : RiderInput) {entries : List DatabaseEntry} {r : RiderResult}
    → synthesize_rider w input ≡ ok (entries, r)
    → Synthesized w input entries r
unfolding synthesize_rider
synthesize_rider_sound w input {entries} {r} h =
    let (u, from_metadata, h1) = through (set_up w input) _ h in
    let (_, h2) = unless_ok (not w.make_staging) _ _ h1 in
    let (found, walked, h3) =
      through (walk_all w u (rider_module_walk_roots w.files.ops u.modules) []) _ h2 in
    let last = sort_by (unit_before w u) found in
    let good =
      walk_all-Good w u (rider_module_walk_roots w.files.ops u.modules) []
        (record { units = tt; distinct = tt }) walked in
    let units = sort_by-All (unit_before w u) (IsUnit w u) found good.units in
    let (kept, h4) = unless_ok (not (w.write_database last)) _ _ h3 in
    let (covered, h5) =
      unless_ok ((count_units w u last).0 == 0 || (count_units w u last).1 == 0) _ _ h4 in
    subst (λ (x : List DatabaseEntry × RiderResult). Synthesized w input x.0 x.1) (value_ok h5)
      (record {
        setup = u;
        from_metadata = from_metadata;
        units = units;
        distinct = Distinct-sort_by (unit_before w u) found good.distinct;
        written = was_true _ kept;
        counted = count_units_lem w u last units;
        project_covered = first_some _ _ covered;
        engine_covered = second_some _ _ covered;
      })
