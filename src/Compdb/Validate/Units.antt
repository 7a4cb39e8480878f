-- ===== src/Compdb/Validate/Units.antt =====
-- The entries of a database that Validate accepts, and what it counts.
use soft_ue_index.Base.{
  ℕ, suc, ◌+◌, ◌≤◌, ◌≡◌, refl, subst, Bool, true, false, Option, some, none, List, [], ◌∷◌, ◌==◌,
  ◌||◌, ◌&&◌, not, arith, if_intro,
}
use soft_ue_index.Base.Text.{Bytes, is_empty}
use soft_ue_index.Base.Result.{Result, ok, through, unless_ok}
use soft_ue_index.Compdb.Entries.{DatabaseEntry}
use soft_ue_index.Compdb.Validate.{
  ValidationError, missing_field, not_regular, Tree, DatabaseText, Scope, in_project, in_engine,
  elsewhere, unit_scope, within, rooted, no_arguments, check_compiler, arguments_of, validate_entry,
  Coverage, count, validate_items, ValidationResult, no_coverage, resolve, validate_database,
}

-- Where a source lies: `in_project` inside the project, `in_engine` inside the engine only.
abbrev pub Lies : Tree → Bytes → Bytes → Bytes → Scope → Type 0
Lies t project engine source in_project = within t source project ≡ true
Lies t project engine source in_engine =
    (within t source project ≡ false) × (within t source engine ≡ true)
Lies t project engine source elsewhere =
    (within t source project ≡ false) × (within t source engine ≡ false)

-- An entry that validateEntry accepts: its source is a regular file that lies in the scope.
pub record Accepted (t : Tree) (project engine : Bytes) (e : DatabaseEntry) (scope : Scope)
    : Type 0 where
  pub text : Bytes
  pub accepts : validate_entry t project engine e ≡ ok (text, scope)
  pub directory : Bytes
  pub source : Bytes
  pub rooted_there : resolve t e.directory ≡ ok directory
  pub resolved : resolve t (rooted t directory e.file) ≡ ok source
  pub regular : t.is_regular source ≡ true
  pub lies : Lies t project engine source scope

-- Entries that were all decoded and accepted, with the numbers of those in the project and of those
-- in the engine.
pub data Units (t : Tree) (project engine : Bytes)
    : List (Option DatabaseEntry) → ℕ → ℕ → Type 0 where
  no_units : Units t project engine [] 0 0
  project_unit :
      {e : DatabaseEntry} {rest : List (Option DatabaseEntry)} {m n : ℕ}
      → Accepted t project engine e in_project
      → Units t project engine rest m n
      → Units t project engine (some e ∷ rest) (suc m) n
  engine_unit :
      {e : DatabaseEntry} {rest : List (Option DatabaseEntry)} {m n : ℕ}
      → Accepted t project engine e in_engine
      → Units t project engine rest m n
      → Units t project engine (some e ∷ rest) m (suc n)
  other_unit :
      {e : DatabaseEntry} {rest : List (Option DatabaseEntry)} {m n : ℕ}
      → Accepted t project engine e elsewhere
      → Units t project engine rest m n
      → Units t project engine (some e ∷ rest) m n

not_zero : (m n : ℕ) → (m == 0 || n == 0) ≡ false → (1 ≤ m) × (1 ≤ n)
not_zero m n h = (ground (arith, h), ground (arith, h))

negated : (b : Bool) → not b ≡ false → b ≡ true
negated true h = refl
negated false h = absurd cc

value_ok : {A : Type 0} {a b : A} → ◌≡◌ {A = Result ValidationError A} (ok a) (ok b) → a ≡ b
value_ok e = cc

module _ (t : Tree) (project engine : Bytes) where
  Lies-unit_scope :
      (source : Bytes) → Lies t project engine source (unit_scope t project engine source)
  Lies-unit_scope source =
      if_intro (Lies t project engine source) (within t source project) _ _ (λ a. a)
        (λ a.
          if_intro (Lies t project engine source) (within t source engine) _ _ (λ b. (a, b))
            (λ b. (a, b)))

  validate_entry-Accepted :
      (e : DatabaseEntry) {found : Bytes × Scope}
      → validate_entry t project engine e ≡ ok found
      → Accepted t project engine e found.1
  unfolding validate_entry
  validate_entry-Accepted e {found} h =
      let (_, h0) =
        unless_ok
          (is_empty e.directory
            || (is_empty e.file || (is_empty e.command && no_arguments e.arguments)))
          missing_field _ h in
      let (directory, there, h1) = through (resolve t e.directory) _ h0 in
      let (source, resolved, h2) = through (resolve t (rooted t directory e.file)) _ h1 in
      let (regular, h3) = unless_ok (not (t.is_regular source)) (not_regular source) _ h2 in
      let (_, _, h4) = through (check_compiler t directory (arguments_of e)) _ h3 in
      let same = value_ok h4 in
      record {
        text = found.0;
        accepts = h;
        directory = directory;
        source = source;
        rooted_there = there;
        resolved = resolved;
        regular = negated _ regular;
        lies =
            subst (λ (x : Bytes × Scope). Lies t project engine source x.1) same
              (Lies-unit_scope source);
      }

  -- the entries of a list, and what the loop adds for them to its counts
  pub record Counted (items : List (Option DatabaseEntry)) (c last : Coverage) : Type 0 where
    pub in_projects : ℕ
    pub in_engines : ℕ
    pub units : Units t project engine items in_projects in_engines
    pub project_sum : last.project_units ≡ c.project_units + in_projects
    pub engine_sum : last.engine_units ≡ c.engine_units + in_engines

  counted :
      (e : DatabaseEntry) (rest : List (Option DatabaseEntry)) (scope : Scope) (c last : Coverage)
      → Accepted t project engine e scope
      → Counted rest (count scope c) last
      → Counted (some e ∷ rest) c last
  counted e rest in_project c last a h = record {
    in_projects = suc h.in_projects;
    in_engines = h.in_engines;
    units = project_unit a h.units;
    project_sum = omega (arith, h.project_sum);
    engine_sum = h.engine_sum;
  }
  counted e rest in_engine c last a h = record {
    in_projects = h.in_projects;
    in_engines = suc h.in_engines;
    units = engine_unit a h.units;
    project_sum = h.project_sum;
    engine_sum = omega (arith, h.engine_sum);
  }
  counted e rest elsewhere c last a h = record {
    in_projects = h.in_projects;
    in_engines = h.in_engines;
    units = other_unit a h.units;
    project_sum = h.project_sum;
    engine_sum = h.engine_sum;
  }

  forget_text :
      (items : List (Option DatabaseEntry)) (scope : Scope) (c last : Coverage) (texts : List Bytes)
      → Counted items (count scope (record c { normalized = texts })) last
      → Counted items (count scope c) last
  forget_text items in_project c last texts h = record {
    in_projects = h.in_projects;
    in_engines = h.in_engines;
    units = h.units;
    project_sum = h.project_sum;
    engine_sum = h.engine_sum;
  }
  forget_text items in_engine c last texts h = record {
    in_projects = h.in_projects;
    in_engines = h.in_engines;
    units = h.units;
    project_sum = h.project_sum;
    engine_sum = h.engine_sum;
  }
  forget_text items elsewhere c last texts h = record {
    in_projects = h.in_projects;
    in_engines = h.in_engines;
    units = h.units;
    project_sum = h.project_sum;
    engine_sum = h.engine_sum;
  }

  validate_items-Counted :
      (items : List (Option DatabaseEntry)) (c : Coverage) {last : Coverage}
      → validate_items t project engine items c ≡ ok last
      → Counted items c last
  unfolding validate_items
  validate_items-Counted [] c h = subst (Counted [] c) (value_ok h) (record {
    in_projects = 0;
    in_engines = 0;
    units = no_units;
    project_sum = omega arith;
    engine_sum = omega arith;
  })
  validate_items-Counted (none ∷ rest) c h = absurd cc
  validate_items-Counted (some e ∷ rest) c {last} h =
      let (found, h0, h1) = through (validate_entry t project engine e) _ h in
      counted e rest found.1 c last (validate_entry-Accepted e h0)
        (forget_text rest found.1 c last _ (validate_items-Counted rest _ h1))

  from_nothing :
      (items : List (Option DatabaseEntry)) (c : Coverage)
      → Counted items no_coverage c
      → Units t project engine items c.project_units c.engine_units
  from_nothing items c h =
      let projects : h.in_projects ≡ c.project_units = omega (arith, h.project_sum) in
      let engines : h.in_engines ≡ c.engine_units = omega (arith, h.engine_sum) in
      subst (λ m. Units t project engine items m c.engine_units) projects
        (subst (λ n. Units t project engine items h.in_projects n) engines h.units)

-- The text is an array of accepted entries that ends where the file ends, and the result counts
-- those of the project and those of the engine, of which there is at least one each.
pub record Covers (t : Tree) (project_root engine_root : Bytes) (text : DatabaseText)
    (r : ValidationResult) : Type 0 where
  pub project : Bytes
  pub engine : Bytes
  pub project_found : resolve t project_root ≡ ok project
  pub engine_found : resolve t engine_root ≡ ok engine
  pub whole : (text.is_array ≡ true) × (text.is_closed ≡ true) × (text.is_whole ≡ true)
  pub units :
      Units t project engine text.items r.project_translation_units r.engine_translation_units
  pub both : (1 ≤ r.project_translation_units) × (1 ≤ r.engine_translation_units)

pub validate_database-Covers :
    (t : Tree) (project_root engine_root : Bytes) (text : DatabaseText) {r : ValidationResult}
    → validate_database t project_root engine_root (some text) ≡ ok r
    → Covers t project_root engine_root text r
unfolding validate_database
validate_database-Covers t project_root engine_root text h =
    let (project, found, h1) = through (resolve t project_root) _ h in
    let (engine, found_engine, h2) = through (resolve t engine_root) _ h1 in
    let (array, h3) = unless_ok (not text.is_array) _ _ h2 in
    let (c, checked, h4) = through (validate_items t project engine text.items no_coverage) _ h3 in
    let (closed, h5) = unless_ok (not text.is_closed) _ _ h4 in
    let (whole, h6) = unless_ok (not text.is_whole) _ _ h5 in
    let (covered, h7) = unless_ok (c.project_units == 0 || c.engine_units == 0) _ _ h6 in
    subst (Covers t project_root engine_root text) (value_ok h7) (record {
      project = project;
      engine = engine;
      project_found = found;
      engine_found = found_engine;
      whole = (negated _ array, negated _ closed, negated _ whole);
      units =
          from_nothing t project engine text.items c
            (validate_items-Counted t project engine text.items no_coverage checked);
      both = not_zero c.project_units c.engine_units covered;
    })
