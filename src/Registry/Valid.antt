-- ===== src/Registry/Valid.antt =====
-- What a registry that passed normalizeAndValidate is.
use soft_ue_index.Base.{
  ℕ, zero, suc, ◌<◌, ◌≡◌, ◌≢◌, refl, Bool, true, false, not, Option-cases, is_some, Bool-cases,
  List, [], ◌∷◌, length, All, arith, inl, inr, subst, ==_iff, ◌==◌,
}
use soft_ue_index.Base.Text.{Bytes, eqb, eqb_iff, one_of, is_empty, to_lower}
use soft_ue_index.Base.Paths.{Climbs}
use soft_ue_index.Base.Result.{Result, ok, through, unless_ok}
use soft_ue_index.Registry.{
  Project, Registry, RegistryError, current_version, Paths, resolve_from, normalize_project,
  check_projects, normalize_and_validate,
}

-- two projects that a registry may hold together
abbrev pub Apart : Project → Project → Type 0
Apart p q = (to_lower p.id ≢ to_lower q.id) × (to_lower p.uproject ≢ to_lower q.uproject)

abbrev pub AllApart : List Project → Type 0
AllApart [] = Unit
AllApart (p ∷ rest) = All (Apart p) rest × AllApart rest

pub record IsValid (r : Registry) : Type 0 where
  pub known : r.version ≡ current_version
  pub named : All (λ p. is_empty p.id ≡ false) r.projects
  pub apart : AllApart r.projects

-- a project whose keys were not seen yet
abbrev Fresh : List Bytes → List Bytes → Project → Type 0
Fresh ids paths p =
    (is_empty p.id ≡ false)
    × (one_of (to_lower p.id) ids ≡ false)
    × (one_of (to_lower p.uproject) paths ≡ false)

Apart-Fresh :
    (p : Project) (ids paths : List Bytes) (qs : List Project)
    → All (Fresh (to_lower p.id ∷ ids) (to_lower p.uproject ∷ paths)) qs
    → All (Apart p) qs × All (Fresh ids paths) qs
unfolding one_of
Apart-Fresh p ids paths [] h = (tt, tt)
Apart-Fresh p ids paths (q ∷ qs) h =
    let (apart, fresh) = Apart-Fresh p ids paths qs h.1 in
    (
      (
        (
          λ e. ground (arith, eqb_iff (to_lower q.id) (to_lower p.id), h.0),
          λ e. ground (arith, eqb_iff (to_lower q.uproject) (to_lower p.uproject), h.0),
        ),
        apart,
      ),
      (ground (arith, h.0), fresh),
    )

-- `ok (q ∷ rest)` against a list
cons_ok :
    (ids paths : List Bytes) (q : Project) (rest out : List Project)
    → ◌≡◌ {A = Result RegistryError (List Project)} (ok (q ∷ rest)) (ok out)
    → All (Fresh ids paths) (q ∷ rest)
    → AllApart (q ∷ rest)
    → All (Fresh ids paths) out × AllApart out
cons_ok ids paths q rest out e f a =
    let same : (q ∷ rest) ≡ out = cc in
    subst (λ o. All (Fresh ids paths) o × AllApart o) same (f, a)

check_projects-Fresh :
    (os : Paths) (ps : List Project) (ids paths : List Bytes) (out : List Project)
    → check_projects os ps ids paths ≡ ok out
    → All (Fresh ids paths) out × AllApart out
unfolding check_projects
check_projects-Fresh os [] ids paths out e =
    let same : ◌≡◌ {A = List Project} [] out = cc in
    subst (λ o. All (Fresh ids paths) o × AllApart o) same (tt, tt)
check_projects-Fresh os (p ∷ ps) ids paths out e =
    let (q, normal, e1) = through (normalize_project os p) _ e in
    let (named, e2) = unless_ok (is_empty q.id) _ _ e1 in
    let (new_id, e3) = unless_ok (one_of (to_lower q.id) ids) _ _ e2 in
    let (new_path, e4) = unless_ok (one_of (to_lower q.uproject) paths) _ _ e3 in
    let (rest, checked, e5) =
      through (check_projects os ps (to_lower q.id ∷ ids) (to_lower q.uproject ∷ paths)) _ e4 in
    let (fresh, apart) =
      check_projects-Fresh os ps (to_lower q.id ∷ ids) (to_lower q.uproject ∷ paths) rest checked in
    let (others, older) = Apart-Fresh q ids paths rest fresh in
    cons_ok ids paths q rest out e5 ((named, new_id, new_path), older) (others, apart)

named-All : (qs : List Project) → All (Fresh [] []) qs → All (λ p. is_empty p.id ≡ false) qs
named-All [] h = tt
named-All (q ∷ qs) h = (h.0.0, named-All qs h.1)

-- A registry that normalizeAndValidate accepts has the current version, every project of it an ID,
-- and no two of its projects the same ID or the same project file, in whatever case they are
-- written.
pub normalize_and_validate-IsValid :
    (os : Paths) (r r' : Registry) → normalize_and_validate os r ≡ ok r' → IsValid r'
unfolding normalize_and_validate
normalize_and_validate-IsValid os r r' e =
    let (version, e1) = unless_ok (not (r.version == current_version)) _ _ e in
    let (qs, checked, e2) = through (check_projects os r.projects [] []) _ e1 in
    let (fresh, apart) = check_projects-Fresh os r.projects [] [] qs checked in
    let same : record r { projects = qs } ≡ r' = cc in
    subst IsValid same (record {
      known = ground (arith, ==_iff r.version current_version);
      named = named-All qs fresh;
      apart = apart;
    })

-- resolvePathIdentity ends: if the directory of an absolute, clean path is such a path, and is the
-- path itself or shorter, then on such a path the loop has an answer within as many rounds as it has
-- bytes, and one more.
pub resolve_from-ends :
    (os : Paths) (rooted : Bytes → Bool)
    → Climbs rooted os.dir
    → (fuel : ℕ) (path current : Bytes) (missing : List Bytes) → rooted current ≡ true
    → length current < fuel
    → is_some (resolve_from os fuel path current missing) ≡ true
unfolding resolve_from
resolve_from-ends os rooted climbs zero path current missing here h = absurd (omega arith)
resolve_from-ends os rooted climbs (suc fuel) path current missing here h =
    let (above, shorter) = climbs current here in
    elim (Option-cases (os.eval_symlinks current)) [
      | inr (found, e) ↦ rw (e, resolve_from) refl
      | inl e ↦ elim (Bool-cases (eqb (os.dir current) current)) [
        | inl top ↦ rw (e, resolve_from, top) refl
        | inr below ↦
            rw (e, resolve_from, below)
              (resolve_from-ends os rooted climbs fuel path (os.dir current)
                (os.base current ∷ missing) above
                (ground (arith, shorter, eqb_iff (os.dir current) current)))
      ]
    ]
