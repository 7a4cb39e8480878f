-- ===== src/Toolchain/Discovery.antt =====
-- What the discovery of clangd candidates finds.
use soft_ue_index.Base.{
  ◌≡◌, refl, Bool, false, ◌||◌, Option, some, none, List, [], ◌∷◌, if◌then◌else◌, if_intro, arith,
}
use soft_ue_index.Base.Text.{Bytes, eqb, eqb_iff, eqb_refl, one_of, to_lower}
use soft_ue_index.Toolchain.{Candidate}
use soft_ue_index.Toolchain.Places.{mark, remove_seen, Machine, all_candidates, discover_candidates}

-- the first candidate with a path, in whatever case
unfoldable pub find_key : Bytes → List Candidate → Option Candidate
find_key key [] = none
find_key key (c ∷ rest) =
    let later = find_key key rest in if eqb (to_lower c.path) key then some c else later

unfoldable pub has_key : Bytes → List Candidate → Bool
has_key key [] = false
has_key key (c ∷ rest) = eqb (to_lower c.path) key || has_key key rest

-- No two candidates have the same path, in whatever case.
abbrev pub Distinct : List Candidate → Type 0
Distinct [] = Unit
Distinct (c ∷ rest) = (has_key (to_lower c.path) rest ≡ false) × Distinct rest

mark_lem :
    (key other : Bytes) (seen : List Bytes)
    → one_of key (mark other seen) ≡ (eqb key other || one_of key seen)
unfolding one_of
mark_lem key other seen = ground (arith, eqb_iff key other)

remove_seen-find_key :
    (key : Bytes) (cs : List Candidate) (seen : List Bytes)
    → find_key key (remove_seen seen cs) ≡ (if one_of key seen then none else find_key key cs)
unfolding find_key remove_seen
remove_seen-find_key key [] seen = ground arith
remove_seen-find_key key (c ∷ rest) seen = ground (
  arith,
  remove_seen-find_key key rest (mark (to_lower c.path) seen),
  mark_lem key (to_lower c.path) seen,
  eqb_iff key (to_lower c.path),
  eqb_iff (to_lower c.path) key,
)

has_key-find_key :
    (key : Bytes) (cs : List Candidate) → find_key key cs ≡ none → has_key key cs ≡ false
unfolding find_key has_key
has_key-find_key key [] h = refl
has_key-find_key key (c ∷ rest) h = ground (arith, has_key-find_key key rest, h)

own_key :
    (key : Bytes) (rest : List Candidate) (seen : List Bytes)
    → find_key key (remove_seen (mark key seen) rest) ≡ none
own_key key rest seen =
    ground
      (arith, remove_seen-find_key key rest (mark key seen), mark_lem key key seen, eqb_refl key)

remove_seen-Distinct : (cs : List Candidate) (seen : List Bytes) → Distinct (remove_seen seen cs)
unfolding remove_seen
remove_seen-Distinct [] seen = tt
remove_seen-Distinct (c ∷ rest) seen =
    if_intro Distinct (one_of (to_lower c.path) seen) _ _ (λ _. remove_seen-Distinct rest _)
      (λ e.
        (has_key-find_key _ _ (own_key (to_lower c.path) rest seen), remove_seen-Distinct rest _))

-- No path is discovered twice, in whatever case it is written, and for each path the candidate that
-- is kept is the first one: the one of the source that comes first.
pub discover_candidates_lem :
    (m : Machine) (path key : Bytes)
    → Distinct (discover_candidates m path)
      × (find_key key (discover_candidates m path) ≡ find_key key (all_candidates m path))
unfolding discover_candidates one_of
discover_candidates_lem m path key = (
  remove_seen-Distinct (all_candidates m path) [],
  remove_seen-find_key key (all_candidates m path) [],
)
