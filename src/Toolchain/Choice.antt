-- ===== src/Toolchain/Choice.antt =====
-- The choice of a clangd: the first candidate in the range of the highest priority.
use soft_ue_index.Base.{
  ◌≡◌, refl, sym, ap, ◌∙◌, Option, some, none, List, [], ◌∷◌, map, if◌then◌else◌,
}
use soft_ue_index.Base.Text.{Bytes}
use soft_ue_index.Base.Result.{Result, ok, err}
use soft_ue_index.Toolchain.{
  Version, Range, range_contains, ToolchainError, compatible_clangd_not_found, Texts, Config,
  Candidate, Selection, reported, offer, offer_reported, offer_all, first_found, ranges_of,
  select_clangd,
}

module _ (t : Texts) (minimum : Version) (run : Bytes → Option Bytes) where
  abbrev pub or_else : Option Selection → Option Selection → Option Selection
  or_else (some s) next = some s
  or_else none next = next

  -- what a candidate is for a range
  abbrev pub taken : Range → Candidate → Option Version → Option Selection
  taken r c none = none
  taken r c (some version) =
      if range_contains r version
      then some (record { path = c.path; source = c.source; version = version })
      else none

  -- the first candidate in a range
  unfoldable pub first_in : Range → List Candidate → Option Selection
  first_in r [] = none
  first_in r (c ∷ rest) = or_else (taken r c (reported t minimum (run c.path))) (first_in r rest)

  -- the first range that has one
  unfoldable pub best : List Candidate → List Range → Result ToolchainError Selection
  best candidates [] = err compatible_clangd_not_found
  best candidates (r ∷ ranges) = elim (first_in r candidates) [
    | some s ↦ ok s
    | none ↦ best candidates ranges
  ]

  fill : List Candidate → List Range → List (Option Selection) → List (Option Selection)
  fill candidates (r ∷ ranges) (f ∷ found) =
      or_else f (first_in r candidates) ∷ fill candidates ranges found
  fill candidates _ found = found

  or_else-none : (o : Option Selection) → or_else o none ≡ o
  or_else-none none = refl
  or_else-none (some s) = refl

  or_else_assoc : (a b c : Option Selection) → or_else (or_else a b) c ≡ or_else a (or_else b c)
  or_else_assoc none b c = refl
  or_else_assoc (some s) b c = refl

  fill_none : (ranges : List Range) (found : List (Option Selection)) → fill [] ranges found ≡ found
  unfolding fill first_in
  fill_none [] found = refl
  fill_none (r ∷ ranges) [] = refl
  fill_none (r ∷ ranges) (f ∷ found) = cc (or_else-none f, fill_none ranges found)

  -- one candidate
  offered :
      List Range → Candidate → Option Version → List (Option Selection) → List (Option Selection)
  offered (r ∷ ranges) c o (f ∷ found) = or_else f (taken r c o) ∷ offered ranges c o found
  offered _ c o found = found

  offer_reported-offered :
      (c : Candidate) (o : Option Version) (ranges : List Range) (found : List (Option Selection))
      → offer_reported ranges c o found ≡ offered ranges c o found
  unfolding offer offered
  offer_reported-offered c none [] found = refl
  offer_reported-offered c (some v) [] found = refl
  offer_reported-offered c none (r ∷ ranges) [] = refl
  offer_reported-offered c (some v) (r ∷ ranges) [] = refl
  offer_reported-offered c none (r ∷ ranges) (f ∷ found) =
      cc (or_else-none f, offer_reported-offered c none ranges found)
  offer_reported-offered c (some v) (r ∷ ranges) (none ∷ found) =
      cc (offer_reported-offered c (some v) ranges found)
  offer_reported-offered c (some v) (r ∷ ranges) (some s ∷ found) =
      cc (offer_reported-offered c (some v) ranges found)

  fill-offered :
      (c : Candidate) (rest : List Candidate) (ranges : List Range)
      (found : List (Option Selection))
      → fill rest ranges (offered ranges c (reported t minimum (run c.path)) found)
        ≡ fill (c ∷ rest) ranges found
  unfolding fill first_in offered
  fill-offered c rest [] found = refl
  fill-offered c rest (r ∷ ranges) [] = refl
  fill-offered c rest (r ∷ ranges) (f ∷ found) = cc (
    or_else_assoc f (taken r c (reported t minimum (run c.path))) (first_in r rest),
    fill-offered c rest ranges found,
  )

  offer_all-fill :
      (candidates : List Candidate) (ranges : List Range) (found : List (Option Selection))
      → offer_all t minimum run ranges candidates found ≡ fill candidates ranges found
  unfolding offer_all
  offer_all-fill [] ranges found = sym (fill_none ranges found)
  offer_all-fill (c ∷ rest) ranges found =
      offer_all-fill rest ranges _
      ∙ ap (fill rest ranges)
          (offer_reported-offered c (reported t minimum (run c.path)) ranges found)
      ∙ fill-offered c rest ranges found

  first_found-fill :
      (candidates : List Candidate) (ranges : List Range)
      → first_found (fill candidates ranges (map (λ _. none) ranges)) ≡ best candidates ranges
  unfolding first_found fill best
  first_found-fill candidates [] = refl
  first_found-fill candidates (r ∷ ranges) =
      on_first (first_in r candidates) _ (first_found-fill candidates ranges)
    where
      on_first :
          (o : Option Selection) (found : List (Option Selection))
          {later : Result ToolchainError Selection}
          → first_found found ≡ later
          → first_found (o ∷ found) ≡ (elim o [ some s ↦ ok s | none ↦ later ])
      on_first none found h = h
      on_first (some s) found h = refl

-- SelectClangd runs every candidate once and fills a table of the ranges; it chooses the first
-- candidate whose reported version lies in the first configured range that has such a candidate.
pub select_clangd-best :
    (t : Texts) (run : Bytes → Option Bytes) (config : Config) (candidates : List Candidate)
    → select_clangd t run config candidates
      ≡ best t config.minimum run candidates (ranges_of config)
unfolding select_clangd
select_clangd-best t run config candidates =
    ap first_found (offer_all-fill t config.minimum run candidates (ranges_of config) _)
    ∙ first_found-fill t config.minimum run candidates (ranges_of config)
