-- ===== src/Mcp/Search/Locations.antt =====
-- What an answer of FindDefinition, FindReferences and FindImplementations promises.
use soft_ue_index.Base.{
  ℕ, suc, ◌≤◌, ◌≡◌, Bool, true, false, not, List, length, All, arith, ◌⊎◌, subst,
}
use soft_ue_index.Base.Text.{Bytes}
use soft_ue_index.Base.Int.{ℤ}
use soft_ue_index.Base.Result.{ok, through, unless_ok}
use soft_ue_index.Mcp.Limits.{output_limit, item_limit}
use soft_ue_index.Mcp.Search.{
  Location, filter_items, location_size, cut, shape_locations, Found, Project, project,
  TextPosition, World, validate_position, find_locations,
}
use soft_ue_index.Mcp.Search.Shape.{
  total, filter_items-All, filter_items-Told, length-filter_items, total-trim, trim-Told,
  length-trim, trim-keeps, cut-Told, length-cut,
}
use soft_ue_index.Mcp.Search.Answers.{whole_or_cut, untold, bounded_ok, project-id}

-- What comes out of the pipeline of locations.
record Kept (allowed : Location → Bool) (limit max : ℕ) (source : List Location)
    (o : List Location × Bool) : Type 0 where
  inside : All (λ v. allowed v ≡ true) o.0
  few : length o.0 ≤ max
  small : total location_size o.0 ≤ limit
  told : (o.1 ≡ true) ⊎ ((o.0 ≡ source) × (false ≡ false))

shape_locations-Kept :
    (allowed : Location → Bool) (limit max : ℕ) (source : List Location)
    → Kept allowed limit max source (shape_locations allowed limit max source)
unfolding shape_locations
shape_locations-Kept allowed limit max source =
    let kept = cut max source false in
    let inner = filter_items allowed kept.0 kept.1 in
    record {
      inside =
          trim-keeps location_size limit (λ v. allowed v ≡ true) 0 inner.0 inner.1
            (filter_items-All allowed kept.0 kept.1);
      few = omega (
        arith,
        length-trim location_size limit 0 inner.0 inner.1,
        length-filter_items allowed kept.0 kept.1,
        length-cut max source false,
      );
      small = omega (arith, total-trim location_size limit 0 inner.0 inner.1 (omega arith));
      told =
          whole_or_cut _ inner kept source false (trim-Told location_size limit 0 inner.0 inner.1)
            (filter_items-Told allowed kept.0 kept.1) (cut-Told max source false);
    }

-- A query for locations that answered.
pub record AnsweredLocations (w : World) (kind id : Bytes) (position : TextPosition) (max_items : ℤ)
    (r : Found Location) : Type 0 where
  pub project : Project
  pub checked : Bytes
  pub returned : List Location
  pub registered : project.id ≡ id
  pub valid : validate_position w project position ≡ ok checked
  pub asked : w.locations project kind position (suc (item_limit w.bounds max_items)) ≡ ok returned
  pub inside : All (λ v. w.allowed project v.uri ≡ true) r.items
  pub few : length r.items ≤ item_limit w.bounds max_items
  pub small : total location_size r.items ≤ output_limit w.bounds
  pub fits : w.wire_locations r ≤ output_limit w.bounds
  pub complete : (r.truncated ≡ true) ⊎ (r.items ≡ returned)

-- Every answer of a location tool is about the project that was asked for and a position in it that
-- passed the test, holds only locations inside its roots, is within the item limit and the response
-- limit, and, unless it says that it is truncated, holds all that clangd returned.
pub find_locations_sound :
    (w : World) (kind id : Bytes) (position : TextPosition) (max_items : ℤ) {r : Found Location}
    → find_locations w kind id position max_items ≡ ok r
    → AnsweredLocations w kind id position max_items r
unfolding find_locations
find_locations_sound w kind id position max_items {r} h =
    let (p, found, h1) = through (project w.limits_ok w.projects id) _ h in
    let (checked, valid, h2) =
      through (validate_position w p position) _ (unless_ok (not w.has_queries) _ _ h1).1 in
    let (items, asked, h3) = through (w.locations p kind position _) _ h2 in
    let max = item_limit w.bounds max_items in
    let kept = shape_locations-Kept (λ v. w.allowed p v.uri) (output_limit w.bounds) max items in
    let (same, fits) = bounded_ok w.wire_locations (output_limit w.bounds) _ r h3 in
    subst (AnsweredLocations w kind id position max_items) same (record {
      project = p;
      checked = checked;
      returned = items;
      registered = project-id w.limits_ok w.projects id p found;
      valid = valid;
      asked = asked;
      inside = kept.inside;
      few = kept.few;
      small = kept.small;
      fits = fits;
      complete = untold _ _ kept.told;
    })
