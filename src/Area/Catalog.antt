-- ===== src/Area/Catalog.antt =====
-- The catalogue of areas: `AreaService` of src/area/area.service.ts, over the list of areas that
-- it loads. The copy that it keeps for 30 seconds is left out.
use backend_emd.Prelude.{
  string_eq, ◌==◌, contains, keep, find, Bool, true, not, ◌&&◌, Option, none, some, List, [], ◌∷◌,
  map, String, if◌then◌else◌,
}
use backend_emd.Http.{Result, ok, err, bad_request, then_check}
use backend_emd.Area.Stages.{AreaStageView}
use backend_emd.Area.Config.{AreaMachineView, AreaFieldView}

-- The fields of `AreaView` that the modelled services read.
pub record AreaView : Type 0 where
  pub slug : String
  pub name : String
  pub is_design : Bool
  pub is_production_destination : Bool
  pub has_inventory : Bool
  pub active : Bool
  pub stages : List AreaStageView
  pub machines : List AreaMachineView
  pub fields : List AreaFieldView

-- `AreaUse`
pub data AreaUse : Type 0 where
  any_use production : AreaUse

unfoldable pub fits_use : AreaUse → AreaView → Bool
fits_use production area = area.is_production_destination && not area.is_design
fits_use any_use area = true

abbrev pub find_all : List AreaView → List AreaView
find_all areas = keep (λ a. a.active) areas

unfoldable pub find_by_slug : List AreaView → String → Option AreaView
find_by_slug areas slug = find (λ a. a.slug == slug) areas

unfoldable pub slugs : List AreaView → AreaUse → List String
unfolding fits_use
slugs areas use_for = map (λ a. a.slug) (keep (fits_use use_for) (find_all areas))

unfoldable pub stages_of : List AreaView → String → List AreaStageView
unfolding find_by_slug
stages_of areas slug = elim (find_by_slug areas slug) [ none ↦ [] | some a ↦ a.stages ]

unfoldable pub fields_of : List AreaView → String → List AreaFieldView
unfolding find_by_slug
fields_of areas slug = elim (find_by_slug areas slug) [ none ↦ [] | some a ↦ a.fields ]

unfoldable pub machines_of : List AreaView → String → List AreaMachineView
unfolding find_by_slug
machines_of areas slug = elim (find_by_slug areas slug) [ none ↦ [] | some a ↦ a.machines ]

unfoldable pub inventory_slugs : List AreaView → List String
inventory_slugs areas = map (λ a. a.slug) (keep (λ a. a.has_inventory) (find_all areas))

unfoldable pub assert_area : List AreaView → Option String → AreaUse → Result (Unit {0})
unfolding slugs
assert_area areas none use_for = ok tt
assert_area areas (some slug) use_for =
    if contains (slugs areas use_for) slug then ok tt else err bad_request

unfoldable pub assert_areas : List AreaView → List String → AreaUse → Result (Unit {0})
unfolding assert_area
assert_areas areas [] use_for = ok tt
assert_areas areas (slug ∷ rest) use_for =
    then_check (assert_area areas (some slug) use_for) (assert_areas areas rest use_for)
