-- ===== src/Area/Tests.antt =====
-- Embroidery's two stages (digitizing, then the sample test), a token of the old form, and the
-- fields of an area; the theorems at these.
use backend_emd.Prelude.{
  zero, suc, ◌≡◌, ◌↔◌, refl, string_eq, length, ◌≤◌, true, false, none, some, List, [], ◌∷◌, String,
  All, arith,
}
use backend_emd.Http.{ok}
use backend_emd.Area.Stages.{
  AreaStageView, StageDraft, work, review, assert_valid_stage_list, next_stage, previous_stage,
  max_area_stages,
}
use backend_emd.Area.Stages.Order.{
  HasDistinctIds, ReviewsFollowWork, kinds_of, previous_stage-next_stage,
}
use backend_emd.Area.Stages.Rules.{
  assert_valid_stage_list_iff, HasFittingName, HasNewNames, draft_kinds,
}
use backend_emd.Area.Config.{
  AreaFieldView, number, select, FieldValues, Raw, string, num, finite, text_value, number_value,
  validate_field_values,
}
use backend_emd.Area.Config.Values.{Justified, validate_field_values-Justified}

abbrev digitizing : AreaStageView
digitizing = record { id = 5; key = "digitalizado"; name = "Digitalizado"; kind = work }

abbrev sample_test : AreaStageView
sample_test = record { id = 6; key = "pruebas"; name = "Pruebas"; kind = review }

abbrev embroidery : List AreaStageView
embroidery = digitizing ∷ sample_test ∷ []

embroidery-HasDistinctIds : HasDistinctIds embroidery
embroidery-HasDistinctIds = (((λ e. omega arith), tt), (tt, tt))

embroidery-ReviewsFollowWork : ReviewsFollowWork (kinds_of embroidery)
embroidery-ReviewsFollowWork zero e = ground arith
embroidery-ReviewsFollowWork (suc zero) e = (0, refl, refl)
embroidery-ReviewsFollowWork (suc (suc i)) e = ground arith

previous_stage-next_stage_example :
    (w : AreaStageView) × (previous_stage embroidery 6 ≡ some w)
    × (w.kind ≡ work)
    × (next_stage embroidery (some w.id) ≡ some sample_test)
previous_stage-next_stage_example =
    previous_stage-next_stage embroidery 1 sample_test embroidery-HasDistinctIds
      embroidery-ReviewsFollowWork refl refl

abbrev drafts : List StageDraft
drafts =
    record { id = none; name = " Digitalizado "; kind = work }
    ∷ record { id = none; name = "Pruebas"; kind = review }
    ∷ []

-- Letter case plays no part in these names.
assert_valid_stage_list_iff_example : (assert_valid_stage_list (λ s. s) drafts ≡ ok tt) ↔ (
    (length drafts ≤ max_area_stages)
    × All HasFittingName drafts
    × HasNewNames (λ s. s) [] drafts
    × ReviewsFollowWork (draft_kinds drafts))
assert_valid_stage_list_iff_example = assert_valid_stage_list_iff (λ s. s) drafts

drafts_pass : assert_valid_stage_list (λ s. s) drafts ≡ ok tt
unfolding assert_valid_stage_list
drafts_pass = refl

abbrev fields : List AreaFieldView
fields =
    record {
      id = 1;
      key = "puntadas";
      label = "Puntadas";
      type = number;
      required = true;
      options = [];
      unit = none;
    }
    ∷ record {
      id = 2;
      key = "tela";
      label = "Tela";
      type = select;
      required = false;
      options = "pique" ∷ "gabardina" ∷ [];
      unit = none;
    }
    ∷ []

abbrev values : List (String × Raw)
values = ("puntadas", num (finite "12000")) ∷ ("tela", string "pique") ∷ []

abbrev clean : FieldValues
clean = ("puntadas", number_value (finite "12000")) ∷ ("tela", text_value "pique") ∷ []

values_pass : validate_field_values fields values ≡ ok clean
unfolding validate_field_values
values_pass = refl

validate_field_values-Justified_example : Justified fields values "tela" (text_value "pique")
validate_field_values-Justified_example =
    validate_field_values-Justified fields values clean "tela" (text_value "pique") values_pass refl
