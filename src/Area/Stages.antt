-- ===== src/Area/Stages.antt =====
-- Stages before production: src/area/area-stages.ts.
pub mod Order
pub mod Rules
use backend_emd.Prelude.{
  ℕ, zero, suc, ◌+◌, nat_eq, string_eq, ◌==◌, contains, length, get_elem?, leb, ltb, Bool, true,
  false, ◌&&◌, ◌||◌, Option, none, some, List, [], ◌∷◌, String, if◌then◌else◌, trim, text_length,
}
use mathlib.Core.Option
use backend_emd.Http.{Result, ok, err, bad_request}

-- `AreaStageKind`
pub data StageKind : Type 0 where
  work review : StageKind

abbrev pub is_review : StageKind → Bool
is_review work = false
is_review review = true

pub record AreaStageView : Type 0 where
  pub id : ℕ
  pub key : String
  pub name : String
  pub kind : StageKind

pub record StageDraft : Type 0 where
  pub id : Option ℕ
  pub name : String
  pub kind : StageKind

abbrev pub max_area_stages : ℕ
max_area_stages = 6

abbrev pub stage_name_min_length : ℕ
stage_name_min_length = 2

abbrev pub stage_name_max_length : ℕ
stage_name_max_length = 40

-- `stages.findIndex((stage) => stage.id === id)`, `none` for -1.
unfoldable pub index_of : ℕ → List AreaStageView → Option ℕ
index_of id [] = none
index_of id (s ∷ stages) =
    let later = Option.map suc (index_of id stages) in if s.id == id then some 0 else later

-- The stage after `current` (the first one, if there is no current one); `none` is production.
unfoldable pub next_stage : List AreaStageView → Option ℕ → Option AreaStageView
unfolding index_of
next_stage stages none = get_elem? stages 0
next_stage stages (some current) = elim (index_of current stages) [
  | none ↦ none
  | some i ↦ get_elem? stages (suc i)
]

abbrev before : List AreaStageView → ℕ → Option AreaStageView
before stages zero = none
before stages (suc i) = get_elem? stages i

-- The stage before `current`; `none` if it is the first.
unfoldable pub previous_stage : List AreaStageView → ℕ → Option AreaStageView
unfolding index_of
previous_stage stages current = elim (index_of current stages) [
  | none ↦ none
  | some i ↦ before stages i
]

-- There is no stage of work before: none at all (`index === 0`), or another review.
abbrev pub lacks_work : Option StageKind → Bool
lacks_work none = true
lacks_work (some kind) = is_review kind

-- `toLowerCase` needs the tables of Unicode: it is a parameter.
module _ (to_lower_case : String → String) where
  abbrev pub normal_name : StageDraft → String
  normal_name stage = to_lower_case (trim stage.name)

  -- What the callback of `forEach` refuses of one stage; `previous` is the stage before it.
  unfoldable pub is_bad_stage : List String → Option StageKind → StageDraft → Bool
  unfolding trim text_length
  is_bad_stage seen previous stage =
      let name = trim stage.name in
      ltb (text_length name) stage_name_min_length
      || (ltb stage_name_max_length (text_length name)
          || (contains seen (to_lower_case name) || (is_review stage.kind && lacks_work previous)))

  unfoldable pub assert_stages :
      List String → Option StageKind → List StageDraft → Result (Unit {0})
  unfolding is_bad_stage
  assert_stages seen previous [] = ok tt
  assert_stages seen previous (stage ∷ stages) =
      let rest = assert_stages (normal_name stage ∷ seen) (some stage.kind) stages in
      if is_bad_stage seen previous stage then err bad_request else rest

  unfoldable pub assert_valid_stage_list : List StageDraft → Result (Unit {0})
  unfolding assert_stages
  assert_valid_stage_list stages =
      if ltb max_area_stages (length stages) then err bad_request else assert_stages [] none stages
