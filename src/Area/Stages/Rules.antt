-- ===== src/Area/Stages/Rules.antt =====
-- What `assertValidStageList` lets through.
use backend_emd.Prelude.{
  ℕ, zero, suc, ◌≤◌, ◌≡◌, ◌↔◌, ◌⊎◌, refl, ap, string_eq, contains, length, get_elem?, false, Option,
  none, some, List, [], ◌∷◌, map, String, arith, All, trim, text_length, inl, inr,
}
use backend_emd.Http.{ok}
use backend_emd.Area.Stages.{
  StageKind, work, review, StageDraft, max_area_stages, stage_name_min_length,
  stage_name_max_length, normal_name, is_bad_stage, assert_stages, assert_valid_stage_list,
}
use backend_emd.Area.Stages.Order.{ReviewsFollowWork}

abbrev pub draft_kinds : List StageDraft → List StageKind
draft_kinds stages = map (λ s. s.kind) stages

abbrev pub HasFittingName : StageDraft → Type 0
HasFittingName stage =
    (stage_name_min_length ≤ text_length (trim stage.name))
    × (text_length (trim stage.name) ≤ stage_name_max_length)

module _ (to_lower_case : String → String) where
  -- Every name is new: it is not among `seen`, nor is it that of an earlier stage.
  abbrev pub HasNewNames : List String → List StageDraft → Type 0
  HasNewNames seen [] = Unit
  HasNewNames seen (stage ∷ stages) =
      (contains seen (normal_name to_lower_case stage) ≡ false)
      × HasNewNames (normal_name to_lower_case stage ∷ seen) stages

  abbrev FollowsFrom : Option StageKind → List StageDraft → Type 0
  FollowsFrom previous [] = Unit
  FollowsFrom previous (stage ∷ stages) =
      (stage.kind ≡ review → previous ≡ some work) × FollowsFrom (some stage.kind) stages

  is_bad_stage_iff :
      (seen : List String) (previous : Option StageKind) (stage : StageDraft)
      → (is_bad_stage to_lower_case seen previous stage ≡ false) ↔ (
          HasFittingName stage
          × (contains seen (normal_name to_lower_case stage) ≡ false)
          × (stage.kind ≡ review → previous ≡ some work))
  unfolding is_bad_stage
  is_bad_stage_iff seen previous stage = ground arith

  assert_stages_iff :
      (seen : List String) (previous : Option StageKind) (stages : List StageDraft)
      → (assert_stages to_lower_case seen previous stages ≡ ok tt)
        ↔ (All HasFittingName stages × HasNewNames seen stages × FollowsFrom previous stages)
  unfolding assert_stages
  assert_stages_iff seen previous [] = (λ h. (tt, tt, tt), λ h. refl)
  assert_stages_iff seen previous (stage ∷ stages) = ground (
    arith,
    is_bad_stage_iff seen previous stage,
    assert_stages_iff (normal_name to_lower_case stage ∷ seen) (some stage.kind) stages,
  )

  FollowsFrom-sound :
      (previous : Option StageKind) (stages : List StageDraft) (i : ℕ)
      → FollowsFrom previous stages
      → get_elem? (draft_kinds stages) i ≡ some review
      → ((i ≡ 0) × (previous ≡ some work))
        ⊎ ((j : ℕ) × (i ≡ suc j) × (get_elem? (draft_kinds stages) j ≡ some work))
  FollowsFrom-sound previous [] i h e = cc
  FollowsFrom-sound previous (stage ∷ stages) zero h e = inl (refl, h.0 (ground arith))
  FollowsFrom-sound previous (stage ∷ stages) (suc i) h e =
      elim (FollowsFrom-sound (some stage.kind) stages i h.1 e) [
        | inl (i_zero, is_work) ↦ inr (0, ap suc i_zero, is_work)
        | inr (j, i_suc, is_work) ↦ inr (suc j, ap suc i_suc, is_work)
      ]

  FollowsFrom-complete :
      (previous : Option StageKind) (stages : List StageDraft)
      → ((i : ℕ)
          → get_elem? (draft_kinds stages) i ≡ some review
          → ((i ≡ 0) × (previous ≡ some work))
            ⊎ ((j : ℕ) × (i ≡ suc j) × (get_elem? (draft_kinds stages) j ≡ some work)))
      → FollowsFrom previous stages
  FollowsFrom-complete previous [] f = tt
  FollowsFrom-complete previous (stage ∷ stages) f = (
    λ r. elim (f 0 (ap some r)) [
      | inl (z, is_work) ↦ is_work
      | inr (j, i_suc, is_work) ↦ absurd (omega arith)
    ],
    FollowsFrom-complete (some stage.kind) stages (λ i e. tail i (f (suc i) e)),
  )
    where
      tail :
          (i : ℕ)
          → ((suc i ≡ 0) × (previous ≡ some work))
            ⊎ ((j : ℕ) × (suc i ≡ suc j) × (get_elem? (draft_kinds (stage ∷ stages)) j ≡ some work))
          → ((i ≡ 0) × (◌≡◌ {A = Option StageKind} (some stage.kind) (some work)))
            ⊎ ((j : ℕ) × (i ≡ suc j) × (get_elem? (draft_kinds stages) j ≡ some work))
      tail i (inl (z, _)) = absurd (omega arith)
      tail i (inr (zero, s, is_work)) = inl (omega arith, is_work)
      tail i (inr (suc j, s, is_work)) = inr (j, omega arith, is_work)

  -- A list of stages is accepted exactly if it has at most six stages, every name has two to
  -- forty units once trimmed, no name repeats another one but for letter case, and every review
  -- has a stage of work right before it (so the first stage is no review).
  pub assert_valid_stage_list_iff :
      (stages : List StageDraft)
      → (assert_valid_stage_list to_lower_case stages ≡ ok tt) ↔ (
          (length stages ≤ max_area_stages)
          × All HasFittingName stages
          × HasNewNames [] stages
          × ReviewsFollowWork (draft_kinds stages))
  unfolding assert_valid_stage_list
  assert_valid_stage_list_iff stages =
      let (to, from) = assert_stages_iff [] none stages in
      (
        λ h.
            (let accepted : assert_stages to_lower_case [] none stages ≡ ok tt = ground arith in
              let (fit, new, follows) = to accepted in
              (
                ground arith,
                fit,
                new,
                λ i r. elim (FollowsFrom-sound none stages i follows r) [
                  | inl (z, impossible) ↦ cc
                  | inr there ↦ there
                ],
              )),
        λ (short, fit, new, follows).
            (let accepted : assert_stages to_lower_case [] none stages ≡ ok tt =
                from (fit, new, FollowsFrom-complete none stages (λ i r. inr (follows i r))) in
              ground arith),
      )
