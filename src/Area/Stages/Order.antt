-- ===== src/Area/Stages/Order.antt =====
-- Moving from one stage to the next and back.
use backend_emd.Prelude.{
  ℕ, zero, suc, ◌≡◌, ◌≢◌, refl, get_elem?, some, some, List, [], ◌∷◌, map, ap, arith, All, ◌∙◌,
}
use backend_emd.Area.Stages.{
  StageKind, work, review, AreaStageView, index_of, next_stage, previous_stage,
}

-- No two stages have one id.
abbrev pub HasDistinctIds : List AreaStageView → Type 0
HasDistinctIds [] = Unit
HasDistinctIds (s ∷ stages) = All (λ t. s.id ≢ t.id) stages × HasDistinctIds stages

abbrev pub kinds_of : List AreaStageView → List StageKind
kinds_of stages = map (λ s. s.kind) stages

-- A review has a stage of work right before it.
abbrev pub ReviewsFollowWork : List StageKind → Type 0
ReviewsFollowWork kinds =
    (i : ℕ)
    → get_elem? kinds i ≡ some review
    → (j : ℕ) × (i ≡ suc j) × (get_elem? kinds j ≡ some work)

ne_of_All :
    (k : ℕ) (stages : List AreaStageView) (i : ℕ) (s : AreaStageView)
    → All (λ t. k ≢ t.id) stages
    → get_elem? stages i ≡ some s
    → k ≢ s.id
ne_of_All k [] i s h e = cc
ne_of_All k (t ∷ stages) zero s h e = ground arith
ne_of_All k (t ∷ stages) (suc i) s h e = ne_of_All k stages i s h.1 e

pub index_of-get_elem? :
    (stages : List AreaStageView) (i : ℕ) (s : AreaStageView)
    → HasDistinctIds stages
    → get_elem? stages i ≡ some s
    → index_of s.id stages ≡ some i
unfolding index_of
index_of-get_elem? [] i s d e = cc
index_of-get_elem? (t ∷ stages) zero s d e = ground arith
index_of-get_elem? (t ∷ stages) (suc i) s d e =
    ground (arith, index_of-get_elem? stages i s d.1 e, ne_of_All t.id stages i s d.0 e)

pub get_elem?-kinds_of :
    (stages : List AreaStageView) (i : ℕ) (s : AreaStageView)
    → get_elem? stages i ≡ some s
    → get_elem? (kinds_of stages) i ≡ some s.kind
get_elem?-kinds_of [] i s e = cc
get_elem?-kinds_of (t ∷ stages) zero s e = ground arith
get_elem?-kinds_of (t ∷ stages) (suc i) s e = get_elem?-kinds_of stages i s e

kinds_of-get_elem? :
    (stages : List AreaStageView) (i : ℕ) (k : StageKind)
    → get_elem? (kinds_of stages) i ≡ some k
    → (s : AreaStageView) × (get_elem? stages i ≡ some s) × (s.kind ≡ k)
kinds_of-get_elem? [] i k e = cc
kinds_of-get_elem? (t ∷ stages) zero k e = (t, refl, ground arith)
kinds_of-get_elem? (t ∷ stages) (suc i) k e = kinds_of-get_elem? stages i k e

-- In a list with distinct ids in which every review follows work, the stage before a review is a
-- stage of work, and from there the next stage is that review again: a rejected review goes back
-- to be corrected, never into production, and returns to the same review.
pub previous_stage-next_stage :
    (stages : List AreaStageView) (i : ℕ) (s : AreaStageView)
    → HasDistinctIds stages
    → ReviewsFollowWork (kinds_of stages)
    → get_elem? stages i ≡ some s
    → s.kind ≡ review
    → (w : AreaStageView) × (previous_stage stages s.id ≡ some w)
      × (w.kind ≡ work)
      × (next_stage stages (some w.id) ≡ some s)
unfolding previous_stage next_stage
previous_stage-next_stage stages i s d follows e r =
    let (j, i_suc, at_j) = follows i (get_elem?-kinds_of stages i s e ∙ ap some r) in
    let (w, w_at, w_work) = kinds_of-get_elem? stages j work at_j in
    (
      w,
      ground (arith, index_of-get_elem? stages i s d e),
      w_work,
      ground (arith, index_of-get_elem? stages j w d w_at),
    )

-- From the stage at any place the next one is the one at the following place, and `none`
-- (production) exactly after the last.
pub next_stage-get_elem? :
    (stages : List AreaStageView) (i : ℕ) (s : AreaStageView)
    → HasDistinctIds stages
    → get_elem? stages i ≡ some s
    → next_stage stages (some s.id) ≡ get_elem? stages (suc i)
unfolding next_stage
next_stage-get_elem? stages i s d e = ground (arith, index_of-get_elem? stages i s d e)
