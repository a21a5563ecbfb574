-- ===== src/Task/Decision/Rounds.antt =====
-- The rounds of review of a task: how many are open.
use backend_emd.Prelude.{
  ℕ, suc, ◌+◌, ◌≡◌, inl, inr, refl, nat_eq, Option, none, some, List, [], ◌∷◌, ◌++◌, String, arith,
  Bool-cases, if◌then◌else◌,
}
use backend_emd.Store.{SampleTest, SampleTestResult}
use backend_emd.Task.Stage.{is_open}
use backend_emd.Task.Decision.{open_round, decide_in}

unfoldable pub open_count : List SampleTest → ℕ
open_count [] = 0
open_count (t ∷ tests) = let rest = open_count tests in if is_open t then suc rest else rest

open_round-none : (tests : List SampleTest) → open_count tests ≡ 0 → open_round tests ≡ none
unfolding open_round open_count
open_round-none [] h = refl
open_round-none (t ∷ tests) h = ground (arith, open_round-none tests)

module _ (result : SampleTestResult) (notes : Option String) (user : ℕ) where
  decide_in-none :
      (round : ℕ) (tests : List SampleTest)
      → open_count tests ≡ 0
      → open_count (decide_in round result notes user tests) ≡ 0
  unfolding open_count
  decide_in-none round [] h = refl
  decide_in-none round (t ∷ tests) h = ground (arith, decide_in-none round tests)

  pub open_count-decide_in :
      (round : ℕ) (tests : List SampleTest)
      → open_round tests ≡ some round
      → open_count tests ≡ 1
      → open_count (decide_in round result notes user tests) ≡ 0
  unfolding open_count open_round
  open_count-decide_in round [] e h = ground arith
  open_count-decide_in round (t ∷ tests) e h = elim (Bool-cases (is_open t)) [
    | inl here ↦ ground (arith, here, open_round-none tests, decide_in-none round tests)
    | inr later ↦ ground (arith, later, open_count-decide_in round tests)
  ]

pub open_round-some :
    (tests : List SampleTest) → open_count tests ≡ 1 → (r : ℕ) × (open_round tests ≡ some r)
unfolding open_count open_round
open_round-some [] h = ground arith
open_round-some (t ∷ tests) h = elim (Bool-cases (is_open t)) [
  | inl here ↦ (t.round, ground (arith, here, open_round-none tests))
  | inr later ↦
      let p = open_round-some tests (ground (arith, later)) in (p.0, ground (arith, later, p.1))
]

pub open_count-append :
    (xs ys : List SampleTest) → open_count (xs ++ ys) ≡ open_count xs + open_count ys
unfolding open_count
open_count-append [] ys = omega arith
open_count-append (x ∷ xs) ys = ground (arith, open_count-append xs ys)
