-- ===== src/Latency.antt =====
-- Percentiles of the latest requests: src/common/metrics/request-latency.tracker.ts. A duration is a
-- number of milliseconds. `Math.ceil((p / 100) * n)` is computed on whole numbers, which is what it
-- gives for the four percentiles and every `n` up to the window.
pub mod Sort
pub mod Window
pub mod Percentiles
mod Tests
use backend_emd.Prelude.{
  ℕ, zero, suc, ◌+◌, ◌-◌, ◌*◌, ◌/◌, ◌%◌, ltb, leb, nat_eq, ◌==◌, Option, none, some, or_else, List,
  [], ◌∷◌, ◌++◌, length, get_elem?, set, if◌then◌else◌,
}

abbrev pub window_size : ℕ
window_size = 500

-- `durations` and `cursor`
pub record Tracker : Type 0 where
  pub durations : List ℕ
  pub cursor : ℕ

-- `resetRequestLatencyTracker`, and the state at the start.
abbrev pub reset_tracker : Tracker
reset_tracker = record { durations = []; cursor = 0 }

-- The window is a parameter of the code's steps.
module _ (window : ℕ) where
  unfoldable pub record_request_duration : ℕ → Tracker → Tracker
  record_request_duration ms t =
      if ltb (length t.durations) window
      then record t { durations = t.durations ++ ms ∷ [] }
      else record { durations = set t.durations t.cursor ms; cursor = (t.cursor + 1) % window }

abbrev pub insert : ℕ → List ℕ → List ℕ
insert x [] = x ∷ []
insert x (y ∷ ys) = let rest = insert x ys in if leb x y then x ∷ y ∷ ys else y ∷ rest

-- `[...xs].sort((a, b) => a - b)`
unfoldable pub sort : List ℕ → List ℕ
sort [] = []
sort (x ∷ xs) = insert x (sort xs)

abbrev pub min : ℕ → ℕ → ℕ
min a b = if leb a b then a else b

-- `sorted[i]`, within bounds
abbrev pub at : List ℕ → ℕ → ℕ
at xs i = or_else (get_elem? xs i) 0

unfoldable pub percentile : List ℕ → ℕ → ℕ
percentile sorted p =
    if length sorted == 0
    then 0
    else at sorted (min (length sorted - 1) ((p * length sorted + 99) / 100 - 1))

pub record RequestLatencySummary : Type 0 where
  pub sample_size : ℕ
  pub window_size : ℕ
  pub p50 : ℕ
  pub p90 : ℕ
  pub p95 : ℕ
  pub p99 : ℕ
  pub max : ℕ

unfoldable pub summary_of : List ℕ → RequestLatencySummary
unfolding percentile
summary_of sorted = record {
  sample_size = length sorted;
  window_size = window_size;
  p50 = percentile sorted 50;
  p90 = percentile sorted 90;
  p95 = percentile sorted 95;
  p99 = percentile sorted 99;
  max = at sorted (length sorted - 1);
}

unfoldable pub get_request_latency_summary : Tracker → RequestLatencySummary
unfolding sort summary_of
get_request_latency_summary t = summary_of (sort t.durations)
