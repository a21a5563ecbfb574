-- ===== src/Latency/Percentiles.antt =====
-- The bounds of a summary (`percentile` and `getRequestLatencySummary` of
-- src/common/metrics/request-latency.tracker.ts).
use backend_emd.Prelude.{
  ℕ, ◌+◌, ◌-◌, ◌*◌, ◌/◌, ◌≤◌, inl, inr, arith, nat_eq, ◌==◌, List, length, Bool-cases,
}
use backend_emd.Latency.{window_size, sort, at, min, percentile, get_request_latency_summary}
use backend_emd.Latency.Sort.{IsAscending, sort-IsAscending, length-sort, at_mono}
use backend_emd.Latency.Window.{recorded, length-recorded}

index_mono : (n p q : ℕ) → p ≤ q → (p * n + 99) / 100 - 1 ≤ (q * n + 99) / 100 - 1
index_mono n p q h = let m : p * n ≤ q * n = grind arith in omega arith

module _ (l : List ℕ) (ascending : IsAscending 0 l) where
  percentile_mono : (p q : ℕ) → p ≤ q → percentile l p ≤ percentile l q
  unfolding percentile
  percentile_mono p q h = elim (Bool-cases (length l == 0)) [
    | inl empty ↦ rw (empty, percentile) (omega arith)
    | inr filled ↦
        let n = length l in
        let index = index_mono n p q h in
        rw (filled, percentile)
          (at_mono 0 (min (n - 1) ((p * n + 99) / 100 - 1)) (min (n - 1) ((q * n + 99) / 100 - 1)) l
            ascending (ground arith) (ground (arith, filled)))
  ]

  percentile-le-max : (p : ℕ) → percentile l p ≤ at l (length l - 1)
  unfolding percentile
  percentile-le-max p = elim (Bool-cases (length l == 0)) [
    | inl empty ↦ rw (empty, percentile) (omega arith)
    | inr filled ↦
        let n = length l in
        rw (filled, percentile)
          (at_mono 0 (min (n - 1) ((p * n + 99) / 100 - 1)) (n - 1) l ascending (ground arith)
            (ground (arith, filled)))
  ]

-- A summary never tells of more than 500 durations, and its percentiles stand in their order below
-- the greatest duration.
pub summary_bounds :
    (history : List ℕ)
    → let r = get_request_latency_summary (recorded window_size history) in
      (r.sample_size ≤ r.window_size)
      × (r.p50 ≤ r.p90)
      × (r.p90 ≤ r.p95)
      × (r.p95 ≤ r.p99)
      × (r.p99 ≤ r.max)
unfolding get_request_latency_summary
summary_bounds history =
    let l = (recorded window_size history).durations in
    let s = sort-IsAscending l in
    (
      omega (arith, length-sort l, length-recorded history),
      percentile_mono (sort l) s 50 90 (omega arith),
      percentile_mono (sort l) s 90 95 (omega arith),
      percentile_mono (sort l) s 95 99 (omega arith),
      percentile-le-max (sort l) s 99,
    )
