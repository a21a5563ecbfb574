-- ===== src/Latency/Tests.antt =====
-- Three requests.
use backend_emd.Prelude.{◌≡◌, ◌≤◌, List, [], ◌∷◌, ℕ, take}
use backend_emd.Latency.{window_size, sort, summary_of, get_request_latency_summary}
use backend_emd.Latency.Window.{recorded, summary-recorded}
use backend_emd.Latency.Percentiles.{summary_bounds}

abbrev history : List ℕ
history = 30 ∷ 10 ∷ 20 ∷ []

summary-recorded_example :
    get_request_latency_summary (recorded window_size history)
    ≡ summary_of (sort (take window_size history))
summary-recorded_example = summary-recorded history

summary_bounds_example :
    let r = get_request_latency_summary (recorded window_size history) in
    (r.sample_size ≤ r.window_size)
    × (r.p50 ≤ r.p90)
    × (r.p90 ≤ r.p95)
    × (r.p95 ≤ r.p99)
    × (r.p99 ≤ r.max)
summary_bounds_example = summary_bounds history
