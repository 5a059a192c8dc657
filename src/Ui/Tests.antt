-- ===== src/Ui/Tests.antt =====
-- A ring of three entries.
use almadar_runtime.Base.{ℕ, ◌≡◌, refl, [], ◌∷◌, arith, get, put, string_eq}
use almadar_runtime.Ui.Perf.{
  PerfRing, empty, schedule_notify, run_notify, push_entry, get_perf_snapshot, get_snapshot,
  clear_perf, aggregate, PerfBucket,
}
use almadar_runtime.Ui.Perf.Refines.{offer_all, push_all, get_perf_snapshot-clear_perf}
use almadar_runtime.Ui.Perf.Store.{get_snapshot_stable}

perf : Unit {0}
unfolding empty schedule_notify run_notify push_entry get_perf_snapshot get_snapshot clear_perf
    aggregate get put
perf = tt

abbrev used : PerfRing ℕ
unfolding perf
used = push_all 3 (7 ∷ 8 ∷ []) empty

abbrev bucket : PerfBucket
bucket = record { count = 2; total_ms = 13; max_ms = 9 }

perf_tests :
    (get_perf_snapshot 3 (push_all 3 (1 ∷ 2 ∷ 3 ∷ 4 ∷ 5 ∷ []) (clear_perf used)) ≡ 3 ∷ 4 ∷ 5 ∷ [])
    × (get_perf_snapshot 3 (push_all 3 (1 ∷ 2 ∷ []) (clear_perf used)) ≡ 1 ∷ 2 ∷ [])
    × (aggregate "prep" 4 (aggregate "prep" 9 []) ≡ ("prep", bucket) ∷ [])
unfolding perf
perf_tests = (refl, refl, refl)

get_perf_snapshot-clear_perf_example :
    get_perf_snapshot 3 (push_all 3 (1 ∷ 2 ∷ 3 ∷ 4 ∷ []) (clear_perf used))
    ≡ offer_all 3 [] (1 ∷ 2 ∷ 3 ∷ 4 ∷ [])
get_perf_snapshot-clear_perf_example =
    get_perf_snapshot-clear_perf 3 (1 ∷ 2 ∷ 3 ∷ 4 ∷ []) used (omega arith)

get_snapshot_stable_example :
    ((get_snapshot 3 (push_entry 3 5 (get_snapshot 3 used).0)).1 ≡ (get_snapshot 3 used).1)
    × ((get_snapshot 3 (run_notify (push_entry 3 5 (get_snapshot 3 used).0)).0).1
        ≡ get_perf_snapshot 3 (push_entry 3 5 (get_snapshot 3 used).0))
get_snapshot_stable_example = get_snapshot_stable 3 5 used
