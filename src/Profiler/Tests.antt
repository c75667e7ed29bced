-- ===== src/Profiler/Tests.antt =====
-- The profiler at concrete inputs.
use orkai_observability.Prelude.{
  ◌+◌, [], false, refl, true, ◌∷◌, ◌≡◌, ◌++◌, if◌then◌else◌, length, ltb, total, ℕ, ◌≤◌,
}
use orkai_observability.Profiler.{AutoProfiler, PprofConfig, should_profile}
use orkai_observability.Profiler.Finishing.{all_work, finish-closes_all, one_cpu_profile}
use orkai_observability.Profiler.Goroutines.{
  Answers, Goroutine, Reaches, System, check, cpu_create, create_profile_file, finish, heap_create,
  here, initial, next, turn, checks,
}
use orkai_observability.Profiler.Soundness.{closings, is_cpu, is_recording}
use orkai_observability.Profiler.Stalled.{abandoned_profile_is_last}
use orkai_observability.Profiler.Stuck.{Check, busy_profiler_waits, check_all}
use orkai_observability.Text.{Text, codes}

abbrev cfg : PprofConfig
cfg = record { enable_auto_pprof = true; goroutines_limit = 100; heap_threshold_bytes = 0 }

abbrev rested : AutoProfiler
rested = record { last_run = 0; is_profiling = false; started = 0 }

abbrev noon : Check
noon = record { goroutines = 150; heap_alloc = 7; now = 400000000000 }

abbrev later : Check
later = record { goroutines = 150; heap_alloc = 7; now = 900000000000 }

busy_profiler_does_nothing :
    check_all cfg (noon ∷ later ∷ []) (record rested { is_profiling = true })
    ≡ record rested { is_profiling = true }
busy_profiler_does_nothing =
    busy_profiler_waits cfg (noon ∷ later ∷ []) (record rested { is_profiling = true }) refl

abbrev in_dir : Text → Text → Text
in_dir dir name = dir ++ codes "/" ++ name

abbrev dir : Text
dir = codes "pprof"

abbrev works : Answers
works = record { mkdir_all = true; create = true; start_cpu_profile = true }

abbrev fails : Answers
fails = record { mkdir_all = true; create = false; start_cpu_profile = true }

abbrev cpu : Goroutine
cpu = cpu_create (codes "cpu_noon.pprof")

abbrev heap : Goroutine
heap = heap_create (codes "heap_noon.pprof")

-- A check at noon that finds the limits exceeded.
abbrev checked : System
checked = check cfg 150 7 400000000000 (codes "noon") initial

checked_reached : Reaches in_dir dir initial checked
checked_reached = next here (checks cfg 150 7 400000000000 (codes "noon") initial)

checked_goroutines : checked.goroutines ≡ cpu ∷ heap ∷ []
unfolding check initial should_profile
checked_goroutines = refl

one_cpu_profile_example :
    (total is_cpu checked.goroutines ≤ 1)
    × (checked.profiler.is_profiling ≡ false → total is_cpu checked.goroutines ≡ 0)
    × (checked.starts ≡ checked.stops + total is_recording checked.goroutines)
one_cpu_profile_example = one_cpu_profile in_dir dir checked checked_reached

finish-closes_all_example :
    let s' = finish in_dir dir (all_work checked) (λ n. works) checked in
    (s'.goroutines ≡ [])
    × ((f : ℕ) → closings f s'.closed ≡ (if ltb f (length s'.created) then 1 else 0))
    × (s'.stops ≡ s'.starts)
finish-closes_all_example = finish-closes_all in_dir dir (λ n. works) checked checked_reached

-- Both files are created, written and closed.
finished_files :
    let s' = finish in_dir dir (all_work checked) (λ n. works) checked in
    (s'.created ≡ codes "pprof/cpu_noon.pprof" ∷ codes "pprof/heap_noon.pprof" ∷ [])
    × (s'.closed ≡ 0 ∷ 1 ∷ [])
    × (s'.starts ≡ 1)
    × (s'.profiler.is_profiling ≡ false)
unfolding check initial should_profile finish create_profile_file
finished_files = (refl, refl, refl, refl)

abbrev abandoned : System
abandoned = turn in_dir dir fails [] cpu (heap ∷ []) checked

-- A second check, ten hours later.
abbrev much_later : System
much_later = check cfg 1000 7 36400000000000 (codes "night") abandoned

abandoned_profile_is_last_example : much_later.profiler ≡ checked.profiler
unfolding create_profile_file
abandoned_profile_is_last_example =
    abandoned_profile_is_last in_dir dir fails [] (heap ∷ []) cpu checked much_later checked_reached
      checked_goroutines refl
      (next here (checks cfg 1000 7 36400000000000 (codes "night") abandoned))
