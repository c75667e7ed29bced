-- ===== src/Profiler/Checking.antt =====
-- observability/pprof_trigger.go: a check of the profiler, which may start two goroutines.
use orkai_observability.Prelude.{
  ◌++◌, List, [], arith, total-append, false, ℕ, ◌∷◌, ◌≡◌, refl, true, ap, Bool-cases, inl, inr,
}
use orkai_observability.Prelude.Int64.{Int64}
use orkai_observability.Profiler.{check_and_trigger, PprofConfig, should_profile, AutoProfiler}
use orkai_observability.Profiler.Goroutines.{Goroutine, System, check, cpu_create, heap_create}
use orkai_observability.Text.{Text}
use orkai_observability.Profiler.Soundness.{IsSound, holds, is_cpu, is_recording}

idle_profiles :
    (cfg : PprofConfig) (goroutines heap_alloc : Int64) (now : ℕ) (ap : AutoProfiler)
    → should_profile cfg goroutines heap_alloc now ap ≡ true
    → ap.is_profiling ≡ false
unfolding should_profile
idle_profiles cfg goroutines heap_alloc now ap h = ground arith

-- The profiler's part of a check is `check_and_trigger`, which the telemetry of the facade calls.
check-check_and_trigger :
    (cfg : PprofConfig) (goroutines heap_alloc : Int64) (now : ℕ) (ts : Text) (s : System)
    → (check cfg goroutines heap_alloc now ts s).profiler
      ≡ check_and_trigger cfg goroutines heap_alloc now s.profiler
unfolding check check_and_trigger
check-check_and_trigger cfg goroutines heap_alloc now ts s =
    elim (Bool-cases cfg.enable_auto_pprof) [
      | inl on ↦ elim (Bool-cases (should_profile cfg goroutines heap_alloc now s.profiler)) [
        | inl hot ↦ rw (on, hot) refl
        | inr cold ↦ rw (on, cold) refl
      ]
      | inr off ↦ rw off refl
    ]

triggered-IsSound :
    (name name' : Text) (ap' : AutoProfiler) (s : System)
    → s.profiler.is_profiling ≡ false
    → ap'.is_profiling ≡ true
    → IsSound s
    → IsSound (record s {
      profiler = ap';
      goroutines = s.goroutines ++ cpu_create name ∷ heap_create name' ∷ [];
    })
triggered-IsSound name name' ap' s off on h =
    let more : List Goroutine = cpu_create name ∷ heap_create name' ∷ [] in
    record {
      one_cpu = ground (arith, h.one_cpu, on, total-append is_cpu s.goroutines more);
      recording = omega (arith, h.recording, total-append is_recording s.goroutines more);
      held = λ f. omega (arith, h.held f, total-append (holds f) s.goroutines more);
    }

pub check-IsSound :
    (cfg : PprofConfig) (goroutines heap_alloc : Int64) (now : ℕ) (ts : Text) (s : System)
    → IsSound s
    → IsSound (check cfg goroutines heap_alloc now ts s)
check-IsSound cfg goroutines heap_alloc now ts s h = elim (Bool-cases cfg.enable_auto_pprof) [
  | inl on ↦ elim (Bool-cases (should_profile cfg goroutines heap_alloc now s.profiler)) [
    | inl hot ↦
        unfold check in
        rw (on, hot)
          (triggered-IsSound _ _ _ s (idle_profiles cfg goroutines heap_alloc now s.profiler hot)
            refl h)
    | inr cold ↦ unfold check in rw (on, cold) h
  ]
  | inr off ↦ unfold check in rw off h
]
