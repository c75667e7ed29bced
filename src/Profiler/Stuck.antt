-- ===== src/Profiler/Stuck.antt =====
-- observability/pprof_trigger.go: when profiles are started.
use orkai_observability.Prelude.{
  ◌+◌, ◌<◌, Bool, List, [], ap, arith, if◌then◌else◌, false, refl, true, ℕ, ◌∙◌, ◌∷◌, ◌≡◌, ◌≤◌,
  Bool-cases, inl, inr, subst,
}
use orkai_observability.Prelude.Int64.{Int64, half_word, slt}
use orkai_observability.Profiler.{
  AutoProfiler, PprofConfig, check_and_trigger, cooldown, should_profile, stop_cpu_profile,
  trigger_cpu_profile,
}
use orkai_observability.Types.{since}

-- A call that finds that the limits are exceeded, and when.
pub record Check : Type 0 where
  pub goroutines : Int64
  pub heap_alloc : Int64
  pub now : ℕ

pub check_all : PprofConfig → List Check → AutoProfiler → AutoProfiler
check_all cfg [] ap = ap
check_all cfg (c ∷ cs) ap =
    check_all cfg cs (check_and_trigger cfg c.goroutines c.heap_alloc c.now ap)

busy_step :
    (cfg : PprofConfig) (c : Check) (ap : AutoProfiler)
    → ap.is_profiling ≡ true
    → check_and_trigger cfg c.goroutines c.heap_alloc c.now ap ≡ ap
unfolding check_and_trigger
busy_step cfg c ap busy = ground arith

-- While a profile runs, no check starts another, whatever the limits and the readings.
pub busy_profiler_waits :
    (cfg : PprofConfig) (cs : List Check) (ap : AutoProfiler)
    → ap.is_profiling ≡ true
    → check_all cfg cs ap ≡ ap
unfolding check_all
busy_profiler_waits cfg [] ap busy = refl
busy_profiler_waits cfg (c ∷ cs) ap busy =
    ap_check (busy_step cfg c ap busy) ∙ busy_profiler_waits cfg cs ap busy
  where
    ap_check : {x y : AutoProfiler} → x ≡ y → check_all cfg cs x ≡ check_all cfg cs y
    ap_check e = λ i. check_all cfg cs (e i)

-- The profiler after a check and its goroutines, if the profile ends before the next check: the flag
-- is reset only if `triggerCPUProfile` has scheduled the stop.
unfoldable pub check_and_finish : Bool → Bool → PprofConfig → Check → AutoProfiler → AutoProfiler
check_and_finish file_created cpu_started cfg c ap =
    let ap' = check_and_trigger cfg c.goroutines c.heap_alloc c.now ap in
    if trigger_cpu_profile file_created cpu_started then stop_cpu_profile ap' else ap'

-- If the file of a CPU profile cannot be created, or the CPU profile not started, the flag stays set:
-- from then on no check ever starts a profile, however long the cooldown is over.
pub failed_profile_is_last :
    (file_created cpu_started : Bool) (cfg : PprofConfig) (c : Check) (cs : List Check)
    (ap : AutoProfiler)
    → cfg.enable_auto_pprof ≡ true
    → should_profile cfg c.goroutines c.heap_alloc c.now ap ≡ true
    → trigger_cpu_profile file_created cpu_started ≡ false
    → (check_all cfg cs (check_and_finish file_created cpu_started cfg c ap)).started
      ≡ ap.started + 1
unfolding check_and_finish
failed_profile_is_last file_created cpu_started cfg c cs ap enabled exceeded failed =
    rw (failed, fires) (λ i. (busy_profiler_waits cfg cs started_now refl i).started)
  where
    started_now : AutoProfiler
    started_now = record ap { last_run = c.now; is_profiling = true; started = ap.started + 1 }

    fires : check_and_trigger cfg c.goroutines c.heap_alloc c.now ap ≡ started_now
    fires = unfold check_and_trigger in rw (enabled, exceeded) refl

cooled :
    (cfg : PprofConfig) (d : Check) (ap : AutoProfiler)
    → ap.last_run ≤ d.now
    → d.now < half_word
    → should_profile cfg d.goroutines d.heap_alloc d.now ap ≡ true
    → ap.last_run + cooldown ≤ d.now
cooled cfg d ap le small h = elim (Bool-cases (slt (since d.now ap.last_run) cooldown)) [
  | inl early ↦ cc (refused early)
  | inr late ↦ elapsed late
]
  where
    refused :
        slt (since d.now ap.last_run) cooldown ≡ true
        → should_profile cfg d.goroutines d.heap_alloc d.now ap ≡ false
    refused early = unfold should_profile in ground (arith, early)

    elapsed : slt (since d.now ap.last_run) cooldown ≡ false → ap.last_run + cooldown ≤ d.now
    elapsed late = unfold since in ground (arith, late)

-- Two profiles that are started at times `c.now` and `d.now` one after the other are at least five
-- minutes apart, if the first one ended properly.
pub profiles_cool_down :
    (cfg : PprofConfig) (c d : Check) (ap : AutoProfiler)
    → c.now ≤ d.now
    → d.now < half_word
    → cfg.enable_auto_pprof ≡ true
    → should_profile cfg c.goroutines c.heap_alloc c.now ap ≡ true
    → should_profile cfg d.goroutines d.heap_alloc d.now (check_and_finish true true cfg c ap)
      ≡ true
    → c.now + cooldown ≤ d.now
unfolding check_and_finish
profiles_cool_down cfg c d ap le small enabled first second =
    cooled cfg d (record ap { last_run = c.now; is_profiling = false; started = ap.started + 1 }) le
      small (finishes at_end)
  where
    at_end :
        check_and_finish true true cfg c ap
        ≡ record ap { last_run = c.now; is_profiling = false; started = ap.started + 1 }
    at_end =
        unfold check_and_trigger trigger_cpu_profile stop_cpu_profile in rw (enabled, first) refl

    finishes :
        check_and_finish true true cfg c ap
          ≡ record ap { last_run = c.now; is_profiling = false; started = ap.started + 1 }
        → should_profile cfg d.goroutines d.heap_alloc d.now
            (record ap { last_run = c.now; is_profiling = false; started = ap.started + 1 })
          ≡ true
    finishes e =
        subst (λ (x : AutoProfiler). should_profile cfg d.goroutines d.heap_alloc d.now x ≡ true) e
          second
