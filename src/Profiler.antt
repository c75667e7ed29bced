-- ===== src/Profiler.antt =====
-- observability/pprof_trigger.go: the profiler that is triggered by limits. Creating a file and
-- package `runtime/pprof` are not defined by the program: whether each succeeds is an input. A zero
-- `lastRun` is the time 0.
pub mod Goroutines
pub mod Finishing
mod Checking
mod Running
pub mod Soundness
pub mod Stalled
pub mod Stuck
mod Tests
use orkai_observability.Prelude.{◌&&◌, ◌+◌, Bool, ap, if◌then◌else◌, false, not, true, ◌||◌, ℕ}
use orkai_observability.Prelude.Int64.{Int64, sle, slt}
use orkai_observability.Types.{since}

-- The part of `Config` that the profiler reads.
pub record PprofConfig : Type 0 where
  pub enable_auto_pprof : Bool
  pub goroutines_limit : Int64
  pub heap_threshold_bytes : Int64

pub record AutoProfiler : Type 0 where
  pub last_run : ℕ
  pub is_profiling : Bool
  -- the profiles that were started
  pub started : ℕ

unfoldable pub new_auto_profiler : AutoProfiler
new_auto_profiler = record { last_run = 0; is_profiling = false; started = 0 }

-- 5 * time.Minute
abbrev pub cooldown : Int64
cooldown = 300000000000

unfoldable pub should_profile : PprofConfig → Int64 → Int64 → ℕ → AutoProfiler → Bool
unfolding since
should_profile cfg goroutines heap_alloc now ap =
    let g_limit = slt 0 cfg.goroutines_limit && sle cfg.goroutines_limit goroutines in
    let h_limit = slt 0 cfg.heap_threshold_bytes && sle cfg.heap_threshold_bytes heap_alloc in
    if ap.is_profiling
    then false
    else if slt (since now ap.last_run) cooldown
    then false
    else g_limit || h_limit

unfoldable pub check_and_trigger : PprofConfig → Int64 → Int64 → ℕ → AutoProfiler → AutoProfiler
unfolding should_profile
check_and_trigger cfg goroutines heap_alloc now ap =
    if not cfg.enable_auto_pprof
    then ap
    else if not (should_profile cfg goroutines heap_alloc now ap)
    then ap
    else record ap { last_run = now; is_profiling = true; started = ap.started + 1 }

-- `stopCPUProfileAfter`, at the end of its sleep.
unfoldable pub stop_cpu_profile : AutoProfiler → AutoProfiler
stop_cpu_profile ap = record ap { is_profiling = false }

-- `triggerCPUProfile`: whether a stop is scheduled.
unfoldable pub trigger_cpu_profile : Bool → Bool → Bool
trigger_cpu_profile file_created cpu_started =
    if not file_created then false else if not cpu_started then false else true
