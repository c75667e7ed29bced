-- ===== src/Profiler/Soundness.antt =====
-- observability/pprof_trigger.go: when the profiler's goroutines, the CPU profile and the files agree.
use orkai_observability.Prelude.{
  ◌+◌, ◌==◌, Bool, List, if◌then◌else◌, total, ltb, length, ℕ, ◌≡◌, ◌≤◌,
}
use orkai_observability.Profiler.Goroutines.{
  Goroutine, System, cpu_abandon, cpu_close, cpu_create, cpu_reset, cpu_start, cpu_stop, heap_close,
  heap_create, heap_write,
}

abbrev pub one_if : Bool → ℕ
one_if b = if b then 1 else 0

-- Whether a goroutine is one of the CPU profile.
abbrev pub is_cpu : Goroutine → ℕ
is_cpu (heap_create name) = 0
is_cpu (heap_write f) = 0
is_cpu (heap_close f) = 0
is_cpu g = 1

-- Whether a goroutine has started the CPU profile and not stopped it.
abbrev pub is_recording : Goroutine → ℕ
is_recording (cpu_stop f) = 1
is_recording g = 0

-- Whether a goroutine holds the file.
abbrev pub holds : ℕ → Goroutine → ℕ
holds f (cpu_create name) = 0
holds f (cpu_start f') = one_if (f' == f)
holds f (cpu_abandon f') = one_if (f' == f)
holds f (cpu_stop f') = one_if (f' == f)
holds f (cpu_close f') = one_if (f' == f)
holds f cpu_reset = 0
holds f (heap_create name) = 0
holds f (heap_write f') = one_if (f' == f)
holds f (heap_close f') = one_if (f' == f)

-- How often the file was closed.
abbrev pub closings : ℕ → List ℕ → ℕ
closings f = total (λ f'. one_if (f' == f))

-- At most one goroutine of a CPU profile runs, and none while the flag is not set; the CPU profile is
-- on just while one goroutine records; each file is closed once or held by one goroutine.
pub record IsSound (s : System) : Type 0 where
  pub one_cpu : total is_cpu s.goroutines ≤ one_if s.profiler.is_profiling
  pub recording : s.starts ≡ s.stops + total is_recording s.goroutines
  pub held :
      (f : ℕ)
      → closings f s.closed + total (holds f) s.goroutines ≡ one_if (ltb f (length s.created))
