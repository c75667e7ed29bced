-- ===== src/Profiler/Stalled.antt =====
-- observability/pprof_trigger.go: a CPU profile that fails.
use orkai_observability.Prelude.{
  ◌+◌, ◌++◌, List, Option, [], arith, none, total, Bool, true, false, not, is_some, ◌∷◌, ◌≡◌, ℕ,
  refl, ap, total-append, total-replace, ◌∙◌, length, some, subst, sym,
}
use orkai_observability.Prelude.Int64.{Int64}
use orkai_observability.Profiler.{AutoProfiler, PprofConfig, should_profile}
use orkai_observability.Profiler.Finishing.{initial-IsSound}
use orkai_observability.Profiler.Goroutines.{
  Answers, Goroutine, Reaches, System, check, checks, cpu_abandon, cpu_create, cpu_start, cpu_stop,
  cpu_close, cpu_reset, create_profile_file, go_on, here, heap_close, heap_create, heap_write,
  initial, next, resume, turn, turns, ◌⟶◌,
}
use orkai_observability.Profiler.Running.{Reaches-IsSound}
use orkai_observability.Profiler.Soundness.{IsSound, is_cpu}
use orkai_observability.Text.{Text}

-- The flag is set, and nobody is left who would reset it.
record IsStalled (p : AutoProfiler) (s : System) : Type 0 where
  flag : p.is_profiling ≡ true
  same : s.profiler ≡ p
  nobody : total is_cpu s.goroutines ≡ 0

check_stalled :
    (cfg : PprofConfig) (goroutines heap_alloc : Int64) (now : ℕ) (ts : Text) (s : System)
    → s.profiler.is_profiling ≡ true
    → check cfg goroutines heap_alloc now ts s ≡ s
unfolding check should_profile
check_stalled cfg goroutines heap_alloc now ts s on = ground (arith, on)

module _ (join : Text → Text → Text) (dir : Text) where
  go_on_stalled :
      (k : ℕ → Goroutine) (o : Option Text) (s : System)
      → ((n : ℕ) → is_cpu (k n) ≡ 0)
      → let r = go_on k o s in (r.0.profiler ≡ s.profiler) × (total is_cpu r.1 ≡ 0)
  go_on_stalled k none s h = (refl, refl)
  go_on_stalled k (some path) s h = (refl, omega (arith, h (length s.created)))

  resume_stalled :
      (a : Answers) (g : Goroutine) (s : System)
      → is_cpu g ≡ 0
      → let r = resume join dir a g s in (r.0.profiler ≡ s.profiler) × (total is_cpu r.1 ≡ 0)
  unfolding resume
  resume_stalled a (cpu_create name) s h = absurd (omega arith)
  resume_stalled a (cpu_start f) s h = absurd (omega arith)
  resume_stalled a (cpu_abandon f) s h = absurd (omega arith)
  resume_stalled a (cpu_stop f) s h = absurd (omega arith)
  resume_stalled a (cpu_close f) s h = absurd (omega arith)
  resume_stalled a cpu_reset s h = absurd (omega arith)
  resume_stalled a (heap_create name) s h =
      go_on_stalled heap_write (create_profile_file join a dir name) s (λ n. refl)
  resume_stalled a (heap_write f) s h = (refl, refl)
  resume_stalled a (heap_close f) s h = (refl, refl)

  turn-IsStalled :
      (a : Answers) (before after : List Goroutine) (g : Goroutine) (p : AutoProfiler) (s : System)
      → s.goroutines ≡ before ++ g ∷ after
      → IsStalled p s
      → IsStalled p (turn join dir a before g after s)
  unfolding turn
  turn-IsStalled a before after g p s here_now h =
      let r : System × List Goroutine = resume join dir a g s in
      let others : total is_cpu (before ++ g ∷ after) ≡ 0 =
        sym (ap (total is_cpu) here_now) ∙ h.nobody in
      let idle : is_cpu g ≡ 0 = omega (arith, others, total-append is_cpu before (g ∷ after)) in
      let q : (r.0.profiler ≡ s.profiler) × (total is_cpu r.1 ≡ 0) = resume_stalled a g s idle in
      record {
        flag = h.flag;
        same = q.0 ∙ h.same;
        nobody = omega (arith, others, q.1, total-replace is_cpu before g r.1 after);
      }

  step-IsStalled :
      {s t : System} (p : AutoProfiler) → ◌⟶◌ join dir s t → IsStalled p s → IsStalled p t
  step-IsStalled p (checks cfg goroutines heap_alloc now ts s) h =
      subst (IsStalled p)
        (sym (
          check_stalled cfg goroutines heap_alloc now ts s
            (ap (λ q. q.is_profiling) h.same ∙ h.flag)))
        h
  step-IsStalled p (turns a before after g s here_now) h =
      turn-IsStalled a before after g p s here_now h

  Reaches-IsStalled :
      {s t : System} (p : AutoProfiler) → Reaches join dir s t → IsStalled p s → IsStalled p t
  Reaches-IsStalled p here h = h
  Reaches-IsStalled p (next r step) h = step-IsStalled p step (Reaches-IsStalled p r h)

  -- Whether the turn gives the CPU profile up: the file is not created, or it is closed after
  -- `StartCPUProfile` failed.
  abbrev pub gives_up : Answers → Goroutine → Bool
  gives_up a (cpu_create name) = not (is_some (create_profile_file join a dir name))
  gives_up a (cpu_abandon f) = true
  gives_up a g = false

  gives_up_ends :
      (a : Answers) (g : Goroutine) (s : System)
      → gives_up a g ≡ true
      → (is_cpu g ≡ 1)
        × ((resume join dir a g s).0.profiler ≡ s.profiler)
        × ((resume join dir a g s).1 ≡ [])
  unfolding resume
  gives_up_ends a (cpu_create name) s h =
      let q = not_created (create_profile_file join a dir name) h in (refl, q.0, q.1)
    where
      not_created :
          (o : Option Text)
          → not (is_some o) ≡ true
          → ((go_on cpu_start o s).0.profiler ≡ s.profiler) × ((go_on cpu_start o s).1 ≡ [])
      not_created none h = (refl, refl)
      not_created (some path) h = absurd (ground arith)
  gives_up_ends a (cpu_abandon f) s h = (refl, refl, refl)
  gives_up_ends a (cpu_start f) s h = absurd (ground arith)
  gives_up_ends a (cpu_stop f) s h = absurd (ground arith)
  gives_up_ends a (cpu_close f) s h = absurd (ground arith)
  gives_up_ends a cpu_reset s h = absurd (ground arith)
  gives_up_ends a (heap_create name) s h = absurd (ground arith)
  gives_up_ends a (heap_write f) s h = absurd (ground arith)
  gives_up_ends a (heap_close f) s h = absurd (ground arith)

  turn-stalls :
      (a : Answers) (before after : List Goroutine) (g : Goroutine) (s : System)
      → s.goroutines ≡ before ++ g ∷ after
      → gives_up a g ≡ true
      → IsSound s
      → IsStalled s.profiler (turn join dir a before g after s)
  unfolding turn
  turn-stalls a before after g s here_now failed h =
      let r : System × List Goroutine = resume join dir a g s in
      let e : (is_cpu g ≡ 1) × (r.0.profiler ≡ s.profiler) × (r.1 ≡ []) =
        gives_up_ends a g s failed in
      let some_cpu : total is_cpu s.goroutines ≡ total is_cpu before + total is_cpu (g ∷ after) =
        ap (total is_cpu) here_now ∙ total-append is_cpu before (g ∷ after) in
      record {
        flag = ground (arith, h.one_cpu, e.0, some_cpu);
        same = e.1;
        nobody = ground (
          arith,
          h.one_cpu,
          e.0,
          some_cpu,
          ap (total is_cpu) e.2,
          ap (total is_cpu) here_now,
          total-replace is_cpu before g r.1 after,
        );
      }

  -- If the file of a CPU profile cannot be created, or `StartCPUProfile` fails, in any reachable state,
  -- then whatever checks and goroutines follow, with whatever readings and however long after, the
  -- profiler stays as it is: no profile is ever started again.
  pub abandoned_profile_is_last :
      (a : Answers) (before after : List Goroutine) (g : Goroutine) (s t : System)
      → Reaches join dir initial s
      → s.goroutines ≡ before ++ g ∷ after
      → gives_up a g ≡ true
      → Reaches join dir (turn join dir a before g after s) t
      → t.profiler ≡ s.profiler
  unfolding turn
  abandoned_profile_is_last a before after g s t r here_now failed r' =
      (Reaches-IsStalled s.profiler r' (
        turn-stalls a before after g s here_now failed
          (Reaches-IsSound join dir r initial-IsSound))).same
