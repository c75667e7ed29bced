-- ===== src/Profiler/Running.antt =====
-- observability/pprof_trigger.go: what holds of the profiler's goroutines however they interleave.
use orkai_observability.Prelude.{
  ◌+◌, ◌++◌, ◌==◌, List, [], arith, total, total-append, total-replace, ltb, length, ℕ, ◌∷◌, ◌≡◌,
  ◌≤◌, refl, Option, ap, length-append, none, some,
}
use orkai_observability.Profiler.{stop_cpu_profile}
use orkai_observability.Profiler.Goroutines.{
  Answers, Goroutine, Reaches, System, create_profile_file, go_on, cpu_abandon, cpu_close,
  cpu_create, cpu_reset, cpu_start, cpu_stop, heap_close, heap_create, heap_write, here, next,
  resume, turn, ◌⟶◌, checks, turns,
}
use orkai_observability.Text.{Text}
use orkai_observability.Profiler.Checking.{check-IsSound}
use orkai_observability.Profiler.Soundness.{IsSound, closings, holds, is_cpu, is_recording, one_if}

-- One turn of a goroutine `g`.
record Balance (g : Goroutine) (s s' : System) (gs : List Goroutine) : Type 0 where
  cpu :
      total is_cpu gs + one_if s.profiler.is_profiling ≤ is_cpu g + one_if s'.profiler.is_profiling
  recording : s'.starts + s.stops + is_recording g ≡ s.starts + s'.stops + total is_recording gs
  held :
      (f : ℕ)
      → closings f s'.closed + total (holds f) gs + one_if (ltb f (length s.created))
        ≡ closings f s.closed + holds f g + one_if (ltb f (length s'.created))

closings-append :
    (h f : ℕ) (fs : List ℕ) → closings h (fs ++ f ∷ []) ≡ closings h fs + one_if (f == h)
closings-append h f fs = omega (arith, total-append (λ f'. one_if (f' == h)) fs (f ∷ []))

-- A new file takes the next number.
one_more :
    (h : ℕ) (path : Text) (paths : List Text)
    → one_if (ltb h (length (paths ++ path ∷ [])))
      ≡ one_if (ltb h (length paths)) + one_if (length paths == h)
one_more h path paths = ground (arith, length-append paths (path ∷ []))

-- A goroutine that creates a file, for its kind and what it goes on to.
go_on-Balance :
    (g : Goroutine) (k : ℕ → Goroutine) (o : Option Text) (s : System)
    → ((n : ℕ) → is_cpu (k n) ≡ is_cpu g)
    → ((n : ℕ) → is_recording (k n) ≡ 0)
    → is_recording g ≡ 0
    → ((h n : ℕ) → holds h (k n) ≡ one_if (n == h))
    → ((h : ℕ) → holds h g ≡ 0)
    → let r = go_on k o s in Balance g s r.0 r.1
go_on-Balance g k none s kind on off own free = record {
  cpu = omega arith;
  recording = omega (arith, off);
  held = λ h. omega (arith, free h);
}
go_on-Balance g k (some path) s kind on off own free = record {
  cpu = omega (arith, kind (length s.created));
  recording = omega (arith, on (length s.created), off);
  held = λ h. omega (arith, free h, own h (length s.created), one_more h path s.created);
}

module _ (join : Text → Text → Text) (dir : Text) where
  resume-Balance :
      (a : Answers) (g : Goroutine) (s : System)
      → let r = resume join dir a g s in Balance g s r.0 r.1
  unfolding resume stop_cpu_profile
  resume-Balance a (cpu_create name) s =
      go_on-Balance (cpu_create name) cpu_start (create_profile_file join a dir name) s (λ n. refl)
        (λ n. refl) refl (λ h n. refl) (λ h. refl)
  resume-Balance a (cpu_start f) s = record {
    cpu = ground arith;
    recording = ground arith;
    held = λ h. ground arith;
  }
  resume-Balance a (cpu_abandon f) s = record {
    cpu = omega arith;
    recording = omega arith;
    held = λ h. omega (arith, closings-append h f s.closed);
  }
  resume-Balance a (cpu_stop f) s = record {
    cpu = omega arith;
    recording = omega arith;
    held = λ h. omega arith;
  }
  resume-Balance a (cpu_close f) s = record {
    cpu = omega arith;
    recording = omega arith;
    held = λ h. omega (arith, closings-append h f s.closed);
  }
  resume-Balance a cpu_reset s = record {
    cpu = ground arith;
    recording = omega arith;
    held = λ h. omega arith;
  }
  resume-Balance a (heap_create name) s =
      go_on-Balance (heap_create name) heap_write (create_profile_file join a dir name) s
        (λ n. refl) (λ n. refl) refl (λ h n. refl) (λ h. refl)
  resume-Balance a (heap_write f) s = record {
    cpu = omega arith;
    recording = omega arith;
    held = λ h. omega arith;
  }
  resume-Balance a (heap_close f) s = record {
    cpu = omega arith;
    recording = omega arith;
    held = λ h. omega (arith, closings-append h f s.closed);
  }

  turn-IsSound :
      (a : Answers) (before after : List Goroutine) (g : Goroutine) (s : System)
      → s.goroutines ≡ before ++ g ∷ after
      → IsSound s
      → IsSound (turn join dir a before g after s)
  unfolding turn
  turn-IsSound a before after g s here_now h =
      let r : System × List Goroutine = resume join dir a g s in
      let b : Balance g s r.0 r.1 = resume-Balance a g s in
      record {
        one_cpu = omega (
          arith,
          b.cpu,
          h.one_cpu,
          ap (total is_cpu) here_now,
          total-replace is_cpu before g r.1 after,
        );
        recording = omega (
          arith,
          b.recording,
          h.recording,
          ap (total is_recording) here_now,
          total-replace is_recording before g r.1 after,
        );
        held = λ f. omega (
          arith,
          b.held f,
          h.held f,
          ap (total (holds f)) here_now,
          total-replace (holds f) before g r.1 after,
        );
      }

  step-IsSound : {s t : System} → ◌⟶◌ join dir s t → IsSound s → IsSound t
  step-IsSound (checks cfg goroutines heap_alloc now ts s) h =
      check-IsSound cfg goroutines heap_alloc now ts s h
  step-IsSound (turns a before after g s here_now) h = turn-IsSound a before after g s here_now h

  pub Reaches-IsSound : {s t : System} → Reaches join dir s t → IsSound s → IsSound t
  Reaches-IsSound here h = h
  Reaches-IsSound (next r step) h = step-IsSound step (Reaches-IsSound r h)
