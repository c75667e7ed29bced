-- ===== src/Profiler/Finishing.antt =====
-- observability/pprof_trigger.go: what every run of checks and goroutines reaches.
use orkai_observability.Prelude.{
  ◌+◌, ◌<◌, List, [], arith, if◌then◌else◌, total, false, zero, suc, length, ℕ, ◌∷◌, ◌≡◌, ◌≤◌, refl,
  ap, total-append, ◌∙◌, inl, inr, ltb, ◌⊎◌, subst, sym,
}
use orkai_observability.Profiler.Goroutines.{
  Answers, Goroutine, Reaches, System, finish, initial, next, resume, turn, turns, cpu_abandon,
  cpu_close, cpu_create, cpu_reset, cpu_start, cpu_stop, heap_close, heap_create, heap_write,
  first_of,
}
use orkai_observability.Profiler.Running.{Reaches-IsSound}
use orkai_observability.Profiler.Soundness.{IsSound, closings, holds, is_cpu, is_recording}
use orkai_observability.Text.{Text}

-- The calls that a goroutine makes at most, and the store at its end.
abbrev work : Goroutine → ℕ
work (cpu_create name) = 6
work (cpu_start f) = 5
work (cpu_abandon f) = 1
work (cpu_stop f) = 3
work (cpu_close f) = 2
work cpu_reset = 1
work (heap_create name) = 3
work (heap_write f) = 2
work (heap_close f) = 1

abbrev pub all_work : System → ℕ
all_work s = total work s.goroutines

List-cases :
    (gs : List Goroutine) → (gs ≡ []) ⊎ ((g : Goroutine) × (gs' : List Goroutine) × (gs ≡ g ∷ gs'))
List-cases [] = inl refl
List-cases (g ∷ gs) = inr (g, gs, refl)

some_work : (g : Goroutine) → 0 < work g
some_work (cpu_create name) = omega arith
some_work (cpu_start f) = omega arith
some_work (cpu_abandon f) = omega arith
some_work (cpu_stop f) = omega arith
some_work (cpu_close f) = omega arith
some_work cpu_reset = omega arith
some_work (heap_create name) = omega arith
some_work (heap_write f) = omega arith
some_work (heap_close f) = omega arith

idle : (gs : List Goroutine) → total work gs ≤ 0 → gs ≡ []
idle [] h = refl
idle (g ∷ gs) h = absurd (omega (arith, some_work g))

pub initial-IsSound : IsSound initial
unfolding initial
initial-IsSound = record { one_cpu = omega arith; recording = refl; held = λ f. ground arith }

module _ (join : Text → Text → Text) (dir : Text) where
  resume_works :
      (a : Answers) (g : Goroutine) (s : System) → total work (resume join dir a g s).1 < work g
  unfolding resume
  resume_works a (cpu_create name) s = ground arith
  resume_works a (cpu_start f) s = ground arith
  resume_works a (cpu_abandon f) s = omega arith
  resume_works a (cpu_stop f) s = omega arith
  resume_works a (cpu_close f) s = omega arith
  resume_works a cpu_reset s = omega arith
  resume_works a (heap_create name) s = ground arith
  resume_works a (heap_write f) s = omega arith
  resume_works a (heap_close f) s = omega arith

  -- From any reachable state: at most one CPU profile is under way, none while the flag is not set, and `StopCPUProfile` has been called
  -- as often as `StartCPUProfile` succeeded, or once less while a profile is recorded.
  pub one_cpu_profile :
      (s : System)
      → Reaches join dir initial s
      → (total is_cpu s.goroutines ≤ 1)
        × (s.profiler.is_profiling ≡ false → total is_cpu s.goroutines ≡ 0)
        × (s.starts ≡ s.stops + total is_recording s.goroutines)
  one_cpu_profile s r =
      let h : IsSound s = Reaches-IsSound join dir r initial-IsSound in
      (ground (arith, h.one_cpu), λ off. ground (arith, h.one_cpu, off), h.recording)

  go : ℕ → (ℕ → Answers) → System → Goroutine → List Goroutine → System
  go n answers s g gs = finish join dir n answers (turn join dir (answers n) [] g gs s)

  -- The state that the goroutines reach alone is one that they can reach among the checks.
  finish-Reaches :
      (n : ℕ) (answers : ℕ → Answers) (s t : System)
      → Reaches join dir s t
      → Reaches join dir s (finish join dir n answers t)
  unfolding finish go
  finish-Reaches zero answers s t r = r
  finish-Reaches (suc n) answers s t r = elim (List-cases t.goroutines) [
    | inl none_left ↦
        subst (Reaches join dir s) (sym (ap (first_of t (go n answers t)) none_left)) r
    | inr (g, gs, waiting) ↦
        subst (Reaches join dir s) (sym (ap (first_of t (go n answers t)) waiting)) (
          finish-Reaches n answers s (turn join dir (answers n) [] g gs t)
            (next r (turns (answers n) [] gs g t waiting)))
  ]

  turn_works :
      (a : Answers) (g : Goroutine) (gs : List Goroutine) (s : System)
      → s.goroutines ≡ g ∷ gs
      → all_work (turn join dir a [] g gs s) < all_work s
  unfolding turn
  turn_works a g gs s waiting = omega (
    arith,
    resume_works a g s,
    ap (total work) waiting,
    total-append work (resume join dir a g s).1 gs,
  )

  finish_ends :
      (n : ℕ) (answers : ℕ → Answers) (s : System)
      → all_work s ≤ n
      → (finish join dir n answers s).goroutines ≡ []
  unfolding finish go
  finish_ends zero answers s room = idle s.goroutines room
  finish_ends (suc n) answers s room = elim (List-cases s.goroutines) [
    | inl none_left ↦ ap (λ gs. (first_of s (go n answers s) gs).goroutines) none_left ∙ none_left
    | inr (g, gs, waiting) ↦
        ap (λ gs. (first_of s (go n answers s) gs).goroutines) waiting
        ∙ finish_ends n answers (turn join dir (answers n) [] g gs s)
            (omega (arith, turn_works (answers n) g gs s waiting))
  ]

  -- From any reachable state the goroutines come to their end, each after at most six calls, whatever
  -- calls fail. Then every file that was created has been closed exactly once, no other was closed,
  -- and `StopCPUProfile` has been called once for each CPU profile that was started.
  pub finish-closes_all :
      (answers : ℕ → Answers) (s : System)
      → Reaches join dir initial s
      → let s' = finish join dir (all_work s) answers s in
        (s'.goroutines ≡ [])
        × ((f : ℕ) → closings f s'.closed ≡ (if ltb f (length s'.created) then 1 else 0))
        × (s'.stops ≡ s'.starts)
  finish-closes_all answers s r =
      let s' : System = finish join dir (all_work s) answers s in
      let ended : s'.goroutines ≡ [] = finish_ends (all_work s) answers s (omega arith) in
      let h : IsSound s' =
        Reaches-IsSound join dir (finish-Reaches (all_work s) answers initial s r)
          initial-IsSound in
      (
        ended,
        λ f. omega (arith, h.held f, ap (total (holds f)) ended),
        omega (arith, h.recording, ap (total is_recording) ended),
      )
