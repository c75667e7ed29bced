-- ===== src/Profiler/Goroutines.antt =====
-- observability/pprof_trigger.go: the goroutines that `CheckAndTrigger` starts, next to the profiler
-- and the files. Each turn of a goroutine is one call of another package, or one store; the turns of
-- several goroutines and the checks interleave freely. `CheckAndTrigger` holds its mutex, so a check
-- is one step: a goroutine could only reset the flag in between, and where a check goes on the flag
-- is not set. `filepath.Join` and whether a call succeeds are arguments; a goroutine may sleep for any
-- time.
use orkai_observability.Prelude.{
  ◌+◌, ◌++◌, Bool, List, Option, [], if◌then◌else◌, length, none, not, some, true, ℕ, ◌∷◌, ◌≡◌, suc,
  zero,
}
use orkai_observability.Prelude.Int64.{Int64}
use orkai_observability.Profiler.{
  AutoProfiler, PprofConfig, new_auto_profiler, should_profile, stop_cpu_profile,
}
use orkai_observability.Text.{Text, codes}

-- Whether the calls of a turn succeed.
pub record Answers : Type 0 where
  pub mkdir_all : Bool
  pub create : Bool
  pub start_cpu_profile : Bool

-- A goroutine by the call it makes next, with its file: the n-th that was created.
pub data Goroutine : Type 0 where
  -- `triggerCPUProfile`
  cpu_create : Text → Goroutine
  cpu_start cpu_abandon : ℕ → Goroutine
  -- `stopCPUProfileAfter`
  cpu_stop cpu_close : ℕ → Goroutine
  cpu_reset : Goroutine
  -- `triggerHeapProfile`
  heap_create : Text → Goroutine
  heap_write heap_close : ℕ → Goroutine

pub record System : Type 0 where
  pub profiler : AutoProfiler
  pub goroutines : List Goroutine
  -- the paths of the files that were created, and the files that were closed
  pub created : List Text
  pub closed : List ℕ
  -- the calls of StartCPUProfile that succeeded, of StopCPUProfile and of WriteHeapProfile
  pub starts : ℕ
  pub stops : ℕ
  pub heap_writes : ℕ

unfoldable pub initial : System
unfolding new_auto_profiler
initial = record {
  profiler = new_auto_profiler;
  goroutines = [];
  created = [];
  closed = [];
  starts = 0;
  stops = 0;
  heap_writes = 0;
}

-- `OSProfileFileCreator`: the path of the file, or `none` for an error.
unfoldable pub create_profile_file : (Text → Text → Text) → Answers → Text → Text → Option Text
create_profile_file join a dir name =
    if not a.mkdir_all then none else if a.create then some (join dir name) else none

abbrev close_file : ℕ → System → System
close_file f s = record s { closed = s.closed ++ f ∷ [] }

-- A goroutine goes on with the file, or ends at the error.
abbrev pub go_on : (ℕ → Goroutine) → Option Text → System → System × List Goroutine
go_on k none s = (s, [])
go_on k (some path) s = (record s { created = s.created ++ path ∷ [] }, k (length s.created) ∷ [])

-- `CheckAndTrigger`, with its two `go` statements, for the time stamp of the clock.
unfoldable pub check : PprofConfig → Int64 → Int64 → ℕ → Text → System → System
unfolding should_profile
check cfg goroutines heap_alloc now ts s =
    if not cfg.enable_auto_pprof
    then s
    else if not (should_profile cfg goroutines heap_alloc now s.profiler)
    then s
    else record s {
      profiler = record { last_run = now; is_profiling = true; started = s.profiler.started + 1 };
      goroutines =
          s.goroutines
          ++ cpu_create (codes "cpu_" ++ ts ++ codes ".pprof")
            ∷ heap_create (codes "heap_" ++ ts ++ codes ".pprof")
            ∷ [];
    }

-- A list by its first element, if it has one.
abbrev pub first_of : System → (Goroutine → List Goroutine → System) → List Goroutine → System
first_of s go [] = s
first_of s go (g ∷ gs) = go g gs

module _ (join : Text → Text → Text) (dir : Text) where
  -- One turn: the system after it, and what the goroutine becomes.
  unfoldable pub resume : Answers → Goroutine → System → System × List Goroutine
  unfolding create_profile_file stop_cpu_profile
  resume a (cpu_create name) s = go_on cpu_start (create_profile_file join a dir name) s
  resume a (cpu_start f) s =
      if a.start_cpu_profile
      then (record s { starts = s.starts + 1 }, cpu_stop f ∷ [])
      else (s, cpu_abandon f ∷ [])
  resume a (cpu_abandon f) s = (close_file f s, [])
  resume a (cpu_stop f) s = (record s { stops = s.stops + 1 }, cpu_close f ∷ [])
  resume a (cpu_close f) s = (close_file f s, cpu_reset ∷ [])
  resume a cpu_reset s = (record s { profiler = stop_cpu_profile s.profiler }, [])
  resume a (heap_create name) s = go_on heap_write (create_profile_file join a dir name) s
  resume a (heap_write f) s = (record s { heap_writes = s.heap_writes + 1 }, heap_close f ∷ [])
  resume a (heap_close f) s = (close_file f s, [])

  -- The turn of a goroutine among others.
  unfoldable pub turn : Answers → List Goroutine → Goroutine → List Goroutine → System → System
  unfolding resume
  turn a before g after s =
      let r = resume a g s in record r.0 { goroutines = before ++ r.1 ++ after }

  infix 40 ◌⟶◌
  -- A step: a check, at any time and with any reading, or the turn of any goroutine.
  pub data ◌⟶◌ : System → System → Type 0 where
    checks :
        (cfg : PprofConfig) (goroutines heap_alloc : Int64) (now : ℕ) (ts : Text) (s : System)
        → s ⟶ check cfg goroutines heap_alloc now ts s
    turns :
        (a : Answers) (before after : List Goroutine) (g : Goroutine) (s : System)
        → s.goroutines ≡ before ++ g ∷ after
        → s ⟶ turn a before g after s

  -- Any number of steps.
  pub data Reaches (s : System) : System → Type 0 where
    here : Reaches s s
    next : {t u : System} → Reaches s t → t ⟶ u → Reaches s u

  -- The goroutines alone, one after the other to its end.
  unfoldable pub finish : ℕ → (ℕ → Answers) → System → System
  unfolding turn
  finish zero answers s = s
  finish (suc n) answers s =
      first_of s (λ g gs. finish n answers (turn (answers n) [] g gs s)) s.goroutines
