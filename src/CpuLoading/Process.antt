-- ===== src/CpuLoading/Process.antt =====
-- The process of cpu_loading/cpu_loading.c with its loop, while the threads dispatch their nodes.
use vpp_plugins.CpuLoading.Defs.{
  Thread, Dispatch, cpu_loading_time_statistics, cpu_loading_process_round,
}
use vpp_plugins.Base.{
  arith, ℕ, suc, zero, List, [], ◌∷◌, ◌++◌, Bool, false, Bool-cases, inl, inr, ◌==◌, ◌≡◌,
  if◌then◌else◌, map, refl, ap, ◌∙◌, true,
}

-- The counters, and whether the process still runs.
pub record Sampling (F : Type 0) : Type 0 where
  pub running : Bool
  pub threads : List (Thread F)

-- A node is dispatched on a thread, or the process wakes up; `event` is what `vlib_process_get_events`
-- returns then.
pub data Act : Type 0 where
  dispatched : (thread : ℕ) → Dispatch → Act
  wakes : (event : ℕ) → Act

module _ {F : Type 0} (loading : ℕ → ℕ → F) where
  -- One pass of the loop in `cpu_loading_process`: the event 0 ends the loop and the process.
  unfoldable pub cpu_loading_process : (event : ℕ) → Sampling F → Sampling F
  cpu_loading_process event s =
      if s.running
      then (if event == 0
          then record s { running = false }
          else record s { threads = cpu_loading_process_round loading s.threads })
      else s

  -- The wrapper runs on one thread.
  on_thread : ℕ → Dispatch → List (Thread F) → List (Thread F)
  on_thread i d [] = []
  on_thread zero d (t ∷ ts) = cpu_loading_time_statistics t d ∷ ts
  on_thread (suc i) d (t ∷ ts) = t ∷ on_thread i d ts

  act : Act → Sampling F → Sampling F
  act (dispatched i d) s = record s { threads = on_thread i d s.threads }
  act (wakes event) s = cpu_loading_process event s

  unfoldable pub run_acts : List Act → Sampling F → Sampling F
  unfolding act on_thread
  run_acts [] s = s
  run_acts (a ∷ acts) s = run_acts acts (act a s)

  -- The loads that the commands show.
  abbrev pub loads : Sampling F → List F
  loads s = map (λ (t : Thread F). t.last_cpu_loading) s.threads

  statistics-load :
      (t : Thread F) (d : Dispatch)
      → (cpu_loading_time_statistics t d).last_cpu_loading ≡ t.last_cpu_loading
  unfolding cpu_loading_time_statistics
  statistics-load t d = ground arith

  on_thread-loads :
      (i : ℕ) (d : Dispatch) (ts : List (Thread F))
      → map (λ (t : Thread F). t.last_cpu_loading) (on_thread i d ts)
        ≡ map (λ (t : Thread F). t.last_cpu_loading) ts
  unfolding on_thread
  on_thread-loads i d [] = refl
  on_thread-loads zero d (t ∷ ts) =
      ap (λ (x : F). x ∷ map (λ (t : Thread F). t.last_cpu_loading) ts) (statistics-load t d)
  on_thread-loads (suc i) d (t ∷ ts) =
      ap (λ (l : List F). t.last_cpu_loading ∷ l) (on_thread-loads i d ts)

  cpu_loading_process-ended :
      (event : ℕ) (s : Sampling F) → s.running ≡ false → cpu_loading_process event s ≡ s
  unfolding cpu_loading_process
  cpu_loading_process-ended event s off =
      ap
        (λ (r : Bool).
          if r
          then (if event == 0
              then record s { running = false }
              else record s { threads = cpu_loading_process_round loading s.threads })
          else s)
        off

  -- When the process has ended.
  ended-loads :
      (acts : List Act) (s : Sampling F)
      → s.running ≡ false
      → (loads (run_acts acts s) ≡ loads s) × ((run_acts acts s).running ≡ false)
  unfolding run_acts act
  ended-loads [] s off = (refl, off)
  ended-loads (dispatched i d ∷ acts) s off =
      let (same, still) = ended-loads acts (record s { threads = on_thread i d s.threads }) off in
      (same ∙ on_thread-loads i d s.threads, still)
  ended-loads (wakes event ∷ acts) s off =
      let asleep = cpu_loading_process-ended event s off in
      let (same, still) =
        ended-loads acts (cpu_loading_process event s)
          (ap (λ (u : Sampling F). u.running) asleep ∙ off) in
      (same ∙ ap loads asleep, still)

  running_zero :
      (s : Sampling F) → s.running ≡ true → cpu_loading_process 0 s ≡ record s { running = false }
  unfolding cpu_loading_process
  running_zero s on = rw on refl

  event_zero :
      (s : Sampling F)
      → ((cpu_loading_process 0 s).running ≡ false) × (loads (cpu_loading_process 0 s) ≡ loads s)
  event_zero s = elim (Bool-cases s.running) [
    | inl on ↦ rw (running_zero s on) (refl, refl)
    | inr off ↦ rw (cpu_loading_process-ended 0 s off) (off, refl)
  ]

  -- When the process has once woken up for the event 0, it has ended and the loads of all threads stay
  -- as they were then, whatever is dispatched and whatever other events there are from then on.
  pub run_acts-ended :
      (before behind : List Act) (s : Sampling F)
      → ((run_acts (before ++ wakes 0 ∷ behind) s).running ≡ false)
        × (loads (run_acts (before ++ wakes 0 ∷ behind) s) ≡ loads (run_acts before s))
  unfolding run_acts act
  run_acts-ended [] behind s =
      let (off, same) = event_zero s in
      let (kept, still) = ended-loads behind (cpu_loading_process 0 s) off in (still, kept ∙ same)
  run_acts-ended (a ∷ before) behind s = run_acts-ended before behind (act a s)
