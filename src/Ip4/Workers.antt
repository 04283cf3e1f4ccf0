-- ===== src/Ip4/Workers.antt =====
-- The workers of flow_table/core: `flow_table_main_t` has a context for each thread, and
-- `flow_table_get_worker_ctx` of flow_table/core/include/flow.h gives a hook that of the thread it runs
-- on.
use mathlib.Core.Path.{fun_ext}
use vpp_plugins.Protocol.Tcp.{◌>>=◌}
use vpp_plugins.Flow.Defs.{WrkCtx, update}
use vpp_plugins.Ip4.Run.{run_inputs, Input, input_step, IsHandled, input_step-IsValid}
use vpp_plugins.Ip4.Input.{IsValidCtx}
use vpp_plugins.Flow.Vpp.{Vpp}
use vpp_plugins.Base.{
  ℕ, List, Option, All, some, ◌≡◌, ◌∷◌, Bool-cases, ◌==◌, some_injective, if◌then◌else◌, [], refl,
  inl, sym, ◌∙◌, ==_iff, inr, ap,
}

-- What the threads do, in the order of time, each with the thread that does it.
abbrev pub Schedule : Type 0
Schedule = List (ℕ × Input)

-- What one thread does.
unfoldable pub inputs_of : (thread : ℕ) → Schedule → List Input
inputs_of thread [] = []
inputs_of thread ((t, x) ∷ xs) =
    if t == thread then x ∷ inputs_of thread xs else inputs_of thread xs

module _ {T W : Type 0} (vpp : Vpp T W) where
  -- `flow_table_main.wrk_ctx`
  abbrev pub Workers : Type 0
  Workers = ℕ → WrkCtx T W

  unfoldable pub flow_table_get_worker_ctx : Workers → (thread_index : ℕ) → WrkCtx T W
  flow_table_get_worker_ctx wrk_ctx thread_index = wrk_ctx thread_index

  -- An input on one thread; `none` is a fault, which ends the process.
  unfoldable pub thread_step : Workers → ℕ × Input → Option Workers
  unfolding flow_table_get_worker_ctx
  thread_step ws (t, x) =
      input_step vpp (flow_table_get_worker_ctx ws t) x >>= λ wrk. some (update ws t wrk)

  unfoldable pub run_schedule : Workers → Schedule → Option Workers
  unfolding thread_step
  run_schedule ws [] = some ws
  run_schedule ws (s ∷ ss) = thread_step ws s >>= λ ws'. run_schedule ws' ss

  abbrev pub AllValid : Workers → Type 0
  AllValid ws = (t : ℕ) → IsValidCtx vpp (ws t)

  update-AllValid :
      (ws : Workers) (t : ℕ) (wrk : WrkCtx T W)
      → AllValid ws
      → IsValidCtx vpp wrk
      → AllValid (update ws t wrk)
  update-AllValid ws t wrk vs v j = elim (Bool-cases (t == j)) [
    | inl same ↦ rw same v
    | inr other ↦ rw other (vs j)
  ]

  -- After a step on the thread `t`, what is left for a thread continues from where it was.
  after_step :
      (ws ws' : Workers) (t j : ℕ) (x : Input) (xs : Schedule) (wrk : WrkCtx T W)
      → input_step vpp (ws t) x ≡ some wrk
      → run_inputs vpp (update ws t wrk j) (inputs_of j xs) ≡ some (ws' j)
      → run_inputs vpp (ws j) (inputs_of j ((t, x) ∷ xs)) ≡ some (ws' j)
  unfolding inputs_of run_inputs
  after_step ws ws' t j x xs wrk eq rest = elim (Bool-cases (t == j)) [
    | inl same ↦
        (let e : t ≡ j = (==_iff t j).0 same in
          rw (same, ap (λ (k : ℕ). input_step vpp (ws k) x) (sym e) ∙ eq, ◌>>=◌) (rw same at rest))
    | inr other ↦ rw other (rw other at rest)
  ]

  -- Every schedule of packets and expiring timers on any threads, whose protocols have handlers, from
  -- contexts that satisfy the invariant, runs to its end without a fault; the contexts satisfy the
  -- invariant again, and each thread's is the one that the thread's own inputs alone lead to.
  pub run_schedule-run_inputs :
      (ws : Workers) (xs : Schedule)
      → AllValid ws
      → All (λ (s : ℕ × Input). IsHandled s.1) xs
      → (ws' : Workers) × (run_schedule ws xs ≡ some ws')
        × AllValid ws'
        × ((t : ℕ) → run_inputs vpp (ws t) (inputs_of t xs) ≡ some (ws' t))
  unfolding run_schedule run_inputs inputs_of
  run_schedule-run_inputs ws [] vs h = (ws, refl, vs, λ t. refl)
  run_schedule-run_inputs ws ((t, x) ∷ xs) vs (hx, hs) =
      let (wrk, eq, v) = input_step-IsValid vpp (ws t) x (vs t) hx in
      let (ws', run, vs', own) =
        run_schedule-run_inputs (update ws t wrk) xs (update-AllValid ws t wrk vs v) hs in
      (ws', rw (eq, ◌>>=◌) run, vs', λ j. after_step ws ws' t j x xs wrk eq (own j))

  -- Two such schedules in which every thread does the same in the same order lead to the same contexts,
  -- however the threads take turns.
  pub run_schedule-interleave :
      (ws : Workers) (xs ys : Schedule)
      → AllValid ws
      → All (λ (s : ℕ × Input). IsHandled s.1) xs
      → All (λ (s : ℕ × Input). IsHandled s.1) ys
      → ((t : ℕ) → inputs_of t xs ≡ inputs_of t ys)
      → run_schedule ws xs ≡ run_schedule ws ys
  run_schedule-interleave ws xs ys vs hx hy same =
      let (wx, ex, vx, ox) = run_schedule-run_inputs ws xs vs hx in
      let (wy, ey, vy, oy) = run_schedule-run_inputs ws ys vs hy in
      let each : (t : ℕ) → wx t ≡ wy t =
        λ t. some_injective (sym (ox t) ∙ ap (run_inputs vpp (ws t)) (same t) ∙ oy t) in
      ex ∙ ap some (fun_ext each) ∙ sym ey
