-- ===== src/Ip4/Run.antt =====
-- What a worker of flow_table/core does one after the other: packets come in, packets go out, and
-- timers expire.
use vpp_plugins.Protocol.Tcp.{◌>>=◌}
use vpp_plugins.Ip4.Safety.{ip4_input_process-IsValid}
use vpp_plugins.Ip4.Output.{ip4_output_process-IsValid}
use vpp_plugins.Protocol.Handlers.{registered_handlers}
use vpp_plugins.Ip4.Input.{IsValidCtx}
use vpp_plugins.Ip4.Process.{Outcome, ip4_input_process, ip4_output_process}
use vpp_plugins.Flow.Defs.{WrkCtx, flow_table_timer_update_time}
use vpp_plugins.Buffer.Parse.{ip4_protocol}
use vpp_plugins.Buffer.Defs.{Buffer}
use vpp_plugins.Flow.Vpp.{Vpp}
use vpp_plugins.Base.{Option, ◌<◌, ℕ, List, some, ◌∷◌, ◌≡◌, none, [], ap, refl}

pub data Input : Type 0 where
  comes : Buffer → Input
  goes : Buffer → Input
  expires : (now : ℕ) → Input

-- A protocol number that has a handler.
abbrev pub IsHandled : Input → Type 0
IsHandled (comes b) = ip4_protocol b < 255
IsHandled (goes b) = Unit {0}
IsHandled (expires now) = Unit {0}

unfoldable pub context_of : {T W : Type 0} → Option (Outcome T W) → Option (WrkCtx T W)
context_of none = none
context_of (some (action, wrk, b)) = some wrk

module _ {T W : Type 0} (vpp : Vpp T W) where
  -- `none` is a fault.
  unfoldable pub input_step : WrkCtx T W → Input → Option (WrkCtx T W)
  unfolding context_of
  input_step wrk (comes b) = context_of (ip4_input_process vpp registered_handlers wrk b)
  input_step wrk (goes b) = some (ip4_output_process vpp wrk b).1
  input_step wrk (expires now) = some (flow_table_timer_update_time vpp wrk now).1

  unfoldable pub run_inputs : WrkCtx T W → List Input → Option (WrkCtx T W)
  unfolding input_step
  run_inputs wrk [] = some wrk
  run_inputs wrk (x ∷ xs) = input_step wrk x >>= λ wrk'. run_inputs wrk' xs

  -- An input whose protocol has a handler does not fault, and keeps the invariant.
  pub input_step-IsValid :
      (wrk : WrkCtx T W) (x : Input)
      → IsValidCtx vpp wrk
      → IsHandled x
      → (wrk' : WrkCtx T W) × (input_step wrk x ≡ some wrk') × IsValidCtx vpp wrk'
  unfolding input_step flow_table_timer_update_time
  input_step-IsValid wrk (comes b) v lt =
      let done = ip4_input_process-IsValid vpp wrk b v lt in
      (done.wrk, ap context_of done.eq, done.valid)
  input_step-IsValid wrk (goes b) v lt = (_, refl, ip4_output_process-IsValid vpp wrk b v)
  input_step-IsValid wrk (expires now) v lt = (_, refl, v)
