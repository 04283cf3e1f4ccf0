-- ===== src/Tracker/Simulates.antt =====
-- Whole runs of a worker of flow_table/core, as the tracker sees them.
use vpp_plugins.Tracker.Outward.{ip4_output_process-Leaves}
use vpp_plugins.Ip4.Process.{ip4_output_process}
use vpp_plugins.Protocol.Tcp.{◌>>=◌}
use vpp_plugins.Protocol.Handlers.{registered_handlers}
use vpp_plugins.Tracker.Refines.{ip4_input_process-Arrives}
use vpp_plugins.Ip4.Input.{IsValidCtx}
use vpp_plugins.Ip4.Arrive.{packet_key}
use vpp_plugins.Ip4.Safety.{registered_handler, ip4_input_process-IsValid, has_handler}
use vpp_plugins.Ip4.Output.{ip4_output_process-IsValid}
use vpp_plugins.Buffer.Parse.{ip4_protocol}
use vpp_plugins.Flow.Defs.{flow_key_reverse, flow_table_timer_update_time, WrkCtx}
use vpp_plugins.Tracker.View.{CollisionFree, packet_of, view, conn_of, conn_at}
use vpp_plugins.Tracker.Spec.{
  Event, arrive, leave, IsWithin, pass_time, Runs, Happens, Arrives-IsWithin, Leaves-IsWithin,
}
use vpp_plugins.Flow.Vpp.{Vpp}
use vpp_plugins.Flow.Types.{FlowKey}
use vpp_plugins.Ip4.Run.{Input, comes, input_step, run_inputs, goes, expires, context_of}
use vpp_plugins.Base.{◌<◌, List, ◌≡◌, All, some, map, ◌∷◌, [], refl, ap}

-- What the tracker sees of an input.
abbrev pub event_of : Input → Event
event_of (comes b) = arrive (packet_of (registered_handler (ip4_protocol b)) b)
event_of (goes b) = leave b.flow_index
event_of (expires now) = pass_time

-- A packet that comes in has a protocol with a handler, and its key is in `K`.
abbrev pub IsExpected : (FlowKey → Type 0) → Input → Type 0
IsExpected K (comes b) =
    (ip4_protocol b < 255) × K (packet_key (registered_handler (ip4_protocol b)) b)
IsExpected K (goes b) = Unit {0}
IsExpected K (expires now) = Unit {0}

module _ {T W : Type 0} (vpp : Vpp T W) (K : FlowKey → Type 0) (free : CollisionFree vpp K)
    (closed : (k : FlowKey) → K k → K (flow_key_reverse k)) where
  -- One input: a context that satisfies the invariant again, and a step of the tracker.
  input_step-Happens :
      (wrk : WrkCtx T W) (x : Input)
      → IsValidCtx vpp wrk
      → IsWithin K (view vpp wrk)
      → IsExpected K x
      → (wrk' : WrkCtx T W) × (input_step vpp wrk x ≡ some wrk')
        × IsValidCtx vpp wrk'
        × IsWithin K (view vpp wrk')
        × Happens K (event_of x) (view vpp wrk) (view vpp wrk')
  unfolding input_step flow_table_timer_update_time
  input_step-Happens wrk (comes b) v w (lt, kk) =
      let done = ip4_input_process-IsValid vpp wrk b v lt in
      let h = registered_handler (ip4_protocol b) in
      let step =
        ip4_input_process-Arrives vpp K registered_handlers wrk done.wrk h b done.buffer free v
          (has_handler (ip4_protocol b) lt) kk done.eq in
      (
        done.wrk,
        ap context_of done.eq,
        done.valid,
        Arrives-IsWithin K (packet_of h b) (view vpp wrk) (view vpp done.wrk) w kk step,
        step,
      )
  input_step-Happens wrk (goes b) v w e =
      let after = (ip4_output_process vpp wrk b).1 in
      let step =
        ip4_output_process-Leaves vpp K wrk b free v
          (λ f found. closed f.key (w b.flow_index (conn_of f) (ap conn_at found))) in
      (
        after,
        refl,
        ip4_output_process-IsValid vpp wrk b v,
        Leaves-IsWithin K b.flow_index (view vpp wrk) (view vpp after) w step,
        step,
      )
  input_step-Happens wrk (expires now) v w e = (_, refl, v, w, refl)

  -- Every sequence of packets that come in and go out and of expiring timers, in a context that satisfies
  -- the invariant, runs to its end without a fault, and the connections before and after are those
  -- of a run of the tracker over the same events. The protocols of the packets that come in have
  -- handlers, and their keys and the keys of the connections that are there lie in a set in which no two
  -- keys have the same hash and which contains the reverse of each of its keys.
  pub run_inputs-Runs :
      (wrk : WrkCtx T W) (xs : List Input)
      → IsValidCtx vpp wrk
      → IsWithin K (view vpp wrk)
      → All (IsExpected K) xs
      → (wrk' : WrkCtx T W) × (run_inputs vpp wrk xs ≡ some wrk')
        × IsValidCtx vpp wrk'
        × Runs K (map event_of xs) (view vpp wrk) (view vpp wrk')
  unfolding run_inputs
  run_inputs-Runs wrk [] v w e = (wrk, refl, v, refl)
  run_inputs-Runs wrk (x ∷ xs) v w (e, es) =
      let (mid, eq, v', w', step) = input_step-Happens wrk x v w e in
      let (after, eq', v'', runs) = run_inputs-Runs mid xs v' w' es in
      (after, rw (eq, ◌>>=◌) eq', v'', (view vpp mid, step, runs))
