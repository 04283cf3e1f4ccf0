-- ===== src/Flow/Timer.antt =====
-- The expiration timer of a flow: flow_table/core/include/timer.h.
use vpp_plugins.Flow.Types.{Flow, unset32}
use vpp_plugins.Flow.Defs.{flow_expiration_timer_update, flow_expirarion_timer_id}
use vpp_plugins.Flow.Vpp.{Vpp}
use vpp_plugins.Base.{arith, ℕ, ◌≡◌, ◌≢◌}

module _ {T W : Type 0} (vpp : Vpp T W) where
  -- The first update of a flow with no timer starts one; every later update, of any time, moves that
  -- timer and starts none, if the wheel's handles are never the value that stands for no timer.
  pub timer_update-timer_update :
      (tw : W) (f : Flow) (seconds later : ℕ)
      → f.stop_timer_handle ≡ unset32
      → (vpp.tw_timer_start tw f.elt_index flow_expirarion_timer_id seconds).0 ≢ unset32
      → let started = vpp.tw_timer_start tw f.elt_index flow_expirarion_timer_id seconds in
        let (g, tw') = flow_expiration_timer_update vpp tw f seconds in
        flow_expiration_timer_update vpp tw' g later ≡ (
          record f { stop_timer_handle = started.0 },
          vpp.tw_timer_update started.1 started.0 later,
        )
  unfolding flow_expiration_timer_update
  timer_update-timer_update tw f seconds later unset valid = ground arith
