-- ===== src/Tracker/Frames.antt =====
-- A frame of packets on the IPv4 input node of flow_table, as the tracker sees it: the hook lists and
-- the node loop of flow_table/vnetfilter around the hooks of flow_table/core.
use vpp_plugins.Tracker.Simulates.{event_of, IsExpected, run_inputs-Runs}
use vpp_plugins.Tracker.Spec.{IsWithin, Runs}
use vpp_plugins.Tracker.View.{CollisionFree, view}
use vpp_plugins.Ip4.Frame.{positions, inputs_at, loop_four-input}
use vpp_plugins.Ip4.Start.{Machine, hooks_of}
use vpp_plugins.Ip4.Run.{Input, comes, goes, expires, IsHandled}
use vpp_plugins.Ip4.Input.{IsValidCtx}
use vpp_plugins.Filter.Command.{l2_input_ip4_arc}
use vpp_plugins.Filter.Node.{Buffers, loop_four, HookTrace}
use vpp_plugins.Protocol.Handlers.{registered_handlers}
use vpp_plugins.Buffer.Vlan.{ip4_pre_process}
use vpp_plugins.Buffer.Defs.{Buffer}
use vpp_plugins.Flow.Defs.{WrkCtx, flow_key_reverse}
use vpp_plugins.Flow.Types.{FlowKey}
use vpp_plugins.Flow.Vpp.{Vpp}
use mathlib.Core.Path.{subst}
use vpp_plugins.Base.{ℕ, List, [], ◌∷◌, Bool, some, some_injective, map, All, ◌≡◌, sym, ◌∙◌}

expected-IsHandled :
    (K : FlowKey → Type 0) (xs : List Input) → All (IsExpected K) xs → All IsHandled xs
expected-IsHandled K [] e = tt
expected-IsHandled K (comes b ∷ xs) (e, es) = (e.0, expected-IsHandled K xs es)
expected-IsHandled K (goes b ∷ xs) (e, es) = (tt, expected-IsHandled K xs es)
expected-IsHandled K (expires now ∷ xs) (e, es) = (tt, expected-IsHandled K xs es)

-- What a frame's packets are to the worker.
abbrev pub frame_inputs : (ℕ → Buffer) → (n : ℕ) → List Input
frame_inputs bufs n = inputs_at (λ b. comes (ip4_pre_process b)) bufs n 0

module _ {T W : Type 0} (vpp : Vpp T W) (vlib : Buffers ℕ (Machine T W)) (K : FlowKey → Type 0)
    (free : CollisionFree vpp K) (closed : (k : FlowKey) → K k → K (flow_key_reverse k)) where
  -- After start-up, in a context that satisfies the invariant, a frame of any number of packets that runs
  -- through the IPv4 input node leaves a context whose connections are those of a run of the tracker in
  -- which these packets arrive one after the other, in the frame's order. It is assumed that looking up
  -- the next node of the feature arc changes neither buffers nor the context, that the protocols of the
  -- packets have handlers, and that their keys and those of the connections that are there lie in a set
  -- in which no two keys have the same hash and which contains the reverse of each of its keys.
  pub loop_four-Runs :
      (next_node : ℕ → ℕ) (is_trace : Bool) (wrk : WrkCtx T W) (bufs : ℕ → Buffer) (n : ℕ)
      (traces : List HookTrace)
      → ((i : ℕ) (s : Machine T W) → vlib.feature_next i s ≡ (next_node i, s))
      → IsValidCtx vpp wrk
      → IsWithin K (view vpp wrk)
      → All (IsExpected K) (frame_inputs bufs n)
      → (after : WrkCtx T W) × (bufs' : ℕ → Buffer) × ((loop_four vlib is_trace
            (hooks_of vpp registered_handlers l2_input_ip4_arc)
            (positions n 0)
            (some (wrk, bufs), traces)).1.0
          ≡ some (after, bufs'))
        × Runs K (map event_of (frame_inputs bufs n)) (view vpp wrk) (view vpp after)
  loop_four-Runs next_node is_trace wrk bufs n traces keeps v w expected =
      let passed =
        loop_four-input vpp vlib next_node is_trace wrk bufs n traces keeps v
          (expected-IsHandled K (frame_inputs bufs n) expected) in
      let (after, ran, v', runs) =
        run_inputs-Runs vpp K free closed wrk (frame_inputs bufs n) v w expected in
      let same : after ≡ passed.after = some_injective (sym ran ∙ passed.ran) in
      (
        passed.after,
        passed.buffers,
        passed.reached,
        subst
            (λ (u : WrkCtx T W).
              Runs K (map event_of (frame_inputs bufs n)) (view vpp wrk) (view vpp u))
            same runs,
      )
