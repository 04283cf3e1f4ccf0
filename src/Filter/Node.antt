-- ===== src/Filter/Node.antt =====
-- `vnetfilter_hook_process` and `vnetfilter_hook_process_inline` of flow_table/vnetfilter/node.c.
use vpp_plugins.Filter.Hook.{HookProcess, run_hooks}
use vpp_plugins.Base.{Bool, List, ℕ, if◌then◌else◌, ◌∷◌, ◌&&◌, ◌++◌, []}
use vpp_plugins.Ip4.Process.{Action, accept, drop, stolen, stop}

-- `VNETFILTER_HOOK_NEXT_DROP` and `VNETFILTER_HOOK_NEXT_STOLEN`
abbrev pub hook_next_drop : ℕ
hook_next_drop = 0

abbrev pub hook_next_stolen : ℕ
hook_next_stolen = 1

-- `vnetfilter_hook_trace_t`
pub record HookTrace : Type 0 where
  pub sw_if_index : ℕ
  pub next_index : ℕ

-- What the node reads of VPP: the trace flag and the receiving interface of a buffer, which no hook
-- changes, and `vnet_feature_next_u16`, which gives the next node of the feature arc.
pub record Buffers (B S : Type 0) : Type 0 where
  pub is_traced : B → Bool
  pub rx_sw_if_index : B → ℕ
  pub feature_next : B → S → ℕ × S

-- The state with the traces that were added.
abbrev pub Traced : Type 0 → Type 0
Traced S = S × List HookTrace

module _ {B S : Type 0} (vlib : Buffers B S) where
  -- The `switch` on the action.
  unfoldable pub next_of : Action → B → S → ℕ × S
  next_of drop b s = (hook_next_drop, s)
  next_of stolen b s = (hook_next_stolen, s)
  next_of accept b s = vlib.feature_next b s
  next_of stop b s = vlib.feature_next b s

  unfoldable pub vnetfilter_hook_process : List (HookProcess B S) → B → S → ℕ × S
  vnetfilter_hook_process process_list b s =
      let done = run_hooks process_list b s in next_of done.0 b done.1

  -- `vnetfilter_trace_buffer(b, n)`
  unfoldable pub trace_buffer : Bool → B → ℕ → Traced S → Traced S
  trace_buffer is_trace b n t = (
    t.0,
    if is_trace && vlib.is_traced b
        then t.1 ++ (record { sw_if_index = vlib.rx_sw_if_index b; next_index = n }) ∷ []
        else t.1,
  )

  -- The hooks on one buffer, with the traces carried along.
  unfoldable pub process : List (HookProcess B S) → B → Traced S → ℕ × Traced S
  process process_list b t =
      let done = vnetfilter_hook_process process_list b t.0 in (done.0, (done.1, t.1))

  -- The loop over single packets; the list holds the indices that `nexts` gets.
  unfoldable pub loop_one : Bool → List (HookProcess B S) → List B → Traced S → List ℕ × Traced S
  unfolding trace_buffer process
  loop_one is_trace hooks [] t = ([], t)
  loop_one is_trace hooks (b ∷ bs) t =
      let one = process hooks b (trace_buffer is_trace b 0 t) in
      let rest = loop_one is_trace hooks bs one.1 in (one.0 ∷ rest.0, rest.1)

  -- The loop over four packets at a time and, behind it, the loop over single packets.
  unfoldable pub loop_four : Bool → List (HookProcess B S) → List B → Traced S → List ℕ × Traced S
  unfolding loop_one
  loop_four is_trace hooks (b0 ∷ b1 ∷ b2 ∷ b3 ∷ bs) t =
      let t0 =
        trace_buffer is_trace b3 0 (
          trace_buffer is_trace b2 0 (trace_buffer is_trace b1 0 (trace_buffer is_trace b0 0 t))) in
      let p0 = process hooks b0 t0 in
      let p1 = process hooks b1 p0.1 in
      let p2 = process hooks b2 p1.1 in
      let p3 = process hooks b3 p2.1 in
      let rest = loop_four is_trace hooks bs p3.1 in (p0.0 ∷ p1.0 ∷ p2.0 ∷ p3.0 ∷ rest.0, rest.1)
  loop_four is_trace hooks bs t = loop_one is_trace hooks bs t
