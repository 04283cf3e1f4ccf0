-- ===== src/Ip4/Start.antt =====
-- The hooks of flow_table/core as the hook nodes call them, with `flow_table_init` of
-- flow_table/core/init.c, the table of hooks of flow_table/core/include/process.h, and the IPv6 hooks of
-- flow_table/core/ip6_process.c.
use vpp_plugins.Filter.Command.{
  Arc, l2_input_ip4_arc, l2_input_ip6_arc, l2_output_ip4_arc, l2_output_ip6_arc,
}
use vpp_plugins.Filter.Hook.{HookProcess, hook_register}
use vpp_plugins.Buffer.Vlan.{ip4_pre_process}
use vpp_plugins.Buffer.Defs.{Buffer}
use vpp_plugins.Ip4.Process.{Action, stop, ip4_output_process, accept, ip4_input_process}
use vpp_plugins.Protocol.Handlers.{Handlers}
use vpp_plugins.Flow.Defs.{WrkCtx}
use vpp_plugins.Flow.Vpp.{Vpp}
use vpp_plugins.Base.{ℕ, Option, List, [], some, none, ◌∷◌, Bool, true, false, if◌then◌else◌, ◌==◌}

-- What a hook reaches: the worker's context and the buffers of a frame, by their position in it, or
-- nothing after a fault.
abbrev pub Machine : Type 0 → Type 0 → Type 0
Machine T W = Option (WrkCtx T W × (ℕ → Buffer))

abbrev pub Hook : Type 0 → Type 0 → Type 0
Hook T W = HookProcess ℕ (Machine T W)

unfoldable pub put_buffer : (ℕ → Buffer) → ℕ → Buffer → ℕ → Buffer
put_buffer bufs i b j = if i == j then b else bufs j

-- The variables `hook##_hook_process_list`.
pub record HookLists (T W : Type 0) : Type 0 where
  pub l2_input_ip4 : List (Hook T W)
  pub l2_input_ip6 : List (Hook T W)
  pub l2_output_ip4 : List (Hook T W)
  pub l2_output_ip6 : List (Hook T W)

unfoldable pub list_of : {T W : Type 0} → HookLists T W → Arc → List (Hook T W)
list_of lists l2_input_ip4_arc = lists.l2_input_ip4
list_of lists l2_input_ip6_arc = lists.l2_input_ip6
list_of lists l2_output_ip4_arc = lists.l2_output_ip4
list_of lists l2_output_ip6_arc = lists.l2_output_ip6

unfoldable pub set_list : {T W : Type 0} → HookLists T W → Arc → List (Hook T W) → HookLists T W
set_list lists l2_input_ip4_arc hooks = record lists { l2_input_ip4 = hooks }
set_list lists l2_input_ip6_arc hooks = record lists { l2_input_ip6 = hooks }
set_list lists l2_output_ip4_arc hooks = record lists { l2_output_ip4 = hooks }
set_list lists l2_output_ip6_arc hooks = record lists { l2_output_ip6 = hooks }

-- `ip6_pre_process`, `ip6_input_process` and `ip6_output_process`
unfoldable pub ip6_process : {T W : Type 0} → ℕ → Machine T W → Action × Machine T W
ip6_process i s = (accept, s)

module _ {T W : Type 0} (vpp : Vpp T W) (handlers : Handlers) where
  -- The hooks as the loop over hooks calls them; after a fault nothing runs.
  unfoldable pub pre_process : ℕ → Machine T W → Action × Machine T W
  pre_process i none = (stop, none)
  pre_process i (some (wrk, bufs)) =
      (accept, some (wrk, put_buffer bufs i (ip4_pre_process (bufs i))))

  unfoldable pub input_process : ℕ → Machine T W → Action × Machine T W
  input_process i none = (stop, none)
  input_process i (some (wrk, bufs)) = elim (ip4_input_process vpp handlers wrk (bufs i)) [
    | none ↦ (stop, none)
    | some (action, wrk', b) ↦ (action, some (wrk', put_buffer bufs i b))
  ]

  unfoldable pub output_process : ℕ → Machine T W → Action × Machine T W
  output_process i none = (stop, none)
  output_process i (some (wrk, bufs)) =
      let done = ip4_output_process vpp wrk (bufs i) in
      (done.0, some (done.1, put_buffer bufs i done.2))

  -- `for_each_flow_table_hook`
  unfoldable pub flow_table_hooks : List (Arc × Hook T W)
  unfolding pre_process input_process output_process ip6_process
  flow_table_hooks =
      (l2_input_ip4_arc, record { priority = 0; function = pre_process })
      ∷ (l2_input_ip4_arc, record { priority = 0; function = input_process })
      ∷ (l2_output_ip4_arc, record { priority = 0; function = output_process })
      ∷ (l2_input_ip6_arc, record { priority = 0; function = ip6_process })
      ∷ (l2_input_ip6_arc, record { priority = 0; function = ip6_process })
      ∷ (l2_output_ip6_arc, record { priority = 0; function = ip6_process })
      ∷ []

-- One hook after the other; the first that is refused ends the start-up with an error (`false`).
unfoldable pub register_all :
    {T W : Type 0} → List (Arc × Hook T W) → HookLists T W → HookLists T W × Bool
unfolding list_of set_list hook_register
register_all [] lists = (lists, true)
register_all ((arc, h) ∷ hooks) lists =
    let r = hook_register (list_of lists arc) (some h) in
    let rest = register_all hooks (set_list lists arc r.0) in
    if r.1 then rest else (set_list lists arc r.0, false)

-- No hook.
abbrev pub no_hooks : {T W : Type 0} → HookLists T W
no_hooks = record { l2_input_ip4 = []; l2_input_ip6 = []; l2_output_ip4 = []; l2_output_ip6 = [] }

module _ {T W : Type 0} (vpp : Vpp T W) (handlers : Handlers) where
  unfoldable pub flow_table_init : HookLists T W → HookLists T W × Bool
  unfolding flow_table_hooks register_all
  flow_table_init lists = register_all (flow_table_hooks vpp handlers) lists

  -- The hooks of a node after start-up.
  unfoldable pub hooks_of : Arc → List (Hook T W)
  unfolding flow_table_init list_of
  hooks_of arc = list_of (flow_table_init no_hooks).0 arc
