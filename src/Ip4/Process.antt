-- ===== src/Ip4/Process.antt =====
-- `ip4_input_process` and `ip4_output_process` of flow_table/core/ip4_process.c. `none` is a fault: a
-- call of a NULL function, or an access through a NULL pointer or into a free element. `hash_set` on
-- a copy of the worker's pointer to the table is taken to change the table that the worker has.
use vpp_plugins.Base.{ℕ, ◌+◌, Option, none, some}
use vpp_plugins.Tcp.Types.{dir_in, dir_out}
use vpp_plugins.Flow.Types.{FlowKey, Flow, EntryRef}
use vpp_plugins.Flow.Vpp.{Vpp}
use vpp_plugins.Flow.Defs.{
  WrkCtx, put_flow, deref_entry, flow_key_reverse, flow_table_hash, flow_table_alloc_flow,
  flow_table_update_flow, flow_table_init_flow, flow_table_get_direction,
}
use vpp_plugins.Buffer.Defs.{Buffer, bytes6, vlib_buffer_set_flow, vlib_buffer_get_flow}
use vpp_plugins.Buffer.Parse.{ip4_flow_key, ip4_protocol}
use vpp_plugins.Protocol.Handlers.{Handlers, Handler, protocol_handler_get}
use vpp_plugins.Protocol.Tcp.{◌>>=◌, parse_key, init_state, update_state}

-- `vnetfilter_action_t` of flow_table/vnetfilter/include/vnetfilter.h.
pub data Action : Type 0 where
  accept drop stolen stop : Action

-- The action, the worker's context and the buffer after a hook.
abbrev pub Outcome : Type 0 → Type 0 → Type 0
Outcome T W = Action × WrkCtx T W × Buffer

-- MAC addresses and VLAN of a new flow's first entry.
unfoldable pub learn : Flow → Buffer → FlowKey → Flow
learn f b key = record f {
  entry_in = record (f.entry_in) {
    smac = bytes6 b (b.l2_hdr_offset + 6);
    dmac = bytes6 b b.l2_hdr_offset;
    outer_vlan_id = key.outer_vlan_id;
    inner_vlan_id = key.inner_vlan_id;
    vlan_present = key.vlan_present;
  };
}

-- The flow that a packet with a new key makes in the element `flow`.
unfoldable pub first_flow : (flow : ℕ) → Flow → Buffer → FlowKey → Flow
unfolding learn flow_table_init_flow
first_flow flow f b key =
    learn
      (flow_table_init_flow flow (record f { protocol = ip4_protocol b; ip_version = 4 }) key
        b.rx_sw_if_index dir_in)
      b key

module _ {T W : Type 0} (vpp : Vpp T W) where
  -- The branch for a key that is not in the hash table.
  unfoldable pub new_flow :
      WrkCtx T W → Handler → Buffer → FlowKey → (hash_key : ℕ) → Option (Outcome T W)
  new_flow wrk h b key hash_key = elim (flow_table_alloc_flow vpp wrk) [
    | none ↦ some (accept, wrk, b)
    | some (i, f) ↦
        (let b' = vlib_buffer_set_flow b i in
          let wrk' = record (put_flow wrk i (first_flow i f b key)) {
            flows_hash_table =
                vpp.hash_set wrk.flows_hash_table hash_key (record { index = i; dir = dir_in });
          } in
          init_state vpp h wrk' b' dir_in >>= λ done. some (accept, done, b'))
  ]

  -- The branch for an entry that the hash table has.
  unfoldable pub known_flow : WrkCtx T W → Handler → Buffer → EntryRef → Option (Outcome T W)
  known_flow wrk h b ref = do
    e ← deref_entry wrk ref
    flow ← e.flow
    let b' = vlib_buffer_set_flow b flow
    wrk' ← update_state vpp h wrk b' (flow_table_get_direction flow ref)
    some (accept, wrk', b')

  unfoldable pub ip4_input_process : Handlers → WrkCtx T W → Buffer → Option (Outcome T W)
  ip4_input_process handlers wrk b = do
    h ← protocol_handler_get handlers (ip4_protocol b)
    let key = parse_key h b (ip4_flow_key b)
    let hash_key = flow_table_hash vpp key
    elim (vpp.hash_get wrk.flows_hash_table hash_key) [
      | none ↦ new_flow wrk h b key hash_key
      | some ref ↦ known_flow wrk h b ref
    ]

  -- The reverse entry of a flow that has none yet.
  unfoldable pub add_reverse : WrkCtx T W → (flow : ℕ) → Flow → WrkCtx T W
  add_reverse wrk flow f =
      let key = flow_key_reverse f.key in
      record (put_flow wrk flow (flow_table_update_flow flow f key dir_out)) {
        flows_hash_table =
            vpp.hash_set wrk.flows_hash_table (flow_table_hash vpp key)
              (record { index = flow; dir = dir_out });
      }

  unfoldable pub ip4_output_process : WrkCtx T W → Buffer → Outcome T W
  ip4_output_process wrk b = elim (vlib_buffer_get_flow wrk b) [
    | none ↦ (stop, wrk, b)
    | some f ↦ (elim f.entry_out.flow [
      | none ↦ (accept, add_reverse wrk b.flow_index f, b)
      | some _ ↦ (accept, wrk, b)
    ])
  ]
