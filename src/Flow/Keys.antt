-- ===== src/Flow/Keys.antt =====
-- Keys and entries of flow_table/core/include/flow.h.
use vpp_plugins.Tcp.Types.{dir_in, dir_out}
use vpp_plugins.Flow.Types.{FlowEntry, FlowKey, Flow}
use vpp_plugins.Flow.Defs.{flow_key_reverse, flow_table_update_flow, flow_table_init_flow}
use vpp_plugins.Base.{arith, ℕ, ◌≡◌, refl, some}

-- Reversing a key twice gives it back.
pub flow_key_reverse-flow_key_reverse :
    (key : FlowKey) → flow_key_reverse (flow_key_reverse key) ≡ key
unfolding flow_key_reverse
flow_key_reverse-flow_key_reverse key = refl

-- The key that an entry's fields stand for, with the VLAN of another key.
abbrev pub entry_key : FlowEntry → FlowKey → FlowKey
entry_key e key = record key {
  src = e.src;
  dst = e.dst;
  src_port = e.src_port;
  dst_port = e.dst_port;
  protocol = e.protocol;
}

-- A flow that is set up for a key in the direction IN and updated for the reversed key in the
-- direction OUT keeps the key, has the key's fields in its first entry, on any interface, and the
-- reversed key's in its second; both entries point to the flow.
pub entry_key-update-init :
    (flow : ℕ) (f : Flow) (key : FlowKey) (sw_if_index : ℕ)
    → let g =
        flow_table_update_flow flow
          (flow_table_init_flow flow f key sw_if_index dir_in)
          (flow_key_reverse key)
          dir_out in
      (g.key ≡ key)
      × (entry_key g.entry_in key ≡ key)
      × (entry_key g.entry_out key ≡ flow_key_reverse key)
      × (g.entry_in.flow ≡ some flow)
      × (g.entry_out.flow ≡ some flow)
unfolding flow_table_update_flow flow_table_init_flow flow_key_reverse
entry_key-update-init flow f key sw_if_index = ground arith
