-- ===== src/Flow/Types.antt =====
-- The data of flow_table/core/include/flow.h. A pointer to a flow is its index in the worker's pool,
-- and a pointer to one of its two entries is the index with the direction.
use vpp_plugins.Base.{ℕ, ◌-◌, ◌^◌, List, Bool, false, Option, none, replicate}
use vpp_plugins.Tcp.Types.{FlowDir, dir_in, dir_out, TcpState, start}

-- The members of the union in `ip_address_t`, each by its bytes in network order. No code reads one
-- member after it wrote the other.
pub record IpAddress : Type 0 where
  pub ip4 : List ℕ
  pub ip6 : List ℕ

pub record FlowKey : Type 0 where
  pub src : IpAddress
  pub dst : IpAddress
  pub src_port : ℕ
  pub dst_port : ℕ
  pub protocol : ℕ
  pub outer_vlan_id : ℕ
  pub inner_vlan_id : ℕ
  pub vlan_present : ℕ

pub record TcpFlowAttr : Type 0 where
  pub seq : ℕ
  pub ack : ℕ
  pub seq_inc : ℕ

-- `flow` is NULL until the entry is in use.
pub record FlowEntry : Type 0 where
  pub flow : Option ℕ
  pub smac : List ℕ
  pub dmac : List ℕ
  pub src : IpAddress
  pub dst : IpAddress
  pub protocol : ℕ
  pub src_port : ℕ
  pub dst_port : ℕ
  pub sw_if_index : ℕ
  pub outer_vlan_id : ℕ
  pub inner_vlan_id : ℕ
  pub vlan_present : ℕ
  pub tcp_attr : TcpFlowAttr

-- `flow_entry[FLOW_DIR_MAX]` is the two fields `entry_in` and `entry_out`.
pub record Flow : Type 0 where
  pub refcount : ℕ
  pub key : FlowKey
  pub entry_in : FlowEntry
  pub entry_out : FlowEntry
  pub ip_version : ℕ
  pub protocol : ℕ
  pub state : TcpState
  pub three_way_handshake : Bool
  pub elt_index : ℕ
  pub stop_timer_handle : ℕ

-- `&flow->flow_entry[dir]`
pub record EntryRef : Type 0 where
  pub index : ℕ
  pub dir : FlowDir

-- `~0` as a `u32`
abbrev pub unset32 : ℕ
unset32 = 2 ^ 32 - 1

-- `flow->flow_entry[dir]`
abbrev pub flow_entry : Flow → FlowDir → FlowEntry
flow_entry f dir_in = f.entry_in
flow_entry f dir_out = f.entry_out

abbrev pub set_flow_entry : Flow → FlowDir → FlowEntry → Flow
set_flow_entry f dir_in e = record f { entry_in = e }
set_flow_entry f dir_out e = record f { entry_out = e }

abbrev pub zero_mac : List ℕ
zero_mac = replicate 6 0

abbrev pub zero_address : IpAddress
zero_address = record { ip4 = replicate 4 0; ip6 = replicate 16 0 }

abbrev pub zero_key : FlowKey
zero_key = record {
  src = zero_address;
  dst = zero_address;
  src_port = 0;
  dst_port = 0;
  protocol = 0;
  outer_vlan_id = 0;
  inner_vlan_id = 0;
  vlan_present = 0;
}

abbrev pub zero_entry : FlowEntry
zero_entry = record {
  flow = none;
  smac = zero_mac;
  dmac = zero_mac;
  src = zero_address;
  dst = zero_address;
  protocol = 0;
  src_port = 0;
  dst_port = 0;
  sw_if_index = 0;
  outer_vlan_id = 0;
  inner_vlan_id = 0;
  vlan_present = 0;
  tcp_attr = record { seq = 0; ack = 0; seq_inc = 0 };
}

-- `memset(flow, 0, sizeof(flow_t))`
abbrev pub zero_flow : Flow
zero_flow = record {
  refcount = 0;
  key = zero_key;
  entry_in = zero_entry;
  entry_out = zero_entry;
  ip_version = 0;
  protocol = 0;
  state = start;
  three_way_handshake = false;
  elt_index = 0;
  stop_timer_handle = 0;
}
