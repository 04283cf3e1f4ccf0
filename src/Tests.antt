-- ===== src/Tests.antt =====
-- A concrete VPP and packets, with which the theorems are tried.
mod Ip4
mod Flows
mod Tracker
mod Tcp
mod FlowTable
mod Reset
mod Checksum
mod Filter
mod LinkPulse
mod CpuLoading
use vpp_plugins.Filter.Node.{Buffers}
use vpp_plugins.Ip4.Start.{Machine}
use vpp_plugins.Ip4.Reply.{First}
use vpp_plugins.Protocol.Registered.{handler_of, protocol_handler_get-registered}
use vpp_plugins.Protocol.Handlers.{protocol_handler_get, registered_handlers, tcp}
use vpp_plugins.Ip4.Reach.{IsInitial}
use vpp_plugins.Ip4.Input.{IsValidCtx}
use vpp_plugins.Flow.Types.{EntryRef, Flow, unset32}
use vpp_plugins.Buffer.Vlan.{ip4_pre_process, parse_vlan_tags}
use vpp_plugins.Flow.Vpp.{Vpp}
use vpp_plugins.Flow.Defs.{WrkCtx}
use vpp_plugins.Buffer.Defs.{Buffer, buffer_of, vlib_buffer_init_flow}
use vpp_plugins.Base.{
  arith, ℕ, List, none, ◌∷◌, Option, if◌then◌else◌, [], ◌*◌, ◌==◌, some, ◌+◌, ◌≡◌, ◌<◌, ◌%◌, ◌^◌,
  false, true, refl,
}

-- The hash table is an association list, the newest pair first.
abbrev pub Pairs : Type 0
Pairs = List (ℕ × EntryRef)

abbrev pub assoc_get : Pairs → ℕ → Option EntryRef
assoc_get [] j = none
assoc_get ((k, v) ∷ t) j = if k == j then some v else assoc_get t j

-- A pool of one element.
abbrev pub first_slot : (ℕ → Option Flow) → Option ℕ
first_slot flows = elim (flows 0) [ none ↦ some 0 | some _ ↦ none ]

pub first_slot-free : (flows : ℕ → Option Flow) (i : ℕ) → first_slot flows ≡ some i → flows i ≡ none
first_slot-free flows i h = ground arith

pub first_slot-lt : (flows : ℕ → Option Flow) (i : ℕ) → first_slot flows ≡ some i → i < unset32
first_slot-lt flows i h = ground arith

-- A wheel counts the calls that were made of it.
abbrev pub vpp : Vpp Pairs ℕ
vpp = record {
  hash_get = assoc_get;
  hash_set = λ t k v. (k, v) ∷ t;
  hash_get-set = λ t k v j. refl;
  pool_get = first_slot;
  pool_get-free = first_slot-free;
  pool_get-lt = first_slot-lt;
  key_words = λ key. (65536 * key.dst_port + key.src_port) ∷ key.outer_vlan_id ∷ [];
  clib_xxhash = λ w. w * 31 % 2 ^ 64;
  tw_timer_start = λ tw user timer ticks. (7, tw + 1);
  tw_timer_update = λ tw handle ticks. tw + 1;
  tw_timer_stop = λ tw handle. tw + 1;
  tw_timer_expire_timers = λ tw now. (now ∷ [], tw + 1);
  is_free_sw_interface = λ i. false;
  is_hardware_interface = λ i. true;
  output_node_index = λ i. i + 100;
  vlib_buffer_alloc = λ sent. true;
}

-- A worker with no flow.
abbrev pub empty_wrk : WrkCtx Pairs ℕ
empty_wrk = record { flows = λ i. none; flows_hash_table = []; tw = 0; sent = [] }

-- An IPv4 packet with a TCP header: the last byte of each address and port, and the flags.
abbrev pub tcp_bytes : (src dst src_port dst_port flags : ℕ) → List ℕ
tcp_bytes src dst src_port dst_port flags =
    2 ∷ 2 ∷ 2 ∷ 2 ∷ 2 ∷ 2 ∷ 1 ∷ 1 ∷ 1 ∷ 1 ∷ 1 ∷ 1 ∷ 8 ∷ 0 ∷ 69 ∷ 0 ∷ 0 ∷ 40 ∷ 0 ∷ 0 ∷ 0 ∷ 0 ∷ 64 ∷ 6
    ∷ 0 ∷ 0 ∷ 10 ∷ 0 ∷ 0 ∷ src ∷ 10 ∷ 0 ∷ 0 ∷ dst ∷ 0 ∷ src_port ∷ 0 ∷ dst_port ∷ 0 ∷ 0 ∷ 0 ∷ 9 ∷ 0
    ∷ 0 ∷ 0 ∷ 5 ∷ 80 ∷ flags ∷ 1 ∷ 0 ∷ 0 ∷ 0 ∷ 0 ∷ 0 ∷ []

-- A packet as `ip4_input_process` gets it: the hook before it has parsed its Ethernet header.
unfoldable pub arrived : List ℕ → Buffer
arrived bytes = ip4_pre_process (buffer_of bytes 3)

abbrev pub syn : Buffer
syn = arrived (tcp_bytes 1 2 50 80 2)

abbrev pub syn_ack : Buffer
syn_ack = arrived (tcp_bytes 2 1 80 50 18)

abbrev pub ack : Buffer
ack = arrived (tcp_bytes 1 2 50 80 16)

pub empty_IsInitial : IsInitial vpp empty_wrk
empty_IsInitial = record { no_flows = λ i. refl; no_keys = λ k. refl }

pub empty_IsValid : IsValidCtx vpp empty_wrk
empty_IsValid = record { flows_ok = λ i f h. ground arith; table_ok = λ k ref h. ground arith }

pub syn-First : First vpp registered_handlers empty_wrk tcp syn 0
unfolding arrived ip4_pre_process parse_vlan_tags vlib_buffer_init_flow protocol_handler_get
    handler_of
syn-First = record {
  handler = protocol_handler_get-registered 6;
  new = refl;
  slot = refl;
  valid = empty_IsValid;
}

-- The next node of the feature arc is node 3.
abbrev pub feature_arc : Buffers ℕ (Machine Pairs ℕ)
feature_arc = record {
  is_traced = λ u. false;
  rx_sw_if_index = λ u. 3;
  feature_next = λ u s. (3, s);
}

-- A frame with the packet that opens a connection, and its retransmission.
abbrev pub frame : ℕ → Buffer
frame i = buffer_of (tcp_bytes 1 2 50 80 2) 3
