-- ===== src/Buffer/Parse.antt =====
-- The fields that flow_table/core/ip4_process.c and flow_table/core/proto/tcp.c read of a packet
-- once `ip4_pre_process` has set its offsets.
use vpp_plugins.Base.{ℕ, ◌+◌, ◌/◌, ◌%◌, ◌^◌}
use vpp_plugins.Flow.Types.{FlowKey, zero_address}
use vpp_plugins.Buffer.Defs.{Buffer, be16, be32, bytes4}

-- `ih4->protocol`
abbrev pub ip4_protocol : Buffer → ℕ
ip4_protocol b = b.byte (b.l3_hdr_offset + 9)

-- The key as `ip4_input_process` fills it in before it calls the protocol's `parse_key`.
unfoldable pub ip4_flow_key : Buffer → FlowKey
ip4_flow_key b = record {
  src = record zero_address { ip4 = bytes4 b (b.l3_hdr_offset + 12) };
  dst = record zero_address { ip4 = bytes4 b (b.l3_hdr_offset + 16) };
  src_port = 0;
  dst_port = 0;
  protocol = ip4_protocol b;
  outer_vlan_id = b.unused0 / 2 ^ 16 % 2 ^ 16;
  inner_vlan_id = b.unused0 % 2 ^ 16;
  vlan_present = b.unused1 % 2 ^ 8;
}

-- `tcp_parse_flow_key`
unfoldable pub tcp_parse_flow_key : Buffer → FlowKey → FlowKey
tcp_parse_flow_key b key = record key {
  src_port = be16 b b.l4_hdr_offset;
  dst_port = be16 b (b.l4_hdr_offset + 2);
}

-- Fields of the TCP header.
abbrev pub tcp_seq_number : Buffer → ℕ
tcp_seq_number b = be32 b (b.l4_hdr_offset + 4)

abbrev pub tcp_ack_number : Buffer → ℕ
tcp_ack_number b = be32 b (b.l4_hdr_offset + 8)

abbrev pub tcp_flags : Buffer → ℕ
tcp_flags b = b.byte (b.l4_hdr_offset + 13)
