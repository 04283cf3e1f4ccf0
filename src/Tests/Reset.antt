-- ===== src/Tests/Reset.antt =====
-- The reset packet of flow_table/core/proto/tcp_control.h for an entry with two VLAN tags.
use vpp_plugins.Flow.Defs.{flow_key_reverse}
use vpp_plugins.Protocol.Handlers.{tcp}
use vpp_plugins.Ip4.Arrive.{packet_key}
use vpp_plugins.Reset.Received.{IsTcp4, key_of, packet_key-reset_frame}
use vpp_plugins.Buffer.Defs.{buffer_of}
use vpp_plugins.Buffer.Vlan.{parse_vlan_tags, ip4_pre_process}
use vpp_plugins.Checksum.Defs.{flow_table_tcp_checksum}
use vpp_plugins.Flow.Types.{FlowEntry, zero_entry, zero_address}
use vpp_plugins.Reset.Verify.{IsEntry, flow_table_tcp_checksum-tcp_header}
use vpp_plugins.Reset.Tags.{IsTagged, parse_vlan_tags-reset_frame}
use vpp_plugins.Reset.Frame.{
  l3_offset_of, swapped_addresses, ip_protocol_tcp, reset_frame, tcp_header,
}
use vpp_plugins.Base.{arith, refl, some, ◌≡◌, ◌∷◌, []}

abbrev vlan_entry : FlowEntry
vlan_entry = record zero_entry {
  flow = some 0;
  smac = 1 ∷ 1 ∷ 1 ∷ 1 ∷ 1 ∷ 1 ∷ [];
  dmac = 2 ∷ 2 ∷ 2 ∷ 2 ∷ 2 ∷ 2 ∷ [];
  src = record zero_address { ip4 = 10 ∷ 0 ∷ 0 ∷ 1 ∷ [] };
  dst = record zero_address { ip4 = 10 ∷ 0 ∷ 0 ∷ 2 ∷ [] };
  protocol = 6;
  src_port = 50;
  dst_port = 80;
  outer_vlan_id = 100;
  inner_vlan_id = 200;
  vlan_present = 2;
  tcp_attr = record { seq = 9; ack = 5; seq_inc = 0 };
}

vlan_entry-IsEntry : IsEntry vlan_entry
vlan_entry-IsEntry = record {
  smac_length = refl;
  dmac_length = refl;
  src_length = refl;
  dst_length = refl;
  src_bytes = omega arith;
  dst_bytes = omega arith;
}

vlan_entry-IsTagged : IsTagged vlan_entry
vlan_entry-IsTagged = record {
  outer_lt = omega arith;
  inner_lt = omega arith;
  present_le = omega arith;
  outer_zero = λ h. absurd (omega arith);
  inner_zero = λ h. absurd (omega arith);
}

parse_vlan_tags-reset_frame_example :
    parse_vlan_tags (buffer_of (reset_frame vlan_entry 4) 3)
    ≡ record { outer_vlan_id = 100; inner_vlan_id = 200; vlan_present = 2; l3_offset = 22 }
unfolding l3_offset_of
parse_vlan_tags-reset_frame_example =
    parse_vlan_tags-reset_frame vlan_entry 4 3 vlan_entry-IsEntry vlan_entry-IsTagged

flow_table_tcp_checksum-tcp_header_example :
    flow_table_tcp_checksum
      (swapped_addresses vlan_entry)
      ip_protocol_tcp
      (tcp_header vlan_entry 4)
      20
    ≡ 0
flow_table_tcp_checksum-tcp_header_example =
    flow_table_tcp_checksum-tcp_header vlan_entry vlan_entry-IsEntry

vlan_entry-IsTcp4 : IsTcp4 vlan_entry
vlan_entry-IsTcp4 = record {
  protocol = refl;
  src_ip6 = refl;
  dst_ip6 = refl;
  src_port_lt = omega arith;
  dst_port_lt = omega arith;
}

packet_key-reset_frame_example :
    packet_key tcp (ip4_pre_process (buffer_of (reset_frame vlan_entry 4) 3))
    ≡ flow_key_reverse (key_of vlan_entry)
packet_key-reset_frame_example =
    packet_key-reset_frame vlan_entry 3 vlan_entry-IsEntry vlan_entry-IsTagged vlan_entry-IsTcp4
