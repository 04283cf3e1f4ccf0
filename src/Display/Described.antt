-- ===== src/Display/Described.antt =====
-- The lines that the format functions of flow_table/core/proto give a flow, by the flow's key.
use vpp_plugins.Display.Format.{
  Ends, ShownLine, ip4_address, tcp_line, port_line, plain_line, vlan_none, vlan_single,
  vlan_double, sequence_line, tcp_state_name, format_flow, format_flow_vlan, ends_of,
  tcp_flow_format, udp_flow_format, icmp_flow_format, umimplemented_flow_format,
}
use vpp_plugins.Ip4.Mirror.{IsMirror}
use vpp_plugins.Ip4.Safety.{registered_handler}
use vpp_plugins.Flow.Types.{Flow, FlowEntry, FlowKey}
use vpp_plugins.Base.{ℕ, List, [], ◌∷◌, ◌++◌, ◌==◌, ◌≡◌, if◌then◌else◌, refl, ◌∙◌, arith, zero, suc}

-- The number of VLAN tags of the key, and their ids.
abbrev pub tag_lines : ℕ → (outer inner : ℕ) → List ShownLine
tag_lines zero outer inner = vlan_none ∷ []
tag_lines (suc zero) outer inner = vlan_single outer ∷ []
tag_lines (suc (suc zero)) outer inner = vlan_double outer inner ∷ []
tag_lines (suc (suc (suc n))) outer inner = []

-- The addresses and the protocol of the key, and the interfaces.
abbrev pub key_ends : Flow → Ends
key_ends f = record {
  sw_if_index0 = f.entry_in.sw_if_index;
  sw_if_index1 = f.entry_out.sw_if_index;
  src = ip4_address f.key.src.ip4;
  dst = ip4_address f.key.dst.ip4;
  protocol = f.key.protocol;
}

abbrev pub key_tags : FlowKey → List ShownLine
key_tags k = tag_lines k.vlan_present k.outer_vlan_id k.inner_vlan_id

-- TCP shows ports, the state and the numbers of both directions, UDP shows ports.
abbrev pub tcp_lines : Flow → List ShownLine
tcp_lines f =
    tcp_line (key_ends f) f.key.src_port f.key.dst_port (tcp_state_name f.state)
    ∷ (key_tags f.key
        ++ sequence_line f.entry_in.tcp_attr.seq f.entry_in.tcp_attr.ack f.entry_out.tcp_attr.seq
            f.entry_out.tcp_attr.ack
          ∷ [])

abbrev pub udp_lines : Flow → List ShownLine
udp_lines f = port_line (key_ends f) f.key.src_port f.key.dst_port ∷ key_tags f.key

abbrev pub plain_lines : Flow → List ShownLine
plain_lines f = plain_line (key_ends f) ∷ key_tags f.key

abbrev pub described : Flow → List ShownLine
described f =
    if f.key.protocol == 6
    then tcp_lines f
    else (if f.key.protocol == 17 then udp_lines f else plain_lines f)

format_flow_vlan-tag_lines :
    (e : FlowEntry) → format_flow_vlan e ≡ tag_lines e.vlan_present e.outer_vlan_id e.inner_vlan_id
unfolding format_flow_vlan
format_flow_vlan-tag_lines e = by_count e.vlan_present
  where
    by_count :
        (n : ℕ)
        → (if n == 0
            then vlan_none ∷ []
            else (if n == 1
                then vlan_single e.outer_vlan_id ∷ []
                else (if n == 2 then vlan_double e.outer_vlan_id e.inner_vlan_id ∷ [] else [])))
          ≡ tag_lines n e.outer_vlan_id e.inner_vlan_id
    by_count zero = refl
    by_count (suc zero) = refl
    by_count (suc (suc zero)) = refl
    by_count (suc (suc (suc n))) = ground arith

entry_tags : (f : Flow) → IsMirror f → format_flow_vlan f.entry_in ≡ key_tags f.key
entry_tags f m =
    format_flow_vlan-tag_lines f.entry_in
    ∙ rw (m.vlan_present, m.outer_vlan_id, m.inner_vlan_id) refl

ends_of-key_ends : (f : Flow) → IsMirror f → ends_of f ≡ key_ends f
unfolding ends_of
ends_of-key_ends f m = rw (m.ip_version, m.forward.src, m.forward.dst, m.protocol) refl

-- Each handler's lines.
tcp_flow_format-tcp_lines : (f : Flow) → IsMirror f → tcp_flow_format f ≡ tcp_lines f
unfolding tcp_flow_format
tcp_flow_format-tcp_lines f m =
    cc (ends_of-key_ends f m, m.forward.src_port, m.forward.dst_port, entry_tags f m)

udp_flow_format-udp_lines : (f : Flow) → IsMirror f → udp_flow_format f ≡ udp_lines f
unfolding udp_flow_format
udp_flow_format-udp_lines f m =
    cc (ends_of-key_ends f m, m.forward.src_port, m.forward.dst_port, entry_tags f m)

icmp_flow_format-plain_lines : (f : Flow) → IsMirror f → icmp_flow_format f ≡ plain_lines f
unfolding icmp_flow_format
icmp_flow_format-plain_lines f m = cc (ends_of-key_ends f m, entry_tags f m)

umimplemented_flow_format-plain_lines :
    (f : Flow) → IsMirror f → umimplemented_flow_format f ≡ plain_lines f
unfolding umimplemented_flow_format
umimplemented_flow_format-plain_lines f m = cc (ends_of-key_ends f m, entry_tags f m)

-- The handler of the flow's protocol describes the flow by its key.
pub format_flow-described :
    (f : Flow) → IsMirror f → format_flow (registered_handler f.protocol) f ≡ described f
unfolding format_flow registered_handler
format_flow-described f m = ground (
  arith,
  m.protocol,
  tcp_flow_format-tcp_lines f m,
  udp_flow_format-udp_lines f m,
  icmp_flow_format-plain_lines f m,
  umimplemented_flow_format-plain_lines f m,
)
