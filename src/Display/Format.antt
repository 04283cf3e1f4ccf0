-- ===== src/Display/Format.antt =====
-- The lines that show a flow: `format_flow_vlan` of flow_table/core/include/flow.h and the
-- `format_flow` functions of flow_table/core/proto. A line is what its `format` call is given.
use Prim.Native.String.{String}
use vpp_plugins.Protocol.Handlers.{Handler, tcp, udp, icmp, unimplemented}
use vpp_plugins.Flow.Types.{Flow, FlowEntry}
use vpp_plugins.Tcp.Types.{
  TcpState, start, close, syn_sent, syn_rcvd, established, fin_wait, close_wait, time_wait, unknown,
}
use vpp_plugins.Base.{ℕ, List, if◌then◌else◌, ◌∷◌, ◌==◌, ◌++◌, []}

-- `format_ip4_address` or `format_ip6_address` with its bytes.
pub data Address : Type 0 where
  ip4_address : List ℕ → Address
  ip6_address : List ℕ → Address

-- What the first line of every protocol has.
pub record Ends : Type 0 where
  pub sw_if_index0 : ℕ
  pub sw_if_index1 : ℕ
  pub src : Address
  pub dst : Address
  pub protocol : ℕ

pub data ShownLine : Type 0 where
  plain_line : Ends → ShownLine
  port_line : Ends → (src_port dst_port : ℕ) → ShownLine
  tcp_line : Ends → (src_port dst_port : ℕ) → (state : String) → ShownLine
  vlan_none : ShownLine
  vlan_single : (vlan_id : ℕ) → ShownLine
  vlan_double : (outer inner : ℕ) → ShownLine
  sequence_line : (seq0 ack0 seq1 ack1 : ℕ) → ShownLine

unfoldable pub tcp_state_name : TcpState → String
tcp_state_name start = "start"
tcp_state_name close = "close"
tcp_state_name syn_sent = "syn-sent"
tcp_state_name syn_rcvd = "syn-recv"
tcp_state_name established = "established"
tcp_state_name fin_wait = "fin-wait"
tcp_state_name close_wait = "close-wait"
tcp_state_name time_wait = "time-wait"
tcp_state_name unknown = "unknown"

-- A VLAN count above two adds no line.
unfoldable pub format_flow_vlan : FlowEntry → List ShownLine
format_flow_vlan e =
    if e.vlan_present == 0
    then vlan_none ∷ []
    else if e.vlan_present == 1
    then vlan_single e.outer_vlan_id ∷ []
    else if e.vlan_present == 2
    then vlan_double e.outer_vlan_id e.inner_vlan_id ∷ []
    else []

-- Both branches on the IP version.
unfoldable pub ends_of : Flow → Ends
ends_of f = record {
  sw_if_index0 = f.entry_in.sw_if_index;
  sw_if_index1 = f.entry_out.sw_if_index;
  src =
      if f.ip_version == 4 then ip4_address f.entry_in.src.ip4 else ip6_address f.entry_in.src.ip6;
  dst =
      if f.ip_version == 4 then ip4_address f.entry_in.dst.ip4 else ip6_address f.entry_in.dst.ip6;
  protocol = f.protocol;
}

unfoldable pub tcp_flow_format : Flow → List ShownLine
unfolding tcp_state_name format_flow_vlan ends_of
tcp_flow_format f =
    tcp_line (ends_of f) f.entry_in.src_port f.entry_in.dst_port (tcp_state_name f.state)
    ∷ (format_flow_vlan f.entry_in
        ++ sequence_line f.entry_in.tcp_attr.seq f.entry_in.tcp_attr.ack f.entry_out.tcp_attr.seq
            f.entry_out.tcp_attr.ack
          ∷ [])

unfoldable pub udp_flow_format : Flow → List ShownLine
unfolding format_flow_vlan ends_of
udp_flow_format f =
    port_line (ends_of f) f.entry_in.src_port f.entry_in.dst_port ∷ format_flow_vlan f.entry_in

unfoldable pub icmp_flow_format : Flow → List ShownLine
unfolding format_flow_vlan ends_of
icmp_flow_format f = plain_line (ends_of f) ∷ format_flow_vlan f.entry_in

unfoldable pub umimplemented_flow_format : Flow → List ShownLine
unfolding format_flow_vlan ends_of
umimplemented_flow_format f = plain_line (ends_of f) ∷ format_flow_vlan f.entry_in

-- `format_flow` of a handler.
unfoldable pub format_flow : Handler → Flow → List ShownLine
unfolding tcp_flow_format udp_flow_format icmp_flow_format umimplemented_flow_format
format_flow tcp f = tcp_flow_format f
format_flow udp f = udp_flow_format f
format_flow icmp f = icmp_flow_format f
format_flow unimplemented f = umimplemented_flow_format f
