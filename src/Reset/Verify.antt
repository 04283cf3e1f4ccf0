-- ===== src/Reset/Verify.antt =====
-- The checksums in the packet that `tcp_send_reset` of flow_table/core/proto/tcp_control.h builds.
use vpp_plugins.Checksum.Verify.{flow_table_ip4_checksum-verify, flow_table_tcp_checksum-verify}
use vpp_plugins.Checksum.Defs.{flow_table_ip4_checksum, flow_table_tcp_checksum}
use vpp_plugins.Checksum.Words.{IsBytes, IsBytes-append}
use vpp_plugins.Flow.Types.{FlowEntry}
use vpp_plugins.Reset.Frame.{
  ip4_header, tcp_header, tcp_checksum_of, swapped_addresses, ip4_before_checksum, tcp_header_with,
  ip_protocol_tcp, tcp_before_checksum, net16,
}
use vpp_plugins.Base.{arith, length, ◌≡◌, length-append, refl}

-- The fields of an entry have the sizes that their C types give them.
pub record IsEntry (e : FlowEntry) : Type 0 where
  pub smac_length : length e.smac ≡ 6
  pub dmac_length : length e.dmac ≡ 6
  pub src_length : length e.src.ip4 ≡ 4
  pub dst_length : length e.dst.ip4 ≡ 4
  pub src_bytes : IsBytes e.src.ip4
  pub dst_bytes : IsBytes e.dst.ip4

swapped-length : (e : FlowEntry) → IsEntry e → length (swapped_addresses e) ≡ 8
swapped-length e h = omega (arith, h, length-append {0} e.dst.ip4 e.src.ip4)

swapped-IsBytes : (e : FlowEntry) → IsEntry e → IsBytes (swapped_addresses e)
swapped-IsBytes e h = IsBytes-append e.dst.ip4 e.src.ip4 h.dst_bytes h.src_bytes

-- For an entry whose fields have their sizes, the IPv4 header that is sent passes the receiver's
-- test: its checksum is 0.
pub flow_table_ip4_checksum-ip4_header :
    (e : FlowEntry) → IsEntry e → flow_table_ip4_checksum (ip4_header e) ≡ 0
unfolding ip4_header
flow_table_ip4_checksum-ip4_header e h =
    flow_table_ip4_checksum-verify ip4_before_checksum (swapped_addresses e) refl
      (swapped-length e h) (omega arith) (swapped-IsBytes e h)

-- For an entry whose fields have their sizes, the TCP header that is sent over IPv4 passes the
-- receiver's test between the addresses of the IPv4 header: its checksum is 0.
pub flow_table_tcp_checksum-tcp_header :
    (e : FlowEntry)
    → IsEntry e
    → flow_table_tcp_checksum (swapped_addresses e) ip_protocol_tcp (tcp_header e 4) 20 ≡ 0
unfolding tcp_header tcp_checksum_of tcp_header_with
flow_table_tcp_checksum-tcp_header e h =
    flow_table_tcp_checksum-verify (swapped_addresses e) ip_protocol_tcp (tcp_before_checksum e)
      (net16 0) 20 (swapped-length e h) (swapped-IsBytes e h) (omega arith) refl refl (omega arith)
      (omega arith) (omega arith)
