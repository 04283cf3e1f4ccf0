-- ===== src/Reset/Frame.antt =====
-- The packet that `tcp_send_reset` of flow_table/core/proto/tcp_control.h builds for one entry of a
-- flow, as the list of its bytes.
use Prim.Native.Nat.{bit_or}
use vpp_plugins.Base.{ℕ, ◌+◌, ◌/◌, ◌%◌, ◌^◌, List, [], ◌∷◌, ◌++◌, ◌==◌, if◌then◌else◌, leb}
use vpp_plugins.Tcp.Flags.{tcp_flag_rst, tcp_flag_ack}
use vpp_plugins.Checksum.Defs.{
  flow_table_ip4_checksum, flow_table_tcp_checksum, flow_table_tcp_checksum_ip6,
}
use vpp_plugins.Flow.Types.{FlowEntry}
use vpp_plugins.Buffer.Vlan.{ethernet_type_vlan, ethernet_header_size}

-- A `u16` and a `u32` in network order, and a `u16` as a little-endian host stores it.
abbrev pub net16 : ℕ → List ℕ
net16 x = x / 256 % 256 ∷ x % 256 ∷ []

abbrev pub net32 : ℕ → List ℕ
net32 x = x / 2 ^ 24 % 256 ∷ x / 2 ^ 16 % 256 ∷ x / 256 % 256 ∷ x % 256 ∷ []

abbrev pub host16 : ℕ → List ℕ
host16 x = x % 256 ∷ x / 256 ∷ []

abbrev pub ethernet_type_ip4 : ℕ
ethernet_type_ip4 = 0x0800

abbrev pub ethernet_type_ip6 : ℕ
ethernet_type_ip6 = 0x86dd

abbrev pub ip_protocol_tcp : ℕ
ip_protocol_tcp = 6

abbrev pub ethernet_type_of : (ip_version : ℕ) → ℕ
ethernet_type_of v = if v == 4 then ethernet_type_ip4 else ethernet_type_ip6

-- The VLAN tags and the type of what follows them.
unfoldable pub vlan_tags : FlowEntry → (ip_version : ℕ) → List ℕ
vlan_tags e v =
    if leb 1 e.vlan_present
    then (net16 ethernet_type_vlan
        ++ (net16 (e.outer_vlan_id % 2 ^ 12)
            ++ (if e.vlan_present == 2
                then net16 ethernet_type_vlan
                  ++ (net16 (e.inner_vlan_id % 2 ^ 12) ++ net16 (ethernet_type_of v))
                else net16 (ethernet_type_of v))))
    else net16 (ethernet_type_of v)

-- The packet goes back to where the entry's packets came from: the destination is its `smac`.
unfoldable pub ethernet_header : FlowEntry → (ip_version : ℕ) → List ℕ
unfolding vlan_tags
ethernet_header e v = e.smac ++ (e.dmac ++ vlan_tags e v)

unfoldable pub l3_offset_of : FlowEntry → ℕ
l3_offset_of e =
    if leb 1 e.vlan_present
    then (if e.vlan_present == 2 then ethernet_header_size + 8 else ethernet_header_size + 4)
    else ethernet_header_size

-- The IPv4 header up to its checksum, and behind it: the addresses are swapped.
abbrev pub ip4_before_checksum : List ℕ
ip4_before_checksum = 0x45 ∷ 0 ∷ (net16 (20 + 20) ++ 0 ∷ 0 ∷ 0 ∷ 0 ∷ 64 ∷ ip_protocol_tcp ∷ [])

abbrev pub swapped_addresses : FlowEntry → List ℕ
swapped_addresses e = e.dst.ip4 ++ e.src.ip4

unfoldable pub ip4_header : FlowEntry → List ℕ
ip4_header e =
    let checksum =
      flow_table_ip4_checksum (ip4_before_checksum ++ (host16 0 ++ swapped_addresses e)) in
    ip4_before_checksum ++ (host16 checksum ++ swapped_addresses e)

unfoldable pub ip6_header : FlowEntry → List ℕ
ip6_header e = net32 0x60000000 ++ (net16 20 ++ ip_protocol_tcp ∷ 64 ∷ (e.dst.ip6 ++ e.src.ip6))

-- The TCP header up to its checksum: ports and sequence numbers are swapped.
abbrev pub tcp_before_checksum : FlowEntry → List ℕ
tcp_before_checksum e =
    net16 e.dst_port
    ++ (net16 e.src_port
        ++ (net32 e.tcp_attr.ack
            ++ (net32 e.tcp_attr.seq ++ 0x50 ∷ bit_or tcp_flag_rst tcp_flag_ack ∷ net16 0)))

unfoldable pub tcp_header_with : (checksum : ℕ) → FlowEntry → List ℕ
tcp_header_with checksum e = tcp_before_checksum e ++ (host16 checksum ++ net16 0)

unfoldable pub tcp_checksum_of : FlowEntry → (ip_version : ℕ) → ℕ
unfolding tcp_header_with
tcp_checksum_of e v =
    if v == 4
    then flow_table_tcp_checksum (swapped_addresses e) ip_protocol_tcp (tcp_header_with 0 e) 20
    else flow_table_tcp_checksum_ip6 e.dst.ip6 e.src.ip6 ip_protocol_tcp (tcp_header_with 0 e) 20

unfoldable pub tcp_header : FlowEntry → (ip_version : ℕ) → List ℕ
unfolding tcp_header_with tcp_checksum_of
tcp_header e v = tcp_header_with (tcp_checksum_of e v) e

unfoldable pub ip_header : FlowEntry → (ip_version : ℕ) → List ℕ
unfolding ip4_header ip6_header
ip_header e v = if v == 4 then ip4_header e else ip6_header e

unfoldable pub reset_frame : FlowEntry → (ip_version : ℕ) → List ℕ
unfolding ethernet_header ip_header tcp_header
reset_frame e v = ethernet_header e v ++ (ip_header e v ++ tcp_header e v)
