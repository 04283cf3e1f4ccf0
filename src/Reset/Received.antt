-- ===== src/Reset/Received.antt =====
-- The packet that `tcp_send_reset` of flow_table/core/proto/tcp_control.h builds over IPv4, read by
-- `ip4_pre_process` and `ip4_input_process` of flow_table/core/ip4_process.c.
use vpp_plugins.Protocol.Handlers.{tcp}
use vpp_plugins.Ip4.Arrive.{packet_key}
use vpp_plugins.Flow.Defs.{flow_key_reverse}
use mathlib.Core.List.{append_assoc}
use vpp_plugins.Buffer.Parse.{ip4_protocol, tcp_parse_flow_key, ip4_flow_key}
use vpp_plugins.Protocol.Tcp.{parse_key}
use vpp_plugins.Reset.Tags.{IsTagged, get_or-skip, parse_vlan_tags-reset_frame}
use vpp_plugins.Reset.Verify.{IsEntry}
use vpp_plugins.Buffer.Defs.{vlib_buffer_init_flow, Buffer, buffer_of, bytes4, be16}
use vpp_plugins.Flow.Types.{FlowEntry, FlowKey}
use vpp_plugins.Buffer.Vlan.{ip4_pre_process}
use vpp_plugins.Reset.Frame.{
  reset_frame, ethernet_header, vlan_tags, ip4_header, l3_offset_of, ip_header, tcp_header,
}
use vpp_plugins.Base.{
  arith, List, ℕ, length, get_or, ◌≡◌, ◌++◌, ◌+◌, ◌*◌, length-append, ◌∷◌, ◌^◌, [], refl, ◌%◌,
  replicate, ◌∙◌, ◌<◌, ◌/◌,
}

length-vlan_tags :
    (e : FlowEntry) (v : ℕ) → IsTagged e → 6 + (6 + length (vlan_tags e v)) ≡ l3_offset_of e
unfolding vlan_tags l3_offset_of
length-vlan_tags e v t = ground arith

length-ethernet_header :
    (e : FlowEntry) (v : ℕ) → IsEntry e → IsTagged e → length (ethernet_header e v) ≡ l3_offset_of e
unfolding ethernet_header
length-ethernet_header e v h t = omega (
  arith,
  length-vlan_tags e v t,
  h,
  length-append {0} e.smac (e.dmac ++ vlan_tags e v),
  length-append {0} e.dmac (vlan_tags e v),
)

-- A byte of the packet behind its Ethernet header.
byte_at :
    (e : FlowEntry) (n k : ℕ)
    → IsEntry e
    → IsTagged e
    → n ≡ l3_offset_of e + k
    → get_or (reset_frame e 4) n 0 ≡ get_or (ip4_header e ++ tcp_header e 4) k 0
unfolding reset_frame ip_header
byte_at e n k h t at = rw at (
    get_or-skip (l3_offset_of e) k (ethernet_header e 4) (ip4_header e ++ tcp_header e 4)
      (length-ethernet_header e 4 h t))

-- Four bytes are those of a list of length four that stands first.
first_four :
    (xs ys : List ℕ)
    → length xs ≡ 4
    → get_or (xs ++ ys) 0 0
        ∷ get_or (xs ++ ys) 1 0
        ∷ get_or (xs ++ ys) 2 0
        ∷ get_or (xs ++ ys) 3 0
        ∷ []
      ≡ xs
first_four [] ys h = absurd (omega arith)
first_four (a ∷ []) ys h = absurd (omega arith)
first_four (a ∷ b ∷ []) ys h = absurd (omega arith)
first_four (a ∷ b ∷ c ∷ []) ys h = absurd (omega arith)
first_four (a ∷ b ∷ c ∷ d ∷ []) ys h = refl
first_four (a ∷ b ∷ c ∷ d ∷ e ∷ xs) ys h = absurd (omega arith)

behind_addresses :
    (e : FlowEntry) (t : List ℕ) (k : ℕ)
    → IsEntry e
    → get_or (ip4_header e ++ t) (20 + k) 0 ≡ get_or t k 0
unfolding ip4_header
behind_addresses e t k h =
    get_or-skip 20 k (ip4_header e) t (omega (arith, h, length-append {0} e.dst.ip4 e.src.ip4))

-- The buffer that the first hook leaves.
abbrev parsed : FlowEntry → (sw_if_index : ℕ) → Buffer
parsed e sw_if_index = record (buffer_of (reset_frame e 4) sw_if_index) {
  l3_hdr_offset = l3_offset_of e;
  l4_hdr_offset = 20 + l3_offset_of e;
  unused0 = (e.outer_vlan_id * 2 ^ 16 + e.inner_vlan_id) % 2 ^ 32;
  unused1 = e.vlan_present;
}

first_byte :
    (e : FlowEntry) → IsEntry e → IsTagged e → get_or (reset_frame e 4) (l3_offset_of e) 0 ≡ 69
unfolding ip4_header
first_byte e h t = byte_at e (l3_offset_of e) 0 h t (omega arith)

ip4_pre_process-parsed :
    (e : FlowEntry) (sw_if_index : ℕ)
    → IsEntry e
    → IsTagged e
    → ip4_pre_process (buffer_of (reset_frame e 4) sw_if_index) ≡ parsed e sw_if_index
unfolding ip4_pre_process vlib_buffer_init_flow
ip4_pre_process-parsed e sw_if_index h t =
    rw (parse_vlan_tags-reset_frame e 4 sw_if_index h t, ip4_pre_process) (rw (first_byte e h t))

-- An entry of a TCP flow over IPv4: the ports are of 16 bits, and no byte of an IPv6 address is set.
pub record IsTcp4 (e : FlowEntry) : Type 0 where
  pub protocol : e.protocol ≡ 6
  pub src_ip6 : e.src.ip6 ≡ replicate 16 0
  pub dst_ip6 : e.dst.ip6 ≡ replicate 16 0
  pub src_port_lt : e.src_port < 2 ^ 16
  pub dst_port_lt : e.dst_port < 2 ^ 16

-- The key of the packets that an entry stands for.
abbrev pub key_of : FlowEntry → FlowKey
key_of e = record {
  src = e.src;
  dst = e.dst;
  src_port = e.src_port;
  dst_port = e.dst_port;
  protocol = e.protocol;
  outer_vlan_id = e.outer_vlan_id;
  inner_vlan_id = e.inner_vlan_id;
  vlan_present = e.vlan_present;
}

-- The addresses, the protocol, the ports and the VLAN that the parsed buffer holds.
parsed-src :
    (e : FlowEntry) (i : ℕ)
    → IsEntry e
    → IsTagged e
    → bytes4 (parsed e i) (l3_offset_of e + 12) ≡ e.dst.ip4
unfolding ip4_header
parsed-src e i h t =
    let L = l3_offset_of e in
    rw
      (
        byte_at e (L + 12) 12 h t refl,
        byte_at e (L + 12 + 1) 13 h t (omega arith),
        byte_at e (L + 12 + 2) 14 h t (omega arith),
        byte_at e (L + 12 + 3) 15 h t (omega arith),
      )
      (rw (append_assoc e.dst.ip4 e.src.ip4 (tcp_header e 4))
        (first_four e.dst.ip4 (e.src.ip4 ++ tcp_header e 4) h.dst_length))

parsed-dst :
    (e : FlowEntry) (i : ℕ)
    → IsEntry e
    → IsTagged e
    → bytes4 (parsed e i) (l3_offset_of e + 16) ≡ e.src.ip4
unfolding ip4_header
parsed-dst e i h t =
    let L = l3_offset_of e in
    let rest = e.src.ip4 ++ tcp_header e 4 in
    rw
      (
        byte_at e (L + 16) 16 h t refl,
        byte_at e (L + 16 + 1) 17 h t (omega arith),
        byte_at e (L + 16 + 2) 18 h t (omega arith),
        byte_at e (L + 16 + 3) 19 h t (omega arith),
      )
      (rw
        (
          append_assoc e.dst.ip4 e.src.ip4 (tcp_header e 4),
          get_or-skip 4 0 e.dst.ip4 rest h.dst_length,
          get_or-skip 4 1 e.dst.ip4 rest h.dst_length,
          get_or-skip 4 2 e.dst.ip4 rest h.dst_length,
          get_or-skip 4 3 e.dst.ip4 rest h.dst_length,
        )
        (first_four e.src.ip4 (tcp_header e 4) h.src_length))

parsed-protocol : (e : FlowEntry) (i : ℕ) → IsEntry e → IsTagged e → ip4_protocol (parsed e i) ≡ 6
unfolding ip4_header
parsed-protocol e i h t = byte_at e (l3_offset_of e + 9) 9 h t refl

tcp_byte :
    (e : FlowEntry) (n k : ℕ)
    → IsEntry e
    → IsTagged e
    → n ≡ 20 + l3_offset_of e + k
    → get_or (reset_frame e 4) n 0 ≡ get_or (tcp_header e 4) k 0
tcp_byte e n k h t at =
    byte_at e n (20 + k) h t (omega arith) ∙ behind_addresses e (tcp_header e 4) k h

parsed-ports :
    (e : FlowEntry) (i : ℕ)
    → IsEntry e
    → IsTagged e
    → IsTcp4 e
    → (be16 (parsed e i) (20 + l3_offset_of e) ≡ e.dst_port)
      × (be16 (parsed e i) (20 + l3_offset_of e + 2) ≡ e.src_port)
unfolding tcp_header
parsed-ports e i h t p =
    let L = 20 + l3_offset_of e in
    (
      omega (arith, p, tcp_byte e L 0 h t (omega arith), tcp_byte e (L + 1) 1 h t refl),
      omega (arith, p, tcp_byte e (L + 2) 2 h t refl, tcp_byte e (L + 2 + 1) 3 h t (omega arith)),
    )

-- For an entry of a TCP flow over IPv4, whose fields have their sizes and whose VLAN fields are as the
-- parser leaves them, the reset packet, if it is received, is looked up by the reverse of the entry's
-- key, with the entry's VLAN.
pub packet_key-reset_frame :
    (e : FlowEntry) (sw_if_index : ℕ)
    → IsEntry e
    → IsTagged e
    → IsTcp4 e
    → packet_key tcp (ip4_pre_process (buffer_of (reset_frame e 4) sw_if_index))
      ≡ flow_key_reverse (key_of e)
unfolding parse_key tcp_parse_flow_key ip4_flow_key flow_key_reverse
packet_key-reset_frame e i h t p = rw (ip4_pre_process-parsed e i h t) (
    rw
      (
        parsed-src e i h t,
        parsed-dst e i h t,
        parsed-protocol e i h t,
        (parsed-ports e i h t p).0,
        (parsed-ports e i h t p).1,
        outer,
        inner,
        present,
      )
      (cc (p.src_ip6, p.dst_ip6, p.protocol)))
  where
    outer :
        (e.outer_vlan_id * 2 ^ 16 + e.inner_vlan_id) % 2 ^ 32 / 2 ^ 16 % 2 ^ 16 ≡ e.outer_vlan_id
    outer = omega (arith, t)

    inner : (e.outer_vlan_id * 2 ^ 16 + e.inner_vlan_id) % 2 ^ 32 % 2 ^ 16 ≡ e.inner_vlan_id
    inner = omega (arith, t)

    present : e.vlan_present % 2 ^ 8 ≡ e.vlan_present
    present = omega (arith, t)
