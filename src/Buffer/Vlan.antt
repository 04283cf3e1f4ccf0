-- ===== src/Buffer/Vlan.antt =====
-- `parse_vlan_tags` and `ip4_pre_process` of flow_table/core/ip4_process.c.
use vpp_plugins.Base.{ℕ, ◌+◌, ◌*◌, ◌%◌, ◌^◌, ◌||◌, ◌==◌, if◌then◌else◌}
use vpp_plugins.Buffer.Defs.{Buffer, be16, vlib_buffer_init_flow}

abbrev pub ethernet_type_vlan : ℕ
ethernet_type_vlan = 0x8100

abbrev pub ethernet_type_dot1ad : ℕ
ethernet_type_dot1ad = 0x88a8

-- `sizeof(ethernet_header_t)`
abbrev pub ethernet_header_size : ℕ
ethernet_header_size = 14

-- The function's output arguments, and the offset that it returns.
pub record VlanTags : Type 0 where
  pub outer_vlan_id : ℕ
  pub inner_vlan_id : ℕ
  pub vlan_present : ℕ
  pub l3_offset : ℕ

abbrev no_tags : VlanTags
no_tags = record {
  outer_vlan_id = 0;
  inner_vlan_id = 0;
  vlan_present = 0;
  l3_offset = ethernet_header_size;
}

-- `eth->type` lies 12 bytes into the Ethernet header; a tag is its identifier and a type.
unfoldable pub parse_vlan_tags : Buffer → VlanTags
parse_vlan_tags b =
    let eth = b.l2_hdr_offset in
    let ethertype = be16 b (eth + 12) in
    if (ethertype == ethernet_type_vlan) || (ethertype == ethernet_type_dot1ad)
    then (let vlan = eth + ethernet_header_size in
        let one = record no_tags {
          outer_vlan_id = be16 b vlan % 2 ^ 12;
          vlan_present = 1;
          l3_offset = ethernet_header_size + 4;
        } in
        if be16 b (vlan + 2) == ethernet_type_vlan
        then record one {
          inner_vlan_id = be16 b (vlan + 4) % 2 ^ 12;
          vlan_present = 2;
          l3_offset = ethernet_header_size + 4 + 4;
        }
        else one)
    else no_tags

-- `(outer << 16) | inner`: the two ids have 12 bits each, so the bits do not meet. The hook always
-- accepts.
unfoldable pub ip4_pre_process : Buffer → Buffer
unfolding parse_vlan_tags vlib_buffer_init_flow
ip4_pre_process b =
    let tags = parse_vlan_tags b in
    vlib_buffer_init_flow (record b {
      l3_hdr_offset = tags.l3_offset;
      l4_hdr_offset = b.byte tags.l3_offset % 16 * 4 + tags.l3_offset;
      unused0 = (tags.outer_vlan_id * 2 ^ 16 + tags.inner_vlan_id) % 2 ^ 32;
      unused1 = tags.vlan_present;
    })
