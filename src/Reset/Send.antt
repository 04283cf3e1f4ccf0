-- ===== src/Reset/Send.antt =====
-- `tcp_send_reset` of flow_table/core/proto/tcp_control.h: its loop over the two directions.
use vpp_plugins.Base.{
  ℕ, ◌+◌, List, [], ◌∷◌, ◌++◌, Bool, true, false, not, ◌||◌, ◌==◌, if◌then◌else◌,
}
use vpp_plugins.Tcp.Types.{FlowDir, dir_in, dir_out}
use vpp_plugins.Flow.Types.{FlowEntry, Flow, flow_entry}
use vpp_plugins.Flow.Vpp.{Sent, Vpp}
use vpp_plugins.Reset.Frame.{reset_frame, l3_offset_of}

-- `memcmp(mac, zero_mac, 6) == 0`
unfoldable pub is_zero_mac : List ℕ → Bool
is_zero_mac [] = true
is_zero_mac (x ∷ xs) = if x == 0 then is_zero_mac xs else false

-- The size of the IP header that was written.
abbrev ip_header_size : (ip_version : ℕ) → ℕ
ip_header_size v = if v == 4 then 20 else 40

module _ {T W : Type 0} (vpp : Vpp T W) where
  -- The packet with the metadata of its buffer.
  unfoldable pub reset_packet : Flow → FlowEntry → Sent
  reset_packet f e =
      let l3 = l3_offset_of e in
      let size = ip_header_size f.ip_version in
      record {
        bytes = reset_frame e f.ip_version;
        l3_hdr_offset = l3;
        l4_hdr_offset = l3 + size;
        current_length = l3 + size + 20;
        is_ip4 = f.ip_version == 4;
        tx_sw_if_index = e.sw_if_index;
        next_node_index = vpp.output_node_index e.sw_if_index;
      }

  -- One round on a valid interface; each `continue` leaves what was sent as it was.
  unfoldable pub send_on : Flow → FlowEntry → List Sent → List Sent
  send_on f e sent =
      if not (vpp.is_hardware_interface e.sw_if_index)
      then sent
      else (if is_zero_mac e.smac || is_zero_mac e.dmac
          then sent
          else (if vpp.vlib_buffer_alloc sent then sent ++ reset_packet f e ∷ [] else sent))

  -- The rounds for the directions in the list, with the function's result: -1 (`false`) at an
  -- interface that is not there, else 0 (`true`).
  reset_loop : Flow → List FlowDir → List Sent → Bool × List Sent
  unfolding send_on
  reset_loop f [] sent = (true, sent)
  reset_loop f (i ∷ is) sent =
      let e = flow_entry f i in
      let rest = reset_loop f is (send_on f e sent) in
      if vpp.is_free_sw_interface e.sw_if_index then (false, sent) else rest

  unfoldable pub tcp_send_reset : Flow → List Sent → Bool × List Sent
  unfolding reset_loop
  tcp_send_reset f sent = reset_loop f (dir_in ∷ dir_out ∷ []) sent
