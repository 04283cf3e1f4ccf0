-- ===== src/Reset/Targets.antt =====
-- Where `tcp_send_reset` of flow_table/core/proto/tcp_control.h sends a packet to.
use vpp_plugins.Flow.Types.{Flow, FlowEntry, zero_mac}
use vpp_plugins.Reset.Send.{tcp_send_reset, send_on, is_zero_mac}
use vpp_plugins.Flow.Vpp.{Vpp, Sent}
use vpp_plugins.Base.{arith, List, ◌≡◌, if◌then◌else◌}

module _ {T W : Type 0} (vpp : Vpp T W) where
  -- An entry with no MAC address gets no packet.
  send_on-zero_mac :
      (f : Flow) (e : FlowEntry) (sent : List Sent)
      → e.smac ≡ zero_mac
      → send_on vpp f e sent ≡ sent
  unfolding send_on is_zero_mac
  send_on-zero_mac f e sent h = rw h (ground arith)

  -- For a flow whose second entry has no source MAC address the function sends at most the packet for
  -- the first entry: none if that entry's interface is not there, and else what one round sends.
  pub tcp_send_reset-in :
      (f : Flow) (sent : List Sent)
      → f.entry_out.smac ≡ zero_mac
      → (tcp_send_reset vpp f sent).1 ≡ (
          if vpp.is_free_sw_interface f.entry_in.sw_if_index
          then sent
          else send_on vpp f f.entry_in sent)
  unfolding tcp_send_reset
  tcp_send_reset-in f sent h =
      ground (arith, send_on-zero_mac f f.entry_out (send_on vpp f f.entry_in sent) h)
