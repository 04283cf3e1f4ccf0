-- ===== src/Tests/Tcp.antt =====
-- The TCP handler and its state machine: flow_table/core/proto/tcp.c and
-- flow_table/core/proto/tcp_state_transfer.h.
use vpp_plugins.Reset.Send.{tcp_send_reset}
use vpp_plugins.Protocol.Steps.{
  TcpStep, is_established, tcp_init_state-TcpStep, tcp_update_state-TcpStep,
}
use vpp_plugins.Protocol.Tcp.{tcp_init_state, tcp_update_state}
use vpp_plugins.Tcp.Transfers.{next_state, tcp_state_transfer-next_state}
use vpp_plugins.Buffer.Defs.{vlib_buffer_init_flow}
use vpp_plugins.Tcp.Events.{event_of_bits, packet_event-event_of_bits}
use vpp_plugins.Buffer.Vlan.{ip4_pre_process, parse_vlan_tags}
use vpp_plugins.Flow.Defs.{WrkCtx}
use vpp_plugins.Tcp.Types.{
  established, ev_syn, dir_out, ev_fin, syn_rcvd, dir_in, unknown, ev_ack, start,
}
use vpp_plugins.Tests.{arrived, Pairs, empty_wrk, vpp, syn, ack}
use vpp_plugins.Tcp.Table.{tcp_state_transfer}
use vpp_plugins.Tcp.Runs.{run, Events, run-rst_ack}
use vpp_plugins.Tcp.Flags.{packet_event}
use vpp_plugins.Flow.Types.{Flow, zero_flow}
use vpp_plugins.Base.{
  if◌then◌else◌, arith, ◌≡◌, ◌∷◌, ℕ, true, some, false, [], refl, ◌==◌, none, ◌&&◌,
}

-- A flow in SYN_RCVD, whose handshake was seen from its SYN on.
abbrev syn_rcvd_flow : Flow
syn_rcvd_flow = record zero_flow {
  state = syn_rcvd;
  three_way_handshake = true;
  ip_version = 4;
  stop_timer_handle = 7;
}

abbrev one_flow : Flow → WrkCtx Pairs ℕ
one_flow f = record empty_wrk { flows = λ i. if i == 0 then some f else none }

-- The ACK establishes the connection.
tcp_update_state-TcpStep_example :
    (wrk' : WrkCtx Pairs ℕ) × (tcp_update_state vpp (one_flow syn_rcvd_flow) ack dir_in ≡ some wrk')
    × (t : TcpStep vpp (one_flow syn_rcvd_flow) ack dir_in syn_rcvd_flow syn_rcvd wrk')
    × (t.after.three_way_handshake ≡ true)
    × (wrk'.sent
        ≡ (if is_established t.after.state && true then (tcp_send_reset vpp t.after []).1 else []))
unfolding arrived ip4_pre_process parse_vlan_tags vlib_buffer_init_flow
tcp_update_state-TcpStep_example =
    tcp_update_state-TcpStep vpp (one_flow syn_rcvd_flow) ack dir_in syn_rcvd_flow (omega arith)
      refl

tcp_init_state-TcpStep_example :
    (wrk' : WrkCtx Pairs ℕ) × (tcp_init_state vpp (one_flow zero_flow) syn dir_in ≡ some wrk')
    × (t : TcpStep vpp (one_flow zero_flow) syn dir_in zero_flow start wrk')
    × (t.after.three_way_handshake ≡ true)
    × (wrk'.sent ≡ [])
unfolding arrived ip4_pre_process parse_vlan_tags vlib_buffer_init_flow
tcp_init_state-TcpStep_example =
    tcp_init_state-TcpStep vpp (one_flow zero_flow) syn dir_in zero_flow (omega arith) refl

tcp_state_transfer-next_state_example :
    tcp_state_transfer established ev_fin dir_out ≡ next_state established ev_fin dir_out
tcp_state_transfer-next_state_example = tcp_state_transfer-next_state established ev_fin dir_out

-- FIN with PSH and ACK.
packet_event-event_of_bits_example : packet_event 25 ≡ event_of_bits true false false true
packet_event-event_of_bits_example = packet_event-event_of_bits 25 (omega arith)

abbrev handshake : Events
handshake = (ev_syn, dir_in) ∷ (ev_syn, dir_out) ∷ (ev_ack, dir_in) ∷ []

run-rst_ack_example : run established ((packet_event 20, dir_out) ∷ handshake) ≡ unknown
run-rst_ack_example = run-rst_ack established 20 dir_out handshake (omega arith) refl refl
