-- ===== src/Tests/Ip4.antt =====
-- The hooks of flow_table/core/ip4_process.c on packets of one TCP connection.
use vpp_plugins.Display.Command.{flow_table_display_command}
use vpp_plugins.Display.Shown.{thread_lines, flow_table_display_command-thread_lines}
use vpp_plugins.Ip4.Start.{hooks_of}
use vpp_plugins.Ip4.Frame.{Passed, positions, loop_four-input}
use vpp_plugins.Ip4.Run.{comes}
use vpp_plugins.Filter.Command.{l2_input_ip4_arc}
use vpp_plugins.Filter.Node.{loop_four}
use vpp_plugins.Ip4.Keeps.{Keeps}
use vpp_plugins.Ip4.Reach.{tick, Reach-Keeps}
use vpp_plugins.Flow.Defs.{flow_table_timer_update_time}
use vpp_plugins.Reset.Send.{tcp_send_reset, send_on}
use vpp_plugins.Flow.Types.{Flow, zero_flow}
use vpp_plugins.Tcp.Types.{dir_out}
use vpp_plugins.Buffer.Parse.{tcp_parse_flow_key, ip4_flow_key}
use vpp_plugins.Protocol.Tcp.{parse_key, init_state, tcp_init_state, tcp_track_sequence}
use vpp_plugins.Ip4.Reply.{Opened, KnownIn, reply-KnownIn}
use vpp_plugins.Protocol.Registered.{handler_of, protocol_handler_get-registered}
use vpp_plugins.Ip4.Safety.{Handled, ip4_input_process-IsValid, ip4_input_process-reserved}
use vpp_plugins.Flow.Defs.{
  flow_key_reverse, WrkCtx, flow_table_alloc_flow, flow_table_get_flow_by_index,
}
use vpp_plugins.Protocol.Handlers.{
  registered_handlers, protocol_handler_get, tcp, register_from, protocol_handler_register,
  unimplemented_protocol_handler_register, tcp_protocol_handler_register,
  udp_protocol_handler_register, icmp_protocol_handler_register,
}
use vpp_plugins.Buffer.Vlan.{ip4_pre_process, parse_vlan_tags}
use vpp_plugins.Ip4.Input.{IsValidCtx}
use vpp_plugins.Ip4.Reach.{next, here, come_in, Reach, Reach-IsValid, Reach-tcp_send_reset}
use vpp_plugins.Tests.{
  feature_arc, frame, empty_IsInitial, empty_IsValid, syn-First, arrived, syn, vpp, empty_wrk,
  syn_ack, Pairs,
}
use vpp_plugins.Buffer.Defs.{
  Buffer, vlib_buffer_init_flow, vlib_buffer_get_flow, vlib_buffer_set_flow,
}
use vpp_plugins.Ip4.Process.{ip4_input_process, new_flow, accept}
use vpp_plugins.Base.{arith, refl, ◌≡◌, none, ℕ, some, [], true}

reply-KnownIn_example :
    (o : Opened vpp registered_handlers empty_wrk tcp syn 0) × KnownIn vpp registered_handlers
      o.outside tcp syn_ack 0 dir_out
unfolding arrived ip4_pre_process parse_vlan_tags vlib_buffer_init_flow protocol_handler_get
    handler_of flow_key_reverse parse_key tcp_parse_flow_key ip4_flow_key
reply-KnownIn_example =
    reply-KnownIn vpp registered_handlers empty_wrk tcp syn syn_ack 0 syn-First
      (protocol_handler_get-registered 6) refl

ip4_input_process-IsValid_example :
    Handled vpp empty_wrk (ip4_input_process vpp registered_handlers empty_wrk syn)
unfolding arrived ip4_pre_process parse_vlan_tags vlib_buffer_init_flow
ip4_input_process-IsValid_example =
    ip4_input_process-IsValid vpp empty_wrk syn empty_IsValid (omega arith)

-- A packet of the reserved protocol.
abbrev reserved_packet : Buffer
reserved_packet = record syn { byte = λ off. 255 }

ip4_input_process-reserved_example :
    ip4_input_process vpp registered_handlers empty_wrk reserved_packet ≡ none
ip4_input_process-reserved_example = ip4_input_process-reserved vpp empty_wrk reserved_packet refl

-- The worker and the buffer when the first packet has come in.
abbrev syn_in : WrkCtx Pairs ℕ × Buffer
syn_in = elim (ip4_input_process vpp registered_handlers empty_wrk syn) [
  | none ↦ (empty_wrk, syn)
  | some (action, wrk, b) ↦ (wrk, b)
]

syn_came_in :
    ip4_input_process vpp registered_handlers empty_wrk syn ≡ some (accept, syn_in.0, syn_in.1)
unfolding ip4_input_process protocol_handler_get registered_handlers register_from
    protocol_handler_register unimplemented_protocol_handler_register tcp_protocol_handler_register
    udp_protocol_handler_register icmp_protocol_handler_register new_flow flow_table_alloc_flow
    init_state tcp_init_state vlib_buffer_get_flow vlib_buffer_set_flow flow_table_get_flow_by_index
    tcp_track_sequence arrived ip4_pre_process parse_vlan_tags vlib_buffer_init_flow
syn_came_in = refl

syn_Reach : Reach vpp empty_wrk syn_in.0
unfolding arrived ip4_pre_process parse_vlan_tags vlib_buffer_init_flow
syn_Reach = next here (come_in syn syn_in.1 (omega arith) syn_came_in)

Reach-IsValid_example : IsValidCtx vpp syn_in.0
Reach-IsValid_example = Reach-IsValid vpp empty_IsInitial syn_Reach

-- The flow that it made.
abbrev syn_flow : Flow
syn_flow = elim (syn_in.0.flows 0) [ none ↦ zero_flow | some f ↦ f ]

Reach-tcp_send_reset_example :
    (tcp_send_reset vpp syn_flow []).1 ≡ send_on vpp syn_flow syn_flow.entry_in []
unfolding ip4_input_process protocol_handler_get registered_handlers register_from
    protocol_handler_register unimplemented_protocol_handler_register tcp_protocol_handler_register
    udp_protocol_handler_register icmp_protocol_handler_register new_flow flow_table_alloc_flow
    init_state tcp_init_state vlib_buffer_get_flow vlib_buffer_set_flow flow_table_get_flow_by_index
    tcp_track_sequence arrived ip4_pre_process parse_vlan_tags vlib_buffer_init_flow
Reach-tcp_send_reset_example = Reach-tcp_send_reset vpp 0 syn_flow [] empty_IsInitial syn_Reach refl

Reach-Keeps_example : Keeps syn_in.0 (flow_table_timer_update_time vpp syn_in.0 9).1
Reach-Keeps_example = Reach-Keeps vpp empty_IsInitial syn_Reach (next here (tick 9 refl))

loop_four-input_example :
    Passed vpp feature_arc
      (λ b. comes (ip4_pre_process b))
      empty_wrk
      frame
      (λ i. 3)
      2
      0
      (loop_four feature_arc true
        (hooks_of vpp registered_handlers l2_input_ip4_arc)
        (positions 2 0)
        (some (empty_wrk, frame), []))
unfolding ip4_pre_process parse_vlan_tags vlib_buffer_init_flow
loop_four-input_example =
    loop_four-input vpp feature_arc (λ i. 3) true empty_wrk frame 2 [] (λ i s. refl) empty_IsValid
      (omega arith, (omega arith, tt))

-- One worker, on which the packet came in.
flow_table_display_command-thread_lines_example :
    flow_table_display_command registered_handlers 1 (λ t. 1) (λ t. syn_in.0)
    ≡ some (thread_lines (λ t. 1) (λ t. syn_in.0) 1 1)
flow_table_display_command-thread_lines_example =
    flow_table_display_command-thread_lines vpp 1 (λ t. 1) (λ t. empty_wrk) (λ t. syn_in.0)
      (λ t. empty_IsInitial) (λ t. syn_Reach)
