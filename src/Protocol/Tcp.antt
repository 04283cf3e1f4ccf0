-- ===== src/Protocol/Tcp.antt =====
-- The handlers' functions: those of flow_table/core/proto/tcp.c, and the others, which do nothing.
-- `none` is a fault: a NULL flow is read.
use vpp_plugins.Protocol.Others.{
  udp_init_state, udp_update_state, udp_parse_flow_key, icmp_init_state, icmp_parse_flow_key,
  icmp_update_state, umimplemented_update_state, umimplemented_parse_flow_key,
  umimplemented_init_state,
}
use Prim.Native.Nat.{bit_and}
use vpp_plugins.Base.{ℕ, true, ◌&&◌, Option, none, some, ◌==◌, if◌then◌else◌}
use vpp_plugins.Tcp.Types.{FlowDir, TcpState, start, established, state_index, tcp_state_timeout}
use vpp_plugins.Tcp.Table.{tcp_state_transfer}
use vpp_plugins.Tcp.Flags.{tcp_flag_syn, tcp_flag_concerned, flags_to_events}
use vpp_plugins.Flow.Types.{FlowKey, Flow, flow_entry, set_flow_entry}
use vpp_plugins.Flow.Vpp.{Vpp}
use vpp_plugins.Flow.Defs.{WrkCtx, put_flow, flow_expiration_timer_update}
use vpp_plugins.Buffer.Defs.{Buffer, vlib_buffer_get_flow}
use vpp_plugins.Buffer.Parse.{tcp_parse_flow_key, tcp_seq_number, tcp_ack_number, tcp_flags}
use vpp_plugins.Reset.Send.{tcp_send_reset}
use vpp_plugins.Protocol.Handlers.{Handler, tcp, udp, icmp, unimplemented}

infixl 5 ◌>>=◌
abbrev pub ◌>>=◌ : {A B : Type 0} → Option A → (A → Option B) → Option B
none >>= k = none
some a >>= k = k a

-- `parse_key` of a handler.
unfoldable pub parse_key : Handler → Buffer → FlowKey → FlowKey
parse_key tcp b key = tcp_parse_flow_key b key
parse_key udp b key = udp_parse_flow_key b key
parse_key icmp b key = icmp_parse_flow_key b key
parse_key unimplemented b key = umimplemented_parse_flow_key b key

-- The writes of `tcp_track_sequence`.
unfoldable pub track : Flow → FlowDir → Buffer → Flow
track f direction b =
    let e = flow_entry f direction in
    set_flow_entry f direction (record e {
      tcp_attr = record (e.tcp_attr) { seq = tcp_seq_number b; ack = tcp_ack_number b };
    })

unfoldable pub tcp_track_sequence :
    {T W : Type 0} → WrkCtx T W → Buffer → FlowDir → Option (WrkCtx T W)
tcp_track_sequence wrk b direction = do
  f ← vlib_buffer_get_flow wrk b
  some (put_flow wrk b.flow_index (track f direction b))

module _ {T W : Type 0} (vpp : Vpp T W) where
  -- The new state, with the flow's timer started or moved.
  unfoldable pub enter_state : WrkCtx T W → (flow : ℕ) → Flow → TcpState → WrkCtx T W
  enter_state wrk flow f state =
      let timed =
        flow_expiration_timer_update vpp wrk.tw (record f { state = state })
          (tcp_state_timeout state) in
      put_flow (record wrk { tw = timed.1 }) flow timed.0

  unfoldable pub tcp_init_state : WrkCtx T W → Buffer → FlowDir → Option (WrkCtx T W)
  unfolding tcp_track_sequence enter_state
  tcp_init_state wrk b direction = do
    f ← vlib_buffer_get_flow wrk b
    let flags = bit_and (tcp_flags b) tcp_flag_concerned
    let g = if flags == tcp_flag_syn then record f { three_way_handshake = true } else f
    let state = tcp_state_transfer start (flags_to_events flags) direction
    tcp_track_sequence (enter_state wrk b.flow_index g state) b direction

  -- The end of `tcp_update_state`; the result of `tcp_send_reset` is not looked at.
  unfoldable pub reset_established : WrkCtx T W → Flow → WrkCtx T W
  unfolding state_index
  reset_established wrk f =
      if (state_index f.state == state_index established) && f.three_way_handshake
      then record wrk { sent = (tcp_send_reset vpp f wrk.sent).1 }
      else wrk

  unfoldable pub tcp_update_state : WrkCtx T W → Buffer → FlowDir → Option (WrkCtx T W)
  unfolding tcp_track_sequence enter_state reset_established
  tcp_update_state wrk b direction = do
    f ← vlib_buffer_get_flow wrk b
    let flags = bit_and (tcp_flags b) tcp_flag_concerned
    let state = tcp_state_transfer f.state (flags_to_events flags) direction
    wrk' ← tcp_track_sequence (enter_state wrk b.flow_index f state) b direction
    f' ← vlib_buffer_get_flow wrk' b
    some (reset_established wrk' f')

  unfoldable pub init_state : Handler → WrkCtx T W → Buffer → FlowDir → Option (WrkCtx T W)
  init_state tcp wrk b direction = tcp_init_state wrk b direction
  init_state udp wrk b direction = udp_init_state wrk b direction
  init_state icmp wrk b direction = icmp_init_state wrk b direction
  init_state unimplemented wrk b direction = umimplemented_init_state wrk b direction

  unfoldable pub update_state : Handler → WrkCtx T W → Buffer → FlowDir → Option (WrkCtx T W)
  update_state tcp wrk b direction = tcp_update_state wrk b direction
  update_state udp wrk b direction = udp_update_state wrk b direction
  update_state icmp wrk b direction = icmp_update_state wrk b direction
  update_state unimplemented wrk b direction = umimplemented_update_state wrk b direction
