-- ===== src/Protocol/Effects.antt =====
-- What the functions of flow_table/core/proto/tcp.c do to the flow of a buffer.
use Prim.Native.Nat.{bit_and}
use vpp_plugins.Buffer.Parse.{tcp_flags}
use vpp_plugins.Tcp.Table.{tcp_state_transfer}
use vpp_plugins.Tcp.Flags.{packet_event, tcp_flag_concerned, tcp_flag_syn}
use vpp_plugins.Flow.Vpp.{Vpp}
use vpp_plugins.Base.{◌<◌, ◌≡◌, some, arith, ℕ, Option, ◌==◌, if◌then◌else◌, true}
use vpp_plugins.Tcp.Types.{FlowDir, TcpState, tcp_state_timeout, start}
use vpp_plugins.Flow.Types.{Flow, unset32}
use vpp_plugins.Flow.Defs.{
  WrkCtx, put_flow, flow_table_get_flow_by_index, flow_expiration_timer_update, update,
}
use vpp_plugins.Buffer.Defs.{Buffer, vlib_buffer_get_flow}
use vpp_plugins.Protocol.Tcp.{
  track, tcp_track_sequence, tcp_update_state, enter_state, reset_established, tcp_init_state,
}

pub vlib_buffer_get_flow-found :
    {T W : Type 0} (wrk : WrkCtx T W) (b : Buffer) (f : Flow)
    → b.flow_index < unset32
    → wrk.flows b.flow_index ≡ some f
    → vlib_buffer_get_flow wrk b ≡ some f
unfolding vlib_buffer_get_flow flow_table_get_flow_by_index
vlib_buffer_get_flow-found wrk b f lt h = ground arith

tcp_track_sequence-found :
    {T W : Type 0} (wrk : WrkCtx T W) (b : Buffer) (d : FlowDir) (f : Flow)
    → b.flow_index < unset32
    → wrk.flows b.flow_index ≡ some f
    → tcp_track_sequence wrk b d ≡ some (put_flow wrk b.flow_index (track f d b))
unfolding tcp_track_sequence
tcp_track_sequence-found wrk b d f lt h = rw (vlib_buffer_get_flow-found wrk b f lt h)

pub update_written :
    (flows : ℕ → Option Flow) (i : ℕ) (f : Flow) → update flows i (some f) i ≡ some f
update_written flows i f = ground arith

-- The state that a packet leads to.
abbrev pub next_tcp_state : Flow → Buffer → FlowDir → TcpState
next_tcp_state f b d = tcp_state_transfer f.state (packet_event (tcp_flags b)) d

-- The flow before its first packet sets its state.
abbrev pub opened : Flow → Buffer → Flow
opened f b =
    if bit_and (tcp_flags b) tcp_flag_concerned == tcp_flag_syn
    then record f { three_way_handshake = true }
    else f

abbrev pub first_tcp_state : Buffer → FlowDir → TcpState
first_tcp_state b d = tcp_state_transfer start (packet_event (tcp_flags b)) d

module _ {T W : Type 0} (vpp : Vpp T W) where
  -- A flow in a new state, with its timer started or moved.
  abbrev pub entered : WrkCtx T W → Flow → TcpState → Flow
  entered wrk f s =
      (flow_expiration_timer_update vpp wrk.tw (record f { state = s }) (tcp_state_timeout s)).0

  pub entered-state :
      (wrk : WrkCtx T W) (f : Flow) (s : TcpState)
      → ((entered wrk f s).state ≡ s)
        × ((entered wrk f s).three_way_handshake ≡ f.three_way_handshake)
  unfolding flow_expiration_timer_update
  entered-state wrk f s = ground arith

  entered-found :
      (wrk : WrkCtx T W) (i : ℕ) (f : Flow) (s : TcpState)
      → (enter_state vpp wrk i f s).flows i ≡ some (entered wrk f s)
  unfolding enter_state
  entered-found wrk i f s = update_written wrk.flows i (entered wrk f s)

  -- The flow that a later packet leaves, and the flow that the first packet leaves.
  abbrev pub updated : WrkCtx T W → Flow → Buffer → FlowDir → Flow
  updated wrk f b d = track (entered wrk f (next_tcp_state f b d)) d b

  -- `tcp_update_state` on a buffer that has a flow does not fault: it writes the flow twice, in its
  -- new state and with the packet's sequence numbers, and then may send resets.
  pub tcp_update_state-found :
      (wrk : WrkCtx T W) (b : Buffer) (d : FlowDir) (f : Flow)
      → b.flow_index < unset32
      → wrk.flows b.flow_index ≡ some f
      → let wrk1 = enter_state vpp wrk b.flow_index f (next_tcp_state f b d) in
        tcp_update_state vpp wrk b d
        ≡ some (
            reset_established vpp
              (put_flow wrk1 b.flow_index (updated wrk f b d))
              (updated wrk f b d))
  unfolding tcp_update_state packet_event
  tcp_update_state-found wrk b d f lt h =
      let wrk1 = enter_state vpp wrk b.flow_index f (next_tcp_state f b d) in
      let wrk2 = put_flow wrk1 b.flow_index (updated wrk f b d) in
      let s = next_tcp_state f b d in
      rw (
        vlib_buffer_get_flow-found wrk b f lt h,
        tcp_track_sequence-found wrk1 b d (entered wrk f s) lt (entered-found wrk b.flow_index f s),
        vlib_buffer_get_flow-found wrk2 b (updated wrk f b d) lt
            (update_written wrk1.flows b.flow_index (updated wrk f b d)),
      )

  abbrev pub initialised : WrkCtx T W → Flow → Buffer → FlowDir → Flow
  initialised wrk f b d = track (entered wrk (opened f b) (first_tcp_state b d)) d b

  pub tcp_init_state-found :
      (wrk : WrkCtx T W) (b : Buffer) (d : FlowDir) (f : Flow)
      → b.flow_index < unset32
      → wrk.flows b.flow_index ≡ some f
      → let wrk1 = enter_state vpp wrk b.flow_index (opened f b) (first_tcp_state b d) in
        tcp_init_state vpp wrk b d ≡ some (put_flow wrk1 b.flow_index (initialised wrk f b d))
  unfolding tcp_init_state packet_event
  tcp_init_state-found wrk b d f lt h =
      let s = first_tcp_state b d in
      let wrk1 = enter_state vpp wrk b.flow_index (opened f b) s in
      rw (
        vlib_buffer_get_flow-found wrk b f lt h,
        tcp_track_sequence-found wrk1 b d (entered wrk (opened f b) s) lt
            (entered-found wrk b.flow_index (opened f b) s),
      )
