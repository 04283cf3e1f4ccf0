-- ===== src/Ip4/Handshake.antt =====
-- A TCP handshake through flow_table/core/ip4_process.c, flow_table/core/proto/tcp.c and
-- flow_table/core/proto/tcp_control.h.
use vpp_plugins.Ip4.Arrive.{packet_key}
use mathlib.Core.Path.{subst}
use vpp_plugins.Reset.Send.{tcp_send_reset}
use vpp_plugins.Protocol.Tcp.{tcp_init_state, tcp_update_state}
use vpp_plugins.Protocol.Touched.{Touched}
use vpp_plugins.Protocol.Steps.{
  TcpStep, is_established, tcp_update_state-TcpStep, tcp_init_state-TcpStep,
}
use vpp_plugins.Buffer.Parse.{tcp_flags, ip4_protocol}
use Prim.Native.Nat.{bit_and}
use vpp_plugins.Flow.Types.{Flow, FlowKey, unset32}
use vpp_plugins.Tcp.Types.{
  TcpEvent, TcpState, FlowDir, ev_syn, ev_ack, start, dir_in, dir_out, syn_rcvd, established,
}
use vpp_plugins.Flow.Defs.{WrkCtx, flow_key_reverse}
use vpp_plugins.Buffer.Defs.{Buffer, bytes6}
use vpp_plugins.Protocol.Handlers.{Handlers, protocol_handler_get, tcp}
use vpp_plugins.Tcp.Table.{tcp_state_transfer}
use vpp_plugins.Flow.Vpp.{Vpp, Sent}
use vpp_plugins.Ip4.Process.{first_flow}
use vpp_plugins.Tcp.Flags.{packet_event, flags_to_events, tcp_flag_concerned, tcp_flag_syn}
use vpp_plugins.Base.{
  arith, ℕ, Bool, ◌==◌, ◌≡◌, ◌<◌, List, false, some, if◌then◌else◌, ◌&&◌, ◌+◌, ◌||◌, some_injective,
  sym, ◌∙◌,
}

-- The packets of a handshake, as `ip4_input_process` gets them: a SYN alone, the SYN with ACK that
-- answers it, and the ACK.
pub record Handshake (handlers : Handlers) (b r a : Buffer) : Type 0 where
  pub syn : bit_and (tcp_flags b) tcp_flag_concerned ≡ tcp_flag_syn
  pub syn_ack : packet_event (tcp_flags r) ≡ ev_syn
  pub ack : packet_event (tcp_flags a) ≡ ev_ack
  pub reply_handler : protocol_handler_get handlers (ip4_protocol r) ≡ some tcp
  pub ack_handler : protocol_handler_get handlers (ip4_protocol a) ≡ some tcp
  pub reply_key : packet_key tcp r ≡ flow_key_reverse (packet_key tcp b)
  pub ack_key : packet_key tcp a ≡ packet_key tcp b

pub syn_event :
    (flags : ℕ) → bit_and flags tcp_flag_concerned ≡ tcp_flag_syn → packet_event flags ≡ ev_syn
unfolding packet_event flags_to_events
syn_event flags h = rw h

pub handshake_states :
    (e0 e1 e2 : TcpEvent) (s1 s2 s3 : TcpState)
    → e0 ≡ ev_syn
    → e1 ≡ ev_syn
    → e2 ≡ ev_ack
    → s1 ≡ tcp_state_transfer start e0 dir_in
    → s2 ≡ tcp_state_transfer s1 e1 dir_out
    → s3 ≡ tcp_state_transfer s2 e2 dir_in
    → (s2 ≡ syn_rcvd) × (s3 ≡ established)
unfolding tcp_state_transfer
handshake_states e0 e1 e2 s1 s2 s3 h0 h1 h2 k1 k2 k3 = (second, rw (k3, second, h2))
  where
    second : s2 ≡ syn_rcvd
    second = rw (k2, k1, h0, h1)

-- Where the first entry of a new flow points.
pub first_flow-entry_in :
    (i : ℕ) (f : Flow) (b : Buffer) (key : FlowKey)
    → (b.rx_sw_if_index == unset32) ≡ false
    → let e = (first_flow i f b key).entry_in in
      (e.sw_if_index ≡ b.rx_sw_if_index)
      × (e.smac ≡ bytes6 b (b.l2_hdr_offset + 6))
      × (e.dmac ≡ bytes6 b b.l2_hdr_offset)
unfolding first_flow
first_flow-entry_in i f b key h = ground arith

module _ {T W : Type 0} (vpp : Vpp T W) where
  pub init_step :
      (wrk wrk' : WrkCtx T W) (b : Buffer) (d : FlowDir) (f : Flow)
      → b.flow_index < unset32
      → wrk.flows b.flow_index ≡ some f
      → tcp_init_state vpp wrk b d ≡ some wrk'
      → (t : TcpStep vpp wrk b d f start wrk') × (t.after.three_way_handshake
          ≡ ((bit_and (tcp_flags b) tcp_flag_concerned == tcp_flag_syn) || f.three_way_handshake))
        × (wrk'.sent ≡ wrk.sent)
  init_step wrk wrk' b d f lt found ran =
      let (w, eq, t, three, sent) = tcp_init_state-TcpStep vpp wrk b d f lt found in
      subst
        (λ (w : WrkCtx T W).
          (t : TcpStep vpp wrk b d f start w) × (t.after.three_way_handshake
            ≡ ((bit_and (tcp_flags b) tcp_flag_concerned == tcp_flag_syn) || f.three_way_handshake))
          × (w.sent ≡ wrk.sent))
        (some_injective (sym eq ∙ ran)) (t, three, sent)

  -- What is sent when a flow enters a state.
  abbrev pub sent_after : Flow → Bool → List Sent → List Sent
  sent_after f three sent =
      if is_established f.state && three then (tcp_send_reset vpp f sent).1 else sent

  pub update_step :
      (wrk wrk' : WrkCtx T W) (b : Buffer) (d : FlowDir) (f : Flow)
      → b.flow_index < unset32
      → wrk.flows b.flow_index ≡ some f
      → tcp_update_state vpp wrk b d ≡ some wrk'
      → (t : TcpStep vpp wrk b d f f.state wrk') × (t.after.three_way_handshake
          ≡ f.three_way_handshake)
        × (wrk'.sent ≡ sent_after t.after f.three_way_handshake wrk.sent)
  update_step wrk wrk' b d f lt found ran =
      let (w, eq, t, three, sent) = tcp_update_state-TcpStep vpp wrk b d f lt found in
      subst
        (λ (w : WrkCtx T W).
          (t : TcpStep vpp wrk b d f f.state w) × (t.after.three_way_handshake
            ≡ f.three_way_handshake)
          × (w.sent ≡ sent_after t.after f.three_way_handshake wrk.sent))
        (some_injective (sym eq ∙ ran)) (t, three, sent)

  pub TcpStep-Touched :
      (wrk wrk' : WrkCtx T W) (b : Buffer) (d : FlowDir) (f : Flow) (from : TcpState)
      → TcpStep vpp wrk b d f from wrk'
      → Touched wrk b.flow_index f wrk'
  TcpStep-Touched wrk wrk' b d f from t = record {
    after = t.after;
    written = t.written;
    path = t.path;
    others = t.others;
    table = t.table;
  }
