-- ===== src/Protocol/Steps.antt =====
-- What `tcp_update_state` and `tcp_init_state` of flow_table/core/proto/tcp.c do to a flow.
use vpp_plugins.Protocol.Path.{
  opened-SamePath, SamePath, SamePath-trans, SamePath-refl, entered-SamePath, track-SamePath,
}
use mathlib.Core.Path.{subst}
use vpp_plugins.Protocol.Touched.{twice_written, reset_established-flows, reset_established-table}
use Prim.Native.Nat.{bit_and}
use vpp_plugins.Reset.Send.{tcp_send_reset}
use vpp_plugins.Protocol.Effects.{
  entered, entered-state, update_written, next_tcp_state, tcp_update_state-found, first_tcp_state,
  opened, tcp_init_state-found,
}
use vpp_plugins.Tcp.Flags.{packet_event, tcp_flag_concerned, tcp_flag_syn}
use vpp_plugins.Tcp.Table.{tcp_state_transfer}
use vpp_plugins.Buffer.Parse.{tcp_seq_number, tcp_ack_number, tcp_flags}
use vpp_plugins.Buffer.Defs.{Buffer}
use vpp_plugins.Flow.Defs.{WrkCtx, put_flow}
use vpp_plugins.Flow.Types.{Flow, flow_entry, unset32}
use vpp_plugins.Protocol.Tcp.{
  track, reset_established, enter_state, tcp_update_state, tcp_init_state,
}
use vpp_plugins.Flow.Vpp.{Vpp}
use vpp_plugins.Tcp.Types.{TcpState, FlowDir, established, dir_in, dir_out, start}
use vpp_plugins.Base.{
  Bool, true, false, ◌≡◌, some, refl, ℕ, ◌==◌, ◌<◌, if◌then◌else◌, ap, ◌∙◌, ◌&&◌, Option, arith,
  ◌||◌,
}

track-numbers :
    (f : Flow) (d : FlowDir) (b : Buffer)
    → ((flow_entry (track f d b) d).tcp_attr.seq ≡ tcp_seq_number b)
      × ((flow_entry (track f d b) d).tcp_attr.ack ≡ tcp_ack_number b)
      × ((track f d b).state ≡ f.state)
      × ((track f d b).three_way_handshake ≡ f.three_way_handshake)
unfolding track
track-numbers f dir_in b = (refl, refl, refl, refl)
track-numbers f dir_out b = (refl, refl, refl, refl)

opened-three :
    (f : Flow) (b : Buffer)
    → (opened f b).three_way_handshake
      ≡ ((bit_and (tcp_flags b) tcp_flag_concerned == tcp_flag_syn) || f.three_way_handshake)
opened-three f b = ground arith

-- Is the state ESTABLISHED?
abbrev pub is_established : TcpState → Bool
is_established established = true
is_established _ = false

module _ {T W : Type 0} (vpp : Vpp T W) where
  -- A TCP packet of the flow `f` in the direction `d` led from the state `from`.
  pub record TcpStep (wrk : WrkCtx T W) (b : Buffer) (d : FlowDir) (f : Flow) (from : TcpState)
      (wrk' : WrkCtx T W) : Type 0 where
    pub after : Flow
    pub written : wrk'.flows b.flow_index ≡ some after
    pub state : after.state ≡ tcp_state_transfer from (packet_event (tcp_flags b)) d
    pub seq : (flow_entry after d).tcp_attr.seq ≡ tcp_seq_number b
    pub ack : (flow_entry after d).tcp_attr.ack ≡ tcp_ack_number b
    pub path : SamePath f after
    pub others : (j : ℕ) → (b.flow_index == j) ≡ false → wrk'.flows j ≡ wrk.flows j
    pub table : wrk'.flows_hash_table ≡ wrk.flows_hash_table

  -- The flow `g` in a new state, with the packet's numbers.
  abbrev stepped : WrkCtx T W → Flow → TcpState → Buffer → FlowDir → Flow
  stepped wrk g s b d = track (entered vpp wrk g s) d b

  stepped-state :
      (wrk : WrkCtx T W) (g : Flow) (s : TcpState) (b : Buffer) (d : FlowDir)
      → ((stepped wrk g s b d).state ≡ s)
        × ((stepped wrk g s b d).three_way_handshake ≡ g.three_way_handshake)
        × SamePath g (stepped wrk g s b d)
  stepped-state wrk g s b d =
      let n = track-numbers (entered vpp wrk g s) d b in
      let e = entered-state vpp wrk g s in
      (
        n.2 ∙ e.0,
        n.3 ∙ e.1,
        SamePath-trans (entered-SamePath vpp wrk g s) (track-SamePath (entered vpp wrk g s) d b),
      )

  -- Two writes of a flow leave the later one, and the others alone.
  rewritten-TcpStep :
      (wrk wrk' : WrkCtx T W) (b : Buffer) (d : FlowDir) (f g : Flow) (from : TcpState)
      → let s = tcp_state_transfer from (packet_event (tcp_flags b)) d in
        wrk'.flows
          ≡ (put_flow
              (enter_state vpp wrk b.flow_index g s)
              b.flow_index
              (stepped wrk g s b d)).flows
        → wrk'.flows_hash_table ≡ wrk.flows_hash_table
        → SamePath f g
        → TcpStep wrk b d f from wrk'
  unfolding enter_state
  rewritten-TcpStep wrk wrk' b d f g from e table path =
      let s = tcp_state_transfer from (packet_event (tcp_flags b)) d in
      let n = track-numbers (entered vpp wrk g s) d b in
      record {
        after = stepped wrk g s b d;
        written =
            ap (λ (m : ℕ → Option Flow). m b.flow_index) e
            ∙ update_written (enter_state vpp wrk b.flow_index g s).flows b.flow_index
                (stepped wrk g s b d);
        state = (stepped-state wrk g s b d).0;
        seq = n.0;
        ack = n.1;
        path = SamePath-trans path (stepped-state wrk g s b d).2;
        others = λ j ne.
            ap (λ (m : ℕ → Option Flow). m j) e
            ∙ twice_written vpp wrk.flows b.flow_index j (entered vpp wrk g s) (stepped wrk g s b d)
                ne;
        table = table;
      }

  reset_established-sent :
      (wrk : WrkCtx T W) (f : Flow)
      → (reset_established vpp wrk f).sent ≡ (
          if is_established f.state && f.three_way_handshake
          then (tcp_send_reset vpp f wrk.sent).1
          else wrk.sent)
  unfolding reset_established
  reset_established-sent wrk f = ground arith

  -- On a buffer that has the flow `f`, `tcp_update_state` returns: the flow's state is the transfer of
  -- its old one by the packet's event, the entry of the packet's direction has the packet's sequence
  -- and acknowledgement numbers, all that says where the flow comes from and goes to, the mark of its
  -- handshake, the other flows and the hash table are as before, and `tcp_send_reset` runs for the new flow exactly if it is ESTABLISHED and its handshake was seen from
  -- the first SYN on.
  pub tcp_update_state-TcpStep :
      (wrk : WrkCtx T W) (b : Buffer) (d : FlowDir) (f : Flow)
      → b.flow_index < unset32
      → wrk.flows b.flow_index ≡ some f
      → (wrk' : WrkCtx T W) × (tcp_update_state vpp wrk b d ≡ some wrk')
        × (t : TcpStep wrk b d f f.state wrk') × (t.after.three_way_handshake
            ≡ f.three_way_handshake)
        × (wrk'.sent ≡ (
            if is_established t.after.state && f.three_way_handshake
            then (tcp_send_reset vpp t.after wrk.sent).1
            else wrk.sent))
  unfolding enter_state rewritten-TcpStep track
  tcp_update_state-TcpStep wrk b d f lt found =
      let s = next_tcp_state f b d in
      let g = stepped wrk f s b d in
      let wrk2 = put_flow (enter_state vpp wrk b.flow_index f s) b.flow_index g in
      (
        reset_established vpp wrk2 g,
        tcp_update_state-found vpp wrk b d f lt found,
        rewritten-TcpStep wrk (reset_established vpp wrk2 g) b d f f f.state
            (reset_established-flows vpp wrk2 g) (reset_established-table vpp wrk2 g)
            (SamePath-refl f),
        (stepped-state wrk f s b d).1,
        subst
            (λ (c : Bool). (reset_established vpp wrk2 g).sent ≡ (
              if is_established g.state && c then (tcp_send_reset vpp g wrk.sent).1 else wrk.sent))
            (stepped-state wrk f s b d).1 (reset_established-sent wrk2 g),
      )

  -- On a buffer that has the flow `f`, `tcp_init_state` returns: the flow's state is the transfer of
  -- START by the packet's event, the entry of the packet's direction has the packet's numbers, all that
  -- says where the flow comes from and goes to, the other flows and the hash table are as before,
  -- nothing is sent, and the handshake counts as seen from now on
  -- if the packet is a SYN alone.
  pub tcp_init_state-TcpStep :
      (wrk : WrkCtx T W) (b : Buffer) (d : FlowDir) (f : Flow)
      → b.flow_index < unset32
      → wrk.flows b.flow_index ≡ some f
      → (wrk' : WrkCtx T W) × (tcp_init_state vpp wrk b d ≡ some wrk')
        × (t : TcpStep wrk b d f start wrk') × (t.after.three_way_handshake
            ≡ ((bit_and (tcp_flags b) tcp_flag_concerned == tcp_flag_syn) || f.three_way_handshake))
        × (wrk'.sent ≡ wrk.sent)
  unfolding enter_state rewritten-TcpStep track
  tcp_init_state-TcpStep wrk b d f lt found =
      let s = first_tcp_state b d in
      let wrk2 =
        put_flow (enter_state vpp wrk b.flow_index (opened f b) s) b.flow_index
          (stepped wrk (opened f b) s b d) in
      (
        wrk2,
        tcp_init_state-found vpp wrk b d f lt found,
        rewritten-TcpStep wrk wrk2 b d f (opened f b) start refl refl (opened-SamePath f b),
        (stepped-state wrk (opened f b) s b d).1 ∙ opened-three f b,
        refl,
      )
