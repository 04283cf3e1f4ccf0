-- ===== src/Tracker/Packets.antt =====
-- What the protocol handlers of flow_table/core/proto do to the connection of a flow.
use mathlib.Core.Path.{subst}
use vpp_plugins.Tcp.Transfers.{tcp_state_transfer-next_state}
use Prim.Native.Nat.{bit_and}
use vpp_plugins.Ip4.Handshake.{update_step, init_step}
use vpp_plugins.Tracker.View.{Advanced}
use vpp_plugins.Protocol.Steps.{TcpStep}
use vpp_plugins.Buffer.Parse.{tcp_flags}
use vpp_plugins.Tcp.Flags.{packet_event, tcp_flag_concerned, tcp_flag_syn}
use vpp_plugins.Flow.Types.{Flow, unset32}
use vpp_plugins.Tcp.Types.{FlowDir, start, TcpState}
use vpp_plugins.Buffer.Defs.{Buffer}
use vpp_plugins.Flow.Defs.{WrkCtx}
use vpp_plugins.Protocol.Handlers.{Handler, tcp, udp, icmp, unimplemented}
use vpp_plugins.Tracker.Spec.{advance, begins}
use vpp_plugins.Protocol.Tcp.{init_state, update_state}
use vpp_plugins.Flow.Vpp.{Vpp}
use vpp_plugins.Base.{◌<◌, Bool, ◌≡◌, some, sym, false, some_injective, ◌∙◌, refl, ◌==◌, ◌||◌, true}

or_false : (c d : Bool) → d ≡ false → (c || d) ≡ c
or_false true d h = refl
or_false false d h = h

module _ {T W : Type 0} (vpp : Vpp T W) where
  same-Advanced :
      (h : Handler) (wrk : WrkCtx T W) (b : Buffer) (d : FlowDir) (f : Flow)
      → advance h f.state (packet_event (tcp_flags b)) d ≡ f.state
      → wrk.flows b.flow_index ≡ some f
      → Advanced vpp h wrk b d f f.three_way_handshake wrk
  same-Advanced h wrk b d f same found = record {
    after = f;
    written = found;
    key = refl;
    out_flow = refl;
    state = sym same;
    three_way_handshake = refl;
    others = λ j ne. refl;
    table = refl;
  }

  TcpStep-Advanced :
      (wrk wrk' : WrkCtx T W) (b : Buffer) (d : FlowDir) (f : Flow) (from_syn : Bool)
      (t : TcpStep vpp wrk b d f f.state wrk')
      → t.after.three_way_handshake ≡ from_syn
      → Advanced vpp tcp wrk b d f from_syn wrk'
  unfolding advance
  TcpStep-Advanced wrk wrk' b d f from_syn t three = record {
    after = t.after;
    written = t.written;
    key = t.path.key;
    out_flow = t.path.entry_out.flow;
    state = t.state ∙ tcp_state_transfer-next_state f.state (packet_event (tcp_flags b)) d;
    three_way_handshake = three;
    others = t.others;
    table = t.table;
  }

  -- Every handler's `update_state` moves the connection, and keeps how it began.
  pub update_state-Advanced :
      (h : Handler) (wrk wrk' : WrkCtx T W) (b : Buffer) (d : FlowDir) (f : Flow)
      → b.flow_index < unset32
      → wrk.flows b.flow_index ≡ some f
      → update_state vpp h wrk b d ≡ some wrk'
      → Advanced vpp h wrk b d f f.three_way_handshake wrk'
  unfolding update_state advance
  update_state-Advanced tcp wrk wrk' b d f lt found ran =
      let (t, three, sent) = update_step vpp wrk wrk' b d f lt found ran in
      TcpStep-Advanced wrk wrk' b d f f.three_way_handshake t three
  update_state-Advanced udp wrk wrk' b d f lt found ran =
      rw (← some_injective ran) (same-Advanced udp wrk b d f refl found)
  update_state-Advanced icmp wrk wrk' b d f lt found ran =
      rw (← some_injective ran) (same-Advanced icmp wrk b d f refl found)
  update_state-Advanced unimplemented wrk wrk' b d f lt found ran =
      rw (← some_injective ran) (same-Advanced unimplemented wrk b d f refl found)

  -- Every handler's `init_state` moves a new connection out of START and notes how it began.
  pub init_state-Advanced :
      (h : Handler) (wrk wrk' : WrkCtx T W) (b : Buffer) (d : FlowDir) (f : Flow)
      → b.flow_index < unset32
      → wrk.flows b.flow_index ≡ some f
      → f.state ≡ start
      → f.three_way_handshake ≡ false
      → init_state vpp h wrk b d ≡ some wrk'
      → Advanced vpp h wrk b d f
          (begins h (bit_and (tcp_flags b) tcp_flag_concerned == tcp_flag_syn))
          wrk'
  unfolding init_state advance begins
  init_state-Advanced tcp wrk wrk' b d f lt found new fresh ran =
      let (t, three, sent) = init_step vpp wrk wrk' b d f lt found ran in
      TcpStep-Advanced wrk wrk' b d f _
        (subst (λ (s : TcpState). TcpStep vpp wrk b d f s wrk') (sym new) t)
        (three ∙ or_false _ f.three_way_handshake fresh)
  init_state-Advanced udp wrk wrk' b d f lt found new fresh ran =
      rw (← some_injective ran, ← fresh) (same-Advanced udp wrk b d f refl found)
  init_state-Advanced icmp wrk wrk' b d f lt found new fresh ran =
      rw (← some_injective ran, ← fresh) (same-Advanced icmp wrk b d f refl found)
  init_state-Advanced unimplemented wrk wrk' b d f lt found new fresh ran =
      rw (← some_injective ran, ← fresh) (same-Advanced unimplemented wrk b d f refl found)
