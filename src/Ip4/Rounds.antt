-- ===== src/Ip4/Rounds.antt =====
-- The packets of a TCP handshake, one at a time, through flow_table/core.
use vpp_plugins.Protocol.Path.{SamePath}
use vpp_plugins.Ip4.Handshake.{sent_after, update_step, TcpStep-Touched, init_step}
use vpp_plugins.Tcp.Table.{tcp_state_transfer}
use vpp_plugins.Protocol.Steps.{TcpStep}
use vpp_plugins.Tcp.Flags.{tcp_flag_concerned, tcp_flag_syn, packet_event}
use Prim.Native.Nat.{bit_and}
use vpp_plugins.Protocol.Tcp.{init_state, update_state}
use vpp_plugins.Buffer.Parse.{ip4_protocol, tcp_flags}
use vpp_plugins.Ip4.Arrive.{packet_key, found_entry, fresh_flow, with_flow}
use vpp_plugins.Ip4.Input.{IsValidCtx, entry_ref, Touched-IsValid}
use vpp_plugins.Protocol.Effects.{update_written}
use vpp_plugins.Tcp.Types.{dir_out, established, FlowDir, start, dir_in, syn_rcvd}
use vpp_plugins.Ip4.Reply.{Opened, First, known-in}
use vpp_plugins.Flow.Types.{Flow}
use vpp_plugins.Buffer.Defs.{Buffer, vlib_buffer_set_flow}
use vpp_plugins.Reset.Send.{tcp_send_reset}
use vpp_plugins.Ip4.Process.{add_reverse, ip4_input_process, accept, first_flow}
use vpp_plugins.Flow.Defs.{WrkCtx, flow_table_update_flow, flow_key_reverse, flow_table_hash}
use vpp_plugins.Protocol.Handlers.{Handlers, tcp, protocol_handler_get}
use vpp_plugins.Flow.Vpp.{Vpp, Sent}
use vpp_plugins.Base.{ℕ, ◌≡◌, refl, List, some, true, some_injective, sym, ◌∙◌, Bool}

module _ {T W : Type 0} (vpp : Vpp T W) (handlers : Handlers) where
  -- The second half of a flow that `ip4_output_process` fills in.
  unfoldable pub reversed : ℕ → Flow → Flow
  reversed i f = flow_table_update_flow i f (flow_key_reverse f.key) dir_out

  pub outside_found :
      (wrk : WrkCtx T W) (b : Buffer) (i : ℕ) (o : Opened vpp handlers wrk tcp b i)
      → (o.outside.flows i ≡ some (reversed i o.first)) × (o.outside.sent ≡ o.inside.sent)
  unfolding reversed add_reverse
  outside_found wrk b i o =
      rw o.outside_eq (update_written o.inside.flows i (reversed i o.first), refl)

  reversed-same :
      (i : ℕ) (f : Flow)
      → let g = reversed i f in
        (g.state ≡ f.state)
        × (g.three_way_handshake ≡ f.three_way_handshake)
        × (g.key ≡ f.key)
        × (g.entry_in ≡ f.entry_in)
  unfolding reversed flow_table_update_flow
  reversed-same i f = (refl, refl, refl, refl)

  -- A TCP packet of a flow that is known.
  pub known_step :
      (wrk : WrkCtx T W) (r : Buffer) (i : ℕ) (d : FlowDir) (f : Flow)
      → IsValidCtx vpp wrk
      → protocol_handler_get handlers (ip4_protocol r) ≡ some tcp
      → found_entry vpp wrk tcp r ≡ some (entry_ref i d)
      → wrk.flows i ≡ some f
      → (wrk' : WrkCtx T W) × (ip4_input_process vpp handlers wrk r
          ≡ some (accept, wrk', vlib_buffer_set_flow r i))
        × (t : TcpStep vpp wrk (vlib_buffer_set_flow r i) d f f.state wrk')
        × (t.after.three_way_handshake ≡ f.three_way_handshake)
        × (wrk'.sent ≡ sent_after vpp t.after f.three_way_handshake wrk.sent)
        × (wrk'.flows i ≡ some t.after)
        × IsValidCtx vpp wrk'
  unfolding vlib_buffer_set_flow update_state
  known_step wrk r i d f v eh er found =
      let (wrk', eq, ran) = known-in vpp handlers wrk tcp r i d v eh er in
      let (t, three, sent) =
        update_step vpp wrk wrk' (vlib_buffer_set_flow r i) d f (v.flows_ok i f found).index_lt
          found ran in
      (
        wrk',
        eq,
        t,
        three,
        sent,
        t.written,
        Touched-IsValid vpp wrk wrk' i f v found
            (TcpStep-Touched vpp wrk wrk' (vlib_buffer_set_flow r i) d f f.state t),
      )

  -- The first packet, if it is a SYN alone.
  pub opened_step :
      (wrk : WrkCtx T W) (b : Buffer) (i : ℕ) (o : Opened vpp handlers wrk tcp b i)
      → First vpp handlers wrk tcp b i
      → bit_and (tcp_flags b) tcp_flag_concerned ≡ tcp_flag_syn
      → let key = packet_key tcp b in
        (o.first.state ≡ tcp_state_transfer start (packet_event (tcp_flags b)) dir_in)
        × (o.first.three_way_handshake ≡ true)
        × SamePath (first_flow i (fresh_flow i) b key) o.first
        × (o.inside.sent ≡ wrk.sent)
  unfolding vlib_buffer_set_flow init_state
  opened_step wrk b i o first syn =
      let key = packet_key tcp b in
      let f = first_flow i (fresh_flow i) b key in
      let wrk1 = with_flow vpp wrk i f (flow_table_hash vpp key) in
      let (t, three, sent) =
        init_step vpp wrk1 o.inside (vlib_buffer_set_flow b i) dir_in f
          (vpp.pool_get-lt wrk.flows i first.slot) (update_written wrk.flows i f) o.ran in
      let same : t.after ≡ o.first = some_injective (sym t.written ∙ o.inside_first) in
      (rw (← same) t.state, rw (← same) (three ∙ rw syn), rw (← same) t.path, sent)

  pub sent_after-established :
      (f : Flow) (three : Bool) (sent : List Sent)
      → f.state ≡ established
      → three ≡ true
      → sent_after vpp f three sent ≡ (tcp_send_reset vpp f sent).1
  sent_after-established f three sent h k = rw (h, k)

  pub sent_after-syn_rcvd :
      (f : Flow) (three : Bool) (sent : List Sent)
      → f.state ≡ syn_rcvd
      → sent_after vpp f three sent ≡ sent
  sent_after-syn_rcvd f three sent h = rw h
