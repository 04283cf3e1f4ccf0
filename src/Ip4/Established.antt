-- ===== src/Ip4/Established.antt =====
-- The end of a TCP handshake through flow_table/core: the connection is established, and a reset is
-- sent to the client.
use vpp_plugins.Ip4.Rounds.{
  reversed, opened_step, outside_found, known_step, sent_after-syn_rcvd, sent_after-established,
}
use vpp_plugins.Reset.Targets.{tcp_send_reset-in}
use vpp_plugins.Ip4.Handshake.{Handshake, handshake_states, syn_event, first_flow-entry_in}
use vpp_plugins.Buffer.Parse.{tcp_seq_number, tcp_ack_number, tcp_flags}
use vpp_plugins.Ip4.Arrive.{packet_key, fresh_flow}
use vpp_plugins.Ip4.Input.{IsValidCtx, entry_ref}
use vpp_plugins.Tcp.Types.{dir_out, established, dir_in}
use vpp_plugins.Ip4.First.{first_flow-links}
use vpp_plugins.Ip4.Reply.{lookup, Opened, First, NoCollision, First-Opened, set_last, set_before}
use vpp_plugins.Flow.Types.{Flow, FlowEntry, unset32, zero_mac}
use vpp_plugins.Buffer.Defs.{Buffer, vlib_buffer_set_flow, bytes6}
use vpp_plugins.Reset.Send.{send_on, is_zero_mac, reset_packet, tcp_send_reset}
use vpp_plugins.Ip4.Process.{ip4_input_process, accept}
use vpp_plugins.Flow.Defs.{WrkCtx, flow_table_update_flow}
use vpp_plugins.Protocol.Handlers.{Handlers, tcp}
use vpp_plugins.Flow.Vpp.{Vpp, Sent}
use vpp_plugins.Base.{ℕ, ◌≡◌, ◌==◌, List, some, false, true, ◌++◌, ◌+◌, ◌∷◌, [], ◌∙◌, ap}

module _ {T W : Type 0} (vpp : Vpp T W) (handlers : Handlers) where
  -- The interface and the MAC addresses of the first packet are such that a packet can be sent back,
  -- and there is a buffer for it.
  pub record CanReset (wrk : WrkCtx T W) (b : Buffer) : Type 0 where
    pub interface_known : (b.rx_sw_if_index == unset32) ≡ false
    pub interface_there : vpp.is_free_sw_interface b.rx_sw_if_index ≡ false
    pub hardware : vpp.is_hardware_interface b.rx_sw_if_index ≡ true
    pub smac : is_zero_mac (bytes6 b (b.l2_hdr_offset + 6)) ≡ false
    pub dmac : is_zero_mac (bytes6 b b.l2_hdr_offset) ≡ false
    pub buffer : vpp.vlib_buffer_alloc wrk.sent ≡ true

  -- The contexts that a handshake leads through and what it leaves of the flow in the slot `i`.
  pub record Established (wrk : WrkCtx T W) (b r a : Buffer) (i : ℕ) : Type 0 where
    pub opened : Opened vpp handlers wrk tcp b i
    pub replied : WrkCtx T W
    pub reply_in :
        ip4_input_process vpp handlers opened.outside r
        ≡ some (accept, replied, vlib_buffer_set_flow r i)
    pub done : WrkCtx T W
    pub ack_in :
        ip4_input_process vpp handlers replied a ≡ some (accept, done, vlib_buffer_set_flow a i)
    pub valid : IsValidCtx vpp done
    pub flow : Flow
    pub found : done.flows i ≡ some flow
    pub state : flow.state ≡ established
    pub key : flow.key ≡ packet_key tcp b
    pub seq : flow.entry_in.tcp_attr.seq ≡ tcp_seq_number a
    pub ack : flow.entry_in.tcp_attr.ack ≡ tcp_ack_number a
    pub smac : flow.entry_in.smac ≡ bytes6 b (b.l2_hdr_offset + 6)
    pub dmac : flow.entry_in.dmac ≡ bytes6 b b.l2_hdr_offset
    pub sw_if_index : flow.entry_in.sw_if_index ≡ b.rx_sw_if_index
    pub sent : done.sent ≡ wrk.sent ++ reset_packet vpp flow flow.entry_in ∷ []

  send_on-sends :
      (f : Flow) (e : FlowEntry) (sent : List Sent)
      → vpp.is_hardware_interface e.sw_if_index ≡ true
      → is_zero_mac e.smac ≡ false
      → is_zero_mac e.dmac ≡ false
      → vpp.vlib_buffer_alloc sent ≡ true
      → send_on vpp f e sent ≡ sent ++ reset_packet vpp f e ∷ []
  unfolding send_on
  send_on-sends f e sent hw s d al = rw (hw, s, d, al)

  -- One packet is sent for a flow that has no MAC addresses in its second entry.
  reset_sent :
      (wrk : WrkCtx T W) (b : Buffer) (f : Flow)
      → CanReset wrk b
      → f.entry_out.smac ≡ zero_mac
      → f.entry_in.sw_if_index ≡ b.rx_sw_if_index
      → f.entry_in.smac ≡ bytes6 b (b.l2_hdr_offset + 6)
      → f.entry_in.dmac ≡ bytes6 b b.l2_hdr_offset
      → (tcp_send_reset vpp f wrk.sent).1 ≡ wrk.sent ++ reset_packet vpp f f.entry_in ∷ []
  reset_sent wrk b f can out sw s d =
      tcp_send_reset-in vpp f wrk.sent out
      ∙ rw (ap vpp.is_free_sw_interface sw ∙ can.interface_there) (
          send_on-sends f f.entry_in wrk.sent (ap vpp.is_hardware_interface sw ∙ can.hardware)
            (ap is_zero_mac s ∙ can.smac) (ap is_zero_mac d ∙ can.dmac) can.buffer)

  -- In a context that satisfies the invariant, the three packets of a handshake, a SYN alone that opens
  -- a flow and goes out, the SYN with ACK that answers it, and the ACK, are all accepted for the same
  -- slot and leave the flow ESTABLISHED, and exactly one packet is sent: the reset for the flow's first
  -- entry, which has the MAC addresses and the interface of the SYN and the numbers of the ACK. It is
  -- assumed that the hashes of the key and of its reverse are different, that the SYN came from a
  -- hardware interface that is there, with MAC addresses that are not zero, and that there is a buffer
  -- for the reset.
  pub Handshake-Established :
      (wrk : WrkCtx T W) (b r a : Buffer) (i : ℕ)
      → First vpp handlers wrk tcp b i
      → Handshake handlers b r a
      → NoCollision vpp handlers tcp b
      → CanReset wrk b
      → Established wrk b r a i
  unfolding vlib_buffer_set_flow reversed flow_table_update_flow
  Handshake-Established wrk b r a i first hs apart can =
      let o = First-Opened vpp handlers wrk tcp b i first in
      let (s1, three1, p1, sent1) = opened_step vpp handlers wrk b i o first hs.syn in
      let (found2, sent2) = outside_found vpp handlers wrk b i o in
      let (w3, eq3, t3, three3, sent3, found3, v3) =
        known_step vpp handlers o.outside r i dir_out (reversed vpp handlers i o.first) o.valid
          hs.reply_handler
          (lookup vpp handlers o.outside _ (packet_key tcp r) _ (entry_ref i dir_out) o.table
            hs.reply_key
            (set_last vpp handlers wrk.flows_hash_table _ _ (entry_ref i dir_in)
              (entry_ref i dir_out)))
          found2 in
      let (w4, eq4, t4, three4, sent4, found4, v4) =
        known_step vpp handlers w3 a i dir_in t3.after v3 hs.ack_handler
          (lookup vpp handlers w3 _ (packet_key tcp a) _ (entry_ref i dir_in) (t3.table ∙ o.table)
            hs.ack_key
            (set_before vpp handlers wrk.flows_hash_table _ _ (entry_ref i dir_in)
              (entry_ref i dir_out) apart))
          found3 in
      let states =
        handshake_states _ _ _ o.first.state t3.after.state t4.after.state
          (syn_event (tcp_flags b) hs.syn) hs.syn_ack hs.ack s1 t3.state t4.state in
      let e = first_flow-entry_in i (fresh_flow i) b (packet_key tcp b) can.interface_known in
      let sw =
        t4.path.entry_in.sw_if_index ∙ t3.path.entry_in.sw_if_index ∙ p1.entry_in.sw_if_index
        ∙ e.0 in
      let smac = t4.path.entry_in.smac ∙ t3.path.entry_in.smac ∙ p1.entry_in.smac ∙ e.1 in
      let dmac = t4.path.entry_in.dmac ∙ t3.path.entry_in.dmac ∙ p1.entry_in.dmac ∙ e.2 in
      let before : w3.sent ≡ wrk.sent =
        sent3
        ∙ sent_after-syn_rcvd vpp handlers t3.after o.first.three_way_handshake o.outside.sent
            states.0
        ∙ sent2
        ∙ sent1 in
      record {
        opened = o;
        replied = w3;
        reply_in = eq3;
        done = w4;
        ack_in = eq4;
        valid = v4;
        flow = t4.after;
        found = found4;
        state = states.1;
        key = t4.path.key ∙ t3.path.key ∙ p1.key ∙ (first_flow-links i b (packet_key tcp b)).0;
        seq = t4.seq;
        ack = t4.ack;
        smac = smac;
        dmac = dmac;
        sw_if_index = sw;
        sent =
            sent4
            ∙ sent_after-established vpp handlers t4.after t3.after.three_way_handshake w3.sent
                states.1 (three3 ∙ three1)
            ∙ ap (λ (s : List Sent). (tcp_send_reset vpp t4.after s).1) before
            ∙ reset_sent wrk b t4.after can ((v4.flows_ok i t4.after found4).out_smac) sw smac dmac;
      }
