-- ===== src/Ip4/Sends.antt =====
-- What the handlers send, when `ip4_input_process` of flow_table/core/ip4_process.c calls them.
use vpp_plugins.Ip4.All.{opened_by}
use vpp_plugins.Ip4.Change.{with_opened}
use vpp_plugins.Ip4.Arrive.{
  packet_key, found_entry, input-new, new_flow-none, new_flow-some, input-known,
}
use vpp_plugins.Ip4.Safety.{registered_handler, has_handler}
use vpp_plugins.Buffer.Parse.{ip4_protocol}
use vpp_plugins.Ip4.Process.{Outcome, accept, ip4_input_process}
use vpp_plugins.Ip4.Input.{IsValidCtx, known_flow-accept}
use vpp_plugins.Protocol.Effects.{
  tcp_update_state-found, tcp_init_state-found, initialised, opened, first_tcp_state, updated,
  next_tcp_state, entered, update_written,
}
use vpp_plugins.Protocol.Path.{SamePath-trans, entered-SamePath, track-SamePath}
use vpp_plugins.Protocol.Tcp.{update_state, init_state, enter_state, reset_established}
use vpp_plugins.Protocol.Handlers.{Handler, tcp, udp, icmp, unimplemented, registered_handlers}
use vpp_plugins.Reset.Send.{tcp_send_reset, send_on, reset_packet, is_zero_mac}
use vpp_plugins.Reset.Targets.{tcp_send_reset-in}
use vpp_plugins.Tcp.Types.{FlowDir, established, state_index, TcpState, dir_in}
use vpp_plugins.Buffer.Defs.{Buffer, vlib_buffer_set_flow}
use vpp_plugins.Flow.Types.{Flow, unset32, zero_mac}
use vpp_plugins.Flow.Defs.{WrkCtx, put_flow, flow_table_hash}
use vpp_plugins.Flow.Vpp.{Vpp, Sent}
use vpp_plugins.Base.{
  ◌||◌, if◌then◌else◌, ℕ, ◌≡◌, ◌<◌, ◌⊎◌, inl, inr, List, [], ◌∷◌, ◌++◌, Bool, Bool-cases, true,
  false, not, ◌&&◌, ◌==◌, some, refl, arith, ◌∙◌, ap, sym, some_injective, Option, Option-cases,
}

one_of :
    (a b c : Bool) (x y : List Sent)
    → let r = if a then x else (if b then x else (if c then y else x)) in (r ≡ x) ⊎ (r ≡ y)
one_of true b c x y = inl refl
one_of false true c x y = inl refl
one_of false false true x y = inr refl
one_of false false false x y = inl refl

module _ {T W : Type 0} (vpp : Vpp T W) where
  -- A step sends nothing, or one packet: the reset for the first entry of a flow that is ESTABLISHED
  -- and began with a SYN alone.
  pub data Sends (wrk wrk' : WrkCtx T W) : Type 0 where
    silent : wrk'.sent ≡ wrk.sent → Sends wrk wrk'
    resets :
        (i : ℕ) (f : Flow)
        → wrk'.flows i ≡ some f
        → f.state ≡ established
        → f.three_way_handshake ≡ true
        → wrk'.sent ≡ wrk.sent ++ reset_packet vpp f f.entry_in ∷ []
        → Sends wrk wrk'

  send_on-cases :
      (f : Flow) (sent : List Sent)
      → (send_on vpp f f.entry_in sent ≡ sent)
        ⊎ (send_on vpp f f.entry_in sent ≡ sent ++ reset_packet vpp f f.entry_in ∷ [])
  unfolding send_on
  send_on-cases f sent =
      one_of (not (vpp.is_hardware_interface f.entry_in.sw_if_index))
        (is_zero_mac f.entry_in.smac || is_zero_mac f.entry_in.dmac) (vpp.vlib_buffer_alloc sent)
        sent (sent ++ reset_packet vpp f f.entry_in ∷ [])

  tcp_send_reset-cases :
      (f : Flow) (sent : List Sent)
      → f.entry_out.smac ≡ zero_mac
      → ((tcp_send_reset vpp f sent).1 ≡ sent)
        ⊎ ((tcp_send_reset vpp f sent).1 ≡ sent ++ reset_packet vpp f f.entry_in ∷ [])
  tcp_send_reset-cases f sent out =
      elim (Bool-cases (vpp.is_free_sw_interface f.entry_in.sw_if_index)) [
        | inl free ↦ inl (tcp_send_reset-in vpp f sent out ∙ rw free refl)
        | inr used ↦ elim (send_on-cases f sent) [
          | inl nothing ↦ inl (tcp_send_reset-in vpp f sent out ∙ rw used nothing)
          | inr one ↦ inr (tcp_send_reset-in vpp f sent out ∙ rw used one)
        ]
      ]

  is_established :
      (s : TcpState) → (state_index s == state_index established) ≡ true → s ≡ established
  unfolding state_index
  is_established s h = ground arith

  and_true : (a b : Bool) → (a && b) ≡ true → (a ≡ true) × (b ≡ true)
  and_true a b h = ground arith

  reset_established-Sends :
      (wrk wrk' : WrkCtx T W) (i : ℕ) (f : Flow)
      → wrk'.sent ≡ wrk.sent
      → wrk'.flows i ≡ some f
      → f.entry_out.smac ≡ zero_mac
      → Sends wrk (reset_established vpp wrk' f)
  unfolding reset_established
  reset_established-Sends wrk wrk' i f same found out =
      elim (Bool-cases
        ((state_index f.state == state_index established) && f.three_way_handshake)) [
          | inl sends ↦
              (let (st, three) = and_true _ _ sends in
                elim (tcp_send_reset-cases f wrk'.sent out) [
                  | inl nothing ↦ silent (rw sends (nothing ∙ same))
                  | inr one ↦ resets i f (rw sends found) (is_established f.state st) three (
                      rw sends (
                        one ∙ ap (λ (l : List Sent). l ++ reset_packet vpp f f.entry_in ∷ []) same))
                ])
          | inr quiet ↦ silent (rw quiet same)
        ]

  -- The context before `reset_established` runs.
  twice_sent :
      (wrk : WrkCtx T W) (i : ℕ) (f g : Flow) (s : TcpState)
      → (put_flow (enter_state vpp wrk i f s) i g).sent ≡ wrk.sent
  unfolding enter_state
  twice_sent wrk i f g s = refl

  updated-smac :
      (wrk : WrkCtx T W) (f : Flow) (b : Buffer) (d : FlowDir)
      → f.entry_out.smac ≡ zero_mac
      → (updated vpp wrk f b d).entry_out.smac ≡ zero_mac
  updated-smac wrk f b d out =
      let g = entered vpp wrk f (next_tcp_state f b d) in
      let path =
        SamePath-trans (entered-SamePath vpp wrk f (next_tcp_state f b d)) (track-SamePath g d b) in
      path.entry_out.smac ∙ out

  -- A handler's `update_state` runs on a flow whose second entry has no MAC address.
  update_state-Sends :
      (h : Handler) (wrk wrk' : WrkCtx T W) (b : Buffer) (d : FlowDir) (f : Flow)
      → b.flow_index < unset32
      → wrk.flows b.flow_index ≡ some f
      → f.entry_out.smac ≡ zero_mac
      → update_state vpp h wrk b d ≡ some wrk'
      → Sends wrk wrk'
  unfolding update_state
  update_state-Sends tcp wrk wrk' b d f lt found out e =
      let i = b.flow_index in
      let u = updated vpp wrk f b d in
      let before = put_flow (enter_state vpp wrk i f (next_tcp_state f b d)) i u in
      let same : reset_established vpp before u ≡ wrk' =
        some_injective (sym (tcp_update_state-found vpp wrk b d f lt found) ∙ e) in
      rw (← same) (
        reset_established-Sends wrk before i u (twice_sent wrk i f u (next_tcp_state f b d))
          (update_written (enter_state vpp wrk i f (next_tcp_state f b d)).flows i u)
          (updated-smac wrk f b d out))
  update_state-Sends udp wrk wrk' b d f lt found out e =
      silent (ap (λ (w : WrkCtx T W). w.sent) (sym (some_injective e)))
  update_state-Sends icmp wrk wrk' b d f lt found out e =
      silent (ap (λ (w : WrkCtx T W). w.sent) (sym (some_injective e)))
  update_state-Sends unimplemented wrk wrk' b d f lt found out e =
      silent (ap (λ (w : WrkCtx T W). w.sent) (sym (some_injective e)))

  -- A handler's `init_state` sends nothing.
  init_state-sent :
      (h : Handler) (wrk wrk' : WrkCtx T W) (b : Buffer) (d : FlowDir) (f : Flow)
      → b.flow_index < unset32
      → wrk.flows b.flow_index ≡ some f
      → init_state vpp h wrk b d ≡ some wrk'
      → wrk'.sent ≡ wrk.sent
  unfolding init_state
  init_state-sent tcp wrk wrk' b d f lt found e =
      ap (λ (w : WrkCtx T W). w.sent)
        (some_injective (sym e ∙ tcp_init_state-found vpp wrk b d f lt found))
      ∙ twice_sent wrk b.flow_index (opened f b) (initialised vpp wrk f b d) (first_tcp_state b d)
  init_state-sent udp wrk wrk' b d f lt found e =
      ap (λ (w : WrkCtx T W). w.sent) (sym (some_injective e))
  init_state-sent icmp wrk wrk' b d f lt found e =
      ap (λ (w : WrkCtx T W). w.sent) (sym (some_injective e))
  init_state-sent unimplemented wrk wrk' b d f lt found e =
      ap (λ (w : WrkCtx T W). w.sent) (sym (some_injective e))

  same_wrk :
      {r : Option (Outcome T W)} {wrk1 wrk2 : WrkCtx T W} {b1 b2 : Buffer}
      → r ≡ some (accept, wrk1, b1)
      → r ≡ some (accept, wrk2, b2)
      → wrk1 ≡ wrk2
  same_wrk e1 e2 = ap (λ (o : Outcome T W). o.1) (some_injective (sym e1 ∙ e2))

  -- A packet comes in.
  pub ip4_input_process-Sends :
      (wrk wrk' : WrkCtx T W) (b b' : Buffer)
      → IsValidCtx vpp wrk
      → ip4_protocol b < 255
      → ip4_input_process vpp registered_handlers wrk b ≡ some (accept, wrk', b')
      → Sends wrk wrk'
  unfolding vlib_buffer_set_flow
  ip4_input_process-Sends wrk wrk' b b' v lt e =
      let h = registered_handler (ip4_protocol b) in
      let eh = has_handler (ip4_protocol b) lt in
      let key = packet_key h b in
      let hash_key = flow_table_hash vpp key in
      elim (Option-cases (found_entry vpp wrk h b)) [
        | inl new ↦ elim (Option-cases (vpp.pool_get wrk.flows)) [
          | inl full ↦ silent (
              ap (λ (w : WrkCtx T W). w.sent)
                (same_wrk e (
                  input-new vpp registered_handlers wrk b h eh new
                  ∙ new_flow-none vpp wrk h b key hash_key full)))
          | inr (i, slot) ↦
              (let (after, eq, ran, t) = new_flow-some vpp wrk h b key hash_key i slot in
                let same = same_wrk e (input-new vpp registered_handlers wrk b h eh new ∙ eq) in
                silent (
                  ap (λ (w : WrkCtx T W). w.sent) same
                  ∙ init_state-sent h (with_opened vpp wrk i h b) after (vlib_buffer_set_flow b i)
                      dir_in (opened_by i h b) (vpp.pool_get-lt wrk.flows i slot)
                      (update_written wrk.flows i (opened_by i h b)) ran))
        ]
        | inr (ref, known) ↦
            (let r = v.table_ok _ ref known in
              let ok = v.flows_ok ref.index r.target r.found in
              let (after, eq, ran, t) = known_flow-accept vpp wrk h b ref r ok.index_lt in
              let same =
                same_wrk e (input-known vpp registered_handlers wrk b h ref eh known ∙ eq) in
              rw same (
                update_state-Sends h wrk after (vlib_buffer_set_flow b ref.index) ref.dir r.target
                  ok.index_lt r.found ok.out_smac ran))
      ]
