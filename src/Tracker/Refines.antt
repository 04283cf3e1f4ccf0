-- ===== src/Tracker/Refines.antt =====
-- The hooks of flow_table/core/ip4_process.c implement the tracker.
use vpp_plugins.Protocol.Effects.{update_written}
use vpp_plugins.Tcp.Flags.{tcp_flag_concerned, tcp_flag_syn, packet_event}
use Prim.Native.Nat.{bit_and}
use vpp_plugins.Buffer.Parse.{ip4_protocol, tcp_flags}
use mathlib.Core.Path.{fun_ext, subst}
use vpp_plugins.Tracker.Packets.{update_state-Advanced, init_state-Advanced}
use vpp_plugins.Tracker.Spec.{moves, opens, refused, Puts, Arrives, moved, begins, advance, Binds}
use vpp_plugins.Ip4.Process.{known_flow, accept, Outcome, first_flow, new_flow, ip4_input_process}
use vpp_plugins.Tracker.View.{
  Advanced, view, packet_of, conn_of, conn_at, CollisionFree, hash_set-Binds,
}
use vpp_plugins.Ip4.Arrive.{
  found_entry, packet_key, fresh_flow, with_flow, new_flow-none, input-new, input-known,
  new_flow-some,
}
use vpp_plugins.Ip4.Input.{IsValidCtx, known_flow-accept, entry_ref}
use vpp_plugins.Tcp.Types.{FlowDir, start, dir_in}
use vpp_plugins.Flow.Defs.{WrkCtx, flow_table_hash}
use vpp_plugins.Buffer.Defs.{vlib_buffer_set_flow, Buffer}
use vpp_plugins.Flow.Types.{FlowKey, EntryRef, Flow}
use vpp_plugins.Protocol.Handlers.{Handler, Handlers, protocol_handler_get}
use vpp_plugins.Flow.Vpp.{Vpp}
use vpp_plugins.Base.{
  arith, ◌≡◌, some, ap, some_injective, sym, ◌∙◌, ℕ, none, false, Option-cases, inl, inr, ◌==◌,
}

conn_at-known :
    {T W : Type 0} (vpp : Vpp T W) (h : Handler) (wrk wrk' : WrkCtx T W) (b : Buffer) (d : FlowDir)
    (f : Flow)
    → wrk.flows b.flow_index ≡ some f
    → Advanced vpp h wrk b d f f.three_way_handshake wrk'
    → Puts
        (view vpp wrk).conns
        (view vpp wrk').conns
        b.flow_index
        (moved (packet_of h b) d (conn_of f))
conn_at-known vpp h wrk wrk' b d f found a = record {
  put = rw (a.written, a.key, a.state, a.three_way_handshake, a.out_flow);
  others = λ j ne. ap conn_at (a.others j ne);
}

module _ {T W : Type 0} (vpp : Vpp T W) (K : FlowKey → Type 0) where
  known_flow-Arrives :
      (wrk wrk' : WrkCtx T W) (h : Handler) (b b' : Buffer) (ref : EntryRef)
      → IsValidCtx vpp wrk
      → found_entry vpp wrk h b ≡ some ref
      → known_flow vpp wrk h b ref ≡ some (accept, wrk', b')
      → Arrives K (packet_of h b) (view vpp wrk) (view vpp wrk')
  unfolding vlib_buffer_set_flow
  known_flow-Arrives wrk wrk' h b b' ref v e eq =
      let r = v.table_ok _ ref e in
      let lt = (v.flows_ok ref.index r.target r.found).index_lt in
      let (w, eq', ran, t) = known_flow-accept vpp wrk h b ref r lt in
      let same : w ≡ wrk' = ap (λ (o : Outcome T W). o.1) (some_injective (sym eq' ∙ eq)) in
      let a =
        update_state-Advanced vpp h wrk wrk' (vlib_buffer_set_flow b ref.index) ref.dir r.target lt
          r.found (ran ∙ ap some same) in
      moves ref.index ref.dir (conn_of r.target) e (ap conn_at r.found)
        (conn_at-known vpp h wrk wrk' (vlib_buffer_set_flow b ref.index) ref.dir r.target r.found a)
        (fun_ext (λ (k : FlowKey). ap (λ (t : T). vpp.hash_get t (flow_table_hash vpp k)) a.table))

  first_flow-new :
      (i : ℕ) (b : Buffer) (key : FlowKey)
      → let f = first_flow i (fresh_flow i) b key in
        (f.state ≡ start)
        × (f.three_way_handshake ≡ false)
        × (f.key ≡ key)
        × (f.entry_out.flow ≡ none)
  unfolding first_flow
  first_flow-new i b key = ground arith

  new_flow-opens :
      (wrk wrk' : WrkCtx T W) (h : Handler) (b : Buffer) (i : ℕ)
      → let key = packet_key h b in
        let f = first_flow i (fresh_flow i) b key in
        let hash_key = flow_table_hash vpp key in
        CollisionFree vpp K
        → K key
        → found_entry vpp wrk h b ≡ none
        → vpp.pool_get wrk.flows ≡ some i
        → Advanced vpp h
            (with_flow vpp wrk i f hash_key)
            (vlib_buffer_set_flow b i)
            dir_in
            f
            (begins h (bit_and (tcp_flags b) tcp_flag_concerned == tcp_flag_syn))
            wrk'
        → Arrives K (packet_of h b) (view vpp wrk) (view vpp wrk')
  unfolding vlib_buffer_set_flow
  new_flow-opens wrk wrk' h b i free kk new place a =
      let key = packet_key h b in
      let f = first_flow i (fresh_flow i) b key in
      let n = first_flow-new i b key in
      opens i new place (ap conn_at (vpp.pool_get-free wrk.flows i place))
        (record {
          put = rw (
            a.written,
            a.key ∙ n.2,
            a.state ∙ ap (λ s. advance h s (packet_event (tcp_flags b)) dir_in) n.0,
            a.three_way_handshake,
            a.out_flow ∙ n.3,
          );
          others = λ j ne. ap conn_at (a.others j ne ∙ rw ne);
        })
        (subst
          (λ (t : T).
            Binds K (view vpp wrk).entries (λ j. vpp.hash_get t (flow_table_hash vpp j)) key
              (entry_ref i dir_in))
          (sym a.table)
          (hash_set-Binds vpp K wrk.flows_hash_table key (entry_ref i dir_in) free kk))

  new_flow-Arrives :
      (wrk wrk' : WrkCtx T W) (h : Handler) (b b' : Buffer)
      → CollisionFree vpp K
      → K (packet_key h b)
      → found_entry vpp wrk h b ≡ none
      → new_flow vpp wrk h b (packet_key h b) (flow_table_hash vpp (packet_key h b))
        ≡ some (accept, wrk', b')
      → Arrives K (packet_of h b) (view vpp wrk) (view vpp wrk')
  unfolding vlib_buffer_set_flow
  new_flow-Arrives wrk wrk' h b b' free kk new eq = elim (Option-cases (vpp.pool_get wrk.flows)) [
    | inl full ↦
        (let same : wrk' ≡ wrk =
            ap (λ (o : Outcome T W). o.1)
              (some_injective (sym eq ∙ new_flow-none vpp wrk h b _ _ full)) in
          refused new full (ap (view vpp) same))
    | inr (i, slot) ↦
        (let key = packet_key h b in
          let f = first_flow i (fresh_flow i) b key in
          let (w, eq', ran, t) = new_flow-some vpp wrk h b key (flow_table_hash vpp key) i slot in
          let same : w ≡ wrk' = ap (λ (o : Outcome T W). o.1) (some_injective (sym eq' ∙ eq)) in
          let n = first_flow-new i b key in
          new_flow-opens wrk wrk' h b i free kk new slot (
            init_state-Advanced vpp h (with_flow vpp wrk i f (flow_table_hash vpp key)) wrk'
              (vlib_buffer_set_flow b i) dir_in f (vpp.pool_get-lt wrk.flows i slot)
              (update_written wrk.flows i f) n.0 n.1 (ran ∙ ap some same)))
  ]

  -- Every packet that `ip4_input_process` accepts, in a context that satisfies the invariant, does to the
  -- connections what the tracker says: its key, if it is not known, opens a connection in a free place,
  -- or nothing happens if there is none; and if it is known, it moves its connection as the machine that
  -- is described by events does. The keys in question have different hashes.
  pub ip4_input_process-Arrives :
      (handlers : Handlers) (wrk wrk' : WrkCtx T W) (h : Handler) (b b' : Buffer)
      → CollisionFree vpp K
      → IsValidCtx vpp wrk
      → protocol_handler_get handlers (ip4_protocol b) ≡ some h
      → K (packet_key h b)
      → ip4_input_process vpp handlers wrk b ≡ some (accept, wrk', b')
      → Arrives K (packet_of h b) (view vpp wrk) (view vpp wrk')
  ip4_input_process-Arrives handlers wrk wrk' h b b' free v eh kk eq =
      elim (Option-cases (found_entry vpp wrk h b)) [
        | inl new ↦
            new_flow-Arrives wrk wrk' h b b' free kk new
              (sym (input-new vpp handlers wrk b h eh new) ∙ eq)
        | inr (ref, known) ↦
            known_flow-Arrives wrk wrk' h b b' ref v known
              (sym (input-known vpp handlers wrk b h ref eh known) ∙ eq)
      ]
