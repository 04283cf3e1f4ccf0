-- ===== src/Ip4/Matched.antt =====
-- The flow that `ip4_input_process` of flow_table/core/ip4_process.c finds or makes for a packet.
use vpp_plugins.Protocol.Path.{SamePath}
use vpp_plugins.Ip4.Mirror.{entry_key, HoldsKey, IsMirror, IsMirror-Closed}
use vpp_plugins.Ip4.Indexed.{Indexed, Reach-Indexed, opened_by-key, same_key}
use vpp_plugins.Ip4.Reach.{Reach, IsInitial, Reach-IsValid, Reach-All}
use vpp_plugins.Ip4.Change.{with_opened}
use vpp_plugins.Ip4.All.{All, opened_by}
use vpp_plugins.Ip4.Arrive.{
  packet_key, found_entry, input-new, input-known, new_flow-none, new_flow-some,
}
use vpp_plugins.Ip4.Input.{IsValidCtx, known_flow-accept}
use vpp_plugins.Ip4.Safety.{has_handler, registered_handler}
use vpp_plugins.Ip4.Process.{ip4_input_process, accept}
use vpp_plugins.Buffer.Defs.{Buffer, vlib_buffer_set_flow}
use vpp_plugins.Buffer.Parse.{ip4_protocol}
use vpp_plugins.Protocol.Handlers.{Handler, registered_handlers}
use vpp_plugins.Protocol.Tcp.{init_state, update_state}
use vpp_plugins.Tcp.Types.{FlowDir, dir_in, dir_out}
use vpp_plugins.Flow.Types.{Flow, FlowKey, EntryRef, flow_entry}
use vpp_plugins.Flow.Defs.{WrkCtx, flow_table_hash}
use vpp_plugins.Flow.Vpp.{Vpp}
use vpp_plugins.Base.{
  ℕ, ◌≡◌, ◌<◌, ◌⊎◌, Option-cases, none, some, inl, inr, refl, sym, ◌∙◌, ap, some_injective,
}

-- An entry in use of a flow like that is for the key that its direction stands for.
flow_entry-HoldsKey :
    (f : Flow) (d : FlowDir) (i : ℕ)
    → IsMirror f
    → (flow_entry f d).flow ≡ some i
    → HoldsKey (flow_entry f d) (entry_key f d)
flow_entry-HoldsKey f dir_in i m back = m.forward
flow_entry-HoldsKey f dir_out i m back = elim m.backward [
  | inl new ↦ absurd (cc (new, back))
  | inr holds ↦ holds
]

same-flow :
    (f g : Flow) (d : FlowDir) → SamePath f g → (flow_entry g d).flow ≡ (flow_entry f d).flow
same-flow f g dir_in p = p.entry_in.flow
same-flow f g dir_out p = p.entry_out.flow

module _ {T W : Type 0} (vpp : Vpp T W) where
  -- The handler's function that has run on the packet `b` in the direction: `update_state` on a flow
  -- that was there, or `init_state` on a new one, in the direction IN.
  pub data Ran (wrk wrk' : WrkCtx T W) (h : Handler) (b b' : Buffer) : FlowDir → Type 0 where
    updated : (d : FlowDir) → update_state vpp h wrk b' d ≡ some wrk' → Ran wrk wrk' h b b' d
    initialised :
        (i : ℕ)
        → init_state vpp h (with_opened vpp wrk i h b) b' dir_in ≡ some wrk'
        → Ran wrk wrk' h b b' dir_in

  -- The buffer's flow has the packet's key, or its reverse, and the handler has run in the direction
  -- whose entry is for the packet's addresses and ports.
  pub record Matched (wrk wrk' : WrkCtx T W) (h : Handler) (b b' : Buffer) : Type 0 where
    pub flow : Flow
    pub found : wrk'.flows b'.flow_index ≡ some flow
    pub dir : FlowDir
    pub for_key : entry_key flow dir ≡ packet_key h b
    pub holds : HoldsKey (flow_entry flow dir) (packet_key h b)
    pub ran : Ran wrk wrk' h b b' dir

  -- No entry of a flow of the context is for another key with the same hash.
  abbrev pub Apart : WrkCtx T W → FlowKey → Type 0
  Apart wrk key =
      (i : ℕ) (f : Flow) (d : FlowDir)
      → wrk.flows i ≡ some f
      → flow_table_hash vpp (entry_key f d) ≡ flow_table_hash vpp key
      → entry_key f d ≡ key

  -- The packet was accepted, and it changed nothing, or it is matched.
  abbrev pub Sorted : WrkCtx T W → Handler → Buffer → Type 0
  Sorted wrk h b =
      (wrk' : WrkCtx T W) × (b' : Buffer) × (ip4_input_process vpp registered_handlers wrk b
        ≡ some (accept, wrk', b'))
      × (((vpp.pool_get wrk.flows ≡ none) × (wrk' ≡ wrk) × (b' ≡ b)) ⊎ Matched wrk wrk' h b b')

  known-Sorted :
      (wrk : WrkCtx T W) (b : Buffer) (ref : EntryRef)
      → let h = registered_handler (ip4_protocol b) in
        ip4_protocol b < 255
        → IsValidCtx vpp wrk
        → All IsMirror wrk
        → Indexed vpp wrk
        → Apart wrk (packet_key h b)
        → found_entry vpp wrk h b ≡ some ref
        → Sorted wrk h b
  unfolding vlib_buffer_set_flow
  known-Sorted wrk b ref lt v mirrors indexed apart known =
      let h = registered_handler (ip4_protocol b) in
      let r = v.table_ok _ ref known in
      let f = r.target in
      let at = indexed _ ref known in
      let ff : at.flow ≡ f = some_injective (sym at.found ∙ r.found) in
      let hash = ap (λ (g : Flow). flow_table_hash vpp (entry_key g ref.dir)) (sym ff) ∙ at.hash in
      let (wrk', eq, ran, t) =
        known_flow-accept vpp wrk h b ref r (v.flows_ok ref.index f r.found).index_lt in
      let g = t.after in
      let e : entry_key g ref.dir ≡ packet_key h b =
        same_key f g ref.dir t.path.key ∙ apart ref.index f ref.dir r.found hash in
      let mirror = IsMirror-Closed.path f g t.path (mirrors ref.index f r.found) in
      let holds =
        flow_entry-HoldsKey g ref.dir ref.index mirror (same-flow f g ref.dir t.path ∙ r.back) in
      (
        wrk',
        vlib_buffer_set_flow b ref.index,
        input-known vpp registered_handlers wrk b h ref (has_handler (ip4_protocol b) lt) known
            ∙ eq,
        inr (record {
          flow = t.after;
          found = t.written;
          dir = ref.dir;
          for_key = e;
          holds = rw e at holds;
          ran = updated ref.dir ran;
        }),
      )

  new-Sorted :
      (wrk : WrkCtx T W) (b : Buffer)
      → let h = registered_handler (ip4_protocol b) in
        ip4_protocol b < 255 → found_entry vpp wrk h b ≡ none → Sorted wrk h b
  unfolding vlib_buffer_set_flow
  new-Sorted wrk b lt new =
      let h = registered_handler (ip4_protocol b) in
      let key = packet_key h b in
      let hash_key = flow_table_hash vpp key in
      let eh = has_handler (ip4_protocol b) lt in
      let start = input-new vpp registered_handlers wrk b h eh new in
      elim (Option-cases (vpp.pool_get wrk.flows)) [
        | inl full ↦
            (wrk, b, start ∙ new_flow-none vpp wrk h b key hash_key full, inl (full, refl, refl))
        | inr (i, slot) ↦
            (let (wrk', eq, ran, t) = new_flow-some vpp wrk h b key hash_key i slot in
              let f = opened_by i h b in
              let mirror =
                IsMirror-Closed.path f t.after t.path (IsMirror-Closed.opened i h b lt) in
              let e : t.after.key ≡ key = t.path.key ∙ opened_by-key i h b in
              (
                wrk',
                vlib_buffer_set_flow b i,
                start ∙ eq,
                inr (record {
                  flow = t.after;
                  found = t.written;
                  dir = dir_in;
                  for_key = e;
                  holds = rw e at mirror.forward;
                  ran = initialised i ran;
                }),
              ))
      ]

  -- In every context that packets and timers lead to from the initial one, a packet of a protocol
  -- below 255 is accepted, if no flow of the context has another key, or reversed key, with the same
  -- hash. Either the pool has no free element and nothing is changed, or the buffer's flow has the
  -- packet's key, or its reverse, its entry for the one or the other direction holds the addresses,
  -- ports and protocol of the packet, and the handler has run on the flow in that direction:
  -- `init_state` on a new flow, in the direction IN, `update_state` on one that was there.
  pub Reach-Sorted :
      {start wrk : WrkCtx T W} (b : Buffer)
      → let h = registered_handler (ip4_protocol b) in
        IsInitial vpp start
        → Reach vpp start wrk
        → ip4_protocol b < 255
        → Apart wrk (packet_key h b)
        → Sorted wrk h b
  Reach-Sorted {start} {wrk} b z r lt apart =
      let h = registered_handler (ip4_protocol b) in
      elim (Option-cases (found_entry vpp wrk h b)) [
        | inl new ↦ new-Sorted wrk b lt new
        | inr (ref, known) ↦
            known-Sorted wrk b ref lt (Reach-IsValid vpp z r) (Reach-All vpp IsMirror-Closed z r)
              (Reach-Indexed vpp z r) apart known
      ]
