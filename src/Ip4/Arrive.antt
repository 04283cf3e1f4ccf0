-- ===== src/Ip4/Arrive.antt =====
-- A packet that arrives: both branches of `ip4_input_process` of flow_table/core/ip4_process.c.
use vpp_plugins.Buffer.Parse.{ip4_flow_key, ip4_protocol}
use vpp_plugins.Protocol.Tcp.{parse_key, init_state}
use vpp_plugins.Protocol.Effects.{update_written}
use vpp_plugins.Protocol.Touched.{Touched, init_state-Touched}
use vpp_plugins.Ip4.Valid.{FlowOk, set-IsValid, put-IsValid}
use vpp_plugins.Tcp.Types.{dir_in}
use vpp_plugins.Protocol.Handlers.{Handler, Handlers, protocol_handler_get}
use vpp_plugins.Ip4.Input.{IsValidCtx, entry_ref}
use vpp_plugins.Buffer.Defs.{vlib_buffer_set_flow, Buffer}
use vpp_plugins.Flow.Types.{Flow, zero_flow, unset32, FlowKey, EntryRef}
use vpp_plugins.Flow.Defs.{WrkCtx, put_flow, flow_table_alloc_flow, update, flow_table_hash}
use vpp_plugins.Ip4.Process.{new_flow, first_flow, accept, ip4_input_process, known_flow}
use vpp_plugins.Flow.Vpp.{Vpp}
use vpp_plugins.Base.{ℕ, ◌≡◌, none, some, Option}

-- The flow in a slot that `flow_table_alloc_flow` hands out.
abbrev pub fresh_flow : ℕ → Flow
fresh_flow i = record zero_flow { elt_index = i; refcount = 1; stop_timer_handle = unset32 }

-- The key that a packet is looked up by.
abbrev pub packet_key : Handler → Buffer → FlowKey
packet_key h b = parse_key h b (ip4_flow_key b)

module _ {T W : Type 0} (vpp : Vpp T W) where
  -- The context in which `init_state` runs for a new flow.
  abbrev pub with_flow : WrkCtx T W → ℕ → Flow → (hash_key : ℕ) → WrkCtx T W
  with_flow wrk i f hash_key = record (put_flow wrk i f) {
    flows_hash_table = vpp.hash_set wrk.flows_hash_table hash_key (entry_ref i dir_in);
  }

  pub with_flow-IsValid :
      (wrk : WrkCtx T W) (i : ℕ) (f : Flow) (hash_key : ℕ)
      → IsValidCtx vpp wrk
      → wrk.flows i ≡ none
      → FlowOk i f
      → IsValidCtx vpp (with_flow wrk i f hash_key)
  with_flow-IsValid wrk i f hash_key v free ok =
      set-IsValid vpp (update wrk.flows i (some f)) wrk.flows_hash_table hash_key
        (entry_ref i dir_in)
        (record { target = f; found = update_written wrk.flows i f; back = ok.in_use })
        (put-IsValid vpp wrk.flows wrk.flows_hash_table i f
          (record { ok = ok; keeps = λ g h. cc (free, h) }) v)

  pub new_flow-none :
      (wrk : WrkCtx T W) (h : Handler) (b : Buffer) (key : FlowKey) (hash_key : ℕ)
      → vpp.pool_get wrk.flows ≡ none
      → new_flow vpp wrk h b key hash_key ≡ some (accept, wrk, b)
  unfolding new_flow flow_table_alloc_flow
  new_flow-none wrk h b key hash_key e = rw (e, new_flow, flow_table_alloc_flow)

  alloc-some :
      (wrk : WrkCtx T W) (i : ℕ)
      → vpp.pool_get wrk.flows ≡ some i
      → flow_table_alloc_flow vpp wrk ≡ some (i, fresh_flow i)
  unfolding flow_table_alloc_flow
  alloc-some wrk i e = rw (e, flow_table_alloc_flow)

  -- A packet with a new key takes the slot `i`: the key leads to its first entry, and `init_state`
  -- runs on it.
  pub new_flow-some :
      (wrk : WrkCtx T W) (h : Handler) (b : Buffer) (key : FlowKey) (hash_key i : ℕ)
      → vpp.pool_get wrk.flows ≡ some i
      → let f = first_flow i (fresh_flow i) b key in
        let wrk1 = with_flow wrk i f hash_key in
        (wrk' : WrkCtx T W) × (new_flow vpp wrk h b key hash_key
          ≡ some (accept, wrk', vlib_buffer_set_flow b i))
        × (init_state vpp h wrk1 (vlib_buffer_set_flow b i) dir_in ≡ some wrk')
        × Touched wrk1 i f wrk'
  unfolding vlib_buffer_set_flow new_flow
  new_flow-some wrk h b key hash_key i e =
      let f = first_flow i (fresh_flow i) b key in
      let wrk1 = with_flow wrk i f hash_key in
      let (wrk', ran, t) =
        init_state-Touched vpp h wrk1 (vlib_buffer_set_flow b i) dir_in f
          (vpp.pool_get-lt wrk.flows i e) (update_written wrk.flows i f) in
      (wrk', rw (alloc-some wrk i e, new_flow, ran), ran, t)

  -- The entry of the hash table that a packet is looked up by.
  abbrev pub found_entry : WrkCtx T W → Handler → Buffer → Option EntryRef
  found_entry wrk h b = vpp.hash_get wrk.flows_hash_table (flow_table_hash vpp (packet_key h b))

  pub input-known :
      (handlers : Handlers) (wrk : WrkCtx T W) (b : Buffer) (h : Handler) (ref : EntryRef)
      → protocol_handler_get handlers (ip4_protocol b) ≡ some h
      → found_entry wrk h b ≡ some ref
      → ip4_input_process vpp handlers wrk b ≡ known_flow vpp wrk h b ref
  unfolding ip4_input_process
  input-known handlers wrk b h ref eh er = rw (eh, er, ip4_input_process)

  pub input-new :
      (handlers : Handlers) (wrk : WrkCtx T W) (b : Buffer) (h : Handler)
      → protocol_handler_get handlers (ip4_protocol b) ≡ some h
      → found_entry wrk h b ≡ none
      → ip4_input_process vpp handlers wrk b
        ≡ new_flow vpp wrk h b (packet_key h b) (flow_table_hash vpp (packet_key h b))
  unfolding ip4_input_process
  input-new handlers wrk b h eh er = rw (eh, er, ip4_input_process)
