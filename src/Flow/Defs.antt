-- ===== src/Flow/Defs.antt =====
-- The functions of flow_table/core/include/flow.h and flow_table/core/include/timer.h.
use Prim.Native.Nat.{bit_xor}
use vpp_plugins.Base.{ℕ, ◌%◌, ◌^◌, List, [], ◌∷◌, ◌&&◌, Option, none, some, ◌==◌, if◌then◌else◌}
use vpp_plugins.Tcp.Types.{FlowDir, dir_in, dir_out, dir_index}
use vpp_plugins.Flow.Types.{
  FlowKey, FlowEntry, Flow, EntryRef, unset32, flow_entry, set_flow_entry, zero_flow,
}
use vpp_plugins.Flow.Vpp.{Sent, Vpp}

-- `flow_table_wrk_ctx_t`, with the packets that the worker sent. `flows i` is `none` for an index
-- that is free.
pub record WrkCtx (T W : Type 0) : Type 0 where
  pub flows : ℕ → Option Flow
  pub flows_hash_table : T
  pub tw : W
  pub sent : List Sent

unfoldable pub flow_key_reverse : FlowKey → FlowKey
flow_key_reverse key = record key {
  src = key.dst;
  dst = key.src;
  src_port = key.dst_port;
  dst_port = key.src_port;
}

-- `flow` is the pointer, `f` what it points to.
unfoldable pub flow_table_update_flow : (flow : ℕ) → Flow → FlowKey → FlowDir → Flow
flow_table_update_flow flow f key direction =
    set_flow_entry f direction (record (flow_entry f direction) {
      src = key.src;
      dst = key.dst;
      protocol = key.protocol;
      src_port = key.src_port;
      dst_port = key.dst_port;
      flow = some flow;
    })

-- `flow->flow_entry[direction].sw_if_index = sw_if_index`
set_sw_if_index : Flow → FlowDir → ℕ → Flow
set_sw_if_index f direction i =
    set_flow_entry f direction (record (flow_entry f direction) { sw_if_index = i })

unfoldable pub flow_table_init_flow : (flow : ℕ) → Flow → FlowKey → ℕ → FlowDir → Flow
unfolding flow_table_update_flow set_sw_if_index
flow_table_init_flow flow f key sw_if_index direction =
    let g = record (flow_table_update_flow flow f key direction) { key = key } in
    if sw_if_index == unset32 then g else set_sw_if_index g direction sw_if_index

abbrev pub update {ℓ} : {A : Type ℓ} → (ℕ → A) → ℕ → A → ℕ → A
update f i v j = if i == j then v else f j

module _ {T W : Type 0} where
  -- A write through the pointer `flow`.
  abbrev pub put_flow : WrkCtx T W → ℕ → Flow → WrkCtx T W
  put_flow wrk flow f = record wrk { flows = update wrk.flows flow (some f) }

  -- NULL for a free index.
  unfoldable pub flow_table_get_flow_by_index : WrkCtx T W → ℕ → Option Flow
  flow_table_get_flow_by_index wrk flow_index = wrk.flows flow_index

  -- What a pointer to an entry points to; `none` is a pointer into a free element.
  unfoldable pub deref_entry : WrkCtx T W → EntryRef → Option FlowEntry
  deref_entry wrk ref = elim (wrk.flows ref.index) [
    | none ↦ none
    | some f ↦ some (flow_entry f ref.dir)
  ]

-- `flow` is the entry's `flow` pointer; addresses are equal if index and direction are.
unfoldable pub flow_table_get_direction : (flow : ℕ) → EntryRef → FlowDir
unfolding dir_index
flow_table_get_direction flow entry =
    if (flow == entry.index) && (dir_index entry.dir == 0) then dir_in else dir_out

abbrev pub flow_expirarion_timer_id : ℕ
flow_expirarion_timer_id = 1

module _ {T W : Type 0} (vpp : Vpp T W) where
  xor_words : List ℕ → ℕ → ℕ
  xor_words [] hash = hash
  xor_words (w ∷ ws) hash = xor_words ws (bit_xor hash (vpp.clib_xxhash w))

  unfoldable pub flow_table_hash : FlowKey → ℕ
  unfolding xor_words
  flow_table_hash key = xor_words (vpp.key_words key) 0

  -- The new flow with its index, or NULL.
  unfoldable pub flow_table_alloc_flow : WrkCtx T W → Option (ℕ × Flow)
  flow_table_alloc_flow wrk = elim (vpp.pool_get wrk.flows) [
    | none ↦ none
    | some i ↦
        some (i, record zero_flow { elt_index = i; refcount = 1; stop_timer_handle = unset32 })
  ]

  unfoldable pub flow_expiration_timer_set : W → Flow → ℕ → Flow × W
  flow_expiration_timer_set tw f seconds =
      let (handle, tw') = vpp.tw_timer_start tw f.elt_index flow_expirarion_timer_id seconds in
      (record f { stop_timer_handle = handle }, tw')

  unfoldable pub flow_expiration_timer_reset : W → Flow → W
  flow_expiration_timer_reset tw f =
      if f.stop_timer_handle == unset32 then vpp.tw_timer_stop tw f.stop_timer_handle else tw

  unfoldable pub flow_expiration_timer_update : W → Flow → ℕ → Flow × W
  unfolding flow_expiration_timer_set
  flow_expiration_timer_update tw f seconds =
      if f.stop_timer_handle == unset32
      then flow_expiration_timer_set tw f seconds
      else (f, vpp.tw_timer_update tw f.stop_timer_handle seconds)

-- The flow indices that `flow_expired_timers_dispatch` prints: nothing else is done with them.
unfoldable pub expired_flow_indices : List ℕ → List ℕ
expired_flow_indices [] = []
expired_flow_indices (t ∷ ts) = t % 2 ^ 28 ∷ expired_flow_indices ts

-- `flow_table_timer_update_time` of flow_table/core/timer.c: what is printed, and the context after
-- the timers have expired.
unfoldable pub flow_table_timer_update_time :
    {T W : Type 0} → Vpp T W → WrkCtx T W → (now : ℕ) → List ℕ × WrkCtx T W
unfolding expired_flow_indices
flow_table_timer_update_time vpp wrk now =
    let (expired, tw') = vpp.tw_timer_expire_timers wrk.tw now in
    (expired_flow_indices expired, record wrk { tw = tw' })
