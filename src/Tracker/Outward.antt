-- ===== src/Tracker/Outward.antt =====
-- A packet that goes out through `ip4_output_process` of flow_table/core/ip4_process.c, as the tracker
-- sees it.
use vpp_plugins.Ip4.Output.{get_flow-flows}
use vpp_plugins.Protocol.Effects.{update_written}
use vpp_plugins.Tcp.Types.{dir_out}
use vpp_plugins.Ip4.Input.{IsValidCtx, entry_ref}
use vpp_plugins.Tracker.View.{CollisionFree, view, conn_of, hash_set-Binds, conn_at, is_set}
use vpp_plugins.Flow.Defs.{
  flow_table_update_flow, WrkCtx, flow_table_get_flow_by_index, flow_key_reverse,
}
use vpp_plugins.Ip4.Process.{add_reverse, ip4_output_process}
use vpp_plugins.Buffer.Defs.{vlib_buffer_get_flow, Buffer}
use vpp_plugins.Flow.Types.{FlowKey, Flow}
use vpp_plugins.Flow.Vpp.{Vpp}
use vpp_plugins.Tracker.Spec.{answers, passes, stops, Puts, Binds, Leaves}
use vpp_plugins.Base.{arith, ℕ, ◌≡◌, none, some, Option-cases, inl, true, ap, inr, refl}

module _ {T W : Type 0} (vpp : Vpp T W) (K : FlowKey → Type 0) where
  -- An index that is not below ~0 has no flow.
  get_flow-none :
      (wrk : WrkCtx T W) (b : Buffer)
      → IsValidCtx vpp wrk
      → vlib_buffer_get_flow wrk b ≡ none
      → wrk.flows b.flow_index ≡ none
  unfolding vlib_buffer_get_flow flow_table_get_flow_by_index
  get_flow-none wrk b v h = elim (Option-cases (wrk.flows b.flow_index)) [
    | inl free ↦ free
    | inr (f, found) ↦ absurd (ground (arith, found, h, (v.flows_ok b.flow_index f found).index_lt))
  ]

  add_reverse-Puts :
      (wrk : WrkCtx T W) (i : ℕ) (f : Flow)
      → Puts
          (view vpp wrk).conns
          (view vpp (add_reverse vpp wrk i f)).conns
          i
          (record (conn_of f) { answered = true })
  unfolding add_reverse flow_table_update_flow
  add_reverse-Puts wrk i f = record {
    put =
        ap conn_at (
          update_written wrk.flows i (flow_table_update_flow i f (flow_key_reverse f.key) dir_out));
    others = λ j ne. rw ne;
  }

  add_reverse-Binds :
      (wrk : WrkCtx T W) (i : ℕ) (f : Flow)
      → CollisionFree vpp K
      → K (flow_key_reverse f.key)
      → Binds K
          (view vpp wrk).entries
          (view vpp (add_reverse vpp wrk i f)).entries
          (flow_key_reverse f.key)
          (entry_ref i dir_out)
  unfolding add_reverse
  add_reverse-Binds wrk i f free kk =
      hash_set-Binds vpp K wrk.flows_hash_table (flow_key_reverse f.key) (entry_ref i dir_out) free
        kk

  -- Every packet that goes out, in a context that satisfies the invariant, with any flow index in its
  -- buffer, does to the connections what the tracker says: the first packet of a connection makes it
  -- known by the reversed key, and every other packet does nothing.
  pub ip4_output_process-Leaves :
      (wrk : WrkCtx T W) (b : Buffer)
      → CollisionFree vpp K
      → IsValidCtx vpp wrk
      → ((f : Flow) → wrk.flows b.flow_index ≡ some f → K (flow_key_reverse f.key))
      → Leaves K b.flow_index (view vpp wrk) (view vpp (ip4_output_process vpp wrk b).1)
  unfolding ip4_output_process
  ip4_output_process-Leaves wrk b free v kk = elim (Option-cases (vlib_buffer_get_flow wrk b)) [
    | inl null ↦
        rw (null, ip4_output_process) (stops (ap conn_at (get_flow-none wrk b v null)) refl)
    | inr (f, got) ↦
        (let found = get_flow-flows vpp wrk b f got in
          elim (Option-cases f.entry_out.flow) [
            | inl new ↦
                rw (got, new, ip4_output_process)
                  (answers (conn_of f) (ap conn_at found) (ap is_set new)
                    (add_reverse-Puts wrk b.flow_index f)
                    (add_reverse-Binds wrk b.flow_index f free (kk f found)))
            | inr (i, old) ↦
                rw (got, old, ip4_output_process)
                  (passes (conn_of f) (ap conn_at found) (ap is_set old) refl)
          ])
  ]
