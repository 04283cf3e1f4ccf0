-- ===== src/Ip4/First.antt =====
-- The first packet of a conversation at the hooks of flow_table/core/ip4_process.c: it comes in and,
-- later, goes out.
use vpp_plugins.Ip4.All.{opened_by}
use vpp_plugins.Ip4.Arrive.{packet_key, found_entry, input-new, new_flow-some, fresh_flow}
use vpp_plugins.Ip4.Change.{with_opened, opened-IsValid}
use vpp_plugins.Ip4.Input.{IsValidCtx, entry_ref, Touched-IsValid}
use vpp_plugins.Ip4.Process.{ip4_input_process, ip4_output_process, accept, first_flow, add_reverse}
use vpp_plugins.Protocol.Effects.{vlib_buffer_get_flow-found, update_written}
use vpp_plugins.Protocol.Tcp.{init_state}
use vpp_plugins.Buffer.Defs.{Buffer, vlib_buffer_set_flow, vlib_buffer_get_flow}
use vpp_plugins.Buffer.Parse.{ip4_protocol}
use vpp_plugins.Protocol.Handlers.{Handlers, Handler, protocol_handler_get}
use vpp_plugins.Tcp.Types.{dir_in, dir_out}
use vpp_plugins.Flow.Types.{Flow, FlowKey, unset32}
use vpp_plugins.Flow.Defs.{WrkCtx, flow_table_hash, flow_key_reverse}
use vpp_plugins.Flow.Vpp.{Vpp}
use vpp_plugins.Base.{ℕ, ◌≡◌, ◌==◌, ◌<◌, false, none, some, arith, ◌∙◌, refl}

pub first_flow-links :
    (i : ℕ) (b : Buffer) (key : FlowKey)
    → let f = first_flow i (fresh_flow i) b key in (f.key ≡ key) × (f.entry_out.flow ≡ none)
unfolding first_flow
first_flow-links i b key = ground arith

module _ {T W : Type 0} (vpp : Vpp T W) (handlers : Handlers) where
  -- A packet with a new key has come in: its flow is in the element `i`, its second entry not in use.
  pub record CameIn (wrk : WrkCtx T W) (h : Handler) (b : Buffer) (i : ℕ) : Type 0 where
    pub after : WrkCtx T W
    pub eq : ip4_input_process vpp handlers wrk b ≡ some (accept, after, vlib_buffer_set_flow b i)
    pub ran :
        init_state vpp h (with_opened vpp wrk i h b) (vlib_buffer_set_flow b i) dir_in ≡ some after
    pub valid : IsValidCtx vpp after
    pub flow : Flow
    pub found : after.flows i ≡ some flow
    pub key : flow.key ≡ packet_key h b
    pub no_reverse : flow.entry_out.flow ≡ none
    pub others : (j : ℕ) → (i == j) ≡ false → after.flows j ≡ wrk.flows j
    pub table :
        after.flows_hash_table
        ≡ vpp.hash_set wrk.flows_hash_table
            (flow_table_hash vpp (packet_key h b))
            (entry_ref i dir_in)

  pub came_in :
      (wrk : WrkCtx T W) (h : Handler) (b : Buffer) (i : ℕ)
      → protocol_handler_get handlers (ip4_protocol b) ≡ some h
      → found_entry vpp wrk h b ≡ none
      → vpp.pool_get wrk.flows ≡ some i
      → IsValidCtx vpp wrk
      → CameIn wrk h b i
  came_in wrk h b i eh new slot v =
      let key = packet_key h b in
      let (after, eq, ran, t) = new_flow-some vpp wrk h b key (flow_table_hash vpp key) i slot in
      let links = first_flow-links i b key in
      record {
        after = after;
        eq = input-new vpp handlers wrk b h eh new ∙ eq;
        ran = ran;
        valid =
            Touched-IsValid vpp (with_opened vpp wrk i h b) after i (opened_by i h b)
              (opened-IsValid vpp wrk i h b slot v) (update_written wrk.flows i (opened_by i h b))
              t;
        flow = t.after;
        found = t.written;
        key = t.path.key ∙ links.0;
        no_reverse = t.path.entry_out.flow ∙ links.1;
        others = λ j ne. t.others j ne ∙ rw ne refl;
        table = t.table;
      }

  output-reverse :
      (wrk : WrkCtx T W) (b : Buffer) (f : Flow)
      → vlib_buffer_get_flow wrk b ≡ some f
      → f.entry_out.flow ≡ none
      → ip4_output_process vpp wrk b ≡ (accept, add_reverse vpp wrk b.flow_index f, b)
  unfolding ip4_output_process
  output-reverse wrk b f found new = simp (found, new, ip4_output_process)

  pub reverse-table :
      (wrk : WrkCtx T W) (i : ℕ) (f : Flow)
      → (add_reverse vpp wrk i f).flows_hash_table
        ≡ vpp.hash_set wrk.flows_hash_table
            (flow_table_hash vpp (flow_key_reverse f.key))
            (entry_ref i dir_out)
  unfolding add_reverse
  reverse-table wrk i f = refl

  -- A packet of a flow whose second entry is not in use goes out.
  pub goes_out :
      (wrk : WrkCtx T W) (b : Buffer) (i : ℕ) (f : Flow)
      → i < unset32
      → wrk.flows i ≡ some f
      → f.entry_out.flow ≡ none
      → ip4_output_process vpp wrk (vlib_buffer_set_flow b i)
        ≡ (accept, add_reverse vpp wrk i f, vlib_buffer_set_flow b i)
  unfolding vlib_buffer_set_flow
  goes_out wrk b i f lt found new =
      let b' = vlib_buffer_set_flow b i in
      output-reverse wrk b' f (vlib_buffer_get_flow-found wrk b' f lt found) new

  pub add_reverse-others :
      (wrk : WrkCtx T W) (i j : ℕ) (f : Flow)
      → (i == j) ≡ false
      → (add_reverse vpp wrk i f).flows j ≡ wrk.flows j
  unfolding add_reverse
  add_reverse-others wrk i j f ne = rw ne refl
