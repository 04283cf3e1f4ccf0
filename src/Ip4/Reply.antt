-- ===== src/Ip4/Reply.antt =====
-- A conversation through flow_table/core/ip4_process.c: the first packet of a flow comes in and goes
-- out, and a packet the other way comes in.
use vpp_plugins.Protocol.Tcp.{update_state, init_state}
use vpp_plugins.Ip4.First.{came_in, goes_out, reverse-table}
use vpp_plugins.Ip4.Change.{add_reverse-IsValid}
use vpp_plugins.Tcp.Types.{dir_in, dir_out, FlowDir}
use vpp_plugins.Ip4.Input.{entry_ref, IsValidCtx, known_flow-accept}
use vpp_plugins.Buffer.Parse.{ip4_protocol}
use vpp_plugins.Ip4.Arrive.{packet_key, fresh_flow, found_entry, with_flow, input-known}
use vpp_plugins.Flow.Types.{FlowKey, Flow, EntryRef}
use vpp_plugins.Flow.Defs.{WrkCtx, flow_table_hash, flow_key_reverse}
use vpp_plugins.Buffer.Defs.{Buffer, vlib_buffer_set_flow}
use vpp_plugins.Protocol.Handlers.{Handlers, Handler, protocol_handler_get}
use vpp_plugins.Flow.Vpp.{Vpp}
use vpp_plugins.Ip4.Process.{first_flow, ip4_output_process, add_reverse, ip4_input_process, accept}
use vpp_plugins.Base.{arith, ℕ, ◌≡◌, none, some, ◌∙◌, ◌==◌, false, refl}

module _ {T W : Type 0} (vpp : Vpp T W) (handlers : Handlers) where
  -- The first packet of a flow, in a context that satisfies the invariant: its key is new and the
  -- pool has the slot `i` for it.
  pub record First (wrk : WrkCtx T W) (h : Handler) (b : Buffer) (i : ℕ) : Type 0 where
    pub handler : protocol_handler_get handlers (ip4_protocol b) ≡ some h
    pub new : found_entry vpp wrk h b ≡ none
    pub slot : vpp.pool_get wrk.flows ≡ some i
    pub valid : IsValidCtx vpp wrk

  -- What the first packet leaves when it has come in and gone out.
  pub record Opened (wrk : WrkCtx T W) (h : Handler) (b : Buffer) (i : ℕ) : Type 0 where
    pub inside : WrkCtx T W
    pub came_in :
        ip4_input_process vpp handlers wrk b ≡ some (accept, inside, vlib_buffer_set_flow b i)
    pub ran :
        init_state vpp h
          (with_flow vpp wrk i
            (first_flow i (fresh_flow i) b (packet_key h b))
            (flow_table_hash vpp (packet_key h b)))
          (vlib_buffer_set_flow b i)
          dir_in
        ≡ some inside
    pub first : Flow
    pub inside_first : inside.flows i ≡ some first
    pub outside : WrkCtx T W
    pub outside_eq : outside ≡ add_reverse vpp inside i first
    pub went_out :
        ip4_output_process vpp inside (vlib_buffer_set_flow b i)
        ≡ (accept, outside, vlib_buffer_set_flow b i)
    pub table :
        outside.flows_hash_table
        ≡ vpp.hash_set
            (vpp.hash_set wrk.flows_hash_table
              (flow_table_hash vpp (packet_key h b))
              (entry_ref i dir_in))
            (flow_table_hash vpp (flow_key_reverse (packet_key h b)))
            (entry_ref i dir_out)
    pub valid : IsValidCtx vpp outside

  -- The first packet of a flow comes in and goes out: it is accepted twice, its buffer has the slot
  -- of the pool, and the hash table then maps its key's hash to the slot's first entry and, set
  -- later, its reversed key's hash to the slot's second entry.
  pub First-Opened :
      (wrk : WrkCtx T W) (h : Handler) (b : Buffer) (i : ℕ) → First wrk h b i → Opened wrk h b i
  unfolding vlib_buffer_set_flow
  First-Opened wrk h b i o =
      let c = came_in vpp handlers wrk h b i o.handler o.new o.slot o.valid in
      let lt = vpp.pool_get-lt wrk.flows i o.slot in
      record {
        inside = c.after;
        came_in = c.eq;
        ran = c.ran;
        first = c.flow;
        inside_first = c.found;
        outside = add_reverse vpp c.after i c.flow;
        outside_eq = refl;
        went_out = goes_out vpp handlers c.after b i c.flow lt c.found c.no_reverse;
        table = reverse-table vpp handlers c.after i c.flow ∙ rw (c.table, c.key) refl;
        valid = add_reverse-IsValid vpp c.after i c.flow c.valid c.found;
      }

  -- The packet's hash and its reversed key's hash are different.
  abbrev pub NoCollision : Handler → Buffer → Type 0
  NoCollision h b =
      (flow_table_hash vpp (flow_key_reverse (packet_key h b))
        == flow_table_hash vpp (packet_key h b))
      ≡ false

  pub set_last :
      (t : T) (k j : ℕ) (u v : EntryRef)
      → vpp.hash_get (vpp.hash_set (vpp.hash_set t k u) j v) j ≡ some v
  set_last t k j u v = ground (arith, vpp.hash_get-set (vpp.hash_set t k u) j v j)

  pub set_before :
      (t : T) (k j : ℕ) (u v : EntryRef)
      → (j == k) ≡ false
      → vpp.hash_get (vpp.hash_set (vpp.hash_set t k u) j v) k ≡ some u
  set_before t k j u v h =
      ground (arith, vpp.hash_get-set (vpp.hash_set t k u) j v k, vpp.hash_get-set t k u k)

  pub lookup :
      (wrk : WrkCtx T W) (t : T) (k k' : FlowKey) (ref : EntryRef)
      → wrk.flows_hash_table ≡ t
      → k ≡ k'
      → vpp.hash_get t (flow_table_hash vpp k') ≡ some ref
      → vpp.hash_get wrk.flows_hash_table (flow_table_hash vpp k) ≡ some ref
  lookup wrk t k k' ref e ek h = cc (e, ek, h)

  -- An entry of the conversation is known: the packet is accepted, its buffer has the slot, and the
  -- handler's `update_state` runs on it in the entry's direction.
  abbrev pub KnownIn : WrkCtx T W → Handler → Buffer → ℕ → FlowDir → Type 0
  KnownIn wrk h r i d =
      (wrk' : WrkCtx T W) × (ip4_input_process vpp handlers wrk r
        ≡ some (accept, wrk', vlib_buffer_set_flow r i))
      × (update_state vpp h wrk (vlib_buffer_set_flow r i) d ≡ some wrk')

  pub known-in :
      (wrk : WrkCtx T W) (h : Handler) (r : Buffer) (i : ℕ) (d : FlowDir)
      → IsValidCtx vpp wrk
      → protocol_handler_get handlers (ip4_protocol r) ≡ some h
      → found_entry vpp wrk h r ≡ some (entry_ref i d)
      → KnownIn wrk h r i d
  known-in wrk h r i d v eh e =
      let ok = v.table_ok _ (entry_ref i d) e in
      let lt = (v.flows_ok i ok.target ok.found).index_lt in
      let (wrk', eq, ran, t) = known_flow-accept vpp wrk h r (entry_ref i d) ok lt in
      (wrk', input-known vpp handlers wrk r h (entry_ref i d) eh e ∙ eq, ran)

  -- After the first packet of a flow came in and went out, a reply, whose key is the reverse of the
  -- first packet's, is accepted for the same slot, in the direction OUT.
  reply-known :
      (wrk : WrkCtx T W) (h : Handler) (b r : Buffer) (i : ℕ) (o : Opened wrk h b i)
      → protocol_handler_get handlers (ip4_protocol r) ≡ some h
      → packet_key h r ≡ flow_key_reverse (packet_key h b)
      → KnownIn o.outside h r i dir_out
  reply-known wrk h b r i o eh e = known-in o.outside h r i dir_out o.valid eh (
      lookup o.outside _ (packet_key h r) (flow_key_reverse (packet_key h b)) (entry_ref i dir_out)
        o.table e (set_last wrk.flows_hash_table _ _ (entry_ref i dir_in) (entry_ref i dir_out)))

  -- A later packet with the first packet's own key is accepted for the same slot, in the direction
  -- IN, if the hashes of the key and of its reverse are different.
  again-known :
      (wrk : WrkCtx T W) (h : Handler) (b r : Buffer) (i : ℕ) (o : Opened wrk h b i)
      → NoCollision h b
      → protocol_handler_get handlers (ip4_protocol r) ≡ some h
      → packet_key h r ≡ packet_key h b
      → KnownIn o.outside h r i dir_in
  again-known wrk h b r i o apart eh e = known-in o.outside h r i dir_in o.valid eh (
      lookup o.outside _ (packet_key h r) (packet_key h b) (entry_ref i dir_in) o.table e
        (set_before wrk.flows_hash_table _ _ (entry_ref i dir_in) (entry_ref i dir_out) apart))

  -- In a context that satisfies the invariant, the first packet of a flow comes in and goes out, both
  -- times accepted, with its buffer on the slot that the pool gave; then a reply, a packet whose key is
  -- the reverse of the first packet's, is accepted for the same slot in the direction OUT.
  pub reply-KnownIn :
      (wrk : WrkCtx T W) (h : Handler) (b r : Buffer) (i : ℕ)
      → First wrk h b i
      → protocol_handler_get handlers (ip4_protocol r) ≡ some h
      → packet_key h r ≡ flow_key_reverse (packet_key h b)
      → (o : Opened wrk h b i) × KnownIn o.outside h r i dir_out
  reply-KnownIn wrk h b r i first eh e =
      let o = First-Opened wrk h b i first in (o, reply-known wrk h b r i o eh e)

  -- In a context that satisfies the invariant, the first packet of a flow comes in and goes out, both
  -- times accepted, with its buffer on the slot that the pool gave; then a later packet with the first
  -- packet's own key is accepted for the same slot in the direction IN, if the hashes of the key and of
  -- its reverse are different.
  pub again-KnownIn :
      (wrk : WrkCtx T W) (h : Handler) (b r : Buffer) (i : ℕ)
      → First wrk h b i
      → NoCollision h b
      → protocol_handler_get handlers (ip4_protocol r) ≡ some h
      → packet_key h r ≡ packet_key h b
      → (o : Opened wrk h b i) × KnownIn o.outside h r i dir_in
  again-KnownIn wrk h b r i first apart eh e =
      let o = First-Opened wrk h b i first in (o, again-known wrk h b r i o apart eh e)
