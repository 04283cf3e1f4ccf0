-- ===== src/Ip4/Shared.antt =====
-- Two packets whose keys have one hash, at `ip4_input_process` of flow_table/core/ip4_process.c.
use vpp_plugins.Ip4.First.{CameIn, came_in}
use vpp_plugins.Ip4.Reply.{First, KnownIn, known-in}
use vpp_plugins.Ip4.Arrive.{packet_key, found_entry}
use vpp_plugins.Ip4.Input.{entry_ref}
use vpp_plugins.Buffer.Defs.{Buffer}
use vpp_plugins.Buffer.Parse.{ip4_protocol}
use vpp_plugins.Protocol.Handlers.{Handlers, Handler, protocol_handler_get}
use vpp_plugins.Tcp.Types.{dir_in}
use vpp_plugins.Flow.Types.{EntryRef}
use vpp_plugins.Flow.Defs.{WrkCtx, flow_table_hash}
use vpp_plugins.Flow.Vpp.{Vpp}
use vpp_plugins.Base.{ℕ, ◌≡◌, some, arith, ◌∙◌, ap}

module _ {T W : Type 0} (vpp : Vpp T W) (handlers : Handlers) where
  get_set : (t : T) (k : ℕ) (ref : EntryRef) → vpp.hash_get (vpp.hash_set t k ref) k ≡ some ref
  get_set t k ref = ground (arith, vpp.hash_get-set t k ref k)

  -- In a context that satisfies the invariant, the first packet `b` of a conversation comes in and takes
  -- the element `i` of the pool; then a packet `c` of the same handler, whatever its addresses and ports
  -- are, is accepted for the same flow in the direction IN if its key has the same hash.
  pub came_in-KnownIn :
      (wrk : WrkCtx T W) (h : Handler) (b c : Buffer) (i : ℕ)
      → First vpp handlers wrk h b i
      → protocol_handler_get handlers (ip4_protocol c) ≡ some h
      → flow_table_hash vpp (packet_key h c) ≡ flow_table_hash vpp (packet_key h b)
      → (x : CameIn vpp handlers wrk h b i) × KnownIn vpp handlers x.after h c i dir_in
  came_in-KnownIn wrk h b c i o ec same =
      let x = came_in vpp handlers wrk h b i o.handler o.new o.slot o.valid in
      let found : found_entry vpp x.after h c ≡ some (entry_ref i dir_in) =
        ap (λ k. vpp.hash_get x.after.flows_hash_table k) same
        ∙ ap (λ t. vpp.hash_get t (flow_table_hash vpp (packet_key h b))) x.table
        ∙ get_set wrk.flows_hash_table (flow_table_hash vpp (packet_key h b))
            (entry_ref i dir_in) in
      (x, known-in vpp handlers x.after h c i dir_in x.valid ec found)
