-- ===== src/Ip4/Crossed.antt =====
-- Two packets of one conversation, one each way, of which both have come in at
-- `ip4_input_process` of flow_table/core/ip4_process.c before the first goes out.
use vpp_plugins.Ip4.Change.{add_reverse-IsValid}
use vpp_plugins.Ip4.Arrive.{packet_key, found_entry}
use vpp_plugins.Ip4.Mirror.{reverse_twice}
use vpp_plugins.Ip4.First.{CameIn, came_in, goes_out, reverse-table, add_reverse-others}
use vpp_plugins.Ip4.Input.{entry_ref, IsValidCtx}
use vpp_plugins.Ip4.Process.{ip4_input_process, accept, add_reverse, ip4_output_process}
use vpp_plugins.Ip4.Reply.{First, NoCollision, KnownIn, known-in, lookup, set_before, set_last}
use vpp_plugins.Buffer.Defs.{Buffer, vlib_buffer_set_flow}
use vpp_plugins.Buffer.Parse.{ip4_protocol}
use vpp_plugins.Protocol.Handlers.{Handlers, Handler, protocol_handler_get}
use vpp_plugins.Tcp.Types.{dir_in, dir_out}
use vpp_plugins.Flow.Types.{unset32, EntryRef}
use vpp_plugins.Flow.Defs.{WrkCtx, flow_table_hash, flow_key_reverse}
use vpp_plugins.Flow.Vpp.{Vpp}
use vpp_plugins.Base.{
  ℕ, ◌≡◌, ◌==◌, false, none, some, ◌∙◌, refl, ◌<◌, Bool-cases, inl, ==_iff, inr, arith, ap,
}

different_sym : (a b : ℕ) → (a == b) ≡ false → (b == a) ≡ false
different_sym a b h = ground arith

module _ {T W : Type 0} (vpp : Vpp T W) (handlers : Handlers) where
  -- The packet `b` of a new conversation, and the packet `r` the other way, whose key has no entry
  -- either and another hash: the pool has the element `i` for the first and then `j` for the second.
  pub record BothWays (wrk : WrkCtx T W) (h : Handler) (b r : Buffer) (i j : ℕ) : Type 0 where
    pub first : CameIn vpp handlers wrk h b i
    pub second : CameIn vpp handlers first.after h r j
    pub first_lt : i < unset32
    pub second_lt : j < unset32
    pub apart : (i == j) ≡ false

  other_key :
      (t u : T) (k k' : ℕ) (ref : EntryRef)
      → t ≡ vpp.hash_set u k ref
      → (k == k') ≡ false
      → vpp.hash_get t k' ≡ vpp.hash_get u k'
  other_key t u k k' ref e ne = rw (e, vpp.hash_get-set u k ref k', ne) refl

  both_ways :
      (wrk : WrkCtx T W) (h : Handler) (b r : Buffer) (i j : ℕ)
      → First vpp handlers wrk h b i
      → protocol_handler_get handlers (ip4_protocol r) ≡ some h
      → packet_key h r ≡ flow_key_reverse (packet_key h b)
      → found_entry vpp wrk h r ≡ none
      → NoCollision vpp handlers h b
      → ((inside : WrkCtx T W)
          → ip4_input_process vpp handlers wrk b ≡ some (accept, inside, vlib_buffer_set_flow b i)
          → vpp.pool_get inside.flows ≡ some j)
      → BothWays wrk h b r i j
  both_ways wrk h b r i j o eh key new apart slot =
      let one = came_in vpp handlers wrk h b i o.handler o.new o.slot o.valid in
      let slot_j = slot one.after one.eq in
      let free = vpp.pool_get-free one.after.flows j slot_j in
      let k = flow_table_hash vpp (packet_key h b) in
      let kr = flow_table_hash vpp (packet_key h r) in
      let ne : (k == kr) ≡ false = different_sym kr k (rw key apart) in
      let new' : found_entry vpp one.after h r ≡ none =
        other_key one.after.flows_hash_table wrk.flows_hash_table k kr (entry_ref i dir_in)
          one.table ne
        ∙ new in
      record {
        first = one;
        second = came_in vpp handlers one.after h r j eh new' slot_j one.valid;
        first_lt = vpp.pool_get-lt wrk.flows i o.slot;
        second_lt = vpp.pool_get-lt one.after.flows j slot_j;
        apart = elim (Bool-cases (i == j)) [
          | inl same ↦ absurd (cc (free, one.found, (==_iff i j).0 same))
          | inr other ↦ other
        ];
      }

  -- What is left when both have gone out, in the order in which they came in.
  pub record Crossed (wrk : WrkCtx T W) (h : Handler) (b r : Buffer) (i j : ℕ) : Type 0 where
    pub inside : WrkCtx T W
    pub between : WrkCtx T W
    pub outside : WrkCtx T W
    pub came : BothWays wrk h b r i j
    pub inside_eq : inside ≡ came.second.after
    pub first_out :
        ip4_output_process vpp inside (vlib_buffer_set_flow b i)
        ≡ (accept, between, vlib_buffer_set_flow b i)
    pub second_out :
        ip4_output_process vpp between (vlib_buffer_set_flow r j)
        ≡ (accept, outside, vlib_buffer_set_flow r j)
    pub valid : IsValidCtx vpp outside
    pub table :
        (t : T) × (outside.flows_hash_table
          ≡ vpp.hash_set
              (vpp.hash_set t
                (flow_table_hash vpp (flow_key_reverse (packet_key h b)))
                (entry_ref i dir_out))
              (flow_table_hash vpp (packet_key h b))
              (entry_ref j dir_out))

  BothWays-Crossed :
      (wrk : WrkCtx T W) (h : Handler) (b r : Buffer) (i j : ℕ)
      → packet_key h r ≡ flow_key_reverse (packet_key h b)
      → BothWays wrk h b r i j
      → Crossed wrk h b r i j
  BothWays-Crossed wrk h b r i j key both =
      let one = both.first in
      let two = both.second in
      let inside = two.after in
      let found1 = two.others i (different_sym i j both.apart) ∙ one.found in
      let between = add_reverse vpp inside i one.flow in
      let found2 = add_reverse-others vpp handlers inside i j one.flow both.apart ∙ two.found in
      let outside = add_reverse vpp between j two.flow in
      let back : flow_key_reverse two.flow.key ≡ packet_key h b =
        ap flow_key_reverse (two.key ∙ key) ∙ reverse_twice (packet_key h b) in
      record {
        inside = inside;
        between = between;
        outside = outside;
        came = both;
        inside_eq = refl;
        first_out = goes_out vpp handlers inside b i one.flow both.first_lt found1 one.no_reverse;
        second_out =
            goes_out vpp handlers between r j two.flow both.second_lt found2 two.no_reverse;
        valid =
            add_reverse-IsValid vpp between j two.flow
              (add_reverse-IsValid vpp inside i one.flow two.valid found1) found2;
        table = (
          inside.flows_hash_table,
          reverse-table vpp handlers between j two.flow
              ∙ rw (reverse-table vpp handlers inside i one.flow, back, one.key) refl,
        );
      }

  -- Two packets `b` and `r` open a conversation from both ends: the key of `r` is the reverse of that of
  -- `b`, neither key has an entry, their hashes are different, the pool has the element `i` for the first
  -- and `j` for the second, and both come in before the first goes out. All are accepted, and each
  -- direction is then tracked by the flow that the other one made: a later packet `c` with the key of `b`
  -- is accepted for the flow that `r` made, and a packet `d` with the key of `r` for the flow that `b`
  -- made, both in the direction OUT.
  pub both_ways-KnownIn :
      (wrk : WrkCtx T W) (h : Handler) (b r c d : Buffer) (i j : ℕ)
      → First vpp handlers wrk h b i
      → protocol_handler_get handlers (ip4_protocol r) ≡ some h
      → packet_key h r ≡ flow_key_reverse (packet_key h b)
      → found_entry vpp wrk h r ≡ none
      → NoCollision vpp handlers h b
      → ((inside : WrkCtx T W)
          → ip4_input_process vpp handlers wrk b ≡ some (accept, inside, vlib_buffer_set_flow b i)
          → vpp.pool_get inside.flows ≡ some j)
      → protocol_handler_get handlers (ip4_protocol c) ≡ some h
      → packet_key h c ≡ packet_key h b
      → protocol_handler_get handlers (ip4_protocol d) ≡ some h
      → packet_key h d ≡ packet_key h r
      → (x : Crossed wrk h b r i j) × KnownIn vpp handlers x.outside h c j dir_out
        × KnownIn vpp handlers x.outside h d i dir_out
  both_ways-KnownIn wrk h b r c d i j o eh key new apart slot ec same ed same_r =
      let x =
        BothWays-Crossed wrk h b r i j key (both_ways wrk h b r i j o eh key new apart slot) in
      let (t, e) = x.table in
      let k = flow_table_hash vpp (packet_key h b) in
      let kr = flow_table_hash vpp (flow_key_reverse (packet_key h b)) in
      let u = entry_ref i dir_out in
      let v = entry_ref j dir_out in
      (
        x,
        known-in vpp handlers x.outside h c j dir_out x.valid ec (
            lookup vpp handlers x.outside _ (packet_key h c) (packet_key h b) v e same
              (set_last vpp handlers t kr k u v)),
        known-in vpp handlers x.outside h d i dir_out x.valid ed (
            lookup vpp handlers x.outside _ (packet_key h d) (flow_key_reverse (packet_key h b)) u e
              (same_r ∙ key) (set_before vpp handlers t kr k u v (different_sym kr k apart))),
      )
