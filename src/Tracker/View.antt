-- ===== src/Tracker/View.antt =====
-- The tracker that a worker of flow_table/core stands for.
use Prim.Native.Nat.{bit_and}
use vpp_plugins.Buffer.Parse.{tcp_flags}
use vpp_plugins.Tcp.Flags.{packet_event, tcp_flag_concerned, tcp_flag_syn}
use vpp_plugins.Ip4.Arrive.{packet_key}
use vpp_plugins.Tcp.Types.{FlowDir}
use vpp_plugins.Buffer.Defs.{Buffer}
use vpp_plugins.Flow.Defs.{WrkCtx, flow_table_hash}
use vpp_plugins.Tracker.Spec.{Conn, Tracker, Packet, Binds, advance}
use vpp_plugins.Flow.Vpp.{Vpp}
use vpp_plugins.Protocol.Handlers.{Handler}
use vpp_plugins.Flow.Types.{Flow, FlowKey, EntryRef}
use vpp_plugins.Base.{
  arith, Option, some, none, Bool, ◌≡◌, Bool-cases, ◌==◌, ℕ, inl, sym, false, ==_iff, inr, ◌∙◌,
  true, refl,
}

abbrev pub is_set : Option ℕ → Bool
is_set none = false
is_set (some i) = true

abbrev pub conn_of : Flow → Conn
conn_of f = record {
  key = f.key;
  state = f.state;
  from_syn = f.three_way_handshake;
  answered = is_set f.entry_out.flow;
}

abbrev pub conn_at : Option Flow → Option Conn
conn_at none = none
conn_at (some f) = some (conn_of f)

-- What the tracker reads of a buffer.
abbrev pub packet_of : Handler → Buffer → Packet
packet_of h b = record {
  handler = h;
  key = packet_key h b;
  event = packet_event (tcp_flags b);
  syn_alone = bit_and (tcp_flags b) tcp_flag_concerned == tcp_flag_syn;
}

module _ {T W : Type 0} (vpp : Vpp T W) where
  abbrev pub view : WrkCtx T W → Tracker
  view wrk = record {
    entries = λ k. vpp.hash_get wrk.flows_hash_table (flow_table_hash vpp k);
    conns = λ i. conn_at (wrk.flows i);
    place = vpp.pool_get wrk.flows;
  }

  -- No two keys in `K` have the same hash.
  abbrev pub CollisionFree : (FlowKey → Type 0) → Type 0
  CollisionFree K =
      (k j : FlowKey) → K k → K j → flow_table_hash vpp k ≡ flow_table_hash vpp j → k ≡ j

  -- Setting the hash of a key binds that key alone.
  pub hash_set-Binds :
      (K : FlowKey → Type 0) (t : T) (k : FlowKey) (ref : EntryRef)
      → CollisionFree K
      → K k
      → Binds K
          (λ j. vpp.hash_get t (flow_table_hash vpp j))
          (λ j. vpp.hash_get (vpp.hash_set t (flow_table_hash vpp k) ref) (flow_table_hash vpp j))
          k
          ref
  hash_set-Binds K t k ref free kk = record {
    bound = ground (arith, vpp.hash_get-set t (flow_table_hash vpp k) ref (flow_table_hash vpp k));
    each = λ j kj. elim (Bool-cases (flow_table_hash vpp k == flow_table_hash vpp j)) [
      | inl same ↦ inl (sym (free k j kk kj ((==_iff _ _).0 same)))
      | inr other ↦
          inr
            (vpp.hash_get-set t (flow_table_hash vpp k) ref (flow_table_hash vpp j) ∙ rw other refl)
    ];
  }

  -- What a handler does to the connection of a buffer's flow.
  pub record Advanced (h : Handler) (wrk : WrkCtx T W) (b : Buffer) (d : FlowDir) (f : Flow)
      (from_syn : Bool) (wrk' : WrkCtx T W) : Type 0 where
    pub after : Flow
    pub written : wrk'.flows b.flow_index ≡ some after
    pub key : after.key ≡ f.key
    pub out_flow : after.entry_out.flow ≡ f.entry_out.flow
    pub state : after.state ≡ advance h f.state (packet_event (tcp_flags b)) d
    pub three_way_handshake : after.three_way_handshake ≡ from_syn
    pub others : (j : ℕ) → (b.flow_index == j) ≡ false → wrk'.flows j ≡ wrk.flows j
    pub table : wrk'.flows_hash_table ≡ wrk.flows_hash_table
