-- ===== src/Ip4/Indexed.antt =====
-- What the hash table of a worker of flow_table/core leads to: for the hash of a key, an entry that
-- is for a key with this hash.
use vpp_plugins.Buffer.Defs.{Buffer}
use vpp_plugins.Protocol.Effects.{update_written}
use vpp_plugins.Protocol.Handlers.{Handler}
use vpp_plugins.Ip4.Mirror.{entry_key}
use vpp_plugins.Ip4.All.{opened_by, answered_flow}
use vpp_plugins.Ip4.Change.{Change, Change-Keeps, stays, moves, opens, answers}
use vpp_plugins.Ip4.Keeps.{Keeps}
use vpp_plugins.Ip4.Arrive.{packet_key}
use vpp_plugins.Ip4.Input.{entry_ref}
use vpp_plugins.Ip4.Process.{add_reverse, first_flow}
use vpp_plugins.Tcp.Types.{FlowDir, dir_in, dir_out}
use vpp_plugins.Flow.Types.{Flow, EntryRef, FlowKey}
use vpp_plugins.Flow.Defs.{WrkCtx, flow_table_hash, flow_table_update_flow, flow_key_reverse}
use vpp_plugins.Flow.Vpp.{Vpp}
use vpp_plugins.Ip4.Reach.{Reach, IsInitial, here, next, Step-Change, Reach-IsValid}
use vpp_plugins.Base.{
  ℕ, ◌≡◌, ◌==◌, ==_iff, some, Bool-cases, some_injective, inl, inr, refl, ap, ◌∙◌, arith,
}

pub same_key : (f g : Flow) (d : FlowDir) → g.key ≡ f.key → entry_key g d ≡ entry_key f d
same_key f g dir_in e = e
same_key f g dir_out e = ap flow_key_reverse e

pub opened_by-key : (i : ℕ) (h : Handler) (b : Buffer) → (opened_by i h b).key ≡ packet_key h b
unfolding first_flow flow_table_update_flow
opened_by-key i h b = ground arith

module _ {T W : Type 0} (vpp : Vpp T W) where
  -- The entry that `ref` points to is for a key with the hash `k`.
  pub record RefFor (wrk : WrkCtx T W) (k : ℕ) (ref : EntryRef) : Type 0 where
    pub flow : Flow
    pub found : wrk.flows ref.index ≡ some flow
    pub hash : flow_table_hash vpp (entry_key flow ref.dir) ≡ k

  abbrev pub Indexed : WrkCtx T W → Type 0
  Indexed wrk =
      (k : ℕ) (ref : EntryRef) → vpp.hash_get wrk.flows_hash_table k ≡ some ref → RefFor wrk k ref

  Keeps-RefFor :
      (wrk wrk' : WrkCtx T W) (k : ℕ) (ref : EntryRef)
      → Keeps wrk wrk'
      → RefFor wrk k ref
      → RefFor wrk' k ref
  Keeps-RefFor wrk wrk' k ref keeps r =
      let (g, at, e) = keeps ref.index r.flow r.found in
      record {
        flow = g;
        found = at;
        hash = ap (flow_table_hash vpp) (same_key r.flow g ref.dir e) ∙ r.hash;
      }

  Keeps-Indexed :
      (wrk wrk' : WrkCtx T W)
      → Keeps wrk wrk'
      → wrk'.flows_hash_table ≡ wrk.flows_hash_table
      → Indexed wrk
      → Indexed wrk'
  Keeps-Indexed wrk wrk' keeps same indexed k ref e =
      Keeps-RefFor wrk wrk' k ref keeps (indexed k ref (rw same at e))

  -- One more key of the table, for an entry of the flow `f`.
  set-Indexed :
      (wrk wrk' : WrkCtx T W) (i : ℕ) (f : Flow) (d : FlowDir) (key : FlowKey)
      → Keeps wrk wrk'
      → wrk'.flows i ≡ some f
      → entry_key f d ≡ key
      → wrk'.flows_hash_table
        ≡ vpp.hash_set wrk.flows_hash_table (flow_table_hash vpp key) (entry_ref i d)
      → Indexed wrk
      → Indexed wrk'
  set-Indexed wrk wrk' i f d key keeps found e table indexed k ref h =
      let hash_key = flow_table_hash vpp key in
      let get = rw (table, vpp.hash_get-set wrk.flows_hash_table hash_key (entry_ref i d) k) at h in
      elim (Bool-cases (hash_key == k)) [
        | inl same ↦
            (let at : entry_ref i d ≡ ref = some_injective (rw same at get) in
              rw (← at) (record {
                flow = f;
                found = found;
                hash = ap (flow_table_hash vpp) e ∙ (==_iff hash_key k).0 same;
              }))
        | inr other ↦ Keeps-RefFor wrk wrk' k ref keeps (indexed k ref (rw other at get))
      ]

  answered-table :
      (wrk : WrkCtx T W) (i : ℕ) (f : Flow)
      → let after = add_reverse vpp wrk i f in
        (after.flows i ≡ some (answered_flow i f))
        × (after.flows_hash_table
            ≡ vpp.hash_set wrk.flows_hash_table
                (flow_table_hash vpp (flow_key_reverse f.key))
                (entry_ref i dir_out))
  unfolding add_reverse
  answered-table wrk i f = (update_written wrk.flows i (answered_flow i f), refl)

  kept-Indexed :
      {wrk wrk' : WrkCtx T W} → Change vpp wrk wrk' → Keeps wrk wrk' → Indexed wrk → Indexed wrk'
  unfolding flow_table_update_flow
  kept-Indexed {wrk} {wrk'} (stays flows table) keeps all = Keeps-Indexed wrk wrk' keeps table all
  kept-Indexed {wrk} {wrk'} (moves i f found t) keeps all = Keeps-Indexed wrk wrk' keeps t.table all
  kept-Indexed {wrk} {wrk'} (opens i h b slot lt t) keeps all =
      set-Indexed wrk wrk' i t.after dir_in (packet_key h b) keeps t.written
        (t.path.key ∙ opened_by-key i h b) t.table all
  kept-Indexed {wrk} {wrk'} (answers i f found e) keeps all =
      let (written, table) = answered-table wrk i f in
      set-Indexed wrk wrk' i (answered_flow i f) dir_out (flow_key_reverse f.key) keeps
        (ap (λ (w : WrkCtx T W). w.flows i) e ∙ written) refl
        (ap (λ (w : WrkCtx T W). w.flows_hash_table) e ∙ table) all

  -- Whatever the hooks and the timers do keeps it.
  pub Change-Indexed : {wrk wrk' : WrkCtx T W} → Change vpp wrk wrk' → Indexed wrk → Indexed wrk'
  Change-Indexed c all = kept-Indexed c (Change-Keeps vpp c) all

  -- In every context that packets and timers lead to from the initial one, every key of the hash
  -- table leads to an entry that is for a key with this hash.
  pub Reach-Indexed :
      {start wrk : WrkCtx T W} → IsInitial vpp start → Reach vpp start wrk → Indexed wrk
  Reach-Indexed z here = λ k ref h. absurd (cc (z.no_keys k, h))
  Reach-Indexed z (next r s) =
      Change-Indexed (Step-Change vpp s (Reach-IsValid vpp z r)) (Reach-Indexed z r)
