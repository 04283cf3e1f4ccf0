-- ===== src/Ip4/Input.antt =====
-- `ip4_input_process` of flow_table/core/ip4_process.c keeps the invariant and does not fault.
use vpp_plugins.Protocol.Tcp.{update_state}
use vpp_plugins.Protocol.Handlers.{Handler}
use vpp_plugins.Buffer.Defs.{Buffer, vlib_buffer_set_flow}
use vpp_plugins.Tcp.Types.{FlowDir}
use vpp_plugins.Ip4.Process.{known_flow, first_flow, accept}
use vpp_plugins.Protocol.Path.{SamePath}
use vpp_plugins.Protocol.Touched.{Touched, update_state-Touched}
use vpp_plugins.Ip4.Valid.{IsValid, put-IsValid, FlowOk, Extends, RefOk}
use vpp_plugins.Flow.Types.{EntryRef, Flow, FlowKey, unset32, zero_mac, flow_entry}
use vpp_plugins.Flow.Defs.{flow_table_get_direction, WrkCtx, update, deref_entry}
use vpp_plugins.Flow.Vpp.{Vpp}
use mathlib.Core.Path.{fun_ext}
use vpp_plugins.Base.{
  arith, ℕ, Option, ◌≡◌, some, Bool-cases, ◌==◌, ◌∙◌, inl, ap, ==_iff, some_injective, inr, sym,
  ◌<◌, none,
}

-- The direction that the code finds from the pointers is that of the entry.
pub flow_table_get_direction-dir :
    (ref : EntryRef) → flow_table_get_direction ref.index ref ≡ ref.dir
unfolding flow_table_get_direction
flow_table_get_direction-dir ref = ground arith

SamePath-Extends :
    (flows : ℕ → Option Flow) (i : ℕ) (f g : Flow)
    → flows i ≡ some f
    → FlowOk i f
    → SamePath f g
    → Extends i flows g
SamePath-Extends flows i f g found ok l = record {
  ok = record {
    elt = l.elt ∙ ok.elt;
    index_lt = ok.index_lt;
    in_use = l.entry_in.flow ∙ ok.in_use;
    out_use = rw l.entry_out.flow ok.out_use;
    out_smac = l.entry_out.smac ∙ ok.out_smac;
  };
  keeps = λ h at back.
      l.entry_out.flow
      ∙ ap (λ (x : Flow). x.entry_out.flow) (some_injective (sym found ∙ at))
      ∙ back;
}

abbrev pub entry_ref : ℕ → FlowDir → EntryRef
entry_ref i d = record { index = i; dir = d }

pub first_flow-ok :
    (i : ℕ) (f : Flow) (b : Buffer) (key : FlowKey)
    → f.elt_index ≡ i
    → i < unset32
    → f.entry_out.flow ≡ none
    → f.entry_out.smac ≡ zero_mac
    → FlowOk i (first_flow i f b key)
unfolding first_flow
first_flow-ok i f b key e lt out mac = ground arith

pub Touched-flows :
    {T W : Type 0} (wrk wrk' : WrkCtx T W) (i : ℕ) (f : Flow) (t : Touched wrk i f wrk')
    → wrk'.flows ≡ update wrk.flows i (some t.after)
Touched-flows wrk wrk' i f t = fun_ext at
  where
    at : (j : ℕ) → wrk'.flows j ≡ update wrk.flows i (some t.after) j
    at j = elim (Bool-cases (i == j)) [
      | inl same ↦ rw same (rw (← (==_iff i j).0 same) t.written)
      | inr other ↦ rw other (t.others j other)
    ]

module _ {T W : Type 0} (vpp : Vpp T W) where
  -- A worker's context that satisfies the invariant.
  abbrev pub IsValidCtx : WrkCtx T W → Type 0
  IsValidCtx wrk = IsValid vpp wrk.flows wrk.flows_hash_table

  pub Touched-IsValid :
      (wrk wrk' : WrkCtx T W) (i : ℕ) (f : Flow)
      → IsValidCtx wrk
      → wrk.flows i ≡ some f
      → Touched wrk i f wrk'
      → IsValidCtx wrk'
  Touched-IsValid wrk wrk' i f v found t =
      rw (Touched-flows wrk wrk' i f t, t.table)
        (put-IsValid vpp wrk.flows wrk.flows_hash_table i t.after
          (SamePath-Extends wrk.flows i f t.after found (v.flows_ok i f found) t.path) v)

  deref_entry-found :
      (wrk : WrkCtx T W) (ref : EntryRef) (f : Flow)
      → wrk.flows ref.index ≡ some f
      → deref_entry wrk ref ≡ some (flow_entry f ref.dir)
  unfolding deref_entry
  deref_entry-found wrk ref f h = rw (h, deref_entry)

  -- A packet whose key is in the hash table is accepted, its buffer gets the entry's flow, and the
  -- handler's `update_state` runs on it in the entry's direction.
  pub known_flow-accept :
      (wrk : WrkCtx T W) (h : Handler) (b : Buffer) (ref : EntryRef) (r : RefOk wrk.flows ref)
      → ref.index < unset32
      → (wrk' : WrkCtx T W) × (known_flow vpp wrk h b ref
          ≡ some (accept, wrk', vlib_buffer_set_flow b ref.index))
        × (update_state vpp h wrk (vlib_buffer_set_flow b ref.index) ref.dir ≡ some wrk')
        × Touched wrk ref.index r.target wrk'
  unfolding known_flow vlib_buffer_set_flow
  known_flow-accept wrk h b ref r lt =
      let (wrk', ran, t) =
        update_state-Touched vpp h wrk (vlib_buffer_set_flow b ref.index) ref.dir r.target lt
          r.found in
      (
        wrk',
        rw (
          deref_entry-found wrk ref r.target r.found,
          r.back,
          flow_table_get_direction-dir ref,
          ran,
        ),
        ran,
        t,
      )
