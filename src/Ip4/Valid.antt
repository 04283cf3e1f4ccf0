-- ===== src/Ip4/Valid.antt =====
-- The invariant of a worker's flows and hash table, and what keeps it.
use mathlib.Core.Path.{subst}
use vpp_plugins.Base.{
  some_injective, ℕ, ◌<◌, ◌≡◌, ◌⊎◌, inl, inr, ◌∙◌, Option, none, some, ◌==◌, ==_iff, Bool-cases,
  false, arith,
}
use vpp_plugins.Tcp.Types.{FlowDir, dir_in, dir_out}
use vpp_plugins.Flow.Types.{Flow, EntryRef, unset32, flow_entry, zero_mac}
use vpp_plugins.Flow.Vpp.{Vpp}
use vpp_plugins.Flow.Defs.{update}

-- The flow in the element `i`: its first entry is in use, its second points to it if it is in use,
-- and has no MAC address.
pub record FlowOk (i : ℕ) (f : Flow) : Type 0 where
  pub elt : f.elt_index ≡ i
  pub index_lt : i < unset32
  pub in_use : f.entry_in.flow ≡ some i
  pub out_use : (f.entry_out.flow ≡ none) ⊎ (f.entry_out.flow ≡ some i)
  pub out_smac : f.entry_out.smac ≡ zero_mac

-- What a reference of the hash table points to.
pub record RefOk (flows : ℕ → Option Flow) (ref : EntryRef) : Type 0 where
  pub target : Flow
  pub found : flows ref.index ≡ some target
  pub back : (flow_entry target ref.dir).flow ≡ some ref.index

pub record IsValid {T W : Type 0} (vpp : Vpp T W) (flows : ℕ → Option Flow) (t : T) : Type 0 where
  pub flows_ok : (i : ℕ) (f : Flow) → flows i ≡ some f → FlowOk i f
  pub table_ok : (k : ℕ) (ref : EntryRef) → vpp.hash_get t k ≡ some ref → RefOk flows ref

update_self : (flows : ℕ → Option Flow) (i : ℕ) (f : Flow) → update flows i (some f) i ≡ some f
update_self flows i f = ground arith

update_ne :
    (flows : ℕ → Option Flow) (i j : ℕ) (f : Flow)
    → (i == j) ≡ false
    → update flows i (some f) j ≡ flows j
update_ne flows i j f h = rw h

-- A flow that is written over another keeps the references to it.
pub record Extends (i : ℕ) (flows : ℕ → Option Flow) (f : Flow) : Type 0 where
  pub ok : FlowOk i f
  pub keeps : (g : Flow) → flows i ≡ some g → g.entry_out.flow ≡ some i → f.entry_out.flow ≡ some i

backs :
    (flows : ℕ → Option Flow) (i : ℕ) (f : Flow) (dir : FlowDir) (g : Flow)
    → Extends i flows f
    → flows i ≡ some g
    → (flow_entry g dir).flow ≡ some i
    → (flow_entry f dir).flow ≡ some i
backs flows i f dir_in g x found back = x.ok.in_use
backs flows i f dir_out g x found back = x.keeps g found back

RefOk-update :
    (flows : ℕ → Option Flow) (i : ℕ) (f : Flow) (ref : EntryRef)
    → Extends i flows f
    → RefOk flows ref
    → RefOk (update flows i (some f)) ref
RefOk-update flows i f ref x r = elim (Bool-cases (i == ref.index)) [
  | inl same ↦
      (let e : i ≡ ref.index = (==_iff i ref.index).0 same in
        record {
          target = f;
          found = rw same;
          back =
              rw (← e)
                (backs flows i f ref.dir r.target x (rw (← e) at r.found) (rw (← e) at r.back));
        })
  | inr other ↦ record {
    target = r.target;
    found = update_ne flows i ref.index f other ∙ r.found;
    back = r.back;
  }
]

FlowOk-update :
    (flows : ℕ → Option Flow) (i : ℕ) (f : Flow)
    → FlowOk i f
    → ((j : ℕ) (g : Flow) → flows j ≡ some g → FlowOk j g)
    → (j : ℕ) (g : Flow) → update flows i (some f) j ≡ some g
    → FlowOk j g
FlowOk-update flows i f ok oks j g h = elim (Bool-cases (i == j)) [
  | inl same ↦
      (let e : i ≡ j = (==_iff i j).0 same in
        let eq : f ≡ g = some_injective (rw same at h) in rw (← e) (rw (← eq) ok))
  | inr other ↦ oks j g (rw other at h)
]

module _ {T W : Type 0} (vpp : Vpp T W) where
  -- Writing a flow over its older version, or into a free element.
  pub put-IsValid :
      (flows : ℕ → Option Flow) (t : T) (i : ℕ) (f : Flow)
      → Extends i flows f
      → IsValid vpp flows t
      → IsValid vpp (update flows i (some f)) t
  put-IsValid flows t i f x v = record {
    flows_ok = FlowOk-update flows i f x.ok v.flows_ok;
    table_ok = λ k ref h. RefOk-update flows i f ref x (v.table_ok k ref h);
  }

  -- Setting a key of the hash table to an entry that is in use.
  pub set-IsValid :
      (flows : ℕ → Option Flow) (t : T) (k : ℕ) (ref : EntryRef)
      → RefOk flows ref
      → IsValid vpp flows t
      → IsValid vpp flows (vpp.hash_set t k ref)
  set-IsValid flows t k ref r v = record {
    flows_ok = v.flows_ok;
    table_ok = λ j other h. elim (Bool-cases (k == j)) [
      | inl same ↦
          subst (RefOk flows) (some_injective (rw (vpp.hash_get-set t k ref j, same) at h)) r
      | inr different ↦ v.table_ok j other (rw (vpp.hash_get-set t k ref j, different) at h)
    ];
  }
