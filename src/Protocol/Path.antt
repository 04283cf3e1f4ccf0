-- ===== src/Protocol/Path.antt =====
-- What the handlers of flow_table/core/proto keep of a flow: where its packets come from and go to.
use vpp_plugins.Protocol.Effects.{opened, entered}
use vpp_plugins.Flow.Vpp.{Vpp}
use vpp_plugins.Tcp.Types.{FlowDir, dir_in, dir_out, TcpState}
use vpp_plugins.Buffer.Defs.{Buffer}
use vpp_plugins.Protocol.Tcp.{track}
use vpp_plugins.Flow.Types.{FlowEntry, Flow}
use vpp_plugins.Flow.Defs.{flow_expiration_timer_update, flow_expiration_timer_set, WrkCtx}
use vpp_plugins.Base.{arith, ◌∙◌, ◌≡◌}

-- All of an entry but its sequence numbers.
pub record SameEntry (e e' : FlowEntry) : Type 0 where
  pub flow : e'.flow ≡ e.flow
  pub smac : e'.smac ≡ e.smac
  pub dmac : e'.dmac ≡ e.dmac
  pub src : e'.src ≡ e.src
  pub dst : e'.dst ≡ e.dst
  pub protocol : e'.protocol ≡ e.protocol
  pub src_port : e'.src_port ≡ e.src_port
  pub dst_port : e'.dst_port ≡ e.dst_port
  pub sw_if_index : e'.sw_if_index ≡ e.sw_if_index
  pub outer_vlan_id : e'.outer_vlan_id ≡ e.outer_vlan_id
  pub inner_vlan_id : e'.inner_vlan_id ≡ e.inner_vlan_id
  pub vlan_present : e'.vlan_present ≡ e.vlan_present

-- All of a flow but its state, its timer and the sequence numbers of its entries.
pub record SamePath (f g : Flow) : Type 0 where
  pub key : g.key ≡ f.key
  pub entry_in : SameEntry f.entry_in g.entry_in
  pub entry_out : SameEntry f.entry_out g.entry_out
  pub ip_version : g.ip_version ≡ f.ip_version
  pub protocol : g.protocol ≡ f.protocol
  pub refcount : g.refcount ≡ f.refcount
  pub elt : g.elt_index ≡ f.elt_index

pub SameEntry-refl : (e : FlowEntry) → SameEntry e e
SameEntry-refl e = ground arith

pub SamePath-refl : (f : Flow) → SamePath f f
SamePath-refl f = ground arith

pub SameEntry-trans : {a b c : FlowEntry} → SameEntry a b → SameEntry b c → SameEntry a c
SameEntry-trans p q = ground arith

pub SamePath-trans : {f g h : Flow} → SamePath f g → SamePath g h → SamePath f h
SamePath-trans p q = record {
  key = q.key ∙ p.key;
  entry_in = SameEntry-trans p.entry_in q.entry_in;
  entry_out = SameEntry-trans p.entry_out q.entry_out;
  ip_version = q.ip_version ∙ p.ip_version;
  protocol = q.protocol ∙ p.protocol;
  refcount = q.refcount ∙ p.refcount;
  elt = q.elt ∙ p.elt;
}

pub track-SamePath : (f : Flow) (d : FlowDir) (b : Buffer) → SamePath f (track f d b)
unfolding track
track-SamePath f dir_in b = ground arith
track-SamePath f dir_out b = ground arith

pub opened-SamePath : (f : Flow) (b : Buffer) → SamePath f (opened f b)
opened-SamePath f b = ground arith

pub entered-SamePath :
    {T W : Type 0} (vpp : Vpp T W) (wrk : WrkCtx T W) (f : Flow) (s : TcpState)
    → SamePath f (entered vpp wrk f s)
unfolding flow_expiration_timer_update flow_expiration_timer_set
entered-SamePath vpp wrk f s = ground arith
