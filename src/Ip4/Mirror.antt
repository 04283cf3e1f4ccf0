-- ===== src/Ip4/Mirror.antt =====
-- What the two entries of a flow of flow_table/core/include/flow.h hold: the flow's key and its reverse.
use vpp_plugins.Ip4.All.{Closed}
use vpp_plugins.Ip4.Arrive.{packet_key}
use vpp_plugins.Ip4.Process.{first_flow}
use vpp_plugins.Buffer.Defs.{Buffer}
use vpp_plugins.Buffer.Parse.{ip4_protocol, ip4_flow_key, tcp_parse_flow_key}
use vpp_plugins.Protocol.Handlers.{Handler, tcp, udp, icmp, unimplemented}
use vpp_plugins.Protocol.Path.{SamePath, SameEntry}
use vpp_plugins.Protocol.Tcp.{parse_key}
use vpp_plugins.Tcp.Types.{FlowDir, dir_in, dir_out}
use vpp_plugins.Flow.Types.{Flow, FlowEntry, FlowKey}
use vpp_plugins.Flow.Defs.{flow_key_reverse, flow_table_update_flow}
use vpp_plugins.Base.{◌≡◌, ◌⊎◌, inl, inr, none, refl, arith, ◌∙◌}

pub reverse_twice : (key : FlowKey) → flow_key_reverse (flow_key_reverse key) ≡ key
unfolding flow_key_reverse
reverse_twice key = refl

-- The key of the packets that the flow's entry is for.
abbrev pub entry_key : Flow → FlowDir → FlowKey
entry_key f dir_in = f.key
entry_key f dir_out = flow_key_reverse f.key

-- The entry is for packets with the key.
pub record HoldsKey (e : FlowEntry) (key : FlowKey) : Type 0 where
  pub src : e.src ≡ key.src
  pub dst : e.dst ≡ key.dst
  pub src_port : e.src_port ≡ key.src_port
  pub dst_port : e.dst_port ≡ key.dst_port
  pub protocol : e.protocol ≡ key.protocol

-- The first entry is for the flow's key, with its VLAN tags, and the second, once it is in use, for
-- the reverse of the key.
pub record IsMirror (f : Flow) : Type 0 where
  pub forward : HoldsKey f.entry_in f.key
  pub outer_vlan_id : f.entry_in.outer_vlan_id ≡ f.key.outer_vlan_id
  pub inner_vlan_id : f.entry_in.inner_vlan_id ≡ f.key.inner_vlan_id
  pub vlan_present : f.entry_in.vlan_present ≡ f.key.vlan_present
  pub backward : (f.entry_out.flow ≡ none) ⊎ HoldsKey f.entry_out (flow_key_reverse f.key)
  pub ip_version : f.ip_version ≡ 4
  pub protocol : f.protocol ≡ f.key.protocol

same-HoldsKey :
    (e e' : FlowEntry) (k k' : FlowKey) → SameEntry e e' → k' ≡ k → HoldsKey e k → HoldsKey e' k'
same-HoldsKey e e' k k' s eq h = rw eq (record {
  src = s.src ∙ h.src;
  dst = s.dst ∙ h.dst;
  src_port = s.src_port ∙ h.src_port;
  dst_port = s.dst_port ∙ h.dst_port;
  protocol = s.protocol ∙ h.protocol;
})

backward-path :
    (f g : Flow)
    → SamePath f g
    → (f.entry_out.flow ≡ none) ⊎ HoldsKey f.entry_out (flow_key_reverse f.key)
    → (g.entry_out.flow ≡ none) ⊎ HoldsKey g.entry_out (flow_key_reverse g.key)
backward-path f g p (inl new) = inl (p.entry_out.flow ∙ new)
backward-path f g p (inr h) = inr (
    same-HoldsKey f.entry_out g.entry_out (flow_key_reverse f.key) (flow_key_reverse g.key)
      p.entry_out (cc (p.key)) h)

packet_key-protocol : (h : Handler) (b : Buffer) → (packet_key h b).protocol ≡ ip4_protocol b
unfolding parse_key tcp_parse_flow_key ip4_flow_key
packet_key-protocol tcp b = refl
packet_key-protocol udp b = refl
packet_key-protocol icmp b = refl
packet_key-protocol unimplemented b = refl

pub IsMirror-Closed : Closed IsMirror
unfolding flow_table_update_flow first_flow
IsMirror-Closed = record {
  path = λ f g p m. record {
    forward = same-HoldsKey f.entry_in g.entry_in f.key g.key p.entry_in p.key m.forward;
    outer_vlan_id = cc (p.entry_in.outer_vlan_id, p.key, m.outer_vlan_id);
    inner_vlan_id = cc (p.entry_in.inner_vlan_id, p.key, m.inner_vlan_id);
    vlan_present = cc (p.entry_in.vlan_present, p.key, m.vlan_present);
    backward = backward-path f g p m.backward;
    ip_version = p.ip_version ∙ m.ip_version;
    protocol = cc (p.protocol, p.key, m.protocol);
  };
  opened = λ i h b lt. ground (arith, packet_key-protocol h b);
  answered = λ i f m. record {
    forward = m.forward;
    outer_vlan_id = m.outer_vlan_id;
    inner_vlan_id = m.inner_vlan_id;
    vlan_present = m.vlan_present;
    backward =
        inr (record { src = refl; dst = refl; src_port = refl; dst_port = refl; protocol = refl });
    ip_version = m.ip_version;
    protocol = m.protocol;
  };
}
