-- ===== src/Tracker/Spec.antt =====
-- The specification of the flow table of flow_table/core: connections, found by key in either
-- direction.
use mathlib.Core.Path.{subst}
use vpp_plugins.Flow.Defs.{flow_key_reverse}
use vpp_plugins.Tcp.Transfers.{next_state}
use vpp_plugins.Protocol.Handlers.{Handler, tcp, udp, icmp, unimplemented}
use vpp_plugins.Tcp.Types.{start, FlowDir, TcpEvent, TcpState, dir_in, dir_out}
use vpp_plugins.Flow.Types.{FlowKey, EntryRef}
use vpp_plugins.Base.{
  ℕ, Option, ◌≡◌, Bool, none, some, false, ◌==◌, ◌≢◌, true, List, [], ◌∷◌, Bool-cases, sym, inl,
  ==_iff, some_injective, ◌∙◌, ap, inr, ◌⊎◌,
}

-- A connection: the key of its first packet, its state, whether it began with a SYN alone, and whether
-- its reversed key is known.
pub record Conn : Type 0 where
  pub key : FlowKey
  pub state : TcpState
  pub from_syn : Bool
  pub answered : Bool

-- `entries` leads from a key to a connection and the direction of the packets with this key. `place` is
-- the place of the next connection, if there is one; which it is is chosen anew with each event.
pub record Tracker : Type 0 where
  pub entries : FlowKey → Option EntryRef
  pub conns : ℕ → Option Conn
  pub place : Option ℕ

-- What the tracker reads of a packet.
pub record Packet : Type 0 where
  pub handler : Handler
  pub key : FlowKey
  pub event : TcpEvent
  pub syn_alone : Bool

-- Only TCP has states; the machine is the one that is described by events.
unfoldable pub advance : Handler → TcpState → TcpEvent → FlowDir → TcpState
advance tcp s e d = next_state s e d
advance udp s e d = s
advance icmp s e d = s
advance unimplemented s e d = s

unfoldable pub begins : Handler → Bool → Bool
begins tcp syn_alone = syn_alone
begins udp syn_alone = false
begins icmp syn_alone = false
begins unimplemented syn_alone = false

abbrev pub new_conn : Packet → Conn
new_conn p = record {
  key = p.key;
  state = advance p.handler start p.event dir_in;
  from_syn = begins p.handler p.syn_alone;
  answered = false;
}

abbrev pub moved : Packet → FlowDir → Conn → Conn
moved p d c = record c { state = advance p.handler c.state p.event d }

-- Among the keys in `K`, the key `k` now leads to `ref`, and every other key leads where it did.
pub record Binds (K : FlowKey → Type 0) (m m' : FlowKey → Option EntryRef) (k : FlowKey)
    (ref : EntryRef) : Type 0 where
  pub bound : m' k ≡ some ref
  pub each : (j : FlowKey) → K j → (j ≡ k) ⊎ (m' j ≡ m j)

pub Binds-others :
    (K : FlowKey → Type 0) (m m' : FlowKey → Option EntryRef) (k j : FlowKey) (ref : EntryRef)
    → Binds K m m' k ref
    → K j
    → j ≢ k
    → m' j ≡ m j
Binds-others K m m' k j ref b kj ne = elim (b.each j kj) [
  | inl same ↦ absurd (ne same)
  | inr other ↦ other
]

-- Every connection but `i` is as it was, and `i` is `c`.
pub record Puts (m m' : ℕ → Option Conn) (i : ℕ) (c : Conn) : Type 0 where
  pub put : m' i ≡ some c
  pub others : (j : ℕ) → (i == j) ≡ false → m' j ≡ m j

-- What a packet that comes in does.
pub data Arrives (K : FlowKey → Type 0) (p : Packet) (t t' : Tracker) : Type 0 where
  -- A key that is not known opens a connection in the next place, which is free.
  opens :
      (i : ℕ)
      → t.entries p.key ≡ none
      → t.place ≡ some i
      → t.conns i ≡ none
      → Puts t.conns t'.conns i (new_conn p)
      → Binds K t.entries t'.entries p.key (record { index = i; dir = dir_in })
      → Arrives K p t t'
  -- If there is no place nothing happens.
  refused : t.entries p.key ≡ none → t.place ≡ none → t' ≡ t → Arrives K p t t'
  -- A key that is known moves its connection, in the direction of the key.
  moves :
      (i : ℕ) (d : FlowDir) (c : Conn)
      → t.entries p.key ≡ some (record { index = i; dir = d })
      → t.conns i ≡ some c
      → Puts t.conns t'.conns i (moved p d c)
      → t'.entries ≡ t.entries
      → Arrives K p t t'

-- What a packet of the connection `i` that goes out does.
pub data Leaves (K : FlowKey → Type 0) (i : ℕ) (t t' : Tracker) : Type 0 where
  -- The first packet of a connection to go out makes the connection known by the reversed key.
  answers :
      (c : Conn)
      → t.conns i ≡ some c
      → c.answered ≡ false
      → Puts t.conns t'.conns i (record c { answered = true })
      → Binds K t.entries t'.entries (flow_key_reverse c.key) (record { index = i; dir = dir_out })
      → Leaves K i t t'
  -- Every later packet changes nothing, and neither does a packet of no connection.
  passes : (c : Conn) → t.conns i ≡ some c → c.answered ≡ true → t' ≡ t → Leaves K i t t'
  stops : t.conns i ≡ none → t' ≡ t → Leaves K i t t'

-- What happens to the tracker.
pub data Event : Type 0 where
  arrive : Packet → Event
  leave : ℕ → Event
  pass_time : Event

-- What an event may do.
abbrev pub Happens : (FlowKey → Type 0) → Event → Tracker → Tracker → Type 0
Happens K (arrive p) t t' = Arrives K p t t'
Happens K (leave i) t t' = Leaves K i t t'
Happens K pass_time t t' = t' ≡ t

-- Where a sequence of events may lead.
abbrev pub Runs : (FlowKey → Type 0) → List Event → Tracker → Tracker → Type 0
Runs K [] t t' = t' ≡ t
Runs K (e ∷ es) t t' = (mid : Tracker) × Happens K e t mid × Runs K es mid t'

-- Every connection's key is in `K`.
abbrev pub IsWithin : (FlowKey → Type 0) → Tracker → Type 0
IsWithin K t = (i : ℕ) (c : Conn) → t.conns i ≡ some c → K c.key

Puts-IsWithin :
    (K : FlowKey → Type 0) (t t' : Tracker) (i : ℕ) (c : Conn)
    → IsWithin K t
    → K c.key
    → Puts t.conns t'.conns i c
    → IsWithin K t'
Puts-IsWithin K t t' i c w k p j d h = elim (Bool-cases (i == j)) [
  | inl same ↦
      (let e : i ≡ j = (==_iff i j).0 same in
        let cd : c ≡ d = some_injective (sym p.put ∙ ap t'.conns e ∙ h) in
        subst (λ (x : Conn). K x.key) cd k)
  | inr other ↦ w j d (sym (p.others j other) ∙ h)
]

pub Arrives-IsWithin :
    (K : FlowKey → Type 0) (p : Packet) (t t' : Tracker)
    → IsWithin K t
    → K p.key
    → Arrives K p t t'
    → IsWithin K t'
Arrives-IsWithin K p t t' w k (opens i new place slot put bind) =
    Puts-IsWithin K t t' i (new_conn p) w k put
Arrives-IsWithin K p t t' w k (refused new full same) = subst (IsWithin K) (sym same) w
Arrives-IsWithin K p t t' w k (moves i d c known at put same) =
    Puts-IsWithin K t t' i (moved p d c) w (w i c at) put

pub Leaves-IsWithin :
    (K : FlowKey → Type 0) (i : ℕ) (t t' : Tracker) → IsWithin K t → Leaves K i t t' → IsWithin K t'
Leaves-IsWithin K i t t' w (answers c at new put bind) =
    Puts-IsWithin K t t' i (record c { answered = true }) w (w i c at) put
Leaves-IsWithin K i t t' w (passes c at old same) = subst (IsWithin K) (sym same) w
Leaves-IsWithin K i t t' w (stops free same) = subst (IsWithin K) (sym same) w
