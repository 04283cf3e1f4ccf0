-- ===== src/Tracker/Ready.antt =====
-- What every run of the tracker keeps, and the connection that a packet opens.
use vpp_plugins.Tracker.Tracked.{not_same, Tracked, conn_key, not_same}
use vpp_plugins.Tracker.Spec.{
  Conn, Tracker, Packet, new_conn, moved, Binds, Binds-others, Puts, Arrives, opens, refused, moves,
  answers, passes, stops, Event, arrive, leave, pass_time, Happens, Runs,
}
use vpp_plugins.Tracker.Follows.{HasKey}
use vpp_plugins.Tcp.Types.{FlowDir, dir_in, dir_out}
use vpp_plugins.Flow.Types.{FlowKey, EntryRef}
use vpp_plugins.Flow.Defs.{flow_key_reverse}
use vpp_plugins.Base.{
  ◌⊎◌, ℕ, Option, ◌≡◌, ◌≢◌, none, some, true, ◌==◌, Bool-cases, inl, inr, sym, ==_iff,
  some_injective, ◌∙◌, ap, List, [], ◌∷◌, All, ◌⊎◌,
}

-- Every connection can be found by its own key, and every entry leads to a connection.
pub record IsReady (K : FlowKey → Type 0) (t : Tracker) : Type 0 where
  pub within : (j : ℕ) (e : Conn) → t.conns j ≡ some e → K e.key
  pub bound :
      (j : ℕ) (e : Conn) → t.conns j ≡ some e → (ref : EntryRef) × (t.entries e.key ≡ some ref)
  pub live :
      (q : FlowKey) (ref : EntryRef)
      → K q
      → t.entries q ≡ some ref
      → (e : Conn) × (t.conns ref.index ≡ some e)

-- A connection is put down, with the key of the one that was there if there was one, and its own key
-- can be found.
record Extends (K : FlowKey → Type 0) (t t' : Tracker) (i : ℕ) (c : Conn) : Type 0 where
  puts : Puts t.conns t'.conns i c
  within : K c.key
  found :
      (e : Conn)
      → K e.key
      → (ref : EntryRef) × (t.entries e.key ≡ some ref)
      → (ref : EntryRef) × (t'.entries e.key ≡ some ref)
  own : (ref : EntryRef) × (t'.entries c.key ≡ some ref)
  live :
      (q : FlowKey) (ref : EntryRef)
      → K q
      → t'.entries q ≡ some ref
      → (i ≡ ref.index) ⊎ (t.entries q ≡ some ref)

extended-IsReady :
    (K : FlowKey → Type 0) (t t' : Tracker) (i : ℕ) (c : Conn)
    → IsReady K t
    → Extends K t t' i c
    → IsReady K t'
extended-IsReady K t t' i c r x =
    let conn_cases : (j : ℕ) (e : Conn) → t'.conns j ≡ some e → (c ≡ e) ⊎ (t.conns j ≡ some e) =
      λ j e at. elim (Bool-cases (i == j)) [
        | inl same ↦ inl (some_injective (sym x.puts.put ∙ ap t'.conns ((==_iff i j).0 same) ∙ at))
        | inr other ↦ inr (sym (x.puts.others j other) ∙ at)
      ] in
    record {
      within = λ j e at. elim (conn_cases j e at) [
        | inl new ↦ rw (← new) x.within
        | inr old ↦ r.within j e old
      ];
      bound = λ j e at. elim (conn_cases j e at) [
        | inl new ↦ rw (← new) x.own
        | inr old ↦ x.found e (r.within j e old) (r.bound j e old)
      ];
      live = λ q ref kq h. elim (Bool-cases (i == ref.index)) [
        | inl same ↦ (c, ap t'.conns (sym ((==_iff i ref.index).0 same)) ∙ x.puts.put)
        | inr other ↦ elim (x.live q ref kq h) [
          | inl here ↦ absurd (not_same i ref.index other here)
          | inr old ↦ (let (e, at) = r.live q ref kq old in (e, x.puts.others ref.index other ∙ at))
        ]
      ];
    }

-- A key that can be found can still be found when another is bound.
Binds-found :
    (K : FlowKey → Type 0) (m m' : FlowKey → Option EntryRef) (k j : FlowKey) (ref : EntryRef)
    → Binds K m m' k ref
    → K j
    → (r : EntryRef) × (m j ≡ some r)
    → (r : EntryRef) × (m' j ≡ some r)
Binds-found K m m' k j ref b kj (r, h) = elim (b.each j kj) [
  | inl same ↦ (ref, ap m' same ∙ b.bound)
  | inr other ↦ (r, other ∙ h)
]

-- Binding a key to the place of the connection that is put down.
Binds-Extends :
    (K : FlowKey → Type 0) (t t' : Tracker) (i : ℕ) (c : Conn) (k : FlowKey) (d : FlowDir)
    → Puts t.conns t'.conns i c
    → K c.key
    → Binds K t.entries t'.entries k (record { index = i; dir = d })
    → (ref : EntryRef) × (t'.entries c.key ≡ some ref)
    → Extends K t t' i c
Binds-Extends K t t' i c k d puts kc b own = record {
  puts = puts;
  within = kc;
  found = λ e ke h. Binds-found K t.entries t'.entries k e.key _ b ke h;
  own = own;
  live = λ q ref kq h. elim (b.each q kq) [
    | inl same ↦ inl (
        ap (λ (x : EntryRef). x.index)
          (some_injective (sym b.bound ∙ ap t'.entries (sym same) ∙ h)))
    | inr other ↦ inr (sym other ∙ h)
  ];
}

-- A connection that is put down with its key while no entry changes.
moved-Extends :
    (K : FlowKey → Type 0) (t t' : Tracker) (i : ℕ) (c : Conn)
    → Puts t.conns t'.conns i c
    → K c.key
    → t'.entries ≡ t.entries
    → (ref : EntryRef) × (t.entries c.key ≡ some ref)
    → Extends K t t' i c
moved-Extends K t t' i c puts kc same (ref, own) = record {
  puts = puts;
  within = kc;
  found = λ e ke (r, h). (r, ap (λ (m : FlowKey → Option EntryRef). m e.key) same ∙ h);
  own = (ref, ap (λ (m : FlowKey → Option EntryRef). m c.key) same ∙ own);
  live = λ q r kq h. inr (ap (λ (m : FlowKey → Option EntryRef). m q) (sym same) ∙ h);
}

-- Every event keeps it.
pub Happens-IsReady :
    (K : FlowKey → Type 0) (t t' : Tracker) (e : Event)
    → IsReady K t
    → HasKey K e
    → Happens K e t t'
    → IsReady K t'
Happens-IsReady K t t' (arrive p) r kp (opens i new place free puts binds) =
    extended-IsReady K t t' i (new_conn p) r
      (Binds-Extends K t t' i (new_conn p) p.key dir_in puts kp binds (_, binds.bound))
Happens-IsReady K t t' (arrive p) r kp (refused new place same) = rw same r
Happens-IsReady K t t' (arrive p) r kp (moves i d c known at puts same) =
    extended-IsReady K t t' i (moved p d c) r
      (moved-Extends K t t' i (moved p d c) puts (r.within i c at) same (r.bound i c at))
Happens-IsReady K t t' (leave i) r u (answers c at new puts binds) =
    let k = flow_key_reverse c.key in
    let own =
      Binds-found K t.entries t'.entries k c.key _ binds (r.within i c at) (r.bound i c at) in
    extended-IsReady K t t' i (record c { answered = true }) r
      (Binds-Extends K t t' i (record c { answered = true }) k dir_out puts (r.within i c at) binds
        own)
Happens-IsReady K t t' (leave i) r u (passes c at old same) = rw same r
Happens-IsReady K t t' (leave i) r u (stops free same) = rw same r
Happens-IsReady K t t' pass_time r u same = rw same r

pub Runs-IsReady :
    (K : FlowKey → Type 0) (t t' : Tracker) (es : List Event)
    → IsReady K t
    → All (HasKey K) es
    → Runs K es t t'
    → IsReady K t'
Runs-IsReady K t t' [] r k same = rw same r
Runs-IsReady K t t' (e ∷ es) r (ke, k) (mid, step, run) =
    Runs-IsReady K mid t' es (Happens-IsReady K t mid e r ke step) k run

-- A packet whose key and reversed key are not known, and are not the same, opens a connection that is
-- alone known by its keys.
pub Arrives-new_conn :
    (K : FlowKey → Type 0) (t t' : Tracker) (i : ℕ) (p : Packet)
    → IsReady K t
    → K p.key
    → K (flow_key_reverse p.key)
    → t.entries p.key ≡ none
    → t.entries (flow_key_reverse p.key) ≡ none
    → flow_key_reverse p.key ≢ p.key
    → t.place ≡ some i
    → Arrives K p t t'
    → Tracked K t' i (new_conn p)
Arrives-new_conn K t t' i p r kp kr new back apart place (opens j new' place' free puts binds) =
    let ij : j ≡ i = some_injective (sym place' ∙ place) in
    rw (← ij) (record {
      at = puts.put;
      within = kp;
      forward = binds.bound;
      backward =
          Binds-others K t.entries t'.entries p.key (flow_key_reverse p.key) _ binds kr apart
          ∙ back;
      clear = λ l e jl at fresh.
          let (ref, h) = r.bound l e (sym (puts.others l jl) ∙ at) in
          record {
            forward = λ e1. absurd (cc (e1, h, new));
            backward = λ e1. absurd (cc (e1, h, back));
          };
      only = λ q d kq h. elim (binds.each q kq) [
        | inl same ↦
            (let both : record { index = j; dir = d } ≡ record { index = j; dir = dir_in } =
                some_injective (sym h ∙ ap t'.entries same ∙ binds.bound) in
              ap (λ (x : EntryRef). conn_key (new_conn p) x.dir) both ∙ sym same)
        | inr other ↦ (let (e, at) = r.live q _ kq (sym other ∙ h) in absurd (cc (free, at)))
      ];
    })
Arrives-new_conn K t t' i p r kp kr new back apart place (refused new' full same) =
    absurd (cc (full, place))
Arrives-new_conn K t t' i p r kp kr new back apart place (moves j d c known at puts same) =
    absurd (cc (new, known))
