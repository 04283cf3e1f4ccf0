-- ===== src/Tracker/Tracked.antt =====
-- One connection of the tracker, while other connections come and go.
use vpp_plugins.Tracker.Spec.{Conn, Tracker, Packet, advance, Binds, Binds-others, Puts}
use vpp_plugins.Tcp.Types.{FlowDir, dir_in, dir_out, TcpState}
use vpp_plugins.Flow.Types.{FlowKey, EntryRef}
use vpp_plugins.Flow.Defs.{flow_key_reverse}
use vpp_plugins.Base.{
  ℕ, Option, ◌≡◌, ◌≢◌, none, some, false, ◌==◌, Bool-cases, inl, inr, sym, ==_iff, some_injective,
  ◌∙◌, ap, refl, if◌then◌else◌, arith,
}

-- The key of the packets of a connection in a direction.
abbrev pub conn_key : Conn → FlowDir → FlowKey
conn_key c dir_in = c.key
conn_key c dir_out = flow_key_reverse c.key

-- What a packet does to the state of the connection with the key `k`: its own packets move it, in
-- the direction of their key, and no other packet does.
pub data Turn (k : FlowKey) (p : Packet) (s : TcpState) : TcpState → Type 0 where
  forwards : p.key ≡ k → Turn k p s (advance p.handler s p.event dir_in)
  backwards : p.key ≡ flow_key_reverse k → Turn k p s (advance p.handler s p.event dir_out)
  elsewhere : p.key ≢ k → p.key ≢ flow_key_reverse k → Turn k p s s

-- The connection `e` is not one that will be known by a key of the connection `c`.
pub record Clear (c e : Conn) : Type 0 where
  pub forward : e.key ≢ c.key
  pub backward : e.key ≢ flow_key_reverse c.key

-- The connection `c` is at the place `i`, and it alone is known by its keys.
pub record Tracked (K : FlowKey → Type 0) (t : Tracker) (i : ℕ) (c : Conn) : Type 0 where
  pub at : t.conns i ≡ some c
  pub within : K c.key
  pub forward : t.entries c.key ≡ some (record { index = i; dir = dir_in })
  pub backward :
      t.entries (flow_key_reverse c.key)
      ≡ (if c.answered then some (record { index = i; dir = dir_out }) else none)
  pub clear :
      (j : ℕ) (e : Conn) → (i == j) ≡ false → t.conns j ≡ some e → e.answered ≡ false → Clear c e
  pub only :
      (q : FlowKey) (d : FlowDir)
      → K q
      → t.entries q ≡ some (record { index = i; dir = d })
      → conn_key c d ≡ q

-- What a step on another connection leaves of the keys of `c`.
pub record Spares (K : FlowKey → Type 0) (t t' : Tracker) (i : ℕ) (c : Conn) : Type 0 where
  pub forward : t'.entries c.key ≡ t.entries c.key
  pub backward : t'.entries (flow_key_reverse c.key) ≡ t.entries (flow_key_reverse c.key)
  pub only :
      (q : FlowKey) (d : FlowDir)
      → K q
      → t'.entries q ≡ some (record { index = i; dir = d })
      → t.entries q ≡ some (record { index = i; dir = d })

pub same_conn_key : (c e : Conn) (d : FlowDir) → e.key ≡ c.key → conn_key e d ≡ conn_key c d
same_conn_key c e dir_in h = h
same_conn_key c e dir_out h = ap flow_key_reverse h

pub not_same : (i j : ℕ) → (i == j) ≡ false → i ≢ j
not_same i j ne e = ground arith

pub other_way : (i j : ℕ) → (i == j) ≡ false → (j == i) ≡ false
other_way i j ne = ground arith

pub same_entries :
    (K : FlowKey → Type 0) (t t' : Tracker) (i : ℕ) (c : Conn)
    → t'.entries ≡ t.entries
    → Spares K t t' i c
same_entries K t t' i c e = record {
  forward = ap (λ (m : FlowKey → Option EntryRef). m c.key) e;
  backward = ap (λ (m : FlowKey → Option EntryRef). m (flow_key_reverse c.key)) e;
  only = λ q d k h. ap (λ (m : FlowKey → Option EntryRef). m q) (sym e) ∙ h;
}

-- A key is bound to another place.
pub Binds-Spares :
    (K : FlowKey → Type 0) (t t' : Tracker) (i j : ℕ) (c : Conn) (k : FlowKey) (d : FlowDir)
    → K c.key
    → K (flow_key_reverse c.key)
    → (i == j) ≡ false
    → Binds K t.entries t'.entries k (record { index = j; dir = d })
    → k ≢ c.key
    → k ≢ flow_key_reverse c.key
    → Spares K t t' i c
Binds-Spares K t t' i j c k d kc kr ij b nf nb = record {
  forward =
      Binds-others K t.entries t'.entries k c.key (record { index = j; dir = d }) b kc
        (λ e. nf (sym e));
  backward =
      Binds-others K t.entries t'.entries k (flow_key_reverse c.key) (record { index = j; dir = d })
        b kr (λ e. nb (sym e));
  only = λ q dq kq h.
      sym (
        Binds-others K t.entries t'.entries k q (record { index = j; dir = d }) b kq
          (λ e.
            let both : record { index = i; dir = dq } ≡ record { index = j; dir = d } =
              some_injective (sym h ∙ ap t'.entries e ∙ b.bound) in
            let same : i ≡ j = ap (λ (r : EntryRef). r.index) both in not_same i j ij same))
      ∙ h;
}

-- A connection at another place is put down, which is clear of `c` if its reversed key is not known.
pub other-Tracked :
    (K : FlowKey → Type 0) (t t' : Tracker) (i j : ℕ) (c e : Conn)
    → Tracked K t i c
    → (i == j) ≡ false
    → Puts t.conns t'.conns j e
    → (e.answered ≡ false → Clear c e)
    → Spares K t t' i c
    → Tracked K t' i c
other-Tracked K t t' i j c e r ij puts clear s = record {
  at = puts.others i (other_way i j ij) ∙ r.at;
  within = r.within;
  forward = s.forward ∙ r.forward;
  backward = s.backward ∙ r.backward;
  clear = λ l g il at new. elim (Bool-cases (j == l)) [
    | inl same ↦
        (let eg : e ≡ g = some_injective (sym puts.put ∙ ap t'.conns ((==_iff j l).0 same) ∙ at) in
          let old : e.answered ≡ false = ap (λ (x : Conn). x.answered) eg ∙ new in
          rw (← eg) (clear old))
    | inr other ↦ r.clear l g il (sym (puts.others l other) ∙ at) new
  ];
  only = λ q d k h. r.only q d k (s.only q d k h);
}

-- The connection itself is put down again, with its key.
pub self-Tracked :
    (K : FlowKey → Type 0) (t t' : Tracker) (i : ℕ) (c : Conn) (s : TcpState)
    → Tracked K t i c
    → Puts t.conns t'.conns i (record c { state = s })
    → t'.entries ≡ t.entries
    → Tracked K t' i (record c { state = s })
self-Tracked K t t' i c s r puts e =
    let same = same_entries K t t' i c e in
    record {
      at = puts.put;
      within = r.within;
      forward = same.forward ∙ r.forward;
      backward = same.backward ∙ r.backward;
      clear = λ j g ij at new.
          let x = r.clear j g ij (sym (puts.others j ij) ∙ at) new in
          record { forward = x.forward; backward = x.backward };
      only = λ q d k h.
          same_conn_key c (record c { state = s }) d refl ∙ r.only q d k (same.only q d k h);
    }
