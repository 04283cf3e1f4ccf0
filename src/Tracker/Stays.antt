-- ===== src/Tracker/Stays.antt =====
-- One step of the tracker, as one of its connections sees it.
use vpp_plugins.Tracker.Tracked.{
  Tracked, Turn, Clear, forwards, backwards, elsewhere, conn_key, other-Tracked, self-Tracked,
  Binds-Spares, same_entries, not_same, same_conn_key,
}
use vpp_plugins.Tracker.Spec.{
  Conn, Tracker, Packet, advance, new_conn, moved, Binds, Binds-others, Puts, Arrives, opens,
  refused, moves, Leaves, answers, passes, stops,
}
use vpp_plugins.Ip4.Mirror.{reverse_twice}
use vpp_plugins.Tcp.Types.{FlowDir, dir_in, dir_out, TcpState}
use vpp_plugins.Flow.Types.{FlowKey, EntryRef}
use vpp_plugins.Flow.Defs.{flow_key_reverse}
use vpp_plugins.Base.{
  ℕ, ◌≡◌, ◌≢◌, ◌⊎◌, Bool, none, some, true, false, ◌==◌, ◌||◌, Bool-cases, inl, inr, sym, ==_iff,
  some_injective, ◌∙◌, ap, refl, arith,
}

module _ (K : FlowKey → Type 0) (closed : (k : FlowKey) → K k → K (flow_key_reverse k)) where
  -- A packet whose key is not known is not one of the connection's, unless it comes in by the reversed
  -- key before that is known.
  unknown-Clear :
      (t : Tracker) (i : ℕ) (c : Conn) (k : FlowKey)
      → Tracked K t i c
      → (c.answered ≡ true) ⊎ (k ≢ flow_key_reverse c.key)
      → t.entries k ≡ none
      → (k ≢ c.key) × (k ≢ flow_key_reverse c.key)
  unknown-Clear t i c k r (inl old) new =
      (λ e. absurd (cc (e, new, r.forward)), λ e. absurd (cc (e, new, rw old at r.backward)))
  unknown-Clear t i c k r (inr other) new = (λ e. absurd (cc (e, new, r.forward)), other)

  -- A key that leads to another place is not one of the connection's.
  other_place :
      (t : Tracker) (i j : ℕ) (c : Conn) (k : FlowKey) (d : FlowDir)
      → Tracked K t i c
      → (i == j) ≡ false
      → t.entries k ≡ some (record { index = j; dir = d })
      → (k ≢ c.key) × (k ≢ flow_key_reverse c.key)
  other_place t i j c k d r ij known = (
    λ e. not_same i j ij (
        ap (λ (x : EntryRef). x.index)
          (some_injective (sym r.forward ∙ ap t.entries (sym e) ∙ known))),
    λ e. elim (Bool-cases c.answered) [
      | inl old ↦ not_same i j ij (
          ap (λ (x : EntryRef). x.index)
            (some_injective (sym (rw old at r.backward) ∙ ap t.entries (sym e) ∙ known)))
      | inr new ↦ absurd (cc (e, known, rw new at r.backward))
    ],
  )

  -- A packet of the connection.
  own-Tracked :
      (t t' : Tracker) (i : ℕ) (c : Conn) (p : Packet) (d : FlowDir)
      → Tracked K t i c
      → K p.key
      → t.entries p.key ≡ some (record { index = i; dir = d })
      → Puts t.conns t'.conns i (moved p d c)
      → t'.entries ≡ t.entries
      → (s : TcpState) × Turn c.key p c.state s × Tracked K t' i (record c { state = s })
  own-Tracked t t' i c p dir_in r kp known puts same = (
    advance p.handler c.state p.event dir_in,
    forwards (sym (r.only p.key dir_in kp known)),
    self-Tracked K t t' i c (advance p.handler c.state p.event dir_in) r puts same,
  )
  own-Tracked t t' i c p dir_out r kp known puts same = (
    advance p.handler c.state p.event dir_out,
    backwards (sym (r.only p.key dir_out kp known)),
    self-Tracked K t t' i c (advance p.handler c.state p.event dir_out) r puts same,
  )

  -- One more packet comes in.
  pub Arrives-Tracked :
      (t t' : Tracker) (i : ℕ) (c : Conn) (p : Packet)
      → Tracked K t i c
      → (c.answered ≡ true) ⊎ (p.key ≢ flow_key_reverse c.key)
      → K p.key
      → Arrives K p t t'
      → (s : TcpState) × Turn c.key p c.state s × Tracked K t' i (record c { state = s })
  Arrives-Tracked t t' i c p r early kp (opens j new place slot puts binds) =
      let (nf, nb) = unknown-Clear t i c p.key r early new in
      let ij : (i == j) ≡ false = elim (Bool-cases (i == j)) [
        | inl same ↦ absurd (cc (slot, r.at, (==_iff i j).0 same))
        | inr other ↦ other
      ] in
      (
        c.state,
        elsewhere nf nb,
        other-Tracked K t t' i j c (new_conn p) r ij puts
            (λ new. record { forward = nf; backward = nb })
            (Binds-Spares K t t' i j c p.key dir_in r.within (closed c.key r.within) ij binds nf
              nb),
      )
  Arrives-Tracked t t' i c p r early kp (refused new place same) =
      let (nf, nb) = unknown-Clear t i c p.key r early new in (c.state, elsewhere nf nb, rw same r)
  Arrives-Tracked t t' i c p r early kp (moves j d e known at puts same) =
      elim (Bool-cases (i == j)) [
        | inl same_place ↦
            (let ij : i ≡ j = (==_iff i j).0 same_place in
              let ce : c ≡ e = some_injective (sym r.at ∙ ap t.conns ij ∙ at) in
              let puts' : Puts t.conns t'.conns i (moved p d c) = rw ij (rw ce puts) in
              own-Tracked t t' i c p d r kp (rw ij known) puts' same)
        | inr other ↦
            (let (nf, nb) = other_place t i j c p.key d r other known in
              (
                c.state,
                elsewhere nf nb,
                other-Tracked K t t' i j c (moved p d e) r other puts
                    (λ new.
                      let x = r.clear j e other at new in
                      record { forward = x.forward; backward = x.backward })
                    (same_entries K t t' i c same),
              ))
      ]

  -- The connection's reversed key becomes known.
  answers-Tracked :
      (t t' : Tracker) (i : ℕ) (c : Conn)
      → Tracked K t i c
      → c.answered ≡ false
      → Puts t.conns t'.conns i (record c { answered = true })
      → Binds K t.entries t'.entries (flow_key_reverse c.key) (record { index = i; dir = dir_out })
      → Tracked K t' i (record c { answered = true })
  answers-Tracked t t' i c r new puts binds = record {
    at = puts.put;
    within = r.within;
    forward =
        Binds-others K t.entries t'.entries (flow_key_reverse c.key) c.key
          (record { index = i; dir = dir_out }) binds r.within
          (λ e. absurd (cc (e, r.forward, rw new at r.backward)))
        ∙ r.forward;
    backward = binds.bound;
    clear = λ j g ij at fresh.
        let x = r.clear j g ij (sym (puts.others j ij) ∙ at) fresh in
        record { forward = x.forward; backward = x.backward };
    only = λ q d kq h. elim (binds.each q kq) [
      | inl e ↦
          (let both : record { index = i; dir = d } ≡ record { index = i; dir = dir_out } =
              some_injective (sym h ∙ ap t'.entries e ∙ binds.bound) in
            ap (λ (x : EntryRef). conn_key (record c { answered = true }) x.dir) both ∙ sym e)
      | inr same ↦
          same_conn_key c (record c { answered = true }) d refl ∙ r.only q d kq (sym same ∙ h)
    ];
  }

  same_answered :
      (t : Tracker) (i : ℕ) (c : Conn) (a : Bool)
      → a ≡ c.answered
      → Tracked K t i c
      → Tracked K t i (record c { answered = a })
  same_answered t i c a e r = rw e r

  -- The reversed key of another connection is none of the connection's.
  reverse-Clear :
      (c e : Conn)
      → Clear c e
      → (flow_key_reverse e.key ≢ c.key) × (flow_key_reverse e.key ≢ flow_key_reverse c.key)
  reverse-Clear c e x = (
    λ h. x.backward (sym (reverse_twice e.key) ∙ ap flow_key_reverse h),
    λ h. x.forward (sym (reverse_twice e.key) ∙ ap flow_key_reverse h ∙ reverse_twice c.key),
  )

  or_false : (a b : Bool) → b ≡ false → (a || b) ≡ a
  or_false a b h = ground arith

  or_true : (a b : Bool) → b ≡ true → (a || b) ≡ true
  or_true a b h = ground arith

  -- A packet goes out.
  pub Leaves-Tracked :
      (t t' : Tracker) (i j : ℕ) (c : Conn)
      → Tracked K t i c
      → Leaves K j t t'
      → Tracked K t' i (record c { answered = c.answered || (i == j) })
  Leaves-Tracked t t' i j c r (answers e at new puts binds) = elim (Bool-cases (i == j)) [
    | inl same_place ↦
        (let ij : i ≡ j = (==_iff i j).0 same_place in
          let ce : c ≡ e = some_injective (sym r.at ∙ ap t.conns ij ∙ at) in
          rw (or_true c.answered (i == j) same_place)
            (answers-Tracked t t' i c r (rw ce new) (rw ij (rw ce puts)) (rw ij (rw ce binds))))
    | inr other ↦
        (let x = r.clear j e other at new in
          let (nf, nb) = reverse-Clear c e x in
          same_answered t' i c (c.answered || (i == j)) (or_false c.answered (i == j) other) (
            other-Tracked K t t' i j c (record e { answered = true }) r other puts
              (λ no. absurd (cc no))
              (Binds-Spares K t t' i j c (flow_key_reverse e.key) dir_out r.within
                (closed c.key r.within) other binds nf nb)))
  ]
  Leaves-Tracked t t' i j c r (passes e at old same) = elim (Bool-cases (i == j)) [
    | inl same_place ↦
        (let ij : i ≡ j = (==_iff i j).0 same_place in
          let ce : c ≡ e = some_injective (sym r.at ∙ ap t.conns ij ∙ at) in
          same_answered t' i c (c.answered || (i == j))
            (or_true c.answered (i == j) same_place ∙ sym (rw ce old)) (rw same r))
    | inr other ↦
        same_answered t' i c (c.answered || (i == j)) (or_false c.answered (i == j) other)
          (rw same r)
  ]
  Leaves-Tracked t t' i j c r (stops free same) = elim (Bool-cases (i == j)) [
    | inl same_place ↦ absurd (cc (free, r.at, (==_iff i j).0 same_place))
    | inr other ↦
        same_answered t' i c (c.answered || (i == j)) (or_false c.answered (i == j) other)
          (rw same r)
  ]
