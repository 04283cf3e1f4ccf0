-- ===== src/Ip4/Resets.antt =====
-- The packets that a worker of flow_table/core has sent.
use vpp_plugins.Ip4.Change.{Change-Persists}
use vpp_plugins.Ip4.Input.{IsValidCtx}
use vpp_plugins.Ip4.Keeps.{IsKept, Persists}
use vpp_plugins.Ip4.Process.{ip4_output_process, add_reverse}
use vpp_plugins.Ip4.Reach.{
  Reach, IsInitial, here, next, Step, come_in, go_out, tick, Step-Change, Reach-IsValid,
}
use vpp_plugins.Ip4.Sends.{Sends, silent, resets, ip4_input_process-Sends}
use vpp_plugins.Protocol.Path.{SameEntry, SameEntry-refl, SameEntry-trans}
use vpp_plugins.Reset.Send.{reset_packet}
use vpp_plugins.Tcp.Types.{established}
use vpp_plugins.Buffer.Defs.{Buffer, vlib_buffer_get_flow}
use vpp_plugins.Flow.Types.{Flow}
use vpp_plugins.Flow.Defs.{WrkCtx, flow_table_timer_update_time, flow_table_update_flow}
use vpp_plugins.Flow.Vpp.{Vpp, Sent}
use mathlib.Core.Path.{ap₂}
use vpp_plugins.Base.{
  sym, ℕ, ◌≡◌, List, [], ◌∷◌, ◌++◌, true, some, refl, ◌∙◌, Option-cases, inl, inr, ap, ◌⊎◌, ◌≢◌,
}

-- The key of a flow, and all of its first entry but the sequence numbers.
pub record SameFirst (f g : Flow) : Type 0 where
  pub key : g.key ≡ f.key
  pub entry : SameEntry f.entry_in g.entry_in

SameFirst-IsKept : IsKept SameFirst
unfolding flow_table_update_flow
SameFirst-IsKept = record {
  same = λ f. record { key = refl; entry = SameEntry-refl f.entry_in };
  trans = λ f g h p q. record { key = q.key ∙ p.key; entry = SameEntry-trans p.entry q.entry };
  path = λ f g p. record { key = p.key; entry = p.entry_in };
  answered = λ i f. record { key = refl; entry = SameEntry-refl f.entry_in };
}

cons_injective : {x y : Sent} {xs ys : List Sent} → x ∷ xs ≡ y ∷ ys → (x ≡ y) × (xs ≡ ys)
cons_injective e = (cc e, cc e)

-- The list with an element is not empty.
no_snoc : (before : List Sent) (s : Sent) (rest : List Sent) → [] ≢ before ++ s ∷ rest
no_snoc [] s rest e = cc e
no_snoc (b ∷ before) s rest e = cc e

-- A list with one more element at its end, split at an element: it is the last one, or it stands in
-- the list before.
snoc-split :
    (xs : List Sent) (p : Sent) (before : List Sent) (s : Sent) (rest : List Sent)
    → xs ++ p ∷ [] ≡ before ++ s ∷ rest
    → ((xs ≡ before) × (p ≡ s)) ⊎ ((more : List Sent) × (xs ≡ before ++ s ∷ more))
snoc-split [] p [] s rest e = inl (refl, (cons_injective e).0)
snoc-split [] p (b ∷ before) s rest e = absurd (no_snoc before s rest (cons_injective e).1)
snoc-split (x ∷ xs) p [] s rest e = inr (xs, ap (λ y. y ∷ xs) (cons_injective e).0)
snoc-split (x ∷ xs) p (b ∷ before) s rest e =
    elim (snoc-split xs p before s rest (cons_injective e).1) [
      | inl (same, last) ↦ inl (ap₂ (λ y ys. y ∷ ys) (cons_injective e).0 same, last)
      | inr (more, split) ↦ inr (more, ap₂ (λ y ys. y ∷ ys) (cons_injective e).0 split)
    ]

module _ {T W : Type 0} (vpp : Vpp T W) where
  -- The packet `s`, before which the packets `before` were sent, was sent by one step on the way from
  -- `start` to `wrk`. It is the reset for the first entry of a flow that the step left ESTABLISHED, with
  -- the mark that it began with a SYN alone. The flow is still there, with its key and, but for the
  -- sequence numbers, its first entry.
  pub record IsReset (start wrk : WrkCtx T W) (before : List Sent) (s : Sent) : Type 0 where
    pub step_from : WrkCtx T W
    pub step_to : WrkCtx T W
    pub reached : Reach vpp start step_from
    pub step : Step vpp step_from step_to
    pub went_on : Reach vpp step_to wrk
    pub sent_before : step_from.sent ≡ before
    pub sent_after : step_to.sent ≡ before ++ s ∷ []
    pub index : ℕ
    pub then_flow : Flow
    pub then_found : step_to.flows index ≡ some then_flow
    pub state : then_flow.state ≡ established
    pub from_syn : then_flow.three_way_handshake ≡ true
    pub packet : s ≡ reset_packet vpp then_flow then_flow.entry_in
    pub flow : Flow
    pub found : wrk.flows index ≡ some flow
    pub same : SameFirst then_flow flow

  later-IsReset :
      {start wrk wrk' : WrkCtx T W} {before : List Sent} {s : Sent}
      → Persists SameFirst wrk wrk'
      → Step vpp wrk wrk'
      → IsReset start wrk before s
      → IsReset start wrk' before s
  later-IsReset persists step r =
      let (g, at, p) = persists r.index r.flow r.found in
      record {
        step_from = r.step_from;
        step_to = r.step_to;
        reached = r.reached;
        step = r.step;
        went_on = next r.went_on step;
        sent_before = r.sent_before;
        sent_after = r.sent_after;
        index = r.index;
        then_flow = r.then_flow;
        then_found = r.then_found;
        state = r.state;
        from_syn = r.from_syn;
        packet = r.packet;
        flow = g;
        found = at;
        same = SameFirst-IsKept.trans r.then_flow r.flow g r.same p;
      }

  now-IsReset :
      {start wrk wrk' : WrkCtx T W} {before : List Sent} {s : Sent} (i : ℕ) (f : Flow)
      → Reach vpp start wrk
      → Step vpp wrk wrk'
      → wrk'.flows i ≡ some f
      → f.state ≡ established
      → f.three_way_handshake ≡ true
      → wrk'.sent ≡ wrk.sent ++ reset_packet vpp f f.entry_in ∷ []
      → wrk.sent ≡ before
      → reset_packet vpp f f.entry_in ≡ s
      → IsReset start wrk' before s
  now-IsReset {start} {wrk} {wrk'} i f r step found st three e same last = record {
    step_from = wrk;
    step_to = wrk';
    reached = r;
    step = step;
    went_on = here;
    sent_before = same;
    sent_after = e ∙ ap₂ (λ (l : List Sent) (p : Sent). l ++ p ∷ []) same last;
    index = i;
    then_flow = f;
    then_found = found;
    state = st;
    from_syn = three;
    packet = sym last;
    flow = f;
    found = found;
    same = SameFirst-IsKept.same f;
  }

  output_sent : (wrk : WrkCtx T W) (b : Buffer) → (ip4_output_process vpp wrk b).1.sent ≡ wrk.sent
  unfolding ip4_output_process add_reverse
  output_sent wrk b = elim (Option-cases (vlib_buffer_get_flow wrk b)) [
    | inl null ↦ rw (null, ip4_output_process) refl
    | inr (f, found) ↦ elim (Option-cases f.entry_out.flow) [
      | inl new ↦ rw (found, new, ip4_output_process) refl
      | inr (i, old) ↦ rw (found, old, ip4_output_process) refl
    ]
  ]

  Step-Sends : {wrk wrk' : WrkCtx T W} → IsValidCtx vpp wrk → Step vpp wrk wrk' → Sends vpp wrk wrk'
  unfolding flow_table_timer_update_time
  Step-Sends v (come_in {wrk} {wrk'} b b' lt e) = ip4_input_process-Sends vpp wrk wrk' b b' v lt e
  Step-Sends v (go_out {wrk} b e) = rw (← e) (silent (output_sent wrk b))
  Step-Sends v (tick {wrk} now e) = rw (← e) (silent refl)

  -- If nothing was sent at first, then in every context that packets and timers lead to from the initial
  -- one, for each packet among those that were sent there is one step on the way that sent it: before
  -- that step exactly the packets in front of it had been sent, and after it exactly these and the packet.
  -- The packet is the reset for the first entry of a flow that is ESTABLISHED in the context after that
  -- step and has three_way_handshake set; that flow is still in the same element of the pool, with the
  -- same key and, but for the sequence numbers, the same first entry.
  pub Reach-IsReset :
      {start wrk : WrkCtx T W} (before : List Sent) (s : Sent) (rest : List Sent)
      → IsInitial vpp start
      → start.sent ≡ []
      → Reach vpp start wrk
      → wrk.sent ≡ before ++ s ∷ rest
      → IsReset start wrk before s
  Reach-IsReset before s rest z quiet here e = absurd (no_snoc before s rest (sym quiet ∙ e))
  Reach-IsReset {start} before s rest z quiet (next {wrk} {wrk'} r step) e =
      let v = Reach-IsValid vpp z r in
      let persists = Change-Persists vpp SameFirst-IsKept (Step-Change vpp step v) in
      elim (Step-Sends v step) [
        | silent same ↦
            later-IsReset persists step (Reach-IsReset before s rest z quiet r (sym same ∙ e))
        | resets i f found st three one ↦
            (elim (snoc-split wrk.sent _ before s rest (sym one ∙ e)) [
              | inl (same, last) ↦ now-IsReset i f r step found st three one same last
              | inr (more, split) ↦
                  later-IsReset persists step (Reach-IsReset before s more z quiet r split)
            ])
      ]
