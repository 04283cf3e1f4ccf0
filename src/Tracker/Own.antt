-- ===== src/Tracker/Own.antt =====
-- The packets of one connection of the tracker, and what its state says of them.
use vpp_plugins.Tracker.Isolated.{seen, Opens, run_inputs-Follows}
use vpp_plugins.Tracker.Simulates.{IsExpected, event_of}
use vpp_plugins.Ip4.Reach.{IsInitial}
use vpp_plugins.Buffer.Defs.{Buffer}
use vpp_plugins.Ip4.Run.{Input, run_inputs, comes}
use vpp_plugins.Tracker.View.{CollisionFree}
use vpp_plugins.Flow.Vpp.{Vpp}
use vpp_plugins.Tracker.Follows.{Follows, Uncrossed}
use vpp_plugins.Tracker.Tracked.{Turn, forwards, backwards, elsewhere}
use vpp_plugins.Tracker.Spec.{Event, Packet, arrive, leave, pass_time, advance}
use vpp_plugins.Tcp.Runs.{
  Events, run, seen_fins, total, one_if_fin, seen_acks, one_if_ack, run-seen_fins, run-seen_acks,
}
use vpp_plugins.Tcp.Transfers.{tcp_state_transfer-next_state}
use vpp_plugins.Tcp.Types.{TcpState, TcpEvent, FlowDir, dir_in, dir_out, start}
use vpp_plugins.Protocol.Handlers.{Handler, tcp, udp, icmp, unimplemented}
use vpp_plugins.Flow.Types.{FlowKey, Flow}
use vpp_plugins.Flow.Defs.{flow_key_reverse, WrkCtx}
use vpp_plugins.Base.{
  ℕ, ◌≡◌, ◌≢◌, ◌⊎◌, inl, inr, refl, ap, sym, ◌∙◌, List, [], ◌∷◌, some, All, map, ◌≤◌, false,
}

-- The TCP packets of the connection with the key `k`, in order, each with the direction of its key.
pub data Own (k : FlowKey) : List Event → Events → Type 0 where
  nothing : Own k [] []
  forward :
      {p : Packet} {es : List Event} {ms : Events}
      → p.key ≡ k
      → p.handler ≡ tcp
      → Own k es ms
      → Own k (arrive p ∷ es) ((p.event, dir_in) ∷ ms)
  backward :
      {p : Packet} {es : List Event} {ms : Events}
      → p.key ≡ flow_key_reverse k
      → p.handler ≡ tcp
      → Own k es ms
      → Own k (arrive p ∷ es) ((p.event, dir_out) ∷ ms)
  not_tcp :
      {p : Packet} {es : List Event} {ms : Events}
      → p.handler ≢ tcp
      → Own k es ms
      → Own k (arrive p ∷ es) ms
  foreign :
      {p : Packet} {es : List Event} {ms : Events}
      → p.key ≢ k
      → p.key ≢ flow_key_reverse k
      → Own k es ms
      → Own k (arrive p ∷ es) ms
  leaves : {j : ℕ} {es : List Event} {ms : Events} → Own k es ms → Own k (leave j ∷ es) ms
  waits : {es : List Event} {ms : Events} → Own k es ms → Own k (pass_time ∷ es) ms

tcp_or_not : (h : Handler) → (h ≡ tcp) ⊎ (h ≢ tcp)
tcp_or_not tcp = inl refl
tcp_or_not udp = inr (λ e. absurd (cc e))
tcp_or_not icmp = inr (λ e. absurd (cc e))
tcp_or_not unimplemented = inr (λ e. absurd (cc e))

advance-tcp :
    (h : Handler) (s : TcpState) (e : TcpEvent) (d : FlowDir)
    → h ≡ tcp
    → advance h s e d ≡ run s ((e, d) ∷ [])
unfolding advance run
advance-tcp h s e d is_tcp = rw is_tcp (sym (tcp_state_transfer-next_state s e d))

advance-other :
    (h : Handler) (s : TcpState) (e : TcpEvent) (d : FlowDir) → h ≢ tcp → advance h s e d ≡ s
unfolding advance
advance-other tcp s e d other = absurd (other refl)
advance-other udp s e d other = refl
advance-other icmp s e d other = refl
advance-other unimplemented s e d other = refl

-- A turn of the connection, and the packets after it.
Turn-Own :
    (k : FlowKey) (p : Packet) (es : List Event) (s mid s' : TcpState) (ms : Events)
    → Turn k p s mid
    → Own k es ms
    → s' ≡ run mid ms
    → (ns : Events) × Own k (arrive p ∷ es) ns × (s' ≡ run s ns)
unfolding run
Turn-Own k p es s mid s' ms (forwards e) own eq = elim (tcp_or_not p.handler) [
  | inl is_tcp ↦ (
    (p.event, dir_in) ∷ ms,
    forward e is_tcp own,
    eq ∙ ap (λ x. run x ms) (advance-tcp p.handler s p.event dir_in is_tcp),
  )
  | inr other ↦ (
    ms,
    not_tcp other own,
    eq ∙ ap (λ x. run x ms) (advance-other p.handler s p.event dir_in other),
  )
]
Turn-Own k p es s mid s' ms (backwards e) own eq = elim (tcp_or_not p.handler) [
  | inl is_tcp ↦ (
    (p.event, dir_out) ∷ ms,
    backward e is_tcp own,
    eq ∙ ap (λ x. run x ms) (advance-tcp p.handler s p.event dir_out is_tcp),
  )
  | inr other ↦ (
    ms,
    not_tcp other own,
    eq ∙ ap (λ x. run x ms) (advance-other p.handler s p.event dir_out other),
  )
]
Turn-Own k p es s mid s' ms (elsewhere nf nb) own eq = (ms, foreign nf nb own, eq)

Follows-Own :
    (k : FlowKey) (es : List Event) (s s' : TcpState)
    → Follows k es s s'
    → (ms : Events) × Own k es ms × (s' ≡ run s ms)
unfolding run
Follows-Own k [] s s' e = ([], nothing, e)
Follows-Own k (arrive p ∷ es) s s' (mid, turn, rest) =
    let (ms, own, eq) = Follows-Own k es mid s' rest in Turn-Own k p es s mid s' ms turn own eq
Follows-Own k (leave j ∷ es) s s' f =
    let (ms, own, eq) = Follows-Own k es s s' f in (ms, leaves own, eq)
Follows-Own k (pass_time ∷ es) s s' f =
    let (ms, own, eq) = Follows-Own k es s s' f in (ms, waits own, eq)

-- What the flow in the element `i` says of the packets of its connection among the inputs.
pub record Explained {T W : Type 0} (wrk : WrkCtx T W) (i : ℕ) (k : FlowKey) (xs : List Input)
    : Type 0 where
  pub flow : Flow
  pub found : wrk.flows i ≡ some flow
  pub key : flow.key ≡ k
  pub packets : Events
  pub own : Own k (map event_of xs) packets
  pub state : flow.state ≡ run start packets
  pub fins : seen_fins flow.state ≤ total one_if_fin packets
  pub acks : seen_acks flow.state ≤ total one_if_ack packets

module _ {T W : Type 0} (vpp : Vpp T W) (K : FlowKey → Type 0) (free : CollisionFree vpp K)
    (closed : (k : FlowKey) → K k → K (flow_key_reverse k)) where
  -- From the initial context any inputs lead to a context in which the packet `b` opens a flow in the
  -- element `i` of the pool, and then come any other inputs: packets of this and of other conversations
  -- that come in and go out, in any order, and expiring timers. It is assumed that the keys of all
  -- packets lie in a set in which no two keys have the same hash and which contains the reverse of each
  -- of its keys, that all protocols are below 255, and that no packet comes in by the reverse of the
  -- key of `b` before a packet of the flow has gone out. Then the state of the flow is the one that the
  -- table of transfers leads to from START with the flow's own TCP packets, each in the direction of its
  -- key. There are among these at least two with the event FIN if the state is TIME_WAIT, one if it is
  -- FIN_WAIT, and at least one with the event ACK if it is ESTABLISHED, FIN_WAIT, CLOSE_WAIT or TIME_WAIT.
  pub run_inputs-Explained :
      (start_wrk wrk : WrkCtx T W) (xs ys : List Input) (b : Buffer) (i : ℕ)
      → IsInitial vpp start_wrk
      → All (IsExpected K) xs
      → run_inputs vpp start_wrk xs ≡ some wrk
      → Opens vpp K free closed wrk b i
      → All (IsExpected K) ys
      → Uncrossed (seen b).key i false (map event_of ys)
      → (wrk' : WrkCtx T W) × (run_inputs vpp wrk (comes b ∷ ys) ≡ some wrk')
        × Explained wrk' i (seen b).key (comes b ∷ ys)
  run_inputs-Explained start_wrk wrk xs ys b i z ex reached o ey u =
      let (wrk', f, eq, found, key, follows) =
        run_inputs-Follows vpp K free closed start_wrk wrk xs ys b i z ex reached o ey u in
      let (ms, own, state) =
        Follows-Own (seen b).key (map event_of (comes b ∷ ys)) start f.state
          (_, forwards refl, follows) in
      (
        wrk',
        eq,
        record {
          flow = f;
          found = found;
          key = key;
          packets = ms;
          own = own;
          state = state;
          fins = rw state (run-seen_fins ms);
          acks = rw state (run-seen_acks ms);
        },
      )
