-- ===== src/Tracker/Follows.antt =====
-- A connection of the tracker over a run.
use vpp_plugins.Tracker.Stays.{Arrives-Tracked, Leaves-Tracked}
use vpp_plugins.Tracker.Tracked.{Tracked, Turn}
use vpp_plugins.Tracker.Spec.{Conn, Tracker, Event, arrive, leave, pass_time, Runs}
use vpp_plugins.Tcp.Types.{TcpState}
use vpp_plugins.Flow.Types.{FlowKey}
use vpp_plugins.Flow.Defs.{flow_key_reverse}
use vpp_plugins.Base.{ℕ, ◌≡◌, ◌≢◌, ◌⊎◌, Bool, true, ◌==◌, ◌||◌, refl, List, [], ◌∷◌, All}

-- The events lead the connection with the key `k` from the one state to the other.
abbrev pub Follows : FlowKey → List Event → TcpState → TcpState → Type 0
Follows k [] s s' = s' ≡ s
Follows k (arrive p ∷ es) s s' = (mid : TcpState) × Turn k p s mid × Follows k es mid s'
Follows k (leave j ∷ es) s s' = Follows k es s s'
Follows k (pass_time ∷ es) s s' = Follows k es s s'

-- No packet comes in by the reversed key before a packet of the connection, whose place is `i`, has
-- gone out. `answered` is whether one has.
abbrev pub Uncrossed : FlowKey → ℕ → (answered : Bool) → List Event → Type 0
Uncrossed k i answered [] = Unit {0}
Uncrossed k i answered (arrive p ∷ es) =
    ((answered ≡ true) ⊎ (p.key ≢ flow_key_reverse k)) × Uncrossed k i answered es
Uncrossed k i answered (leave j ∷ es) = Uncrossed k i (answered || (i == j)) es
Uncrossed k i answered (pass_time ∷ es) = Uncrossed k i answered es

-- The key of a packet that comes in is in `K`.
abbrev pub HasKey : (FlowKey → Type 0) → Event → Type 0
HasKey K (arrive p) = K p.key
HasKey K (leave j) = Unit {0}
HasKey K pass_time = Unit {0}

module _ (K : FlowKey → Type 0) (closed : (k : FlowKey) → K k → K (flow_key_reverse k)) where
  -- What a run leaves of a connection.
  pub record Followed (t' : Tracker) (i : ℕ) (c : Conn) (es : List Event) : Type 0 where
    pub state : TcpState
    pub follows : Follows c.key es c.state state
    pub answered : Bool
    pub tracked : Tracked K t' i (record c { state = state; answered = answered })

  pub Runs-Followed :
      (t t' : Tracker) (i : ℕ) (c : Conn) (es : List Event)
      → Tracked K t i c
      → Uncrossed c.key i c.answered es
      → All (HasKey K) es
      → Runs K es t t'
      → Followed t' i c es
  Runs-Followed t t' i c [] r u k e = record {
    state = c.state;
    follows = refl;
    answered = c.answered;
    tracked = rw e r;
  }
  Runs-Followed t t' i c (arrive p ∷ es) r (early, u) (kp, k) (mid, step, run) =
      let (s, turn, r') = Arrives-Tracked K closed t mid i c p r early kp step in
      let rest = Runs-Followed mid t' i (record c { state = s }) es r' u k run in
      record {
        state = rest.state;
        follows = (s, turn, rest.follows);
        answered = rest.answered;
        tracked = rest.tracked;
      }
  Runs-Followed t t' i c (leave j ∷ es) r u (kp, k) (mid, step, run) =
      let r' = Leaves-Tracked K closed t mid i j c r step in
      let rest =
        Runs-Followed mid t' i (record c { answered = c.answered || (i == j) }) es r' u k run in
      record {
        state = rest.state;
        follows = rest.follows;
        answered = rest.answered;
        tracked = rest.tracked;
      }
  Runs-Followed t t' i c (pass_time ∷ es) r u (kp, k) (mid, step, run) =
      let rest = Runs-Followed mid t' i c es (rw step r) u k run in
      record {
        state = rest.state;
        follows = rest.follows;
        answered = rest.answered;
        tracked = rest.tracked;
      }
