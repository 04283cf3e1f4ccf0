-- ===== src/Tracker/Isolated.antt =====
-- A flow of a worker of flow_table/core over a run with any other packets.
use vpp_plugins.Tcp.Types.{start, dir_in}
use vpp_plugins.Tracker.Follows.{Uncrossed, HasKey, Runs-Followed, Followed, Follows}
use vpp_plugins.Tracker.Ready.{IsReady, Arrives-new_conn, Runs-IsReady}
use vpp_plugins.Tracker.Simulates.{event_of, IsExpected, run_inputs-Runs}
use vpp_plugins.Tracker.Spec.{Conn, Tracker, Packet, Runs, new_conn, advance, IsWithin}
use vpp_plugins.Tracker.View.{CollisionFree, packet_of, view, conn_of, conn_at}
use vpp_plugins.Ip4.Reach.{IsInitial, Reach-IsValid, here}
use vpp_plugins.Ip4.Safety.{registered_handler}
use vpp_plugins.Ip4.Run.{Input, comes, goes, expires, run_inputs}
use vpp_plugins.Buffer.Defs.{Buffer}
use vpp_plugins.Buffer.Parse.{ip4_protocol}
use vpp_plugins.Flow.Types.{Flow, FlowKey}
use vpp_plugins.Flow.Defs.{WrkCtx, flow_key_reverse, flow_table_hash}
use vpp_plugins.Flow.Vpp.{Vpp}
use vpp_plugins.Base.{
  ℕ, Option, ◌≡◌, ◌≢◌, none, some, false, some_injective, ap, refl, List, [], ◌∷◌, All, map, ◌<◌,
  sym, ◌∙◌,
}

-- What the tracker reads of a packet that comes in.
abbrev pub seen : Buffer → Packet
seen b = packet_of (registered_handler (ip4_protocol b)) b

conn_at-some :
    (o : Option Flow) (c : Conn) → conn_at o ≡ some c → (f : Flow) × (o ≡ some f) × (conn_of f ≡ c)
conn_at-some none c h = absurd (cc h)
conn_at-some (some f) c h = (f, refl, some_injective h)

events-HasKey :
    (K : FlowKey → Type 0) (xs : List Input)
    → All (IsExpected K) xs
    → All (HasKey K) (map event_of xs)
events-HasKey K [] e = tt
events-HasKey K (comes b ∷ xs) ((lt, kp), e) = (kp, events-HasKey K xs e)
events-HasKey K (goes b ∷ xs) (u, e) = (tt, events-HasKey K xs e)
events-HasKey K (expires now ∷ xs) (u, e) = (tt, events-HasKey K xs e)

module _ {T W : Type 0} (vpp : Vpp T W) (K : FlowKey → Type 0) (free : CollisionFree vpp K)
    (closed : (k : FlowKey) → K k → K (flow_key_reverse k)) where
  -- The packet `b` opens a flow in the element `i`: no entry is known for its key or for the reverse
  -- of its key, and these are different.
  pub record Opens (wrk : WrkCtx T W) (b : Buffer) (i : ℕ) : Type 0 where
    pub handled : ip4_protocol b < 255
    pub within : K ((seen b).key)
    pub new : vpp.hash_get wrk.flows_hash_table (flow_table_hash vpp ((seen b).key)) ≡ none
    pub back :
        vpp.hash_get wrk.flows_hash_table (flow_table_hash vpp (flow_key_reverse ((seen b).key)))
        ≡ none
    pub apart : flow_key_reverse ((seen b).key) ≢ (seen b).key
    pub slot : vpp.pool_get wrk.flows ≡ some i

  initial-IsReady : (wrk : WrkCtx T W) → IsInitial vpp wrk → IsReady K (view vpp wrk)
  initial-IsReady wrk z =
      let no_conn : (j : ℕ) → (view vpp wrk).conns j ≡ none = λ j. ap conn_at (z.no_flows j) in
      record {
        within = λ j e at. absurd (cc (no_conn j, at));
        bound = λ j e at. absurd (cc (no_conn j, at));
        live = λ q ref kq h. absurd (cc (z.no_keys (flow_table_hash vpp q), h));
      }

  -- Any inputs in a ready context, and the first packet of a flow.
  opened-Followed :
      (wrk : WrkCtx T W) (b : Buffer) (i : ℕ) (ys : List Input) (t' : Tracker)
      → IsReady K (view vpp wrk)
      → Opens wrk b i
      → All (IsExpected K) ys
      → Uncrossed (seen b).key i false (map event_of ys)
      → Runs K (map event_of (comes b ∷ ys)) (view vpp wrk) t'
      → Followed K closed t' i (new_conn (seen b)) (map event_of ys)
  opened-Followed wrk b i ys t' ready o ey u (mid, step, run) =
      let r =
        Arrives-new_conn K (view vpp wrk) mid i (seen b) ready o.within
          (closed ((seen b).key) o.within) o.new o.back o.apart o.slot step in
      Runs-Followed K closed mid t' i (new_conn (seen b)) (map event_of ys) r u
        (events-HasKey K ys ey) run

  -- From the initial context any inputs lead to a context in which the packet `b` opens a flow in the
  -- element `i` of the pool, and then come any other inputs: packets of this and of other conversations
  -- that come in and go out, in any order, and expiring timers. It is assumed that the keys of all
  -- packets lie in a set in which no two keys have the same hash and which contains the reverse of each
  -- of its keys, that all protocols are below 255, and that no packet comes in by the reverse of the
  -- key of `b` before a packet of the flow has gone out. Then all is handled without a fault, the flow
  -- is in its element with its key, and its state is the one that its own packets lead to, in the
  -- direction of the key of each: no other packet has changed it.
  pub run_inputs-Follows :
      (start_wrk wrk : WrkCtx T W) (xs ys : List Input) (b : Buffer) (i : ℕ)
      → IsInitial vpp start_wrk
      → All (IsExpected K) xs
      → run_inputs vpp start_wrk xs ≡ some wrk
      → Opens wrk b i
      → All (IsExpected K) ys
      → Uncrossed (seen b).key i false (map event_of ys)
      → (wrk' : WrkCtx T W) × (f : Flow) × (run_inputs vpp wrk (comes b ∷ ys) ≡ some wrk')
        × (wrk'.flows i ≡ some f)
        × (f.key ≡ (seen b).key)
        × Follows
            (seen b).key
            (map event_of ys)
            (advance (seen b).handler start (seen b).event dir_in)
            f.state
  run_inputs-Follows start_wrk wrk xs ys b i z ex reached o ey u =
      let none_within : IsWithin K (view vpp start_wrk) = (initial-IsReady start_wrk z).within in
      let (wrk1, eq1, v1, runs1) =
        run_inputs-Runs vpp K free closed start_wrk xs (Reach-IsValid vpp z here) none_within ex in
      let same : wrk1 ≡ wrk = some_injective (sym eq1 ∙ reached) in
      let ready =
        Runs-IsReady K (view vpp start_wrk) (view vpp wrk1) (map event_of xs)
          (initial-IsReady start_wrk z) (events-HasKey K xs ex) runs1 in
      let (wrk', eq, v, runs) =
        run_inputs-Runs vpp K free closed wrk (comes b ∷ ys) (rw (← same) v1)
          (rw (← same) (ready.within)) ((o.handled, o.within), ey) in
      let done = opened-Followed wrk b i ys (view vpp wrk') (rw (← same) ready) o ey u runs in
      let (f, at, conn) = conn_at-some (wrk'.flows i) _ done.tracked.at in
      (
        wrk',
        f,
        eq,
        at,
        ap (λ (c : Conn). c.key) conn,
        rw (ap (λ (c : Conn). c.state) conn) (done.follows),
      )
