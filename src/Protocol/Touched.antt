-- ===== src/Protocol/Touched.antt =====
-- The frame of the protocol handlers of flow_table/core/proto: which parts of the worker's context
-- they leave alone.
use vpp_plugins.Protocol.Effects.{
  entered, update_written, tcp_init_state-found, tcp_update_state-found, opened, updated,
  next_tcp_state, first_tcp_state,
}
use vpp_plugins.Protocol.Path.{
  SamePath, SamePath-refl, SamePath-trans, entered-SamePath, track-SamePath, opened-SamePath,
}
use vpp_plugins.Buffer.Defs.{Buffer}
use vpp_plugins.Tcp.Types.{TcpState, FlowDir}
use vpp_plugins.Protocol.Handlers.{Handler, tcp, udp, icmp, unimplemented}
use vpp_plugins.Flow.Types.{Flow, unset32}
use vpp_plugins.Protocol.Tcp.{reset_established, enter_state, init_state, update_state, track}
use vpp_plugins.Flow.Defs.{WrkCtx, put_flow, update}
use vpp_plugins.Flow.Vpp.{Vpp}
use vpp_plugins.Base.{
  Bool, ℕ, ◌≡◌, some, ap, if◌then◌else◌, Option, ◌==◌, ◌∙◌, false, ◌<◌, true, refl,
}

if_flows :
    {T W : Type 0} (c : Bool) (x y : WrkCtx T W)
    → x.flows ≡ y.flows
    → (if c then x else y).flows ≡ y.flows
if_flows true x y h = h
if_flows false x y h = refl

if_table :
    {T W : Type 0} (c : Bool) (x y : WrkCtx T W)
    → x.flows_hash_table ≡ y.flows_hash_table
    → (if c then x else y).flows_hash_table ≡ y.flows_hash_table
if_table true x y h = h
if_table false x y h = refl

-- What a handler may do to the worker's context `wrk` on a buffer of the flow `f`.
pub record Touched {T W : Type 0} (wrk : WrkCtx T W) (i : ℕ) (f : Flow) (wrk' : WrkCtx T W)
    : Type 0 where
  pub after : Flow
  pub written : wrk'.flows i ≡ some after
  pub path : SamePath f after
  pub others : (j : ℕ) → (i == j) ≡ false → wrk'.flows j ≡ wrk.flows j
  pub table : wrk'.flows_hash_table ≡ wrk.flows_hash_table

module _ {T W : Type 0} (vpp : Vpp T W) where
  pub twice_written :
      (flows : ℕ → Option Flow) (i j : ℕ) (f g : Flow)
      → (i == j) ≡ false
      → update (update flows i (some f)) i (some g) j ≡ flows j
  twice_written flows i j f g h = rw h

  updated-SamePath :
      (wrk : WrkCtx T W) (f g : Flow) (s : TcpState) (b : Buffer) (d : FlowDir)
      → SamePath f g
      → SamePath f (track (entered vpp wrk g s) d b)
  updated-SamePath wrk f g s b d l =
      SamePath-trans l
        (SamePath-trans (entered-SamePath vpp wrk g s) (track-SamePath (entered vpp wrk g s) d b))

  -- The flow is written twice, in its new state and with the packet's numbers.
  twice : WrkCtx T W → ℕ → Flow → TcpState → Buffer → FlowDir → WrkCtx T W
  twice wrk i f s b d = put_flow (enter_state vpp wrk i f s) i (track (entered vpp wrk f s) d b)

  twice-Touched :
      (wrk : WrkCtx T W) (i : ℕ) (f g : Flow) (s : TcpState) (b : Buffer) (d : FlowDir)
      → SamePath f g
      → Touched wrk i f (twice wrk i g s b d)
  unfolding twice enter_state
  twice-Touched wrk i f g s b d l = record {
    after = track (entered vpp wrk g s) d b;
    written = update_written (enter_state vpp wrk i g s).flows i (track (entered vpp wrk g s) d b);
    path = updated-SamePath wrk f g s b d l;
    others = λ j ne.
        twice_written wrk.flows i j (entered vpp wrk g s) (track (entered vpp wrk g s) d b) ne;
    table = refl;
  }

  pub reset_established-flows :
      (wrk : WrkCtx T W) (f : Flow) → (reset_established vpp wrk f).flows ≡ wrk.flows
  unfolding reset_established
  reset_established-flows wrk f = if_flows _ _ wrk refl

  pub reset_established-table :
      (wrk : WrkCtx T W) (f : Flow)
      → (reset_established vpp wrk f).flows_hash_table ≡ wrk.flows_hash_table
  unfolding reset_established
  reset_established-table wrk f = if_table _ _ wrk refl

  reset_established-Touched :
      (wrk wrk' : WrkCtx T W) (i : ℕ) (f g : Flow)
      → Touched wrk i f wrk'
      → Touched wrk i f (reset_established vpp wrk' g)
  reset_established-Touched wrk wrk' i f g t = record {
    after = t.after;
    written = ap (λ (m : ℕ → Option Flow). m i) (reset_established-flows wrk' g) ∙ t.written;
    path = t.path;
    others =
        λ j ne. ap (λ (m : ℕ → Option Flow). m j) (reset_established-flows wrk' g) ∙ t.others j ne;
    table = reset_established-table wrk' g ∙ t.table;
  }

  same-Touched : (wrk : WrkCtx T W) (i : ℕ) (f : Flow) → wrk.flows i ≡ some f → Touched wrk i f wrk
  same-Touched wrk i f h = record {
    after = f;
    written = h;
    path = SamePath-refl f;
    others = λ j ne. refl;
    table = refl;
  }

  -- Every handler's `update_state`, on a buffer that has a flow, returns and touches only that flow.
  pub update_state-Touched :
      (h : Handler) (wrk : WrkCtx T W) (b : Buffer) (d : FlowDir) (f : Flow)
      → b.flow_index < unset32
      → wrk.flows b.flow_index ≡ some f
      → (wrk' : WrkCtx T W) × (update_state vpp h wrk b d ≡ some wrk')
        × Touched wrk b.flow_index f wrk'
  unfolding update_state twice
  update_state-Touched tcp wrk b d f lt found = (
    _,
    tcp_update_state-found vpp wrk b d f lt found,
    reset_established-Touched wrk _ b.flow_index f (updated vpp wrk f b d)
        (twice-Touched wrk b.flow_index f f (next_tcp_state f b d) b d (SamePath-refl f)),
  )
  update_state-Touched udp wrk b d f lt found = (wrk, refl, same-Touched wrk b.flow_index f found)
  update_state-Touched icmp wrk b d f lt found = (wrk, refl, same-Touched wrk b.flow_index f found)
  update_state-Touched unimplemented wrk b d f lt found =
      (wrk, refl, same-Touched wrk b.flow_index f found)

  -- So does every handler's `init_state`.
  pub init_state-Touched :
      (h : Handler) (wrk : WrkCtx T W) (b : Buffer) (d : FlowDir) (f : Flow)
      → b.flow_index < unset32
      → wrk.flows b.flow_index ≡ some f
      → (wrk' : WrkCtx T W) × (init_state vpp h wrk b d ≡ some wrk')
        × Touched wrk b.flow_index f wrk'
  unfolding init_state twice
  init_state-Touched tcp wrk b d f lt found = (
    _,
    tcp_init_state-found vpp wrk b d f lt found,
    twice-Touched wrk b.flow_index f (opened f b) (first_tcp_state b d) b d (opened-SamePath f b),
  )
  init_state-Touched udp wrk b d f lt found = (wrk, refl, same-Touched wrk b.flow_index f found)
  init_state-Touched icmp wrk b d f lt found = (wrk, refl, same-Touched wrk b.flow_index f found)
  init_state-Touched unimplemented wrk b d f lt found =
      (wrk, refl, same-Touched wrk b.flow_index f found)
