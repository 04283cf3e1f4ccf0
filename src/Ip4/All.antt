-- ===== src/Ip4/All.antt =====
-- Properties that every flow of a worker of flow_table/core has.
use vpp_plugins.Ip4.Input.{Touched-flows}
use vpp_plugins.Ip4.Arrive.{packet_key, fresh_flow}
use vpp_plugins.Ip4.Process.{first_flow}
use vpp_plugins.Buffer.Defs.{Buffer}
use vpp_plugins.Buffer.Parse.{ip4_protocol}
use vpp_plugins.Protocol.Handlers.{Handler}
use vpp_plugins.Protocol.Path.{SamePath}
use vpp_plugins.Protocol.Touched.{Touched}
use vpp_plugins.Tcp.Types.{dir_out}
use vpp_plugins.Flow.Types.{Flow}
use vpp_plugins.Flow.Defs.{WrkCtx, update, flow_table_update_flow, flow_key_reverse}
use vpp_plugins.Base.{
  ℕ, ◌≡◌, ◌<◌, some, Bool-cases, ◌==◌, inl, inr, ap, Option, sym, ◌∙◌, some_injective,
}

-- The flow that the packet `b` opens in the element `i`.
abbrev pub opened_by : ℕ → Handler → Buffer → Flow
opened_by i h b = first_flow i (fresh_flow i) b (packet_key h b)

-- The flow in the element `i` once its second entry is in use.
abbrev pub answered_flow : ℕ → Flow → Flow
answered_flow i f = flow_table_update_flow i f (flow_key_reverse f.key) dir_out

-- Every flow of the context has the property.
abbrev pub All : {T W : Type 0} → (Flow → Type 0) → WrkCtx T W → Type 0
All P wrk = (i : ℕ) (f : Flow) → wrk.flows i ≡ some f → P f

-- A property that a new flow has and that no step on a flow takes away.
pub record Closed (P : Flow → Type 0) : Type 0 where
  pub path : (f g : Flow) → SamePath f g → P f → P g
  pub opened : (i : ℕ) (h : Handler) (b : Buffer) → ip4_protocol b < 255 → P (opened_by i h b)
  pub answered : (i : ℕ) (f : Flow) → P f → P (answered_flow i f)

module _ {T W : Type 0} {P : Flow → Type 0} where
  pub put-All :
      (wrk wrk' : WrkCtx T W) (i : ℕ) (f : Flow)
      → wrk'.flows ≡ update wrk.flows i (some f)
      → P f
      → All P wrk
      → All P wrk'
  put-All wrk wrk' i f e has all j g at = elim (Bool-cases (i == j)) [
    | inl same ↦
        (let written : update wrk.flows i (some f) j ≡ some g =
            ap (λ (m : ℕ → Option Flow). m j) (sym e) ∙ at in
          let fg : f ≡ g = some_injective (rw same at written) in rw (← fg) has)
    | inr other ↦
        (let written : update wrk.flows i (some f) j ≡ some g =
            ap (λ (m : ℕ → Option Flow). m j) (sym e) ∙ at in
          all j g (rw other at written))
  ]

  pub same-All : (wrk wrk' : WrkCtx T W) → wrk'.flows ≡ wrk.flows → All P wrk → All P wrk'
  same-All wrk wrk' e all i f h = all i f (ap (λ (m : ℕ → Option Flow). m i) (sym e) ∙ h)

  pub Touched-All :
      (wrk wrk' : WrkCtx T W) (i : ℕ) (f : Flow)
      → Closed P
      → wrk.flows i ≡ some f
      → Touched wrk i f wrk'
      → All P wrk
      → All P wrk'
  Touched-All wrk wrk' i f c found t all =
      put-All wrk wrk' i t.after (Touched-flows wrk wrk' i f t)
        (c.path f t.after t.path (all i f found)) all
