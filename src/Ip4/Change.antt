-- ===== src/Ip4/Change.antt =====
-- What the hooks of flow_table/core/ip4_process.c and the timers may do to the context of a worker:
-- one constructor for each way in which it changes.
use vpp_plugins.Protocol.Touched.{Touched}
use vpp_plugins.Protocol.Effects.{update_written}
use vpp_plugins.Protocol.Handlers.{Handler}
use vpp_plugins.Buffer.Parse.{ip4_protocol}
use vpp_plugins.Buffer.Defs.{Buffer}
use vpp_plugins.Tcp.Types.{dir_out}
use vpp_plugins.Ip4.Arrive.{packet_key, fresh_flow, with_flow, with_flow-IsValid}
use vpp_plugins.Ip4.Input.{IsValidCtx, entry_ref, first_flow-ok, Touched-IsValid}
use vpp_plugins.Ip4.Keeps.{
  IsKept, Persists, Keeps, same_key-IsKept, same-Persists, rewrite-Persists, put-Persists,
  Touched-Persists, Persists-trans,
}
use vpp_plugins.Ip4.Process.{add_reverse}
use vpp_plugins.Ip4.All.{All, Closed, opened_by, answered_flow, put-All, same-All, Touched-All}
use vpp_plugins.Ip4.Valid.{FlowOk, set-IsValid, put-IsValid}
use vpp_plugins.Flow.Types.{Flow}
use vpp_plugins.Flow.Defs.{
  WrkCtx, flow_key_reverse, flow_table_hash, flow_table_update_flow, update,
}
use vpp_plugins.Flow.Vpp.{Vpp}
use vpp_plugins.Base.{◌==◌, false, Option, ℕ, ◌≡◌, ◌<◌, some, refl, arith}

module _ {T W : Type 0} (vpp : Vpp T W) where
  -- The context with the flow that the packet `b` opens, when the handler starts.
  abbrev pub with_opened : WrkCtx T W → ℕ → Handler → Buffer → WrkCtx T W
  with_opened wrk i h b =
      with_flow vpp wrk i (opened_by i h b) (flow_table_hash vpp (packet_key h b))

  pub data Change (wrk : WrkCtx T W) : WrkCtx T W → Type 0 where
    -- Nothing but the timer wheel and what was sent.
    stays :
        {wrk' : WrkCtx T W}
        → wrk'.flows ≡ wrk.flows
        → wrk'.flows_hash_table ≡ wrk.flows_hash_table
        → Change wrk wrk'
    -- A handler runs on a packet of the flow `f`.
    moves :
        {wrk' : WrkCtx T W} (i : ℕ) (f : Flow)
        → wrk.flows i ≡ some f
        → Touched wrk i f wrk'
        → Change wrk wrk'
    -- A packet whose key is not known opens a flow in a free element, and the handler runs on it.
    opens :
        {wrk' : WrkCtx T W} (i : ℕ) (h : Handler) (b : Buffer)
        → vpp.pool_get wrk.flows ≡ some i
        → ip4_protocol b < 255
        → Touched (with_opened wrk i h b) i (opened_by i h b) wrk'
        → Change wrk wrk'
    -- The first packet of a flow to go out puts its second entry into use.
    answers :
        {wrk' : WrkCtx T W} (i : ℕ) (f : Flow)
        → wrk.flows i ≡ some f
        → wrk' ≡ add_reverse vpp wrk i f
        → Change wrk wrk'

  pub add_reverse-IsValid :
      (wrk : WrkCtx T W) (i : ℕ) (f : Flow)
      → IsValidCtx vpp wrk
      → wrk.flows i ≡ some f
      → IsValidCtx vpp (add_reverse vpp wrk i f)
  unfolding add_reverse flow_table_update_flow
  add_reverse-IsValid wrk i f v found =
      let g = answered_flow i f in
      let ok = v.flows_ok i f found in
      let ok' : FlowOk i g = ground arith in
      set-IsValid vpp (update wrk.flows i (some g)) wrk.flows_hash_table
        (flow_table_hash vpp (flow_key_reverse f.key)) (entry_ref i dir_out)
        (record { target = g; found = update_written wrk.flows i g; back = refl })
        (put-IsValid vpp wrk.flows wrk.flows_hash_table i g
          (record { ok = ok'; keeps = λ h at back. refl }) v)

  pub opened-IsValid :
      (wrk : WrkCtx T W) (i : ℕ) (h : Handler) (b : Buffer)
      → vpp.pool_get wrk.flows ≡ some i
      → IsValidCtx vpp wrk
      → IsValidCtx vpp (with_opened wrk i h b)
  opened-IsValid wrk i h b slot v =
      with_flow-IsValid vpp wrk i (opened_by i h b) (flow_table_hash vpp (packet_key h b)) v
        (vpp.pool_get-free wrk.flows i slot)
        (first_flow-ok i (fresh_flow i) b (packet_key h b) refl (vpp.pool_get-lt wrk.flows i slot)
          refl refl)

  pub Change-IsValid :
      {wrk wrk' : WrkCtx T W} → Change wrk wrk' → IsValidCtx vpp wrk → IsValidCtx vpp wrk'
  Change-IsValid (stays flows table) v = rw (flows, table) v
  Change-IsValid {wrk} {wrk'} (moves i f found t) v = Touched-IsValid vpp wrk wrk' i f v found t
  Change-IsValid {wrk} {wrk'} (opens i h b slot lt t) v =
      Touched-IsValid vpp (with_opened wrk i h b) wrk' i (opened_by i h b)
        (opened-IsValid wrk i h b slot v) (update_written wrk.flows i (opened_by i h b)) t
  Change-IsValid {wrk} (answers i f found e) v = rw e (add_reverse-IsValid wrk i f v found)

  update_others :
      (flows : ℕ → Option Flow) (i j : ℕ) (f : Flow)
      → (i == j) ≡ false
      → update flows i (some f) j ≡ flows j
  update_others flows i j f ne = rw ne refl

  answered-Persists :
      {R : Flow → Flow → Type 0} (wrk : WrkCtx T W) (i : ℕ) (f : Flow)
      → IsKept R
      → wrk.flows i ≡ some f
      → Persists R wrk (add_reverse vpp wrk i f)
  unfolding add_reverse
  answered-Persists wrk i f kept found =
      rewrite-Persists kept wrk (add_reverse vpp wrk i f) i f (answered_flow i f)
        (update_written wrk.flows i (answered_flow i f))
        (λ j ne. update_others wrk.flows i j (answered_flow i f) ne) found (kept.answered i f)

  -- What every step on a flow keeps stays true between the flows before and after.
  pub Change-Persists :
      {R : Flow → Flow → Type 0} {wrk wrk' : WrkCtx T W}
      → IsKept R
      → Change wrk wrk'
      → Persists R wrk wrk'
  Change-Persists {R} {wrk} {wrk'} kept (stays flows table) = same-Persists kept wrk wrk' flows
  Change-Persists {R} {wrk} {wrk'} kept (moves i f found t) =
      Touched-Persists kept wrk wrk' i f found t
  Change-Persists {R} {wrk} {wrk'} kept (opens i h b slot lt t) =
      let f = opened_by i h b in
      let added = with_opened wrk i h b in
      Persists-trans kept wrk added wrk'
        (put-Persists kept wrk added i (λ j ne. update_others wrk.flows i j f ne)
          (vpp.pool_get-free wrk.flows i slot))
        (Touched-Persists kept added wrk' i f (update_written wrk.flows i f) t)
  Change-Persists {R} {wrk} kept (answers i f found e) = rw e (answered-Persists wrk i f kept found)

  pub Change-Keeps : {wrk wrk' : WrkCtx T W} → Change wrk wrk' → Keeps wrk wrk'
  Change-Keeps c = Change-Persists same_key-IsKept c

  answered-All :
      {P : Flow → Type 0} (wrk : WrkCtx T W) (i : ℕ) (f : Flow)
      → Closed P
      → wrk.flows i ≡ some f
      → All P wrk
      → All P (add_reverse vpp wrk i f)
  unfolding add_reverse
  answered-All wrk i f c found all =
      put-All wrk (add_reverse vpp wrk i f) i (answered_flow i f) refl
        (c.answered i f (all i f found)) all

  -- A property that a new flow has and that no step on a flow takes away stays true of all flows.
  pub Change-All :
      {P : Flow → Type 0} {wrk wrk' : WrkCtx T W}
      → Closed P
      → Change wrk wrk'
      → All P wrk
      → All P wrk'
  Change-All {P} {wrk} {wrk'} c (stays flows table) all = same-All wrk wrk' flows all
  Change-All {P} {wrk} {wrk'} c (moves i f found t) all = Touched-All wrk wrk' i f c found t all
  Change-All {P} {wrk} {wrk'} c (opens i h b slot lt t) all =
      let f = opened_by i h b in
      let added = with_opened wrk i h b in
      Touched-All added wrk' i f c (update_written wrk.flows i f) t
        (put-All wrk added i f refl (c.opened i h b lt) all)
  Change-All {P} {wrk} c (answers i f found e) all = rw e (answered-All wrk i f c found all)
