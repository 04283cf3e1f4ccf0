-- ===== src/Ip4/Reach.antt =====
-- The contexts that a worker of flow_table/core can be in: any packets come in and go out, in any
-- order, with any flow index in the buffers that go out, and timers expire at any time.
use vpp_plugins.Ip4.Change.{Change, Change-IsValid, Change-Keeps, Change-All, stays}
use vpp_plugins.Ip4.Shown.{IsShown-Closed, AllShown}
use vpp_plugins.Ip4.Keeps.{Keeps, Persists-refl, Persists-trans, same_key-IsKept}
use vpp_plugins.Ip4.All.{All, Closed}
use vpp_plugins.Reset.Targets.{tcp_send_reset-in}
use vpp_plugins.Reset.Send.{tcp_send_reset, send_on}
use vpp_plugins.Protocol.Handlers.{registered_handlers}
use vpp_plugins.Ip4.Process.{ip4_input_process, accept, ip4_output_process, Outcome}
use vpp_plugins.Ip4.Safety.{ip4_input_process-IsValid}
use vpp_plugins.Ip4.Output.{ip4_output_process-Change}
use vpp_plugins.Flow.Types.{Flow}
use vpp_plugins.Buffer.Parse.{ip4_protocol}
use vpp_plugins.Ip4.Input.{IsValidCtx}
use vpp_plugins.Buffer.Defs.{Buffer}
use vpp_plugins.Flow.Defs.{WrkCtx, flow_table_timer_update_time}
use vpp_plugins.Flow.Vpp.{Vpp, Sent}
use vpp_plugins.Base.{
  ℕ, ◌≡◌, ◌<◌, List, none, some, if◌then◌else◌, ap, some_injective, sym, ◌∙◌, refl,
}

module _ {T W : Type 0} (vpp : Vpp T W) where
  -- One hook has run on one packet, or the timer node has run.
  pub data Step : WrkCtx T W → WrkCtx T W → Type 0 where
    come_in :
        {wrk wrk' : WrkCtx T W} (b b' : Buffer)
        → ip4_protocol b < 255
        → ip4_input_process vpp registered_handlers wrk b ≡ some (accept, wrk', b')
        → Step wrk wrk'
    go_out :
        {wrk wrk' : WrkCtx T W} (b : Buffer)
        → (ip4_output_process vpp wrk b).1 ≡ wrk'
        → Step wrk wrk'
    tick :
        {wrk wrk' : WrkCtx T W} (now : ℕ)
        → (flow_table_timer_update_time vpp wrk now).1 ≡ wrk'
        → Step wrk wrk'

  pub data Reach (start : WrkCtx T W) : WrkCtx T W → Type 0 where
    here : Reach start start
    next : {wrk wrk' : WrkCtx T W} → Reach start wrk → Step wrk wrk' → Reach start wrk'

  -- What `flow_table_main_init` sets up: no flow, and a hash table with no key.
  pub record IsInitial (wrk : WrkCtx T W) : Type 0 where
    pub no_flows : (i : ℕ) → wrk.flows i ≡ none
    pub no_keys : (k : ℕ) → vpp.hash_get wrk.flows_hash_table k ≡ none

  IsInitial-IsValid : (wrk : WrkCtx T W) → IsInitial wrk → IsValidCtx vpp wrk
  IsInitial-IsValid wrk z = record {
    flows_ok = λ i f h. cc (z.no_flows i, h);
    table_ok = λ k ref h. cc (z.no_keys k, h);
  }

  pub Step-Change :
      {wrk wrk' : WrkCtx T W} → Step wrk wrk' → IsValidCtx vpp wrk → Change vpp wrk wrk'
  unfolding flow_table_timer_update_time
  Step-Change (come_in {wrk} {wrk'} b b' lt e) v =
      let done = ip4_input_process-IsValid vpp wrk b v lt in
      let same : wrk' ≡ done.wrk =
        ap (λ (o : Outcome T W). o.1) (some_injective (sym e ∙ done.eq)) in
      rw same done.change
  Step-Change (go_out {wrk} b e) v = rw (← e) (ip4_output_process-Change vpp wrk b)
  Step-Change (tick {wrk} now e) v = rw (← e) (stays refl refl)

  Reach-valid :
      {start wrk : WrkCtx T W} → IsValidCtx vpp start → Reach start wrk → IsValidCtx vpp wrk
  Reach-valid v here = v
  Reach-valid v (next r s) = let w = Reach-valid v r in Change-IsValid vpp (Step-Change s w) w

  -- Every context that packets of protocols below 255, coming in and going out, and expiring timers, in
  -- any order, lead to from the initial one satisfies the invariant.
  pub Reach-IsValid :
      {start wrk : WrkCtx T W} → IsInitial start → Reach start wrk → IsValidCtx vpp wrk
  Reach-IsValid {start} z r = Reach-valid (IsInitial-IsValid start z) r

  -- A flow that is in some context that packets and expiring timers lead to from the initial one is in
  -- every context that they lead on to, in the same element and with the same key: no flow is freed,
  -- also not when its timer has expired.
  pub Reach-Keeps :
      {start mid wrk : WrkCtx T W}
      → IsInitial start
      → Reach start mid
      → Reach mid wrk
      → Keeps mid wrk
  Reach-Keeps {mid} z r here = Persists-refl same_key-IsKept mid
  Reach-Keeps {start} {mid} z r (next {wrk} {wrk'} s step) =
      Persists-trans same_key-IsKept mid wrk wrk' (Reach-Keeps z r s)
        (Change-Keeps vpp (Step-Change step (Reach-valid (Reach-IsValid z r) s)))

  pub Reach-All :
      {P : Flow → Type 0} {start wrk : WrkCtx T W}
      → Closed P
      → IsInitial start
      → Reach start wrk
      → All P wrk
  Reach-All c z here = λ i f h. cc (z.no_flows i, h)
  Reach-All c z (next r s) = Change-All vpp c (Step-Change s (Reach-IsValid z r)) (Reach-All c z r)

  -- Every flow is counted as used and has a handler.
  pub Reach-AllShown : {start wrk : WrkCtx T W} → IsInitial start → Reach start wrk → AllShown wrk
  Reach-AllShown z r = Reach-All IsShown-Closed z r

  -- In every context that packets and timers lead to from the initial one, for every flow, what `tcp_send_reset`
  -- sends is what its round for the first entry sends (nothing, if that entry's interface is not
  -- there): no packet goes out for the second entry.
  pub Reach-tcp_send_reset :
      {start wrk : WrkCtx T W} (i : ℕ) (f : Flow) (sent : List Sent)
      → IsInitial start
      → Reach start wrk
      → wrk.flows i ≡ some f
      → (tcp_send_reset vpp f sent).1 ≡ (
          if vpp.is_free_sw_interface f.entry_in.sw_if_index
          then sent
          else send_on vpp f f.entry_in sent)
  Reach-tcp_send_reset i f sent z r found =
      tcp_send_reset-in vpp f sent ((Reach-IsValid z r).flows_ok i f found).out_smac
