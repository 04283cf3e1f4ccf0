-- ===== src/Ip4/Output.antt =====
-- A packet that goes out: `ip4_output_process` of flow_table/core/ip4_process.c and the invariant.
use vpp_plugins.Ip4.Change.{Change, Change-IsValid, stays, answers}
use vpp_plugins.Flow.Types.{Flow}
use vpp_plugins.Ip4.Input.{IsValidCtx}
use vpp_plugins.Buffer.Defs.{vlib_buffer_get_flow, Buffer}
use vpp_plugins.Flow.Defs.{WrkCtx, flow_table_get_flow_by_index}
use vpp_plugins.Ip4.Process.{ip4_output_process}
use vpp_plugins.Flow.Vpp.{Vpp}
use vpp_plugins.Base.{arith, ◌≡◌, some, Option-cases, inl, inr, refl}

module _ {T W : Type 0} (vpp : Vpp T W) where
  pub get_flow-flows :
      (wrk : WrkCtx T W) (b : Buffer) (f : Flow)
      → vlib_buffer_get_flow wrk b ≡ some f
      → wrk.flows b.flow_index ≡ some f
  unfolding vlib_buffer_get_flow flow_table_get_flow_by_index
  get_flow-flows wrk b f h = ground arith

  pub ip4_output_process-Change :
      (wrk : WrkCtx T W) (b : Buffer) → Change vpp wrk (ip4_output_process vpp wrk b).1
  unfolding ip4_output_process
  ip4_output_process-Change wrk b = elim (Option-cases (vlib_buffer_get_flow wrk b)) [
    | inl null ↦ rw (null, ip4_output_process) (stays refl refl)
    | inr (f, found) ↦ elim (Option-cases f.entry_out.flow) [
      | inl new ↦
          rw (found, new, ip4_output_process)
            (answers b.flow_index f (get_flow-flows wrk b f found) refl)
      | inr (i, old) ↦ rw (found, old, ip4_output_process) (stays refl refl)
    ]
  ]

  -- A packet that leaves, with any flow index in its buffer, keeps the invariant.
  pub ip4_output_process-IsValid :
      (wrk : WrkCtx T W) (b : Buffer)
      → IsValidCtx vpp wrk
      → IsValidCtx vpp (ip4_output_process vpp wrk b).1
  ip4_output_process-IsValid wrk b v = Change-IsValid vpp (ip4_output_process-Change wrk b) v
