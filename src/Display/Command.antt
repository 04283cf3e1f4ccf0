-- ===== src/Display/Command.antt =====
-- `flow_table_display_command_fn` of flow_table/core/flow.c.
use vpp_plugins.Protocol.Tcp.{◌>>=◌}
use vpp_plugins.Display.Format.{format_flow, ShownLine}
use vpp_plugins.Flow.Defs.{WrkCtx}
use vpp_plugins.Protocol.Handlers.{Handlers, protocol_handler_get}
use vpp_plugins.Flow.Types.{Flow}
use vpp_plugins.Base.{
  List, Option, [], false, ltb, none, some, suc, true, zero, ℕ, ◌&&◌, ◌++◌, ◌+◌, ◌==◌,
}

-- One element of the pool. A free element is still zero from the start, so its `refcount` is 0. `none`
-- is a call of a NULL function.
unfoldable pub show_flow : Handlers → Option Flow → Option (List ShownLine)
show_flow handlers none = some []
show_flow handlers (some f) = elim (f.refcount == 0) [
  | true ↦ some []
  | false ↦ protocol_handler_get handlers f.protocol >>= λ h. some (format_flow h f)
]

module _ {T W : Type 0} (handlers : Handlers) where
  -- `vec_foreach` over a worker's flows, `n` elements of which are left, from `i` on.
  unfoldable pub show_flows : WrkCtx T W → (n i : ℕ) → Option (List ShownLine)
  unfolding show_flow
  show_flows wrk zero i = some []
  show_flows wrk (suc n) i = show_flow handlers (wrk.flows i) >>= λ lines.
      show_flows wrk n (suc i) >>= λ rest. some (lines ++ rest)

  -- The loop over the threads, `n` of which are left, from `thread` on; `vec_len t` is the length of the
  -- vector of flows of the thread `t`.
  unfoldable pub show_threads :
      (num_threads : ℕ) (vec_len : ℕ → ℕ)
      → (ℕ → WrkCtx T W)
      → (n thread : ℕ) → Option (List ShownLine)
  unfolding show_flows
  show_threads num_threads vec_len wrk_ctx zero thread = some []
  show_threads num_threads vec_len wrk_ctx (suc n) thread =
      elim ((thread == 0) && ltb 1 num_threads) [
        | true ↦ show_threads num_threads vec_len wrk_ctx n (suc thread)
        | false ↦ show_flows (wrk_ctx thread) (vec_len thread) 0 >>= λ lines.
            show_threads num_threads vec_len wrk_ctx n (suc thread) >>= λ rest. some (lines ++ rest)
      ]

  unfoldable pub flow_table_display_command :
      (n_threads : ℕ) (vec_len : ℕ → ℕ) → (ℕ → WrkCtx T W) → Option (List ShownLine)
  unfolding show_threads
  flow_table_display_command n_threads vec_len wrk_ctx =
      show_threads (1 + n_threads) vec_len wrk_ctx (1 + n_threads) 0
