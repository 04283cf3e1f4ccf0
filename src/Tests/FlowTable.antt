-- ===== src/Tests/FlowTable.antt =====
-- The pools of the threads: flow_table/core/flow.c.
use vpp_plugins.Flow.Init.{
  pool_total, pools, flow_table_main_init, flow_table_max_flows, flow_table_main_init-bound,
}
use vpp_plugins.Base.{◌≤◌, ◌≡◌, length}

flow_table_main_init-bound_example :
    (flow_table_main_init 3 ≡ pools 3)
    × (length (flow_table_main_init 3) ≡ 5)
    × (pool_total (flow_table_main_init 3) ≤ flow_table_max_flows)
flow_table_main_init-bound_example = flow_table_main_init-bound 3
