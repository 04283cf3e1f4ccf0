-- ===== src/Protocol/Others.antt =====
-- The functions of flow_table/core/proto/udp.c, flow_table/core/proto/icmp.c and
-- flow_table/core/proto/unimplemented.c: they accept and do nothing.
use vpp_plugins.Flow.Types.{FlowKey}
use vpp_plugins.Tcp.Types.{FlowDir}
use vpp_plugins.Buffer.Defs.{Buffer}
use vpp_plugins.Flow.Defs.{WrkCtx}
use vpp_plugins.Base.{Option, some}

abbrev pub udp_parse_flow_key : Buffer → FlowKey → FlowKey
udp_parse_flow_key b key = key

abbrev pub icmp_parse_flow_key : Buffer → FlowKey → FlowKey
icmp_parse_flow_key b key = key

abbrev pub umimplemented_parse_flow_key : Buffer → FlowKey → FlowKey
umimplemented_parse_flow_key b key = key

module _ {T W : Type 0} where
  abbrev pub udp_init_state : WrkCtx T W → Buffer → FlowDir → Option (WrkCtx T W)
  udp_init_state wrk b direction = some wrk

  abbrev pub udp_update_state : WrkCtx T W → Buffer → FlowDir → Option (WrkCtx T W)
  udp_update_state wrk b direction = some wrk

  abbrev pub icmp_init_state : WrkCtx T W → Buffer → FlowDir → Option (WrkCtx T W)
  icmp_init_state wrk b direction = some wrk

  abbrev pub icmp_update_state : WrkCtx T W → Buffer → FlowDir → Option (WrkCtx T W)
  icmp_update_state wrk b direction = some wrk

  abbrev pub umimplemented_init_state : WrkCtx T W → Buffer → FlowDir → Option (WrkCtx T W)
  umimplemented_init_state wrk b direction = some wrk

  abbrev pub umimplemented_update_state : WrkCtx T W → Buffer → FlowDir → Option (WrkCtx T W)
  umimplemented_update_state wrk b direction = some wrk
