-- ===== src/Tcp/Types.antt =====
-- The enumerations of flow_table/core/proto/tcp_state_transfer.h, with the timeout of each state,
-- and the direction of flow_table/core/include/flow.h.
use vpp_plugins.Base.{ℕ}

pub data FlowDir : Type 0 where
  dir_in dir_out : FlowDir

pub data TcpState : Type 0 where
  start close syn_sent syn_rcvd established fin_wait close_wait time_wait unknown : TcpState

pub data TcpEvent : Type 0 where
  ev_unknown ev_syn ev_ack ev_fin ev_rst : TcpEvent

pub TcpState-discrete : Discrete TcpState
TcpState-discrete = hlevel

-- The value of an enumerator.
unfoldable pub state_index : TcpState → ℕ
state_index start = 0
state_index close = 1
state_index syn_sent = 2
state_index syn_rcvd = 3
state_index established = 4
state_index fin_wait = 5
state_index close_wait = 6
state_index time_wait = 7
state_index unknown = 8

unfoldable pub event_index : TcpEvent → ℕ
event_index ev_unknown = 0
event_index ev_syn = 1
event_index ev_ack = 2
event_index ev_fin = 3
event_index ev_rst = 4

unfoldable pub dir_index : FlowDir → ℕ
dir_index dir_in = 0
dir_index dir_out = 1

-- `tcp_state_timeout`: five seconds in every state.
unfoldable pub tcp_state_timeout : TcpState → ℕ
tcp_state_timeout start = 5
tcp_state_timeout close = 5
tcp_state_timeout syn_sent = 5
tcp_state_timeout syn_rcvd = 5
tcp_state_timeout established = 5
tcp_state_timeout fin_wait = 5
tcp_state_timeout close_wait = 5
tcp_state_timeout time_wait = 5
tcp_state_timeout unknown = 5
