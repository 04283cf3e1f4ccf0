-- ===== src/Tcp/Diagram.antt =====
-- The table of transfers against the diagram flow_table/docs/tcp_state_transfer.svg of the repository.
use vpp_plugins.Base.{Option, some, none}
use vpp_plugins.Tcp.Types.{
  FlowDir, dir_in, dir_out, TcpState, start, close, syn_sent, syn_rcvd, established, fin_wait,
  close_wait, time_wait, TcpEvent, ev_syn, ev_ack, ev_fin, ev_rst,
}

-- Where the diagram's arrow for an event and a direction leads, if it draws one: a dashed arrow is for
-- the direction IN and a solid one for OUT, and the state `none` is START.
unfoldable pub drawn : TcpState → TcpEvent → FlowDir → Option TcpState
drawn start ev_syn dir_in = some syn_sent
drawn start ev_ack dir_in = some established
drawn syn_sent ev_syn dir_out = some syn_rcvd
drawn syn_sent ev_rst dir_out = some close
drawn syn_rcvd ev_ack dir_in = some established
drawn syn_rcvd ev_rst _ = some close
drawn established ev_fin dir_in = some fin_wait
drawn established ev_fin dir_out = some close_wait
drawn established ev_rst _ = some close
drawn fin_wait ev_fin dir_out = some time_wait
drawn fin_wait ev_rst _ = some close
drawn close_wait ev_fin dir_in = some time_wait
drawn close_wait ev_rst _ = some close
drawn _ _ _ = none
