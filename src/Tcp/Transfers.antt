-- ===== src/Tcp/Transfers.antt =====
-- The table of transfers against an independent description of the machine.
use vpp_plugins.Base.{◌≡◌, arith}
use vpp_plugins.Tcp.Types.{
  FlowDir, dir_in, dir_out, TcpState, start, close, syn_sent, syn_rcvd, established, fin_wait,
  close_wait, time_wait, unknown, TcpEvent, ev_unknown, ev_syn, ev_ack, ev_fin, ev_rst,
}
use vpp_plugins.Tcp.Table.{transfer_entries, tcp_state_transfer, rows_of}

-- Where a SYN leads: a new connection opens, a second SYN answers the first, and a SYN inside a
-- connection is out of place.
after_syn : TcpState → TcpState
after_syn start = syn_sent
after_syn close = syn_sent
after_syn time_wait = syn_sent
after_syn syn_sent = syn_rcvd
after_syn _ = unknown

after_ack : TcpState → TcpState
after_ack fin_wait = fin_wait
after_ack close_wait = close_wait
after_ack time_wait = unknown
after_ack unknown = unknown
after_ack _ = established

-- The only place where the direction counts: the side that ends an established connection. In
-- CLOSE_WAIT a FIN from either side closes; flow_table/docs/tcp_state_transfer.svg draws TIME_WAIT for
-- the direction IN.
after_fin : TcpState → FlowDir → TcpState
after_fin established dir_in = fin_wait
after_fin established dir_out = close_wait
after_fin fin_wait _ = time_wait
after_fin close_wait _ = close
after_fin time_wait _ = unknown
after_fin unknown _ = unknown
after_fin _ _ = close

after_rst : TcpState → TcpState
after_rst unknown = unknown
after_rst _ = close

-- The machine described by event.
unfoldable pub next_state : TcpState → TcpEvent → FlowDir → TcpState
unfolding after_syn after_ack after_fin after_rst
next_state s ev_unknown d = unknown
next_state s ev_syn d = after_syn s
next_state s ev_ack d = after_ack s
next_state s ev_fin d = after_fin s d
next_state s ev_rst d = after_rst s

-- In every state, for every event and direction, the table gives what the description by events
-- gives; for a FIN of the direction IN in CLOSE_WAIT both give CLOSE, unlike the diagram of the
-- repository.
pub tcp_state_transfer-next_state :
    (s : TcpState) (e : TcpEvent) (d : FlowDir) → tcp_state_transfer s e d ≡ next_state s e d
unfolding tcp_state_transfer next_state
tcp_state_transfer-next_state s e d = ground arith

-- Every cell of the array, for each direction, state and event, has exactly one row.
pub rows_of-transfer_entries :
    (d : FlowDir) (s : TcpState) (e : TcpEvent) → rows_of d s e transfer_entries ≡ 1
unfolding rows_of
rows_of-transfer_entries d s e = ground arith
