-- ===== src/Tcp/Table.antt =====
-- `tcp_state_transfer_map`: the rows of `for_each_tcp_state_transfer_entry` in
-- flow_table/core/proto/tcp_state_transfer.h, in the source's order, and the array that they
-- initialise, indexed by direction, state and event.
use vpp_plugins.Base.{ℕ, List, [], ◌∷◌, ◌++◌, Bool, ◌==◌, ◌&&◌, if◌then◌else◌}
use vpp_plugins.Tcp.Types.{
  FlowDir, dir_in, dir_out, TcpState, start, close, syn_sent, syn_rcvd, established, fin_wait,
  close_wait, time_wait, unknown, TcpEvent, ev_unknown, ev_syn, ev_ack, ev_fin, ev_rst, state_index,
  event_index, dir_index,
}

-- One row: the old state, the event, the direction and the new state.
pub data TransferEntry : Type 0 where
  row : TcpState → TcpEvent → FlowDir → TcpState → TransferEntry

abbrev pub Entries : Type 0
Entries = List TransferEntry

abbrev start_entries : Entries
start_entries =
    row start ev_unknown dir_in unknown
    ∷ row start ev_syn dir_in syn_sent
    ∷ row start ev_ack dir_in established
    ∷ row start ev_fin dir_in close
    ∷ row start ev_rst dir_in close
    ∷ row start ev_unknown dir_out unknown
    ∷ row start ev_syn dir_out syn_sent
    ∷ row start ev_ack dir_out established
    ∷ row start ev_fin dir_out close
    ∷ row start ev_rst dir_out close
    ∷ []

abbrev close_entries : Entries
close_entries =
    row close ev_unknown dir_in unknown
    ∷ row close ev_syn dir_in syn_sent
    ∷ row close ev_ack dir_in established
    ∷ row close ev_fin dir_in close
    ∷ row close ev_rst dir_in close
    ∷ row close ev_unknown dir_out unknown
    ∷ row close ev_syn dir_out syn_sent
    ∷ row close ev_ack dir_out established
    ∷ row close ev_fin dir_out close
    ∷ row close ev_rst dir_out close
    ∷ []

abbrev syn_sent_entries : Entries
syn_sent_entries =
    row syn_sent ev_unknown dir_in unknown
    ∷ row syn_sent ev_syn dir_in syn_rcvd
    ∷ row syn_sent ev_ack dir_in established
    ∷ row syn_sent ev_fin dir_in close
    ∷ row syn_sent ev_rst dir_in close
    ∷ row syn_sent ev_unknown dir_out unknown
    ∷ row syn_sent ev_syn dir_out syn_rcvd
    ∷ row syn_sent ev_ack dir_out established
    ∷ row syn_sent ev_fin dir_out close
    ∷ row syn_sent ev_rst dir_out close
    ∷ []

abbrev syn_rcvd_entries : Entries
syn_rcvd_entries =
    row syn_rcvd ev_unknown dir_in unknown
    ∷ row syn_rcvd ev_syn dir_in unknown
    ∷ row syn_rcvd ev_ack dir_in established
    ∷ row syn_rcvd ev_fin dir_in close
    ∷ row syn_rcvd ev_rst dir_in close
    ∷ row syn_rcvd ev_unknown dir_out unknown
    ∷ row syn_rcvd ev_syn dir_out unknown
    ∷ row syn_rcvd ev_ack dir_out established
    ∷ row syn_rcvd ev_fin dir_out close
    ∷ row syn_rcvd ev_rst dir_out close
    ∷ []

abbrev established_entries : Entries
established_entries =
    row established ev_unknown dir_in unknown
    ∷ row established ev_syn dir_in unknown
    ∷ row established ev_ack dir_in established
    ∷ row established ev_fin dir_in fin_wait
    ∷ row established ev_rst dir_in close
    ∷ row established ev_unknown dir_out unknown
    ∷ row established ev_syn dir_out unknown
    ∷ row established ev_ack dir_out established
    ∷ row established ev_fin dir_out close_wait
    ∷ row established ev_rst dir_out close
    ∷ []

abbrev close_wait_entries : Entries
close_wait_entries =
    row close_wait ev_unknown dir_in unknown
    ∷ row close_wait ev_syn dir_in unknown
    ∷ row close_wait ev_ack dir_in close_wait
    ∷ row close_wait ev_fin dir_in close
    ∷ row close_wait ev_rst dir_in close
    ∷ row close_wait ev_unknown dir_out unknown
    ∷ row close_wait ev_syn dir_out unknown
    ∷ row close_wait ev_ack dir_out close_wait
    ∷ row close_wait ev_fin dir_out close
    ∷ row close_wait ev_rst dir_out close
    ∷ []

abbrev fin_wait_entries : Entries
fin_wait_entries =
    row fin_wait ev_unknown dir_in unknown
    ∷ row fin_wait ev_syn dir_in unknown
    ∷ row fin_wait ev_ack dir_in fin_wait
    ∷ row fin_wait ev_fin dir_in time_wait
    ∷ row fin_wait ev_rst dir_in close
    ∷ row fin_wait ev_unknown dir_out unknown
    ∷ row fin_wait ev_syn dir_out unknown
    ∷ row fin_wait ev_ack dir_out fin_wait
    ∷ row fin_wait ev_fin dir_out time_wait
    ∷ row fin_wait ev_rst dir_out close
    ∷ []

abbrev time_wait_entries : Entries
time_wait_entries =
    row time_wait ev_unknown dir_in unknown
    ∷ row time_wait ev_syn dir_in syn_sent
    ∷ row time_wait ev_ack dir_in unknown
    ∷ row time_wait ev_fin dir_in unknown
    ∷ row time_wait ev_rst dir_in close
    ∷ row time_wait ev_unknown dir_out unknown
    ∷ row time_wait ev_syn dir_out syn_sent
    ∷ row time_wait ev_ack dir_out unknown
    ∷ row time_wait ev_fin dir_out unknown
    ∷ row time_wait ev_rst dir_out close
    ∷ []

abbrev unknown_entries : Entries
unknown_entries =
    row unknown ev_unknown dir_in unknown
    ∷ row unknown ev_syn dir_in unknown
    ∷ row unknown ev_ack dir_in unknown
    ∷ row unknown ev_fin dir_in unknown
    ∷ row unknown ev_rst dir_in unknown
    ∷ row unknown ev_unknown dir_out unknown
    ∷ row unknown ev_syn dir_out unknown
    ∷ row unknown ev_ack dir_out unknown
    ∷ row unknown ev_fin dir_out unknown
    ∷ row unknown ev_rst dir_out unknown
    ∷ []

abbrev pub transfer_entries : Entries
transfer_entries =
    start_entries
    ++ (close_entries
        ++ (syn_sent_entries
            ++ (syn_rcvd_entries
                ++ (established_entries
                    ++ (close_wait_entries
                        ++ (fin_wait_entries ++ (time_wait_entries ++ (unknown_entries))))))))

-- Does the row initialise the cell?
unfoldable pub is_cell : FlowDir → TcpState → TcpEvent → TransferEntry → Bool
unfolding state_index event_index dir_index
is_cell dir old event (row s e d t) =
    dir_index d == dir_index dir
    && (state_index s == state_index old && event_index e == event_index event)

-- A later initialiser of a cell replaces an earlier one.
initialise : TcpState → FlowDir → TcpState → TcpEvent → Entries → TcpState
unfolding is_cell
initialise value dir old event [] = value
initialise value dir old event (row s e d t ∷ es) =
    initialise (if is_cell dir old event (row s e d t) then t else value) dir old event es

-- `tcp_state_transfer_map[dir][old][event]`; a cell with no row holds 0, `start`.
unfoldable pub tcp_state_transfer : TcpState → TcpEvent → FlowDir → TcpState
unfolding initialise
tcp_state_transfer old event dir = initialise start dir old event transfer_entries

-- The number of rows that initialise a cell.
unfoldable pub rows_of : FlowDir → TcpState → TcpEvent → Entries → ℕ
unfolding is_cell
rows_of dir old event [] = 0
rows_of dir old event (r ∷ es) =
    let n = rows_of dir old event es in if is_cell dir old event r then ℕ.suc n else n
