-- ===== src/Tcp/Flags.antt =====
-- The bits of a TCP header's flags and `flags_to_events` of
-- flow_table/core/proto/tcp_state_transfer.h.
use Prim.Native.Nat.{bit_and, bit_or}
use vpp_plugins.Base.{ℕ, List, [], ◌∷◌, ◌==◌, if◌then◌else◌}
use vpp_plugins.Tcp.Types.{TcpEvent, ev_unknown, ev_syn, ev_ack, ev_fin, ev_rst}

-- The bits of the TCP header's flags.
abbrev pub tcp_flag_fin : ℕ
tcp_flag_fin = 0x01

abbrev pub tcp_flag_syn : ℕ
tcp_flag_syn = 0x02

abbrev pub tcp_flag_rst : ℕ
tcp_flag_rst = 0x04

abbrev pub tcp_flag_ack : ℕ
tcp_flag_ack = 0x10

abbrev pub tcp_flag_concerned : ℕ
tcp_flag_concerned = bit_or (bit_or (bit_or tcp_flag_syn tcp_flag_ack) tcp_flag_fin) tcp_flag_rst

-- An entry of an array's designated initialiser; an index with no entry holds 0, `ev_unknown`.
at_flags : ℕ → List (ℕ × TcpEvent) → TcpEvent
at_flags flags [] = ev_unknown
at_flags flags ((f, e) ∷ es) = if f == flags then e else at_flags flags es

abbrev flags_events_map : List (ℕ × TcpEvent)
flags_events_map =
    (tcp_flag_syn, ev_syn)
    ∷ (bit_or tcp_flag_syn tcp_flag_ack, ev_syn)
    ∷ (tcp_flag_ack, ev_ack)
    ∷ (tcp_flag_fin, ev_fin)
    ∷ (bit_or tcp_flag_fin tcp_flag_ack, ev_fin)
    ∷ (tcp_flag_rst, ev_rst)
    ∷ (0xff, ev_unknown)
    ∷ []

unfoldable pub flags_to_events : ℕ → TcpEvent
unfolding at_flags
flags_to_events flags = at_flags flags flags_events_map

-- The event of a packet: the flags of its header, masked.
unfoldable pub packet_event : ℕ → TcpEvent
unfolding flags_to_events
packet_event flags = flags_to_events (bit_and flags tcp_flag_concerned)
