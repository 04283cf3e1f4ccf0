-- ===== src/Tcp/Runs.antt =====
-- Runs of the machine over sequences of events, as the packets of one flow make them.
use vpp_plugins.Base.{ℕ, true, ◌<◌, ◌+◌, ◌≤◌, ◌<◌, ◌≡◌, refl, ap, List, [], ◌∷◌, arith}
use vpp_plugins.Tcp.Types.{
  FlowDir, TcpState, start, established, fin_wait, close_wait, time_wait, unknown, TcpEvent, ev_ack,
  ev_fin,
}
use vpp_plugins.Tcp.Flags.{packet_event}
use vpp_plugins.Tcp.Events.{has_bit, packet_event-rst_ack}
use vpp_plugins.Tcp.Table.{tcp_state_transfer}
use vpp_plugins.Tcp.Transfers.{next_state, tcp_state_transfer-next_state}

-- `state = tcp_state_transfer(state, event, direction)` for each packet in turn.
unfoldable pub run : TcpState → List (TcpEvent × FlowDir) → TcpState
run s [] = s
run s ((e, d) ∷ es) = run (tcp_state_transfer s e d) es

abbrev pub Events : Type 0
Events = List (TcpEvent × FlowDir)

abbrev pub one_if_fin : TcpEvent → ℕ
one_if_fin ev_fin = 1
one_if_fin _ = 0

abbrev pub one_if_ack : TcpEvent → ℕ
one_if_ack ev_ack = 1
one_if_ack _ = 0

-- How many events of a sequence a test counts.
abbrev pub total : (TcpEvent → ℕ) → Events → ℕ
total c [] = 0
total c ((e, d) ∷ es) = c e + total c es

-- A weight of states that each event raises by at most its count stays within the counted events.
run-weight :
    (w : TcpState → ℕ) (c : TcpEvent → ℕ)
    → ((s : TcpState) (e : TcpEvent) (d : FlowDir) → w (next_state s e d) ≤ w s + c e)
    → (s : TcpState) (es : Events) → w (run s es) ≤ w s + total c es
unfolding run
run-weight w c step s [] = omega arith
run-weight w c step s ((e, d) ∷ es) = omega (
  arith,
  run-weight w c step (tcp_state_transfer s e d) es,
  step s e d,
  ap w (tcp_state_transfer-next_state s e d),
)

-- The FIN events that a state stands for.
abbrev pub seen_fins : TcpState → ℕ
seen_fins fin_wait = 1
seen_fins time_wait = 2
seen_fins _ = 0

seen_fins-next_state :
    (s : TcpState) (e : TcpEvent) (d : FlowDir)
    → seen_fins (next_state s e d) ≤ seen_fins s + one_if_fin e
unfolding next_state
seen_fins-next_state s e d = ground arith

-- No state that START leads to stands for more FIN events than there were.
pub run-seen_fins : (es : Events) → seen_fins (run start es) ≤ total one_if_fin es
run-seen_fins es = omega (arith, run-weight seen_fins one_if_fin seen_fins-next_state start es)

-- TIME_WAIT is reached from START only by two or more FIN events.
pub time_wait_needs_fins : (es : Events) → run start es ≡ time_wait → 2 ≤ total one_if_fin es
time_wait_needs_fins es h = ground (arith, run-seen_fins es)

-- The states behind an ACK.
abbrev pub seen_acks : TcpState → ℕ
seen_acks established = 1
seen_acks fin_wait = 1
seen_acks close_wait = 1
seen_acks time_wait = 1
seen_acks _ = 0

seen_acks-next_state :
    (s : TcpState) (e : TcpEvent) (d : FlowDir)
    → seen_acks (next_state s e d) ≤ seen_acks s + one_if_ack e
unfolding next_state
seen_acks-next_state s e d = ground arith

-- The states that stand for an ACK event are reached from START only by one.
pub run-seen_acks : (es : Events) → seen_acks (run start es) ≤ total one_if_ack es
run-seen_acks es = omega (arith, run-weight seen_acks one_if_ack seen_acks-next_state start es)

-- ESTABLISHED is reached from START only by an ACK event.
pub established_needs_ack : (es : Events) → run start es ≡ established → 1 ≤ total one_if_ack es
established_needs_ack es h = ground (arith, run-seen_acks es)

-- From UNKNOWN no sequence of events, in any directions, leads anywhere else.
pub run-unknown : (es : Events) → run unknown es ≡ unknown
unfolding run next_state
run-unknown [] = refl
run-unknown ((e, d) ∷ es) = rw (tcp_state_transfer-next_state, stuck e d) (run-unknown es)
  where
    stuck : (e : TcpEvent) (d : FlowDir) → next_state unknown e d ≡ unknown
    stuck e d = ground arith

-- After a packet whose flags have RST and ACK set, whatever the state before it, the flow is in
-- UNKNOWN and no later packet moves it.
pub run-rst_ack :
    (s : TcpState) (flags : ℕ) (d : FlowDir) (es : Events)
    → flags < 256
    → has_bit 4 flags ≡ true
    → has_bit 16 flags ≡ true
    → run s ((packet_event flags, d) ∷ es) ≡ unknown
unfolding run next_state
run-rst_ack s flags d es h r a =
    rw (packet_event-rst_ack flags h r a, tcp_state_transfer-next_state) (run-unknown es)
