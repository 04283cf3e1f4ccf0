-- ===== src/Tcp/Events.antt =====
-- `flags_to_events` of flow_table/core/proto/tcp_state_transfer.h, described by the flags' bits.
use vpp_plugins.Base.{
  ℕ, ◌/◌, ◌%◌, ◌<◌, ◌≡◌, refl, Bool, true, false, ◌==◌, ==_iff, arith, all_below, all_below_sound,
}
use vpp_plugins.Tcp.Types.{TcpEvent, ev_unknown, ev_syn, ev_ack, ev_fin, ev_rst, event_index}
use vpp_plugins.Tcp.Flags.{packet_event}

-- Is bit `2 ^ k`, written `p`, set?
abbrev pub has_bit : ℕ → ℕ → Bool
has_bit p flags = flags / p % 2 == 1

-- SYN or FIN with or without ACK, ACK alone and RST alone have events; all else is unknown.
pub event_of_bits : (fin syn rst ack : Bool) → TcpEvent
event_of_bits false true false _ = ev_syn
event_of_bits true false false _ = ev_fin
event_of_bits false false true false = ev_rst
event_of_bits false false false true = ev_ack
event_of_bits _ _ _ _ = ev_unknown

event_index-injective : (a b : TcpEvent) → event_index a ≡ event_index b → a ≡ b
unfolding event_index
event_index-injective a b h = ground arith

abbrev agrees : ℕ → Bool
agrees flags =
    event_index (packet_event flags)
    == event_index
        (event_of_bits (has_bit 1 flags) (has_bit 2 flags) (has_bit 4 flags) (has_bit 16 flags))

table : all_below 256 agrees ≡ true
unfolding all_below event_index packet_event event_of_bits
table = refl

-- For every flags byte, the event is the one that its FIN, SYN, RST and ACK bits describe: SYN or
-- FIN (with or without ACK, without the others), ACK alone, RST alone, and otherwise unknown.
pub packet_event-event_of_bits :
    (flags : ℕ)
    → flags < 256
    → packet_event flags
      ≡ event_of_bits (has_bit 1 flags) (has_bit 2 flags) (has_bit 4 flags) (has_bit 16 flags)
packet_event-event_of_bits flags h =
    event_index-injective _ _ ((==_iff _ _).0 (all_below_sound 256 agrees flags table h))

-- A flags byte with both RST and ACK set is no RST event: it is unknown.
pub packet_event-rst_ack :
    (flags : ℕ)
    → flags < 256
    → has_bit 4 flags ≡ true
    → has_bit 16 flags ≡ true
    → packet_event flags ≡ ev_unknown
unfolding event_of_bits
packet_event-rst_ack flags h r a = ground (arith, packet_event-event_of_bits flags h)
