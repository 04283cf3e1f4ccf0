-- ===== src/Protocol/Handlers.antt =====
-- The table of protocol handlers: flow_table/core/protocol.c and the registrations of
-- flow_table/core/proto. A handler is the name of the file's `protocol_handler_t`.
use vpp_plugins.Base.{ℕ, zero, suc, ◌+◌, Option, none, some}
use vpp_plugins.Flow.Defs.{update}

pub data Handler : Type 0 where
  tcp udp icmp unimplemented : Handler

abbrev pub ip_protocol_icmp : ℕ
ip_protocol_icmp = 1

abbrev pub ip_protocol_udp : ℕ
ip_protocol_udp = 17

abbrev pub ip_protocol_reserved : ℕ
ip_protocol_reserved = 255

-- `protocol_handlers`; `none` is an element of zeros, whose functions are NULL.
abbrev pub Handlers : Type 0
Handlers = ℕ → Option Handler

abbrev pub no_handlers : Handlers
no_handlers = λ _. none

unfoldable pub protocol_handler_register : ℕ → Handler → Handlers → Handlers
protocol_handler_register protocol h handlers = update handlers protocol (some h)

unfoldable pub protocol_handler_get : Handlers → ℕ → Option Handler
protocol_handler_get handlers protocol = handlers protocol

-- `for (int i = 0; i < IP_PROTOCOL_RESERVED; i++)`: `n` rounds are left, from `i` on.
unfoldable pub register_from : (n i : ℕ) → Handlers → Handlers
unfolding protocol_handler_register
register_from zero i handlers = handlers
register_from (suc n) i handlers =
    register_from n (i + 1) (protocol_handler_register i unimplemented handlers)

unfoldable pub unimplemented_protocol_handler_register : Handlers → Handlers
unfolding register_from
unimplemented_protocol_handler_register handlers = register_from ip_protocol_reserved 0 handlers

unfoldable pub tcp_protocol_handler_register : Handlers → Handlers
unfolding protocol_handler_register
tcp_protocol_handler_register = protocol_handler_register 6 tcp

unfoldable pub udp_protocol_handler_register : Handlers → Handlers
unfolding protocol_handler_register
udp_protocol_handler_register = protocol_handler_register ip_protocol_udp udp

unfoldable pub icmp_protocol_handler_register : Handlers → Handlers
unfolding protocol_handler_register
icmp_protocol_handler_register = protocol_handler_register ip_protocol_icmp icmp

-- Start-up: the init function first, then the functions that run when the main loop is entered.
unfoldable pub registered_handlers : Handlers
registered_handlers = icmp_protocol_handler_register (
    udp_protocol_handler_register
      (tcp_protocol_handler_register (unimplemented_protocol_handler_register no_handlers)))
