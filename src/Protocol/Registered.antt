-- ===== src/Protocol/Registered.antt =====
-- The table of handlers after start-up.
use vpp_plugins.Base.{
  ℕ, zero, suc, ◌+◌, ◌≡◌, ◌&&◌, ◌==◌, if◌then◌else◌, ltb, leb, Option, none, some, arith,
}
use vpp_plugins.Protocol.Handlers.{
  Handler, Handlers, tcp, udp, icmp, unimplemented, no_handlers, ip_protocol_reserved,
  protocol_handler_register, protocol_handler_get, register_from,
  unimplemented_protocol_handler_register, tcp_protocol_handler_register,
  udp_protocol_handler_register, icmp_protocol_handler_register, registered_handlers,
}

register_from_lem :
    (n i : ℕ) (handlers : Handlers) (p : ℕ)
    → register_from n i handlers p
      ≡ (if leb i p && ltb p (i + n) then some unimplemented else handlers p)
unfolding register_from
register_from_lem zero i handlers p = ground arith
register_from_lem (suc n) i handlers p =
    ground
      (arith, register_from_lem n (i + 1) (protocol_handler_register i unimplemented handlers) p)

register_all :
    (n p : ℕ) → register_from n 0 no_handlers p ≡ (if ltb p n then some unimplemented else none)
register_all n p = ground (arith, register_from_lem n 0 no_handlers p)

unimplemented_below :
    (p : ℕ)
    → unimplemented_protocol_handler_register no_handlers p
      ≡ (if ltb p ip_protocol_reserved then some unimplemented else none)
unfolding unimplemented_protocol_handler_register
unimplemented_below p = register_all ip_protocol_reserved p

-- The handler of each protocol number.
unfoldable pub handler_of : ℕ → Option Handler
handler_of p =
    if p == 1
    then some icmp
    else (if p == 6
        then some tcp
        else (if p == 17 then some udp else (if ltb p 255 then some unimplemented else none)))

-- After start-up, for every protocol number, 1, 6 and 17 have the handlers of ICMP, TCP and UDP,
-- every other number below 255 has the unimplemented handler, and 255 has none.
pub protocol_handler_get-registered :
    (p : ℕ) → protocol_handler_get registered_handlers p ≡ handler_of p
unfolding protocol_handler_get registered_handlers tcp_protocol_handler_register
    udp_protocol_handler_register icmp_protocol_handler_register handler_of
protocol_handler_get-registered p = ground (arith, unimplemented_below p)
