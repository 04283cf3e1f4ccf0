-- ===== src/Tests/Flows.antt =====
-- The flows of a worker of flow_table/core: packets of a known flow and a conversation
-- that both ends open.
use vpp_plugins.Ip4.Matched.{Apart, Sorted, Reach-Sorted}
use vpp_plugins.Ip4.First.{CameIn, came_in}
use vpp_plugins.Ip4.Shared.{came_in-KnownIn}
use vpp_plugins.Ip4.Crossed.{Crossed, both_ways-KnownIn}
use vpp_plugins.Ip4.Process.{ip4_input_process, accept}
use vpp_plugins.Protocol.Registered.{handler_of, protocol_handler_get-registered}
use vpp_plugins.Protocol.Handlers.{protocol_handler_get}
use vpp_plugins.Ip4.Reply.{First, KnownIn}
use vpp_plugins.Flow.Vpp.{Vpp}
use vpp_plugins.Ip4.Input.{IsValidCtx}
use vpp_plugins.Buffer.Defs.{Buffer}
use vpp_plugins.Flow.Types.{unset32}
use vpp_plugins.Tests.{Pairs, tcp_bytes}
use vpp_plugins.Base.{none, Option, ◌<◌}
use vpp_plugins.Tests.{syn_ack}
use vpp_plugins.Flow.Defs.{WrkCtx}
use vpp_plugins.Buffer.Defs.{vlib_buffer_set_flow}
use vpp_plugins.Ip4.Process.{Outcome}
use vpp_plugins.Ip4.Reach.{Reach, here, next, come_in}
use vpp_plugins.Ip4.Arrive.{packet_key}
use vpp_plugins.Ip4.Safety.{registered_handler}
use vpp_plugins.Protocol.Handlers.{registered_handlers, tcp}
use vpp_plugins.Protocol.Tcp.{parse_key}
use vpp_plugins.Buffer.Vlan.{ip4_pre_process, parse_vlan_tags}
use vpp_plugins.Buffer.Parse.{tcp_parse_flow_key, ip4_flow_key}
use vpp_plugins.Buffer.Defs.{vlib_buffer_init_flow}
use vpp_plugins.Flow.Types.{Flow}
use vpp_plugins.Flow.Defs.{flow_key_reverse, flow_table_hash}
use vpp_plugins.Tcp.Types.{dir_in, dir_out}
use vpp_plugins.Tests.{arrived, vpp, ack, syn, empty_IsInitial, empty_IsValid, empty_wrk, syn-First}
use vpp_plugins.Base.{
  ℕ, ◌≡◌, some, refl, arith, Bool-cases, ◌==◌, inl, inr, ap, ◌∙◌, sym, ==_iff, some_injective, ◌*◌,
}

-- The first packet of a connection has come in.
abbrev opened : CameIn vpp registered_handlers empty_wrk tcp syn 0
opened =
    came_in vpp registered_handlers empty_wrk tcp syn 0 syn-First.handler syn-First.new
      syn-First.slot empty_IsValid

opened_Reach : Reach vpp empty_wrk opened.after
unfolding arrived ip4_pre_process parse_vlan_tags vlib_buffer_init_flow
opened_Reach = next here (come_in syn _ (omega arith) opened.eq)

opened-key : (i : ℕ) (f : Flow) → opened.after.flows i ≡ some f → f.key ≡ packet_key tcp syn
opened-key i f found = elim (Bool-cases (0 == i)) [
  | inl same ↦
      (let e : opened.flow ≡ f =
          some_injective (sym opened.found ∙ ap opened.after.flows ((==_iff 0 i).0 same) ∙ found) in
        ap (λ (x : Flow). x.key) (sym e) ∙ opened.key)
  | inr other ↦ absurd (cc (opened.others i other, found))
]

hash_in : flow_table_hash vpp (packet_key tcp ack) ≡ 5242930 * 31
unfolding arrived ip4_pre_process parse_vlan_tags vlib_buffer_init_flow flow_table_hash parse_key
    tcp_parse_flow_key ip4_flow_key
hash_in = refl

-- The same bytes of a packet of the other direction.
hash_out : flow_table_hash vpp (flow_key_reverse (packet_key tcp syn)) ≡ 3276880 * 31
unfolding arrived ip4_pre_process parse_vlan_tags vlib_buffer_init_flow flow_table_hash parse_key
    tcp_parse_flow_key ip4_flow_key flow_key_reverse
hash_out = refl

same_direction : packet_key tcp syn ≡ packet_key tcp ack
unfolding arrived ip4_pre_process parse_vlan_tags vlib_buffer_init_flow parse_key tcp_parse_flow_key
    ip4_flow_key
same_direction = refl

ack-Apart : Apart vpp opened.after (packet_key tcp ack)
ack-Apart i f dir_in found hash = opened-key i f found ∙ same_direction
ack-Apart i f dir_out found hash =
    let key = ap (λ k. flow_table_hash vpp (flow_key_reverse k)) (sym (opened-key i f found)) in
    let different : 3276880 * 31 ≡ 5242930 * 31 = sym hash_out ∙ key ∙ hash ∙ hash_in in
    absurd (omega arith)

Reach-Sorted_example : Sorted vpp opened.after tcp ack
unfolding arrived ip4_pre_process parse_vlan_tags vlib_buffer_init_flow registered_handler
Reach-Sorted_example = Reach-Sorted vpp ack empty_IsInitial opened_Reach (omega arith) ack-Apart

-- A pool of two elements.
abbrev two_slots : (ℕ → Option Flow) → Option ℕ
two_slots flows = elim (flows 0) [
  | none ↦ some 0
  | some _ ↦ (elim (flows 1) [ none ↦ some 1 | some _ ↦ none ])
]

two_slots-free : (flows : ℕ → Option Flow) (i : ℕ) → two_slots flows ≡ some i → flows i ≡ none
two_slots-free flows i h = ground arith

two_slots-lt : (flows : ℕ → Option Flow) (i : ℕ) → two_slots flows ≡ some i → i < unset32
two_slots-lt flows i h = ground arith

two_slots-second :
    (flows : ℕ → Option Flow) (f : Flow)
    → flows 0 ≡ some f
    → flows 1 ≡ none
    → two_slots flows ≡ some 1
two_slots-second flows f taken free = ground arith

abbrev vpp2 : Vpp Pairs ℕ
vpp2 = record vpp {
  pool_get = two_slots;
  pool_get-free = two_slots-free;
  pool_get-lt = two_slots-lt;
}

empty2_IsValid : IsValidCtx vpp2 empty_wrk
empty2_IsValid = record { flows_ok = λ i f h. ground arith; table_ok = λ k ref h. ground arith }

syn-First2 : First vpp2 registered_handlers empty_wrk tcp syn 0
unfolding arrived ip4_pre_process parse_vlan_tags vlib_buffer_init_flow protocol_handler_get
    handler_of
syn-First2 = record {
  handler = protocol_handler_get-registered 6;
  new = refl;
  slot = refl;
  valid = empty2_IsValid;
}

-- The first packet has come in, with a pool of two elements.
abbrev opened2 : CameIn vpp2 registered_handlers empty_wrk tcp syn 0
opened2 =
    came_in vpp2 registered_handlers empty_wrk tcp syn 0 syn-First2.handler syn-First2.new
      syn-First2.slot empty2_IsValid

second_slot :
    (inside : WrkCtx Pairs ℕ)
    → ip4_input_process vpp2 registered_handlers empty_wrk syn
      ≡ some (accept, inside, vlib_buffer_set_flow syn 0)
    → two_slots inside.flows ≡ some 1
second_slot inside e =
    let same : inside ≡ opened2.after =
      ap (λ (o : Outcome Pairs ℕ). o.1) (some_injective (sym e ∙ opened2.eq)) in
    rw same
      (two_slots-second opened2.after.flows opened2.flow opened2.found (opened2.others 1 refl))

both_ways-KnownIn_example :
    (x : Crossed vpp2 registered_handlers empty_wrk tcp syn syn_ack 0 1) × KnownIn vpp2
      registered_handlers x.outside tcp ack 1 dir_out
    × KnownIn vpp2 registered_handlers x.outside tcp syn_ack 0 dir_out
unfolding arrived ip4_pre_process parse_vlan_tags vlib_buffer_init_flow protocol_handler_get
    handler_of flow_key_reverse parse_key tcp_parse_flow_key ip4_flow_key flow_table_hash
both_ways-KnownIn_example =
    both_ways-KnownIn vpp2 registered_handlers empty_wrk tcp syn syn_ack ack syn_ack 0 1 syn-First2
      (protocol_handler_get-registered 6) refl refl refl second_slot
      (protocol_handler_get-registered 6) refl (protocol_handler_get-registered 6) refl

-- A packet between two other hosts with the same ports, which the hash of the test does not tell apart.
abbrev stranger : Buffer
stranger = arrived (tcp_bytes 3 4 50 80 2)

came_in-KnownIn_example :
    (x : CameIn vpp registered_handlers empty_wrk tcp syn 0) × KnownIn vpp registered_handlers
      x.after tcp stranger 0 dir_in
unfolding arrived ip4_pre_process parse_vlan_tags vlib_buffer_init_flow protocol_handler_get
    handler_of parse_key tcp_parse_flow_key ip4_flow_key flow_table_hash
came_in-KnownIn_example =
    came_in-KnownIn vpp registered_handlers empty_wrk tcp syn stranger 0 syn-First
      (protocol_handler_get-registered 6) refl
