-- ===== src/Tests/Tracker.antt =====
-- A TCP handshake on a worker of flow_table/core, the tracker's view of it, and two workers.
use vpp_plugins.Ip4.Handshake.{Handshake}
use vpp_plugins.Tcp.Flags.{packet_event, flags_to_events}
use vpp_plugins.Tracker.Simulates.{event_of, run_inputs-Runs, IsExpected}
use vpp_plugins.Ip4.Established.{CanReset, Established, Handshake-Established}
use vpp_plugins.Buffer.Parse.{tcp_parse_flow_key, ip4_flow_key}
use vpp_plugins.Protocol.Registered.{handler_of, protocol_handler_get-registered}
use vpp_plugins.Protocol.Tcp.{parse_key}
use vpp_plugins.Tracker.Spec.{Runs}
use vpp_plugins.Ip4.Safety.{registered_handler}
use vpp_plugins.Reset.Send.{is_zero_mac, reset_packet}
use vpp_plugins.Protocol.Handlers.{tcp, protocol_handler_get, registered_handlers}
use vpp_plugins.Buffer.Defs.{vlib_buffer_init_flow}
use vpp_plugins.Ip4.Arrive.{packet_key}
use vpp_plugins.Buffer.Vlan.{ip4_pre_process, parse_vlan_tags}
use vpp_plugins.Ip4.Run.{Input, comes, run_inputs, goes, IsHandled, expires}
use vpp_plugins.Flow.Types.{FlowKey}
use vpp_plugins.Ip4.Input.{IsValidCtx}
use vpp_plugins.Ip4.Workers.{
  inputs_of, Schedule, run_schedule, Workers, AllValid, run_schedule-run_inputs,
}
use vpp_plugins.Flow.Defs.{flow_key_reverse, WrkCtx, flow_table_hash}
use vpp_plugins.Tracker.View.{CollisionFree, view}
use vpp_plugins.Tests.{empty_IsValid, syn-First, arrived, Pairs, vpp, empty_wrk, syn, syn_ack, ack}
use vpp_plugins.Tests.{empty_IsInitial}
use vpp_plugins.Ip4.Resets.{IsReset, Reach-IsReset}
use vpp_plugins.Ip4.Reach.{Reach, here, next, come_in, go_out}
use vpp_plugins.Ip4.Reply.{NoCollision}
use vpp_plugins.Ip4.Process.{Outcome}
use vpp_plugins.Base.{ap, refl}
use vpp_plugins.Tracker.Isolated.{Opens, seen}
use vpp_plugins.Tracker.Own.{Explained, run_inputs-Explained}
use vpp_plugins.Base.{
  arith, List, ℕ, inl, ◌≡◌, ◌∙◌, inr, ◌∷◌, some, ap, refl, sym, ◌⊎◌, All, map, [], ◌≢◌,
}

three_packets-Handshake : Handshake registered_handlers syn syn_ack ack
unfolding arrived ip4_pre_process parse_vlan_tags vlib_buffer_init_flow protocol_handler_get
    handler_of flow_key_reverse parse_key tcp_parse_flow_key ip4_flow_key packet_event
    flags_to_events
three_packets-Handshake = record {
  syn = refl;
  syn_ack = refl;
  ack = refl;
  reply_handler = protocol_handler_get-registered 6;
  ack_handler = protocol_handler_get-registered 6;
  reply_key = refl;
  ack_key = refl;
}

syn-CanReset : CanReset vpp registered_handlers empty_wrk syn
unfolding arrived ip4_pre_process parse_vlan_tags vlib_buffer_init_flow is_zero_mac
syn-CanReset = record {
  interface_known = refl;
  interface_there = refl;
  hardware = refl;
  smac = refl;
  dmac = refl;
  buffer = refl;
}

keys_not_equal : NoCollision vpp registered_handlers tcp syn
unfolding arrived ip4_pre_process parse_vlan_tags vlib_buffer_init_flow flow_key_reverse parse_key
    tcp_parse_flow_key ip4_flow_key flow_table_hash
keys_not_equal = refl

Handshake-Established_example : Established vpp registered_handlers empty_wrk syn syn_ack ack 0
unfolding arrived ip4_pre_process parse_vlan_tags vlib_buffer_init_flow flow_key_reverse parse_key
    tcp_parse_flow_key ip4_flow_key flow_table_hash
Handshake-Established_example =
    Handshake-Established vpp registered_handlers empty_wrk syn syn_ack ack 0 syn-First
      three_packets-Handshake refl syn-CanReset

-- The handshake, after which a reset has been sent.
abbrev shaken : Established vpp registered_handlers empty_wrk syn syn_ack ack 0
shaken =
    Handshake-Established vpp registered_handlers empty_wrk syn syn_ack ack 0 syn-First
      three_packets-Handshake keys_not_equal syn-CanReset

shaken_Reach : Reach vpp empty_wrk shaken.done
unfolding arrived ip4_pre_process parse_vlan_tags vlib_buffer_init_flow
shaken_Reach =
    next
      (next
        (next (next here (come_in syn _ (omega arith) shaken.opened.came_in))
          (go_out _ (ap (λ (o : Outcome Pairs ℕ). o.1) shaken.opened.went_out)))
        (come_in syn_ack _ (omega arith) shaken.reply_in))
      (come_in ack _ (omega arith) shaken.ack_in)

Reach-IsReset_example :
    IsReset vpp empty_wrk shaken.done [] (reset_packet vpp shaken.flow shaken.flow.entry_in)
Reach-IsReset_example =
    Reach-IsReset vpp [] (reset_packet vpp shaken.flow shaken.flow.entry_in) [] empty_IsInitial refl
      shaken_Reach shaken.sent

-- The key of the connection and its reverse.
abbrev IsKey : FlowKey → Type 0
IsKey k = (k ≡ packet_key tcp syn) ⊎ (k ≡ flow_key_reverse (packet_key tcp syn))

keys_apart :
    flow_table_hash vpp (packet_key tcp syn)
    ≢ flow_table_hash vpp (flow_key_reverse (packet_key tcp syn))
unfolding arrived ip4_pre_process parse_vlan_tags vlib_buffer_init_flow flow_key_reverse parse_key
    tcp_parse_flow_key ip4_flow_key flow_table_hash
keys_apart h = absurd (omega arith)

keys-CollisionFree : CollisionFree vpp IsKey
keys-CollisionFree k j (inl a) (inl b) h = a ∙ sym b
keys-CollisionFree k j (inr a) (inr b) h = a ∙ sym b
keys-CollisionFree k j (inl a) (inr b) h =
    absurd (keys_apart (ap (flow_table_hash vpp) (sym a) ∙ h ∙ ap (flow_table_hash vpp) b))
keys-CollisionFree k j (inr a) (inl b) h =
    absurd (keys_apart (ap (flow_table_hash vpp) (sym b) ∙ sym h ∙ ap (flow_table_hash vpp) a))

keys_closed : (k : FlowKey) → IsKey k → IsKey (flow_key_reverse k)
unfolding flow_key_reverse
keys_closed k (inl a) = inr (ap flow_key_reverse a)
keys_closed k (inr a) = inl (ap flow_key_reverse a)

-- The SYN comes in and goes out, its answer comes in, and time passes.
abbrev inputs : List Input
inputs = comes syn ∷ goes syn ∷ comes syn_ack ∷ expires 3 ∷ []

inputs-IsExpected : All (IsExpected IsKey) inputs
unfolding arrived ip4_pre_process parse_vlan_tags vlib_buffer_init_flow registered_handler
    flow_key_reverse parse_key tcp_parse_flow_key ip4_flow_key
inputs-IsExpected = ((omega arith, inl refl), (tt, ((omega arith, inr refl), (tt, tt))))

run_inputs-Runs_example :
    (wrk' : WrkCtx Pairs ℕ) × (run_inputs vpp empty_wrk inputs ≡ some wrk')
    × IsValidCtx vpp wrk'
    × Runs IsKey (map event_of inputs) (view vpp empty_wrk) (view vpp wrk')
run_inputs-Runs_example =
    run_inputs-Runs vpp IsKey keys-CollisionFree keys_closed empty_wrk inputs empty_IsValid
      (λ i c h. absurd (cc h)) inputs-IsExpected

syn-Opens : Opens vpp IsKey keys-CollisionFree keys_closed empty_wrk syn 0
unfolding arrived ip4_pre_process parse_vlan_tags vlib_buffer_init_flow registered_handler
    flow_key_reverse parse_key tcp_parse_flow_key ip4_flow_key
syn-Opens = record {
  handled = omega arith;
  within = inl refl;
  new = refl;
  back = refl;
  apart = λ e. keys_apart (ap (flow_table_hash vpp) (sym e));
  slot = refl;
}

-- The SYN goes out, its answer and a retransmission of it come in, and time passes.
abbrev later : List Input
later = goes syn ∷ comes syn_ack ∷ comes syn ∷ expires 3 ∷ []

later-IsExpected : All (IsExpected IsKey) later
unfolding arrived ip4_pre_process parse_vlan_tags vlib_buffer_init_flow registered_handler
    flow_key_reverse parse_key tcp_parse_flow_key ip4_flow_key
later-IsExpected = (tt, ((omega arith, inr refl), ((omega arith, inl refl), (tt, tt))))

run_inputs-Explained_example :
    (wrk' : WrkCtx Pairs ℕ) × (run_inputs vpp empty_wrk (comes syn ∷ later) ≡ some wrk')
    × Explained wrk' 0 (seen syn).key (comes syn ∷ later)
unfolding arrived ip4_pre_process parse_vlan_tags vlib_buffer_init_flow run_inputs
run_inputs-Explained_example =
    run_inputs-Explained vpp IsKey keys-CollisionFree keys_closed empty_wrk empty_wrk [] later syn 0
      empty_IsInitial tt refl syn-Opens later-IsExpected (inl refl, (inl refl, tt))

-- Two threads, one of which the first packet comes in on, and the other one the answer.
abbrev in_turn : Schedule
in_turn = (1, comes syn) ∷ (2, comes syn_ack) ∷ (1, goes syn) ∷ []

in_turn-IsHandled : All (λ (s : ℕ × Input). IsHandled s.1) in_turn
unfolding arrived ip4_pre_process parse_vlan_tags vlib_buffer_init_flow
in_turn-IsHandled = (omega arith, (omega arith, (tt, tt)))

run_schedule-run_inputs_example :
    (ws' : Workers vpp) × (run_schedule vpp (λ t. empty_wrk) in_turn ≡ some ws')
    × AllValid vpp ws'
    × ((t : ℕ) → run_inputs vpp empty_wrk (inputs_of t in_turn) ≡ some (ws' t))
run_schedule-run_inputs_example =
    run_schedule-run_inputs vpp (λ t. empty_wrk) in_turn (λ t. empty_IsValid) in_turn-IsHandled
