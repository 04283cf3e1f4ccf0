-- ===== src/Ip4/Safety.antt =====
-- A packet that comes in: `ip4_input_process` of flow_table/core/ip4_process.c and the invariant.
use vpp_plugins.Ip4.Change.{Change, Change-IsValid, Change-Keeps, Change-All, stays, moves, opens}
use vpp_plugins.Ip4.Shown.{IsShown-Closed, AllShown}
use vpp_plugins.Ip4.Keeps.{Keeps}
use vpp_plugins.Ip4.Arrive.{
  packet_key, found_entry, new_flow-none, input-new, input-known, new_flow-some,
}
use vpp_plugins.Buffer.Parse.{ip4_protocol}
use vpp_plugins.Flow.Types.{EntryRef}
use vpp_plugins.Ip4.Input.{IsValidCtx, known_flow-accept}
use vpp_plugins.Buffer.Defs.{Buffer, vlib_buffer_set_flow}
use vpp_plugins.Flow.Defs.{WrkCtx, flow_table_hash}
use vpp_plugins.Ip4.Process.{ip4_input_process, Outcome, new_flow, accept, known_flow}
use vpp_plugins.Protocol.Handlers.{
  Handler, icmp, tcp, registered_handlers, udp, unimplemented, protocol_handler_get,
}
use vpp_plugins.Flow.Vpp.{Vpp}
use vpp_plugins.Protocol.Registered.{handler_of, protocol_handler_get-registered}
use vpp_plugins.Base.{
  arith, ℕ, Option, if◌then◌else◌, ◌==◌, ◌≡◌, some, Option-cases, ◌<◌, inl, inr, refl, none,
}

unfoldable pub registered_handler : ℕ → Handler
registered_handler p =
    if p == 1 then icmp else (if p == 6 then tcp else (if p == 17 then udp else unimplemented))

pub has_handler :
    (p : ℕ) → p < 255 → protocol_handler_get registered_handlers p ≡ some (registered_handler p)
unfolding registered_handler handler_of
has_handler p lt = ground (arith, protocol_handler_get-registered p)

no_handler : protocol_handler_get registered_handlers 255 ≡ none
unfolding handler_of
no_handler = protocol_handler_get-registered 255

module _ {T W : Type 0} (vpp : Vpp T W) where
  -- The packet was accepted, no flow was lost, the invariant holds afterwards, and every flow is counted
  -- as used and has a handler if that was so before.
  pub record Handled (before : WrkCtx T W) (r : Option (Outcome T W)) : Type 0 where
    pub wrk : WrkCtx T W
    pub buffer : Buffer
    pub eq : r ≡ some (accept, wrk, buffer)
    pub change : Change vpp before wrk
    pub valid : IsValidCtx vpp wrk
    pub keeps : Keeps before wrk
    pub shown : AllShown before → AllShown wrk

  Change-Handled :
      {before : WrkCtx T W} {r : Option (Outcome T W)} (wrk : WrkCtx T W) (b : Buffer)
      → IsValidCtx vpp before
      → r ≡ some (accept, wrk, b)
      → Change vpp before wrk
      → Handled before r
  Change-Handled wrk b v eq c = record {
    wrk = wrk;
    buffer = b;
    eq = eq;
    change = c;
    valid = Change-IsValid vpp c v;
    keeps = Change-Keeps vpp c;
    shown = Change-All vpp IsShown-Closed c;
  }

  known-Handled :
      (wrk : WrkCtx T W) (h : Handler) (b : Buffer) (ref : EntryRef)
      → IsValidCtx vpp wrk
      → vpp.hash_get wrk.flows_hash_table (flow_table_hash vpp (packet_key h b)) ≡ some ref
      → Handled wrk (known_flow vpp wrk h b ref)
  known-Handled wrk h b ref v e =
      let r = v.table_ok _ ref e in
      let ok = v.flows_ok ref.index r.target r.found in
      let (wrk', eq, ran, t) = known_flow-accept vpp wrk h b ref r ok.index_lt in
      Change-Handled wrk' (vlib_buffer_set_flow b ref.index) v eq
        (moves ref.index r.target r.found t)

  new-Handled :
      (wrk : WrkCtx T W) (h : Handler) (b : Buffer)
      → IsValidCtx vpp wrk
      → ip4_protocol b < 255
      → Handled wrk (new_flow vpp wrk h b (packet_key h b) (flow_table_hash vpp (packet_key h b)))
  new-Handled wrk h b v lt =
      let key = packet_key h b in
      let hash_key = flow_table_hash vpp key in
      elim (Option-cases (vpp.pool_get wrk.flows)) [
        | inl full ↦
            Change-Handled wrk b v (new_flow-none vpp wrk h b key hash_key full) (stays refl refl)
        | inr (i, slot) ↦
            (let (wrk', eq, ran, t) = new_flow-some vpp wrk h b key hash_key i slot in
              Change-Handled wrk' (vlib_buffer_set_flow b i) v eq (opens i h b slot lt t))
      ]

  -- After start-up, in any context that satisfies the invariant, a packet of any protocol below 255
  -- is accepted without a fault, no flow is lost, the invariant holds afterwards, and every flow is
  -- counted as used and has a handler if that was so before.
  pub ip4_input_process-IsValid :
      (wrk : WrkCtx T W) (b : Buffer)
      → IsValidCtx vpp wrk
      → ip4_protocol b < 255
      → Handled wrk (ip4_input_process vpp registered_handlers wrk b)
  ip4_input_process-IsValid wrk b v lt =
      let h = registered_handler (ip4_protocol b) in
      let eh = has_handler (ip4_protocol b) lt in
      elim (Option-cases (found_entry vpp wrk h b)) [
        | inl new ↦ rw (input-new vpp registered_handlers wrk b h eh new) (new-Handled wrk h b v lt)
        | inr (ref, known) ↦
            rw (input-known vpp registered_handlers wrk b h ref eh known)
              (known-Handled wrk h b ref v known)
      ]

  -- After start-up, in any context, a packet of protocol 255 calls a NULL function.
  pub ip4_input_process-reserved :
      (wrk : WrkCtx T W) (b : Buffer)
      → ip4_protocol b ≡ 255
      → ip4_input_process vpp registered_handlers wrk b ≡ none
  unfolding ip4_input_process
  ip4_input_process-reserved wrk b e = rw (e, no_handler, ip4_input_process)
