-- ===== src/Filter/Laws.antt =====
-- What the hook lists and the node loop of flow_table/vnetfilter do.
use mathlib.Core.List.{append-nil, append_assoc}
use vpp_plugins.Filter.Hook.{run_hooks, hook_process, HookProcess, is_accept, rounds}
use vpp_plugins.Filter.Node.{Buffers, loop_four, Traced, loop_one, HookTrace, trace_buffer, process}
use vpp_plugins.Base.{
  List, ◌∷◌, Bool, ◌++◌, ◌≡◌, if◌then◌else◌, replicate, length, [], Bool-cases, refl, ℕ, inl, inr,
  suc, ◌&&◌, zero, sym, ap, ◌∙◌,
}

module _ {B S : Type 0} where
  -- Hooks behind other hooks run, in the state that those leave, exactly if those all accept; and
  -- otherwise the earlier hooks' action and state are the result.
  pub run_hooks-append :
      (before after : List (HookProcess B S)) (b : B) (s : S)
      → run_hooks (before ++ after) b s ≡ (
          if is_accept (run_hooks before b s).0
          then run_hooks after b (run_hooks before b s).1
          else run_hooks before b s)
  unfolding run_hooks
  run_hooks-append [] after b s = refl
  run_hooks-append (h ∷ hs) after b s = elim (Bool-cases (is_accept (h.function b s).0)) [
    | inl accepts ↦ rw (accepts, run_hooks) (run_hooks-append hs after b (h.function b s).1)
    | inr ends ↦ rw (ends, run_hooks) (rw ends refl)
  ]

  rounds-replicate :
      (n : ℕ) (h : HookProcess B S) (b : B) (s : S) → rounds n h b s ≡ run_hooks (replicate n h) b s
  unfolding rounds run_hooks
  rounds-replicate zero h b s = refl
  rounds-replicate (suc n) h b s = elim (Bool-cases (is_accept (h.function b s).0)) [
    | inl accepts ↦ rw (accepts, rounds, run_hooks) (rounds-replicate n h b (h.function b s).1)
    | inr ends ↦ rw (ends, rounds, run_hooks) refl
  ]

  -- `hook##_hook_process` of hook.c calls the first hook of the list as often as the list is long, up
  -- to its first action that is not ACCEPT: it does what the node's loop does on that many copies.
  pub hook_process-replicate :
      (h : HookProcess B S) (hs : List (HookProcess B S)) (b : B) (s : S)
      → hook_process (h ∷ hs) b s ≡ run_hooks (replicate (length (h ∷ hs)) h) b s
  unfolding hook_process
  hook_process-replicate h hs b s = rounds-replicate (length (h ∷ hs)) h b s

module _ {B S : Type 0} (vlib : Buffers B S) where
  -- The loop over four packets at a time gives every packet the next node, and leaves the state and
  -- the traces, that the loop over single packets does.
  pub loop_four-loop_one :
      (is_trace : Bool) (hooks : List (HookProcess B S)) (bs : List B) (t : Traced S)
      → loop_four vlib is_trace hooks bs t ≡ loop_one vlib is_trace hooks bs t
  unfolding loop_four
  loop_four-loop_one is_trace hooks [] t = refl
  loop_four-loop_one is_trace hooks (b0 ∷ []) t = refl
  loop_four-loop_one is_trace hooks (b0 ∷ b1 ∷ []) t = refl
  loop_four-loop_one is_trace hooks (b0 ∷ b1 ∷ b2 ∷ []) t = refl
  loop_four-loop_one is_trace hooks (b0 ∷ b1 ∷ b2 ∷ b3 ∷ bs) t =
      rw (loop_four-loop_one is_trace hooks bs _)

  -- The traces that one packet adds.
  pub new_traces : Bool → B → List HookTrace
  new_traces is_trace b =
      if is_trace && vlib.is_traced b
      then (record { sw_if_index = vlib.rx_sw_if_index b; next_index = 0 }) ∷ []
      else []

  pub packet_traces : Bool → List B → List HookTrace
  packet_traces is_trace [] = []
  packet_traces is_trace (b ∷ bs) = new_traces is_trace b ++ packet_traces is_trace bs

  trace-new_traces :
      (is_trace : Bool) (b : B) (t : Traced S)
      → (trace_buffer vlib is_trace b 0 t).1 ≡ t.1 ++ new_traces is_trace b
  unfolding trace_buffer new_traces
  trace-new_traces is_trace b t = elim (Bool-cases (is_trace && vlib.is_traced b)) [
    | inl traced ↦ rw traced
    | inr not_traced ↦ rw (not_traced, append-nil)
  ]

  loop_one-traces :
      (is_trace : Bool) (hooks : List (HookProcess B S)) (bs : List B) (t : Traced S)
      → (length (loop_one vlib is_trace hooks bs t).0 ≡ length bs)
        × ((loop_one vlib is_trace hooks bs t).1.1 ≡ t.1 ++ packet_traces is_trace bs)
  unfolding loop_one packet_traces process
  loop_one-traces is_trace hooks [] t = (refl, sym (append-nil t.1))
  loop_one-traces is_trace hooks (b ∷ bs) t =
      let next = (process vlib hooks b (trace_buffer vlib is_trace b 0 t)).1 in
      let rest = loop_one-traces is_trace hooks bs next in
      (
        ap suc rest.0,
        rest.1
            ∙ ap (λ (l : List HookTrace). l ++ packet_traces is_trace bs)
                (trace-new_traces is_trace b t)
            ∙ append_assoc t.1 (new_traces is_trace b) (packet_traces is_trace bs),
      )

  -- The node gives each packet of the frame one next index, and adds, in the packets' order, one trace
  -- for each traced packet if tracing is on; each of these traces has the next index 0, whatever the
  -- hooks decide for the packet.
  pub loop_four-traces :
      (is_trace : Bool) (hooks : List (HookProcess B S)) (bs : List B) (t : Traced S)
      → (length (loop_four vlib is_trace hooks bs t).0 ≡ length bs)
        × ((loop_four vlib is_trace hooks bs t).1.1 ≡ t.1 ++ packet_traces is_trace bs)
  loop_four-traces is_trace hooks bs t =
      rw (loop_four-loop_one is_trace hooks bs t) (loop_one-traces is_trace hooks bs t)
