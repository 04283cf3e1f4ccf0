-- ===== src/Ip4/Frame.antt =====
-- A frame of packets on a hook node of flow_table/vnetfilter/node.c with the IPv4 hooks of
-- flow_table/core.
use vpp_plugins.Ip4.Start.{Machine, put_buffer, hooks_of}
use vpp_plugins.Ip4.Hooks.{hook_process-l2_input_ip4, hook_process-l2_output_ip4}
use vpp_plugins.Ip4.Run.{Input, comes, goes, IsHandled, input_step, run_inputs, context_of}
use vpp_plugins.Ip4.Output.{ip4_output_process-IsValid}
use vpp_plugins.Ip4.Process.{ip4_output_process}
use vpp_plugins.Filter.Command.{l2_input_ip4_arc, l2_output_ip4_arc}
use vpp_plugins.Filter.Hook.{HookProcess}
use vpp_plugins.Filter.Laws.{loop_four-loop_one}
use vpp_plugins.Filter.Node.{
  Buffers, vnetfilter_hook_process, trace_buffer, loop_one, loop_four, Traced, HookTrace,
}
use vpp_plugins.Protocol.Handlers.{registered_handlers}
use vpp_plugins.Ip4.Input.{IsValidCtx}
use vpp_plugins.Buffer.Vlan.{ip4_pre_process}
use vpp_plugins.Buffer.Defs.{Buffer}
use vpp_plugins.Flow.Defs.{WrkCtx}
use vpp_plugins.Flow.Vpp.{Vpp}
use vpp_plugins.Base.{
  ℕ, zero, suc, List, [], ◌∷◌, Bool, some, map, All, ◌≡◌, ◌<◌, refl, ap, arith, ◌∙◌, ◌==◌, false,
  sym,
}

-- The positions of a frame of `n` packets, from `at` on.
abbrev pub positions : (n at : ℕ) → List ℕ
positions zero at = []
positions (suc n) at = at ∷ positions n (suc at)

-- What the packets are to the worker.
abbrev pub inputs_at : (Buffer → Input) → (ℕ → Buffer) → (n at : ℕ) → List Input
inputs_at input bufs zero at = []
inputs_at input bufs (suc n) at = input (bufs at) ∷ inputs_at input bufs n (suc at)

-- A write in front of a position leaves the packets from there on.
inputs_put :
    (input : Buffer → Input) (bufs : ℕ → Buffer) (i : ℕ) (b : Buffer) (n at : ℕ)
    → i < at
    → inputs_at input (put_buffer bufs i b) n at ≡ inputs_at input bufs n at
unfolding put_buffer
inputs_put input bufs i b zero at lt = refl
inputs_put input bufs i b (suc n) at lt =
    let other : (i == at) ≡ false = ground arith in
    rw (other, inputs_put input bufs i b n (suc at) (omega arith)) refl

inputs_at-IsHandled : (bufs : ℕ → Buffer) (n at : ℕ) → All IsHandled (inputs_at goes bufs n at)
inputs_at-IsHandled bufs zero at = tt
inputs_at-IsHandled bufs (suc n) at = (tt, inputs_at-IsHandled bufs n (suc at))

module _ {T W : Type 0} (vpp : Vpp T W) (vlib : Buffers ℕ (Machine T W)) where
  -- What a node leaves: the context, the buffers, and the next indices.
  pub record Passed (input : Buffer → Input) (wrk : WrkCtx T W) (bufs : ℕ → Buffer)
      (next_node : ℕ → ℕ) (n at : ℕ) (r : List ℕ × Traced (Machine T W)) : Type 0 where
    pub after : WrkCtx T W
    pub buffers : ℕ → Buffer
    pub nexts : r.0 ≡ map next_node (positions n at)
    pub reached : r.1.0 ≡ some (after, buffers)
    pub ran : run_inputs vpp wrk (inputs_at input bufs n at) ≡ some after
    pub valid : IsValidCtx vpp after

  -- The node does to one packet what the input does to the context, and passes it on.
  pub record PassesOn (hooks : List (HookProcess ℕ (Machine T W))) (input : Buffer → Input)
      : Type 0 where
    pub one :
        (wrk : WrkCtx T W) (bufs : ℕ → Buffer) (i : ℕ)
        → IsValidCtx vpp wrk
        → IsHandled (input (bufs i))
        → (after : WrkCtx T W) × (b : Buffer) × (input_step vpp wrk (input (bufs i)) ≡ some after)
          × IsValidCtx vpp after
          × (vnetfilter_hook_process vlib hooks i (some (wrk, bufs))
              ≡ vlib.feature_next i (some (after, put_buffer bufs i b)))

  trace_state :
      (is_trace : Bool) (i n : ℕ) (t : Traced (Machine T W))
      → (trace_buffer vlib is_trace i n t).0 ≡ t.0
  unfolding trace_buffer
  trace_state is_trace i n t = refl

  loop_one-Passed :
      (hooks : List (HookProcess ℕ (Machine T W))) (input : Buffer → Input) (next_node : ℕ → ℕ)
      (is_trace : Bool) (wrk : WrkCtx T W) (bufs : ℕ → Buffer) (n at : ℕ) (traces : List HookTrace)
      → PassesOn hooks input
      → ((i : ℕ) (s : Machine T W) → vlib.feature_next i s ≡ (next_node i, s))
      → IsValidCtx vpp wrk
      → All IsHandled (inputs_at input bufs n at)
      → Passed input wrk bufs next_node n at
          (loop_one vlib is_trace hooks (positions n at) (some (wrk, bufs), traces))
  unfolding loop_one run_inputs
  loop_one-Passed hooks input next_node is_trace wrk bufs zero at traces on keeps v handled =
      record { after = wrk; buffers = bufs; nexts = refl; reached = refl; ran = refl; valid = v }
  loop_one-Passed hooks input next_node is_trace wrk bufs (suc n) at traces on keeps v
        (h, handled) =
      let (after, b, ran, v', eq) = on.one wrk bufs at v h in
      let same = inputs_put input bufs at b n (suc at) (omega arith) in
      let passed : vnetfilter_hook_process vlib hooks at (some (wrk, bufs))
          ≡ (next_node at, some (after, put_buffer bufs at b)) =
        eq ∙ keeps at _ in
      let rest =
        loop_one-Passed hooks input next_node is_trace after (put_buffer bufs at b) n (suc at)
          (trace_buffer vlib is_trace at 0 (some (wrk, bufs), traces)).1 on keeps v'
          (rw same handled) in
      rw passed (record {
        after = rest.after;
        buffers = rest.buffers;
        nexts = ap (λ (l : List ℕ). next_node at ∷ l) rest.nexts;
        reached = rest.reached;
        ran = rw ran (ap (run_inputs vpp after) (sym same) ∙ rest.ran);
        valid = rest.valid;
      })

  input-PassesOn :
      PassesOn (hooks_of vpp registered_handlers l2_input_ip4_arc) (λ b. comes (ip4_pre_process b))
  unfolding input_step context_of
  input-PassesOn = record {
    one = λ wrk bufs i v lt.
        let (after, b, ran, v', eq) = hook_process-l2_input_ip4 vpp vlib wrk bufs i v lt in
        (after, b, ap context_of ran, v', eq);
  }

  output-PassesOn : PassesOn (hooks_of vpp registered_handlers l2_output_ip4_arc) goes
  unfolding input_step
  output-PassesOn = record {
    one = λ wrk bufs i v u.
        let done = ip4_output_process vpp wrk (bufs i) in
        (
          done.1,
          done.2,
          refl,
          ip4_output_process-IsValid vpp wrk (bufs i) v,
          hook_process-l2_output_ip4 vpp vlib wrk bufs i,
        );
  }

  -- After start-up, in a context that satisfies the invariant, a frame of any number of packets, each of
  -- a protocol below 255 once its Ethernet header is parsed, runs through the IPv4 input node, traced
  -- or not: the worker's context is then the one that the packets lead to one after the other, in the
  -- frame's order, it satisfies the invariant, and each packet goes to the next node of the feature arc.
  -- It is assumed that looking up that node changes neither buffers nor the context.
  pub loop_four-input :
      (next_node : ℕ → ℕ) (is_trace : Bool) (wrk : WrkCtx T W) (bufs : ℕ → Buffer) (n : ℕ)
      (traces : List HookTrace)
      → ((i : ℕ) (s : Machine T W) → vlib.feature_next i s ≡ (next_node i, s))
      → IsValidCtx vpp wrk
      → All IsHandled (inputs_at (λ b. comes (ip4_pre_process b)) bufs n 0)
      → Passed
          (λ b. comes (ip4_pre_process b))
          wrk
          bufs
          next_node
          n
          0
          (loop_four vlib is_trace
            (hooks_of vpp registered_handlers l2_input_ip4_arc)
            (positions n 0)
            (some (wrk, bufs), traces))
  loop_four-input next_node is_trace wrk bufs n traces keeps v handled =
      rw
        (loop_four-loop_one vlib is_trace (hooks_of vpp registered_handlers l2_input_ip4_arc)
          (positions n 0) (some (wrk, bufs), traces))
        (loop_one-Passed (hooks_of vpp registered_handlers l2_input_ip4_arc)
          (λ b. comes (ip4_pre_process b)) next_node is_trace wrk bufs n 0 traces input-PassesOn
          keeps v handled)

  -- The same of the IPv4 output node, for packets of any protocol.
  pub loop_four-output :
      (next_node : ℕ → ℕ) (is_trace : Bool) (wrk : WrkCtx T W) (bufs : ℕ → Buffer) (n : ℕ)
      (traces : List HookTrace)
      → ((i : ℕ) (s : Machine T W) → vlib.feature_next i s ≡ (next_node i, s))
      → IsValidCtx vpp wrk
      → Passed goes wrk bufs next_node n 0 (
          loop_four vlib is_trace
            (hooks_of vpp registered_handlers l2_output_ip4_arc)
            (positions n 0)
            (some (wrk, bufs), traces))
  loop_four-output next_node is_trace wrk bufs n traces keeps v =
      rw
        (loop_four-loop_one vlib is_trace (hooks_of vpp registered_handlers l2_output_ip4_arc)
          (positions n 0) (some (wrk, bufs), traces))
        (loop_one-Passed (hooks_of vpp registered_handlers l2_output_ip4_arc) goes next_node
          is_trace wrk bufs n 0 traces output-PassesOn keeps v (inputs_at-IsHandled bufs n 0))
