-- ===== src/Ip4/Hooks.antt =====
-- The hooks of flow_table/core on their hook nodes after `flow_table_init` of flow_table/core/init.c.
use vpp_plugins.Ip4.Start.{
  Machine, put_buffer, ip6_process, pre_process, input_process, output_process, hooks_of,
  flow_table_init, no_hooks,
}
use vpp_plugins.Filter.Command.{
  l2_input_ip4_arc, l2_input_ip6_arc, l2_output_ip4_arc, l2_output_ip6_arc,
}
use vpp_plugins.Ip4.Safety.{ip4_input_process-IsValid}
use vpp_plugins.Buffer.Parse.{ip4_protocol}
use vpp_plugins.Ip4.Input.{IsValidCtx}
use vpp_plugins.Buffer.Vlan.{ip4_pre_process}
use vpp_plugins.Buffer.Defs.{Buffer}
use vpp_plugins.Ip4.Process.{Action, stop, ip4_output_process, accept, ip4_input_process}
use vpp_plugins.Protocol.Handlers.{Handlers, registered_handlers}
use vpp_plugins.Flow.Defs.{WrkCtx}
use vpp_plugins.Filter.Node.{Buffers, vnetfilter_hook_process, next_of}
use vpp_plugins.Flow.Vpp.{Vpp}
use vpp_plugins.Filter.Hook.{HookProcess, run_hooks, is_accept}
use mathlib.Core.Path.{fun_ext}
use vpp_plugins.Base.{[], some, ◌≡◌, ◌<◌, ◌∷◌, ◌⊎◌, refl, inl, arith, inr, ap, ◌∙◌, ℕ, true}

module _ {B S : Type 0} (vlib : Buffers B S) where
  -- Two hooks that accept, and one that accepts or stops.
  two_accept :
      (h k : HookProcess B S) (b : B) (s t u : S)
      → h.function b s ≡ (accept, t)
      → k.function b t ≡ (accept, u)
      → vnetfilter_hook_process vlib (h ∷ k ∷ []) b s ≡ vlib.feature_next b u
  unfolding vnetfilter_hook_process run_hooks is_accept next_of
  two_accept h k b s t u e e' =
      rw (e, run_hooks, vnetfilter_hook_process)
        (rw (e, e')
          (ap (λ (x : Action × S). vlib.feature_next b (k.function b x.1).1) e
            ∙ ap (λ (x : Action × S). vlib.feature_next b x.1) e'))

  goes_on :
      (h : HookProcess B S) (b : B) (s : S)
      → ((h.function b s).0 ≡ accept) ⊎ ((h.function b s).0 ≡ stop)
      → vnetfilter_hook_process vlib (h ∷ []) b s ≡ vlib.feature_next b (h.function b s).1
  unfolding vnetfilter_hook_process run_hooks is_accept next_of
  goes_on h b s (inl e) = rw (e, run_hooks) refl
  goes_on h b s (inr e) = rw (e, run_hooks) (rw e refl)

put_self : (bufs : ℕ → Buffer) (i : ℕ) (b : Buffer) → put_buffer bufs i b i ≡ b
unfolding put_buffer
put_self bufs i b = ground arith

put_twice :
    (bufs : ℕ → Buffer) (i : ℕ) (b c : Buffer)
    → put_buffer (put_buffer bufs i b) i c ≡ put_buffer bufs i c
unfolding put_buffer
put_twice bufs i b c = fun_ext at
  where
    at : (j : ℕ) → put_buffer (put_buffer bufs i b) i c j ≡ put_buffer bufs i c j
    at j = ground arith

-- The start-up registers each hook once, with no error: parsing and `ip4_input_process` on the input
-- node for IPv4, `ip4_output_process` on its output node, and on the nodes for IPv6 hooks that accept.
flow_table_init-no_hooks :
    {T W : Type 0} (vpp : Vpp T W) (handlers : Handlers)
    → flow_table_init vpp handlers no_hooks ≡ (
      record {
        l2_input_ip4 =
            record { priority = 0; function = pre_process vpp handlers }
            ∷ record { priority = 0; function = input_process vpp handlers }
            ∷ [];
        l2_input_ip6 =
            record { priority = 0; function = ip6_process }
            ∷ record { priority = 0; function = ip6_process }
            ∷ [];
        l2_output_ip4 = record { priority = 0; function = output_process vpp handlers } ∷ [];
        l2_output_ip6 = record { priority = 0; function = ip6_process } ∷ [];
      },
      true,
    )
unfolding flow_table_init
flow_table_init-no_hooks vpp handlers = refl

module _ {T W : Type 0} (vpp : Vpp T W) (vlib : Buffers ℕ (Machine T W)) where
  input_accepts :
      (wrk after : WrkCtx T W) (bufs : ℕ → Buffer) (i : ℕ) (b : Buffer)
      → ip4_input_process vpp registered_handlers wrk (bufs i) ≡ some (accept, after, b)
      → input_process vpp registered_handlers i (some (wrk, bufs))
        ≡ (accept, some (after, put_buffer bufs i b))
  unfolding input_process
  input_accepts wrk after bufs i b e = rw (e, input_process) refl

  parsed_accepts :
      (wrk after : WrkCtx T W) (bufs : ℕ → Buffer) (i : ℕ) (p b : Buffer)
      → ip4_input_process vpp registered_handlers wrk p ≡ some (accept, after, b)
      → input_process vpp registered_handlers i (some (wrk, put_buffer bufs i p))
        ≡ (accept, some (after, put_buffer bufs i b))
  parsed_accepts wrk after bufs i p b e =
      input_accepts wrk after (put_buffer bufs i p) i b
        (ap (ip4_input_process vpp registered_handlers wrk) (put_self bufs i p) ∙ e)
      ∙ ap (λ (m : ℕ → Buffer). (accept, some (after, m))) (put_twice bufs i p b)

  -- After start-up, in a context that satisfies the invariant, a packet whose protocol, once its
  -- Ethernet header is parsed, is below 255 runs through both hooks of the input node without a fault
  -- and goes on to the next node of the feature arc, in a context that satisfies the invariant again;
  -- the other buffers of the frame stay as they are.
  pub hook_process-l2_input_ip4 :
      (wrk : WrkCtx T W) (bufs : ℕ → Buffer) (i : ℕ)
      → IsValidCtx vpp wrk
      → ip4_protocol (ip4_pre_process (bufs i)) < 255
      → (after : WrkCtx T W) × (b : Buffer) × (ip4_input_process vpp registered_handlers wrk
            (ip4_pre_process (bufs i))
          ≡ some (accept, after, b))
        × IsValidCtx vpp after
        × (vnetfilter_hook_process vlib
              (hooks_of vpp registered_handlers l2_input_ip4_arc)
              i
              (some (wrk, bufs))
            ≡ vlib.feature_next i (some (after, put_buffer bufs i b)))
  unfolding hooks_of pre_process
  hook_process-l2_input_ip4 wrk bufs i v lt =
      let done = ip4_input_process-IsValid vpp wrk (ip4_pre_process (bufs i)) v lt in
      (
        done.wrk,
        done.buffer,
        done.eq,
        done.valid,
        two_accept vlib _ _ i (some (wrk, bufs))
            (some (wrk, put_buffer bufs i (ip4_pre_process (bufs i))))
            (some (done.wrk, put_buffer bufs i done.buffer)) refl
            (parsed_accepts wrk done.wrk bufs i (ip4_pre_process (bufs i)) done.buffer done.eq),
      )

  output_action :
      (wrk : WrkCtx T W) (b : Buffer)
      → ((ip4_output_process vpp wrk b).0 ≡ accept) ⊎ ((ip4_output_process vpp wrk b).0 ≡ stop)
  unfolding ip4_output_process
  output_action wrk b = ground arith

  -- After start-up any packet goes on from the output node to the next node of the feature arc, whether
  -- or not it has a flow, in the context that `ip4_output_process` leaves; the other buffers of the
  -- frame stay as they are.
  pub hook_process-l2_output_ip4 :
      (wrk : WrkCtx T W) (bufs : ℕ → Buffer) (i : ℕ)
      → let done = ip4_output_process vpp wrk (bufs i) in
        vnetfilter_hook_process vlib
          (hooks_of vpp registered_handlers l2_output_ip4_arc)
          i
          (some (wrk, bufs))
        ≡ vlib.feature_next i (some (done.1, put_buffer bufs i done.2))
  unfolding hooks_of output_process
  hook_process-l2_output_ip4 wrk bufs i =
      goes_on vlib _ i (some (wrk, bufs)) (output_action wrk (bufs i))

  -- After start-up the nodes for IPv6 pass every packet on to the next node of the feature arc, and
  -- change neither a buffer nor the worker's context.
  pub hook_process-ip6 :
      (i : ℕ) (s : Machine T W)
      → (vnetfilter_hook_process vlib (hooks_of vpp registered_handlers l2_input_ip6_arc) i s
          ≡ vlib.feature_next i s)
        × (vnetfilter_hook_process vlib (hooks_of vpp registered_handlers l2_output_ip6_arc) i s
            ≡ vlib.feature_next i s)
  unfolding hooks_of ip6_process
  hook_process-ip6 i s = (two_accept vlib _ _ i s s s refl refl, goes_on vlib _ i s (inl refl))
