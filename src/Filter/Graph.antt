-- ===== src/Filter/Graph.antt =====
-- The hook nodes of flow_table/vnetfilter/node.c in the graph of nodes: the node function, and the
-- nodes that its next indices stand for.
use vpp_plugins.Filter.Hook.{HookProcess, run_hooks}
use vpp_plugins.Filter.Laws.{loop_four-loop_one}
use vpp_plugins.Filter.Node.{
  Buffers, Traced, loop_four, loop_one, next_of, vnetfilter_hook_process, process, trace_buffer,
  hook_next_drop, hook_next_stolen,
}
use vpp_plugins.Ip4.Process.{Action, accept, drop, stolen, stop}
use vpp_plugins.Base.{
  ℕ, ◌≡◌, ◌≤◌, List, [], ◌∷◌, Bool, true, false, if◌then◌else◌, map, length, refl, ap, ◌∙◌, ◌==◌,
  arith,
}

-- A node that a packet is enqueued to: one of the two that `next_nodes` names, or one that the
-- feature arcs have added behind them.
pub data NextNode : Type 0 where
  error_drop vnetfilter_stolen : NextNode
  feature : (next_index : ℕ) → NextNode

-- `.next_nodes` of `hook##_node`
unfoldable pub next_node : ℕ → NextNode
next_node next =
    if next == hook_next_stolen
    then vnetfilter_stolen
    else (if next == hook_next_drop then error_drop else feature next)

module _ {B S : Type 0} (vlib : Buffers B S) where
  -- `vnetfilter_hook_process_inline`: the next indices that `vlib_buffer_enqueue_to_next` gets with the
  -- frame's buffers, the state behind the frame, and the number that is returned.
  unfoldable pub vnetfilter_hook_process_inline :
      Bool → List (HookProcess B S) → List B → Traced S → List ℕ × Traced S × ℕ
  vnetfilter_hook_process_inline is_trace hooks frame t =
      let done = loop_four vlib is_trace hooks frame t in (done.0, done.1, length frame)

  -- `VLIB_NODE_FN (hook##_node)`; `node_trace` is `node->flags & VLIB_NODE_FLAG_TRACE`.
  unfoldable pub hook_node :
      (node_trace : Bool) → List (HookProcess B S) → List B → Traced S → List ℕ × Traced S × ℕ
  unfolding vnetfilter_hook_process_inline
  hook_node node_trace hooks frame t =
      if node_trace
      then vnetfilter_hook_process_inline true hooks frame t
      else vnetfilter_hook_process_inline false hooks frame t

  -- Where a packet goes by its hooks' action, and the state there.
  pub sent_by : Action → B → S → NextNode × S
  sent_by drop b s = (error_drop, s)
  sent_by stolen b s = (vnetfilter_stolen, s)
  sent_by accept b s = (feature (vlib.feature_next b s).0, (vlib.feature_next b s).1)
  sent_by stop b s = (feature (vlib.feature_next b s).0, (vlib.feature_next b s).1)

  -- The packets of a frame one after the other, each by its hooks' action.
  pub sent_all : List (HookProcess B S) → List B → S → List NextNode × S
  sent_all hooks [] s = ([], s)
  sent_all hooks (b ∷ bs) s =
      let done = run_hooks hooks b s in
      let one = sent_by done.0 b done.1 in
      let rest = sent_all hooks bs one.1 in (one.0 ∷ rest.0, rest.1)

  -- The feature arcs have added their nodes behind those of `next_nodes`.
  abbrev pub ArcsBehind : Type 0
  ArcsBehind = (b : B) (s : S) → 2 ≤ (vlib.feature_next b s).0

  feature_node : (n : ℕ) → 2 ≤ n → next_node n ≡ feature n
  unfolding next_node
  feature_node n le = ground arith

  next_of-sent_by :
      (a : Action) (b : B) (s : S)
      → ArcsBehind
      → let next = next_of vlib a b s in
        (next_node next.0 ≡ (sent_by a b s).0) × (next.1 ≡ (sent_by a b s).1)
  unfolding next_of sent_by next_node
  next_of-sent_by drop b s behind = (refl, refl)
  next_of-sent_by stolen b s behind = (refl, refl)
  next_of-sent_by accept b s behind = (feature_node _ (behind b s), refl)
  next_of-sent_by stop b s behind = (feature_node _ (behind b s), refl)

  cons_eq : {x y : NextNode} {xs ys : List NextNode} → x ≡ y → xs ≡ ys → (x ∷ xs) ≡ (y ∷ ys)
  cons_eq e es = cc (e, es)

  pair_eq : {xs : List NextNode} {s : S} {r : List NextNode × S} → xs ≡ r.0 → s ≡ r.1 → (xs, s) ≡ r
  pair_eq e es = cc (e, es)

  loop_one-sent_all :
      (is_trace : Bool) (hooks : List (HookProcess B S)) (bs : List B) (t : Traced S)
      → ArcsBehind
      → let done = loop_one vlib is_trace hooks bs t in
        (map next_node done.0 ≡ (sent_all hooks bs t.0).0) × (done.1.0 ≡ (sent_all hooks bs t.0).1)
  unfolding loop_one process trace_buffer vnetfilter_hook_process sent_all
  loop_one-sent_all is_trace hooks [] t behind = (refl, refl)
  loop_one-sent_all is_trace hooks (b ∷ bs) t behind =
      let done = run_hooks hooks b t.0 in
      let one = next_of-sent_by done.0 b done.1 behind in
      let rest =
        loop_one-sent_all is_trace hooks bs
          (process vlib hooks b (trace_buffer vlib is_trace b 0 t)).1 behind in
      (
        cons_eq one.0 (rest.0 ∙ ap (λ s. (sent_all hooks bs s).0) one.1),
        rest.1 ∙ ap (λ s. (sent_all hooks bs s).1) one.1,
      )

  inline-sent_all :
      (is_trace : Bool) (hooks : List (HookProcess B S)) (frame : List B) (t : Traced S)
      → ArcsBehind
      → let (nexts, (after, traces), n_vectors) =
          vnetfilter_hook_process_inline is_trace hooks frame t in
        ((map next_node nexts, after) ≡ sent_all hooks frame t.0) × (n_vectors ≡ length frame)
  unfolding vnetfilter_hook_process_inline
  inline-sent_all is_trace hooks frame t behind =
      let one = loop_one-sent_all is_trace hooks frame t behind in
      (rw (loop_four-loop_one vlib is_trace hooks frame t) (pair_eq one.0 one.1), refl)

  -- If the feature arcs have added their next nodes behind the two of `next_nodes`, a hook node sends the
  -- packets of a frame, whatever its length and whether or not the node is traced, one after the other:
  -- each runs the hooks in the state that the packets before it leave, and goes to "error-drop" if a
  -- hook's action is DROP, to "vnetfilter-stolen" if it is STOLEN, and else to the next node of its
  -- feature arc. The node returns the number of packets.
  pub hook_node-sent_all :
      (node_trace : Bool) (hooks : List (HookProcess B S)) (frame : List B) (t : Traced S)
      → ArcsBehind
      → let (nexts, (after, traces), n_vectors) = hook_node node_trace hooks frame t in
        ((map next_node nexts, after) ≡ sent_all hooks frame t.0) × (n_vectors ≡ length frame)
  unfolding hook_node
  hook_node-sent_all true hooks frame t behind = inline-sent_all true hooks frame t behind
  hook_node-sent_all false hooks frame t behind = inline-sent_all false hooks frame t behind
