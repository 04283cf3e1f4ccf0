-- ===== src/Filter/Stolen.antt =====
-- The node for stolen packets, `vnetfilter_stolen_node` of flow_table/vnetfilter/node.c.
use vpp_plugins.Filter.Node.{Buffers, Traced, HookTrace, trace_buffer}
use mathlib.Core.List.{append-nil, append_assoc}
use vpp_plugins.Base.{
  ℕ, List, [], ◌∷◌, ◌++◌, Bool, ◌≡◌, refl, arith, ◌&&◌, if◌then◌else◌, ltb, ◌+◌, ◌*◌, ◌/◌, length,
  Bool-cases, ◌≤◌, ◌∙◌, inl, inr, ap, true, ◌<◌, sym,
}

regroup :
    (l a b c d r : List HookTrace)
    → ((((l ++ a) ++ b) ++ c) ++ d) ++ r ≡ l ++ (a ++ (b ++ (c ++ (d ++ r))))
regroup l a b c d r = rw (append_assoc, append_assoc, append_assoc, append_assoc) refl

module _ {B S : Type 0} (vlib : Buffers B S) where
  -- The loop over single packets, which sets the next index to 0.
  unfoldable pub stolen_one : Bool → List B → Traced S → Traced S
  stolen_one is_trace [] t = t
  stolen_one is_trace (b ∷ bs) t = stolen_one is_trace bs (trace_buffer vlib is_trace b 0 t)

  -- The loop over four packets at a time, from the position `at` of the frame on, and behind it the loop
  -- over single packets. `nexts` is what the array `nexts` on the stack holds: nothing sets it.
  unfoldable pub stolen_four : Bool → (nexts : ℕ → ℕ) → (at : ℕ) → List B → Traced S → Traced S
  stolen_four is_trace nexts at (b0 ∷ b1 ∷ b2 ∷ b3 ∷ bs) t =
      stolen_four is_trace nexts (at + 4) bs (
        trace_buffer vlib is_trace b3 (nexts (at + 3)) (
          trace_buffer vlib is_trace b2 (nexts (at + 2)) (
            trace_buffer vlib is_trace b1 (nexts (at + 1))
              (trace_buffer vlib is_trace b0 (nexts at) t))))
  stolen_four is_trace nexts at bs t = stolen_one is_trace bs t

  -- The number of packets that the node returns, and the state with the traces.
  unfoldable pub vnetfilter_stolen_node : Bool → (nexts : ℕ → ℕ) → List B → Traced S → ℕ × Traced S
  unfolding stolen_four
  vnetfilter_stolen_node is_trace nexts bs t = (0, stolen_four is_trace nexts 0 bs t)

  -- The traces that one packet adds.
  abbrev pub trace_of : Bool → B → (next_index : ℕ) → List HookTrace
  trace_of is_trace b n =
      if is_trace && vlib.is_traced b
      then (record { sw_if_index = vlib.rx_sw_if_index b; next_index = n }) ∷ []
      else []

  -- The traces of packets from the position `at` on: those in front of `limit` have what is in the array.
  abbrev pub stolen_traces : Bool → (nexts : ℕ → ℕ) → (limit at : ℕ) → List B → List HookTrace
  stolen_traces is_trace nexts limit at [] = []
  stolen_traces is_trace nexts limit at (b ∷ bs) =
      trace_of is_trace b (if ltb at limit then nexts at else 0)
      ++ stolen_traces is_trace nexts limit (at + 1) bs

  trace_buffer-trace_of :
      (is_trace : Bool) (b : B) (n : ℕ) (s : S) (traces : List HookTrace)
      → trace_buffer vlib is_trace b n (s, traces) ≡ (s, traces ++ trace_of is_trace b n)
  unfolding trace_buffer
  trace_buffer-trace_of is_trace b n s traces = elim (Bool-cases (is_trace && vlib.is_traced b)) [
    | inl traced ↦ rw traced refl
    | inr not_traced ↦ rw (not_traced, append-nil) refl
  ]

  stolen_one-traces :
      (is_trace : Bool) (nexts : ℕ → ℕ) (limit at : ℕ) (bs : List B) (s : S)
      (traces : List HookTrace)
      → limit ≤ at
      → stolen_one is_trace bs (s, traces) ≡ (s, traces ++ stolen_traces is_trace nexts limit at bs)
  unfolding stolen_one
  stolen_one-traces is_trace nexts limit at [] s traces le = rw (append-nil) refl
  stolen_one-traces is_trace nexts limit at (b ∷ bs) s traces le =
      let zero_next : (if ltb at limit then nexts at else 0) ≡ 0 = ground arith in
      rw (zero_next, trace_buffer-trace_of is_trace b 0 s traces)
        (stolen_one-traces is_trace nexts limit (at + 1) bs s (traces ++ trace_of is_trace b 0)
            (omega arith)
          ∙ rw (append_assoc traces) refl)

  -- Fewer than four packets are left to the loop over single packets.
  short_traces :
      (is_trace : Bool) (nexts : ℕ → ℕ) (at : ℕ) (bs : List B) (s : S) (traces : List HookTrace)
      → length bs < 4
      → stolen_one is_trace bs (s, traces)
        ≡ (s, traces ++ stolen_traces is_trace nexts (at + 4 * (length bs / 4)) at bs)
  short_traces is_trace nexts at bs s traces lt =
      stolen_one-traces is_trace nexts (at + 4 * (length bs / 4)) at bs s traces (omega arith)

  four_stolen_traces :
      (is_trace : Bool) (nexts : ℕ → ℕ) (limit at : ℕ) (b0 b1 b2 b3 : B) (bs : List B)
      → at + 4 ≤ limit
      → stolen_traces is_trace nexts limit at (b0 ∷ b1 ∷ b2 ∷ b3 ∷ bs)
        ≡ trace_of is_trace b0 (nexts at)
          ++ (trace_of is_trace b1 (nexts (at + 1))
              ++ (trace_of is_trace b2 (nexts (at + 2))
                  ++ (trace_of is_trace b3 (nexts (at + 3))
                      ++ stolen_traces is_trace nexts limit (at + 4) bs)))
  four_stolen_traces is_trace nexts limit at b0 b1 b2 b3 bs le =
      let two : at + 1 + 1 ≡ at + 2 = omega arith in
      let three : at + 2 + 1 ≡ at + 3 = omega arith in
      let four : at + 3 + 1 ≡ at + 4 = omega arith in
      let in0 : ltb at limit ≡ true = ground arith in
      let in1 : ltb (at + 1) limit ≡ true = ground arith in
      let in2 : ltb (at + 2) limit ≡ true = ground arith in
      let in3 : ltb (at + 3) limit ≡ true = ground arith in
      rw (two, three, four, in0, in1, in2, in3) refl

  four_traces :
      (is_trace : Bool) (nexts : ℕ → ℕ) (at : ℕ) (bs : List B) (s : S) (traces : List HookTrace)
      → stolen_four is_trace nexts at bs (s, traces)
        ≡ (s, traces ++ stolen_traces is_trace nexts (at + 4 * (length bs / 4)) at bs)
  unfolding stolen_four
  four_traces is_trace nexts at [] s traces =
      short_traces is_trace nexts at [] s traces (omega arith)
  four_traces is_trace nexts at (b0 ∷ []) s traces =
      short_traces is_trace nexts at (b0 ∷ []) s traces (omega arith)
  four_traces is_trace nexts at (b0 ∷ b1 ∷ []) s traces =
      short_traces is_trace nexts at (b0 ∷ b1 ∷ []) s traces (omega arith)
  four_traces is_trace nexts at (b0 ∷ b1 ∷ b2 ∷ []) s traces =
      short_traces is_trace nexts at (b0 ∷ b1 ∷ b2 ∷ []) s traces (omega arith)
  four_traces is_trace nexts at (b0 ∷ b1 ∷ b2 ∷ b3 ∷ bs) s traces =
      let limit = at + 4 + 4 * (length bs / 4) in
      let same : at + 4 * (length (b0 ∷ b1 ∷ b2 ∷ b3 ∷ bs) / 4) ≡ limit = omega arith in
      let t0 = trace_of is_trace b0 (nexts at) in
      let t1 = trace_of is_trace b1 (nexts (at + 1)) in
      let t2 = trace_of is_trace b2 (nexts (at + 2)) in
      let t3 = trace_of is_trace b3 (nexts (at + 3)) in
      let all = b0 ∷ b1 ∷ b2 ∷ b3 ∷ bs in
      rw
        (
          trace_buffer-trace_of is_trace b0 (nexts at) s traces,
          trace_buffer-trace_of is_trace b1 (nexts (at + 1)) s (traces ++ t0),
          trace_buffer-trace_of is_trace b2 (nexts (at + 2)) s ((traces ++ t0) ++ t1),
          trace_buffer-trace_of is_trace b3 (nexts (at + 3)) s (((traces ++ t0) ++ t1) ++ t2),
        )
        (four_traces is_trace nexts (at + 4) bs s ((((traces ++ t0) ++ t1) ++ t2) ++ t3)
          ∙ ap (λ (l : List HookTrace). (s, l))
              (regroup traces t0 t1 t2 t3 (stolen_traces is_trace nexts limit (at + 4) bs)
                ∙ ap (λ (l : List HookTrace). traces ++ l)
                    (sym (four_stolen_traces is_trace nexts limit at b0 b1 b2 b3 bs (omega arith))
                      ∙ ap (λ (n : ℕ). stolen_traces is_trace nexts n at all) (sym same))))

  -- The node leaves the state, hands no packet on, and adds, in the packets' order, one trace for each
  -- traced packet if tracing is on. The next index in the trace of each of the first 4 * (n / 4) of the n
  -- packets is whatever the array on the stack held there, which nothing had set; in the others it is 0.
  pub vnetfilter_stolen_node-traces :
      (is_trace : Bool) (nexts : ℕ → ℕ) (bs : List B) (s : S) (traces : List HookTrace)
      → vnetfilter_stolen_node is_trace nexts bs (s, traces)
        ≡ (0, (s, traces ++ stolen_traces is_trace nexts (4 * (length bs / 4)) 0 bs))
  unfolding vnetfilter_stolen_node
  vnetfilter_stolen_node-traces is_trace nexts bs s traces =
      let same : 0 + 4 * (length bs / 4) ≡ 4 * (length bs / 4) = omega arith in
      ap (λ (t : Traced S). (0, t)) (rw (← same) (four_traces is_trace nexts 0 bs s traces))
