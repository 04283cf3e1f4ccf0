-- ===== src/CpuLoading/Shown.antt =====
-- What `show cpu-loading` of cpu_loading/cpu_loading_cli.c prints after a sampling round.
use mathlib.Core.Path.{ap₂}
use vpp_plugins.CpuLoading.Command.{
  PollType, dpdk, virtio, Line, idle_line, show_thread, show_from, show_cpu_loading,
  sampling_time_line, rule, thread_line, idle_clock, total_clock, last_cpu_loading_line,
}
use vpp_plugins.CpuLoading.Account.{
  dispatch_all, sample-dispatch_all, time_of, polls_of, dispatch_all-nodes,
}
use vpp_plugins.CpuLoading.Defs.{
  Thread, Dispatch, sample, cpu_loading_last_init, cpu_loading_process_round, node_index, no_node,
}
use vpp_plugins.Base.{
  ℕ, suc, List, [], ◌∷◌, ◌++◌, Option, none, some, ◌<◌, ◌^◌, ◌≡◌, refl, arith, map, ap, ◌∙◌,
}

-- A thread from its start on: the polling nodes that it has, and what it dispatched.
pub record History : Type 0 where
  pub dpdk_node : Option ℕ
  pub virtio_node : Option ℕ
  pub dispatches : List Dispatch

-- The nodes' indices are not `~0`, and the times of the dispatches together fit in a `u64`.
pub record Fits (h : History) : Type 0 where
  pub dpdk_lt : (i : ℕ) → h.dpdk_node ≡ some i → i < no_node
  pub virtio_lt : (i : ℕ) → h.virtio_node ≡ some i → i < no_node
  pub time_lt : time_of h.dispatches < 2 ^ 64

abbrev pub AllFit : List History → Type 0
AllFit [] = Unit {0}
AllFit (h ∷ hs) = Fits h × AllFit hs

-- The time of a thread's empty polls.
abbrev pub idle_of : History → ℕ
idle_of h = polls_of (node_index h.dpdk_node) (node_index h.virtio_node) h.dispatches

module _ {F : Type 0} (loading : ℕ → ℕ → F) (z : F) where
  -- A thread after `cpu_loading_last_init` and its dispatches.
  abbrev pub thread_of : History → Thread F
  thread_of h = dispatch_all (cpu_loading_last_init z h.dpdk_node h.virtio_node) h.dispatches

  -- A polling node that was found has a line, with the clock 0.
  abbrev pub cleared : PollType → Option ℕ → List (Line F)
  cleared p none = []
  cleared p (some i) = idle_clock p 0 ∷ []

  abbrev pub thread_lines : ℕ → History → List (Line F)
  thread_lines i h =
      thread_line i
      ∷ (cleared dpdk h.dpdk_node
          ++ (cleared virtio h.virtio_node
              ++ total_clock 0
                ∷ last_cpu_loading_line (loading (idle_of h) (time_of h.dispatches))
                ∷ []))

  abbrev pub lines_from : ℕ → List History → List (Line F)
  lines_from i [] = []
  lines_from i (h ∷ hs) = thread_lines i h ++ lines_from (suc i) hs

  idle_line-cleared :
      (p : PollType) (o : Option ℕ)
      → ((i : ℕ) → o ≡ some i → i < no_node)
      → idle_line {F = F} p (node_index o) 0 ≡ cleared p o
  unfolding idle_line node_index
  idle_line-cleared p none lt = refl
  idle_line-cleared p (some i) lt = ground (arith, lt i refl)

  show_sample :
      (i : ℕ) (t : Thread F)
      → show_thread i (sample loading t)
        ≡ thread_line i
          ∷ (idle_line dpdk t.node_dpdk 0
              ++ (idle_line virtio t.node_virtio 0
                  ++ total_clock 0
                    ∷ last_cpu_loading_line (sample loading t).last_cpu_loading
                    ∷ []))
  unfolding show_thread sample
  show_sample i t = refl

  started_nodes :
      (h : History)
      → ((thread_of h).node_dpdk ≡ node_index h.dpdk_node)
        × ((thread_of h).node_virtio ≡ node_index h.virtio_node)
  unfolding cpu_loading_last_init
  started_nodes h =
      dispatch_all-nodes (cpu_loading_last_init z h.dpdk_node h.virtio_node) h.dispatches

  sampled :
      (h : History)
      → Fits h
      → (sample loading (thread_of h)).last_cpu_loading ≡ loading (idle_of h) (time_of h.dispatches)
  unfolding cpu_loading_last_init
  sampled h fits =
      (sample-dispatch_all loading z h.dpdk_node h.virtio_node h.dispatches fits.time_lt).0

  show_thread-thread_lines :
      (i : ℕ) (h : History)
      → Fits h
      → show_thread i (sample loading (thread_of h)) ≡ thread_lines i h
  show_thread-thread_lines i h fit =
      show_sample i (thread_of h)
      ∙ rw
          (
            sampled h fit,
            (started_nodes h).0,
            (started_nodes h).1,
            idle_line-cleared dpdk h.dpdk_node fit.dpdk_lt,
            idle_line-cleared virtio h.virtio_node fit.virtio_lt,
          )
          refl

  show_from-lines_from :
      (i : ℕ) (hs : List History)
      → AllFit hs
      → show_from i (cpu_loading_process_round loading (map thread_of hs)) ≡ lines_from i hs
  unfolding show_from cpu_loading_process_round
  show_from-lines_from i [] fits = refl
  show_from-lines_from i (h ∷ hs) (fit, fits) =
      ap₂ (λ (x y : List (Line F)). x ++ y) (show_thread-thread_lines i h fit)
        (show_from-lines_from (suc i) hs fits)

  -- From the start-up on, after any dispatches on any number of threads, the times of each thread
  -- fitting in a `u64`, and one sampling round, the command prints for every thread, in order, a clock of
  -- 0 for each polling node that was found and no other, a total of 0, and the load that comes from the
  -- time of the thread's empty polls and the time of all its dispatches.
  pub show_cpu_loading-round :
      (sampling_time : F) (hs : List History)
      → AllFit hs
      → show_cpu_loading (record {
        sampling_time = sampling_time;
        threads = cpu_loading_process_round loading (map thread_of hs);
      })
        ≡ sampling_time_line sampling_time ∷ rule ∷ lines_from 0 hs
  unfolding show_cpu_loading
  show_cpu_loading-round sampling_time hs fits =
      ap (λ (l : List (Line F)). sampling_time_line sampling_time ∷ rule ∷ l)
        (show_from-lines_from 0 hs fits)
