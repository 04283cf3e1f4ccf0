-- ===== src/Tests/CpuLoading.antt =====
-- The counters of cpu_loading/cpu_loading.c; a load is the pair of numbers that it is computed from.
use vpp_plugins.CpuLoading.Process.{
  run_acts, Sampling, Act, wakes, dispatched, loads, run_acts-ended,
}
use vpp_plugins.CpuLoading.Shown.{History, AllFit, thread_of, show_cpu_loading-round}
use vpp_plugins.CpuLoading.Command.{
  show_cpu_loading, sampling_time_line, rule, thread_line, dpdk, idle_clock, total_clock,
  last_cpu_loading_line,
}
use vpp_plugins.CpuLoading.Defs.{Dispatch, cpu_loading_process_round, node_index}
use vpp_plugins.Base.{arith, List, some, none, ◌∷◌, [], ◌≡◌, ℕ, map, ◌++◌, true, false}

abbrev dispatches : List Dispatch
dispatches =
    record { before = 10; behind = 30; n_vectors = 0; index = 4 }
    ∷ record { before = 30; behind = 90; n_vectors = 8; index = 4 }
    ∷ record { before = 90; behind = 95; n_vectors = 0; index = 2 }
    ∷ []

-- A main thread that dispatched nothing, and a worker with the polling node of dpdk.
abbrev histories : List History
histories =
    record { dpdk_node = none; virtio_node = none; dispatches = [] }
    ∷ record { dpdk_node = some 4; virtio_node = none; dispatches = dispatches }
    ∷ []

histories_fit : AllFit histories
histories_fit = (
  record { dpdk_lt = λ i h. ground arith; virtio_lt = λ i h. ground arith; time_lt = omega arith },
  (
    record {
      dpdk_lt = λ i h. ground arith;
      virtio_lt = λ i h. ground arith;
      time_lt = omega arith;
    },
    tt,
  ),
)

show_cpu_loading-round_example :
    show_cpu_loading {F = ℕ × ℕ} (record {
      sampling_time = (3, 2);
      threads =
          cpu_loading_process_round
            (λ idle total. (idle, total))
            (map (thread_of (λ idle total. (idle, total)) (0, 0)) histories);
    })
    ≡ sampling_time_line (3, 2)
      ∷ rule
      ∷ thread_line 0
      ∷ total_clock 0
      ∷ last_cpu_loading_line (0, 0)
      ∷ thread_line 1
      ∷ idle_clock dpdk 0
      ∷ total_clock 0
      ∷ last_cpu_loading_line (20, 85)
      ∷ []
unfolding node_index
show_cpu_loading-round_example =
    show_cpu_loading-round (λ idle total. (idle, total)) (0, 0) (3, 2) histories histories_fit

-- Two threads, and a process that samples once and then ends.
abbrev sampling : Sampling (ℕ × ℕ)
sampling = record {
  running = true;
  threads = map (thread_of (λ idle total. (idle, total)) (0, 0)) histories;
}

abbrev sampled_once : List Act
sampled_once = wakes 4294967295 ∷ []

abbrev polled : Dispatch
polled = record { before = 95; behind = 99; n_vectors = 0; index = 4 }

abbrev acts_behind : List Act
acts_behind = dispatched 1 polled ∷ wakes 1 ∷ []

run_acts-ended_example :
    ((run_acts
        (λ idle total. (idle, total))
        (sampled_once ++ wakes 0 ∷ acts_behind)
        sampling).running
      ≡ false)
    × (loads
          (λ idle total. (idle, total))
          (run_acts (λ idle total. (idle, total)) (sampled_once ++ wakes 0 ∷ acts_behind) sampling)
        ≡ loads
            (λ idle total. (idle, total))
            (run_acts (λ idle total. (idle, total)) sampled_once sampling))
run_acts-ended_example =
    run_acts-ended (λ idle total. (idle, total)) sampled_once acts_behind sampling
