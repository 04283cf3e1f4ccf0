-- ===== src/CpuLoading/Command.antt =====
-- The commands of cpu_loading/cpu_loading_cli.c, with `cpu_loading_init` of cpu_loading/cpu_loading.c.
use vpp_plugins.CpuLoading.Defs.{Thread, no_node}
use vpp_plugins.Base.{ℕ, suc, List, [], ◌∷◌, ◌++◌, Option, none, some, ◌==◌, if◌then◌else◌}

-- The state: the sampling time and the elements of each thread.
pub record CpuLoadingMain (F : Type 0) : Type 0 where
  pub sampling_time : F
  pub threads : List (Thread F)

-- `for_each_poll_type_node`
pub data PollType : Type 0 where
  dpdk virtio : PollType

pub data Line (F : Type 0) : Type 0 where
  sampling_time_line : F → Line F
  rule : Line F
  thread_line : ℕ → Line F
  idle_clock : PollType → ℕ → Line F
  total_clock : ℕ → Line F
  last_cpu_loading_line : F → Line F

module _ {F : Type 0} where
  -- `cpu_loading_init`; the default sampling time is an argument.
  unfoldable pub cpu_loading_init : (default_sample_time : F) → CpuLoadingMain F
  cpu_loading_init default_sample_time = record {
    sampling_time = default_sample_time;
    threads = [];
  }

  -- One round of the loop over the polling nodes.
  unfoldable pub idle_line : PollType → (node idle : ℕ) → List (Line F)
  idle_line p node idle = if node == no_node then [] else idle_clock p idle ∷ []

  -- One round of the loop over the threads.
  unfoldable pub show_thread : ℕ → Thread F → List (Line F)
  unfolding idle_line
  show_thread i t =
      thread_line i
      ∷ (idle_line dpdk t.node_dpdk t.idle_dpdk
          ++ (idle_line virtio t.node_virtio t.idle_virtio
              ++ total_clock t.total_time ∷ last_cpu_loading_line t.last_cpu_loading ∷ []))

  unfoldable pub show_from : ℕ → List (Thread F) → List (Line F)
  unfolding show_thread
  show_from i [] = []
  show_from i (t ∷ ts) = show_thread i t ++ show_from (suc i) ts

  unfoldable pub show_cpu_loading : CpuLoadingMain F → List (Line F)
  unfolding show_from
  show_cpu_loading cpm = sampling_time_line cpm.sampling_time ∷ rule ∷ show_from 0 cpm.threads

  -- `cpu_loading_set_sampling_time`, with what `unformat` read; `none` is its error.
  unfoldable pub cpu_loading_set_sampling_time :
      Option F → CpuLoadingMain F → Option (CpuLoadingMain F)
  cpu_loading_set_sampling_time none cpm = none
  cpu_loading_set_sampling_time (some t) cpm = some (record cpm { sampling_time = t })
