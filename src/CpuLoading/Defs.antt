-- ===== src/CpuLoading/Defs.antt =====
-- cpu_loading/cpu_loading.c with the state of cpu_loading/cpu_loading.h. The vectors have an element
-- for each thread; here a thread's elements are one record. `F` is the type of floats.
use vpp_plugins.Base.{ℕ, ◌+◌, ◌-◌, ◌%◌, ◌^◌, List, ◌==◌, Option, none, some, if◌then◌else◌, map}

-- The elements of one thread, the two polling nodes of `for_each_poll_type_node` each with its own.
pub record Thread (F : Type 0) : Type 0 where
  pub idle_dpdk : ℕ
  pub idle_virtio : ℕ
  pub total_time : ℕ
  pub last_cpu_loading : F
  pub node_dpdk : ℕ
  pub node_virtio : ℕ

-- `~0` as a `u32`, for a node that is not there.
abbrev pub no_node : ℕ
no_node = 2 ^ 32 - 1

-- One call of a node through the dispatch wrapper: the clock before and behind it, the number of
-- vectors that it returned, and the node's index.
pub record Dispatch : Type 0 where
  pub before : ℕ
  pub behind : ℕ
  pub n_vectors : ℕ
  pub index : ℕ

-- The difference of the clocks, in a `u64`.
abbrev pub delta : Dispatch → ℕ
delta d = (d.behind + 2 ^ 64 - d.before) % 2 ^ 64

-- `polling_node ? polling_node->index : ~0`
unfoldable pub node_index : Option ℕ → ℕ
node_index none = no_node
node_index (some i) = i

module _ {F : Type 0} where
  -- The loop over the polling nodes ends at the first that the node is.
  add_idle : Thread F → Dispatch → Thread F
  add_idle t d =
      if t.node_dpdk == d.index
      then record t { idle_dpdk = (t.idle_dpdk + delta d) % 2 ^ 64 }
      else (if t.node_virtio == d.index
          then record t { idle_virtio = (t.idle_virtio + delta d) % 2 ^ 64 }
          else t)

  unfoldable pub cpu_loading_time_statistics : Thread F → Dispatch → Thread F
  unfolding add_idle
  cpu_loading_time_statistics t d =
      let u = record t { total_time = (t.total_time + delta d) % 2 ^ 64 } in
      if d.n_vectors == 0 then add_idle u d else u

  -- The body of the loop over the threads in `cpu_loading_process`. `loading` is the float
  -- `100 - idle * 100.0 / total`.
  unfoldable pub sample : (loading : ℕ → ℕ → F) → Thread F → Thread F
  sample loading t = record t {
    idle_dpdk = 0;
    idle_virtio = 0;
    total_time = 0;
    last_cpu_loading = loading ((t.idle_dpdk + t.idle_virtio) % 2 ^ 64) t.total_time;
  }

  -- One round of `cpu_loading_process`, for all threads: what a pass of its loop does between the calls
  -- for the barrier.
  unfoldable pub cpu_loading_process_round :
      (loading : ℕ → ℕ → F) → List (Thread F) → List (Thread F)
  unfolding sample
  cpu_loading_process_round loading ts = map (sample loading) ts

  -- `cpu_loading_last_init` for one thread, with the nodes that `vlib_get_node_by_name` found.
  unfoldable pub cpu_loading_last_init : (zero : F) (dpdk virtio : Option ℕ) → Thread F
  unfolding node_index
  cpu_loading_last_init z dpdk virtio = record {
    idle_dpdk = 0;
    idle_virtio = 0;
    total_time = 0;
    last_cpu_loading = z;
    node_dpdk = node_index dpdk;
    node_virtio = node_index virtio;
  }
