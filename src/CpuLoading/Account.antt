-- ===== src/CpuLoading/Account.antt =====
-- The counters of cpu_loading/cpu_loading.c account for the dispatched nodes.
use vpp_plugins.CpuLoading.Defs.{
  Thread, cpu_loading_time_statistics, Dispatch, delta, sample, cpu_loading_last_init,
}
use mathlib.Core.Path.{ap₂}
use vpp_plugins.Base.{
  arith, ℕ, List, ◌+◌, ◌∷◌, if◌then◌else◌, [], ◌==◌, ◌<◌, ◌&&◌, ◌^◌, ◌≤◌, ◌||◌, ◌≡◌, Option, refl,
  ◌∙◌,
}

-- The time of all dispatches.
abbrev pub time_of : List Dispatch → ℕ
time_of [] = 0
time_of (d ∷ ds) = delta d + time_of ds

-- The time of the empty polls of one of the two polling nodes.
abbrev pub polls_of : (i j : ℕ) → List Dispatch → ℕ
polls_of i j [] = 0
polls_of i j (d ∷ ds) =
    (if (d.n_vectors == 0) && ((i == d.index) || (j == d.index)) then delta d else 0)
    + polls_of i j ds

module _ {F : Type 0} where
  -- The wrapper runs for each dispatch in turn.
  pub dispatch_all : Thread F → List Dispatch → Thread F
  dispatch_all t [] = t
  dispatch_all t (d ∷ ds) = dispatch_all (cpu_loading_time_statistics t d) ds

  -- A dispatch adds to the counters what it should, if they do not overflow.
  one_dispatch :
      (t : Thread F) (d : Dispatch)
      → t.total_time + delta d < 2 ^ 64
      → t.idle_dpdk + t.idle_virtio ≤ t.total_time
      → let u = cpu_loading_time_statistics t d in
        (u.total_time ≡ t.total_time + delta d)
        × (u.idle_dpdk + u.idle_virtio
            ≡ t.idle_dpdk
              + t.idle_virtio
              + (if (d.n_vectors == 0) && ((t.node_dpdk == d.index) || (t.node_virtio == d.index))
                  then delta d
                  else 0))
        × (u.idle_dpdk + u.idle_virtio ≤ u.total_time)
        × (u.node_dpdk ≡ t.node_dpdk)
        × (u.node_virtio ≡ t.node_virtio)
  unfolding cpu_loading_time_statistics
  one_dispatch t d lt le = ground arith

  account :
      (t : Thread F) (ds : List Dispatch)
      → t.total_time + time_of ds < 2 ^ 64
      → t.idle_dpdk + t.idle_virtio ≤ t.total_time
      → let u = dispatch_all t ds in
        (u.total_time ≡ t.total_time + time_of ds)
        × (u.idle_dpdk + u.idle_virtio
            ≡ t.idle_dpdk + t.idle_virtio + polls_of t.node_dpdk t.node_virtio ds)
        × (u.idle_dpdk + u.idle_virtio ≤ u.total_time)
  unfolding dispatch_all
  account t [] lt le = ground arith
  account t (d ∷ ds) lt le =
      let u = cpu_loading_time_statistics t d in
      let one = one_dispatch t d (omega arith) le in
      let rest = account u ds (omega (arith, one)) one.2 in
      let same : polls_of u.node_dpdk u.node_virtio ds ≡ polls_of t.node_dpdk t.node_virtio ds =
        ap₂ (λ (i j : ℕ). polls_of i j ds) one.3 one.4 in
      omega (arith, one, rest, same)

  same_nodes :
      (t : Thread F) (d : Dispatch)
      → ((cpu_loading_time_statistics t d).node_dpdk ≡ t.node_dpdk)
        × ((cpu_loading_time_statistics t d).node_virtio ≡ t.node_virtio)
  unfolding cpu_loading_time_statistics
  same_nodes t d = ground arith

  pub dispatch_all-nodes :
      (t : Thread F) (ds : List Dispatch)
      → ((dispatch_all t ds).node_dpdk ≡ t.node_dpdk)
        × ((dispatch_all t ds).node_virtio ≡ t.node_virtio)
  unfolding dispatch_all
  dispatch_all-nodes t [] = (refl, refl)
  dispatch_all-nodes t (d ∷ ds) =
      let rest = dispatch_all-nodes (cpu_loading_time_statistics t d) ds in
      (rest.0 ∙ (same_nodes t d).0, rest.1 ∙ (same_nodes t d).1)

  -- After start-up, dispatches whose times together fit in a `u64` leave a thread's total time as
  -- their sum and its idle times together as the sum over the empty polls of the two polling nodes
  -- that were found; a sampling round then computes the load from these two numbers, of which the
  -- first is at most the second, and sets all three counters to 0.
  pub sample-dispatch_all :
      (loading : ℕ → ℕ → F) (z : F) (dpdk virtio : Option ℕ) (ds : List Dispatch)
      → time_of ds < 2 ^ 64
      → let t = cpu_loading_last_init z dpdk virtio in
        let idle = polls_of t.node_dpdk t.node_virtio ds in
        let u = sample loading (dispatch_all t ds) in
        (u.last_cpu_loading ≡ loading idle (time_of ds))
        × (idle ≤ time_of ds)
        × (u.idle_dpdk + u.idle_virtio + u.total_time ≡ 0)
  unfolding sample cpu_loading_last_init
  sample-dispatch_all loading z dpdk virtio ds lt =
      let t = cpu_loading_last_init z dpdk virtio in
      let a = account t ds (omega arith) (omega arith) in
      (ap₂ loading (omega (arith, a)) (omega (arith, a)), omega (arith, a), refl)
