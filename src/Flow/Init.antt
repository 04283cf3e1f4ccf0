-- ===== src/Flow/Init.antt =====
-- `flow_table_main_init` of flow_table/core/flow.c: the pools that are set up for the threads.
use vpp_plugins.Base.{
  arith, List, ℕ, replicate, ◌++◌, ap, false, Option, ◌<◌, ◌≤◌, ◌+◌, ◌≡◌, ◌∷◌, if◌then◌else◌, [],
  length, some, ◌==◌, ◌*◌, suc, zero, none, ◌/◌, ltb, ◌&&◌, refl, true, ◌∙◌,
}

-- `FLOW_TABLE_MAX_FLOWS`
abbrev pub flow_table_max_flows : ℕ
flow_table_max_flows = 1000000

unfoldable pub prealloc_flows_per_wrk : (n_threads : ℕ) → ℕ
prealloc_flows_per_wrk n_threads =
    let num_threads = 1 + n_threads in
    let n_workers = if num_threads == 1 then 1 else n_threads in flow_table_max_flows / n_workers

-- `vec_validate` of an empty vector: the elements up to the index, all zero.
unfoldable pub vec_validate : (index : ℕ) → List (Option ℕ)
vec_validate index = replicate (1 + index) none

-- An element of a vector is written; none is out of range here.
set_elem : List (Option ℕ) → ℕ → Option ℕ → List (Option ℕ)
set_elem [] i x = []
set_elem (y ∷ ys) zero x = x ∷ ys
set_elem (y ∷ ys) (suc i) x = y ∷ set_elem ys i x

-- The loop over the threads, `n` of which are left, from `thread` on: the size of each one's pool is
-- written to its context, or none for the main thread where there are others.
init_threads : (num_threads prealloc n thread : ℕ) → List (Option ℕ) → List (Option ℕ)
init_threads num_threads prealloc zero thread wrk_ctx = wrk_ctx
init_threads num_threads prealloc (suc n) thread wrk_ctx =
    init_threads num_threads prealloc n (thread + 1) (
      if ltb 1 num_threads && (thread == 0)
      then wrk_ctx
      else set_elem wrk_ctx thread (some prealloc))

-- The contexts are all zero at first, those that `vec_validate` makes for the index `num_threads`.
unfoldable pub flow_table_main_init : (n_threads : ℕ) → List (Option ℕ)
unfolding init_threads prealloc_flows_per_wrk set_elem vec_validate
flow_table_main_init n_threads =
    let num_threads = 1 + n_threads in
    init_threads num_threads (prealloc_flows_per_wrk n_threads) num_threads 0
      (vec_validate num_threads)

-- The flows of all pools together.
abbrev pub pool_total : List (Option ℕ) → ℕ
pool_total [] = 0
pool_total (none ∷ ps) = pool_total ps
pool_total (some p ∷ ps) = p + pool_total ps

-- The pools as they should be: with no worker thread the main thread has all flows, else each worker
-- has the same share of them. The context behind those of the threads has none.
abbrev pub pools : (n_threads : ℕ) → List (Option ℕ)
pools zero = some flow_table_max_flows ∷ none ∷ []
pools (suc n) = none ∷ (replicate (suc n) (some (flow_table_max_flows / suc n)) ++ none ∷ [])

append_assoc : (xs ys zs : List (Option ℕ)) → (xs ++ ys) ++ zs ≡ xs ++ (ys ++ zs)
append_assoc [] ys zs = refl
append_assoc (x ∷ xs) ys zs = ap (λ l. x ∷ l) (append_assoc xs ys zs)

length_snoc : (xs : List (Option ℕ)) (x : Option ℕ) → length (xs ++ x ∷ []) ≡ length xs + 1
length_snoc [] x = refl
length_snoc (y ∷ xs) x = omega (arith, length_snoc xs x)

set_elem-length :
    (xs : List (Option ℕ)) (y : Option ℕ) (ys : List (Option ℕ)) (x : Option ℕ)
    → set_elem (xs ++ y ∷ ys) (length xs) x ≡ xs ++ x ∷ ys
unfolding set_elem
set_elem-length [] y ys x = refl
set_elem-length (z ∷ xs) y ys x = ap (λ l. z ∷ l) (set_elem-length xs y ys x)

-- The loop on the workers.
workers_filled :
    (m p n : ℕ) (xs : List (Option ℕ))
    → 0 < length xs
    → init_threads m p n (length xs) (xs ++ replicate (suc n) none)
      ≡ xs ++ (replicate n (some p) ++ none ∷ [])
unfolding init_threads
workers_filled m p zero xs h = refl
workers_filled m p (suc n) xs h =
    let skip : (ltb 1 m && (length xs == 0)) ≡ false = ground arith in
    let snoc = append_assoc xs (some p ∷ []) (replicate (suc n) none) in
    let back = append_assoc xs (some p ∷ []) (replicate n (some p) ++ none ∷ []) in
    let rest = workers_filled m p n (xs ++ some p ∷ []) (omega (arith, length_snoc xs (some p))) in
    rw
      (
        skip,
        set_elem-length xs none (replicate (suc n) none) (some p),
        ← snoc,
        ← length_snoc xs (some p),
        rest,
        back,
      )
      refl

-- The main thread is passed over where there are others.
main_passed :
    (m p n : ℕ) (xs : List (Option ℕ))
    → ltb 1 m ≡ true
    → init_threads m p (suc n) 0 xs ≡ init_threads m p n 1 xs
unfolding init_threads
main_passed m p n xs h = rw h refl

flow_table_main_init-alone : flow_table_main_init 0 ≡ pools 0
unfolding flow_table_main_init init_threads prealloc_flows_per_wrk vec_validate set_elem
flow_table_main_init-alone = refl

worker_share : (n : ℕ) → prealloc_flows_per_wrk (suc n) ≡ flow_table_max_flows / suc n
unfolding prealloc_flows_per_wrk
worker_share n = let several : (1 + suc n == 1) ≡ false = ground arith in rw several refl

threads_filled :
    (n p : ℕ)
    → init_threads (1 + suc n) p (1 + suc n) 0 (vec_validate (1 + suc n))
      ≡ none ∷ (replicate (suc n) (some p) ++ none ∷ [])
unfolding vec_validate
threads_filled n p =
    let more : 1 + suc n ≡ suc (suc n) = omega arith in
    let again : 1 + suc (suc n) ≡ suc (suc (suc n)) = omega arith in
    let several : ltb 1 (suc (suc n)) ≡ true = ground arith in
    rw (more, again)
      (main_passed (suc (suc n)) p (suc n) (replicate (suc (suc (suc n))) none) several
        ∙ workers_filled (suc (suc n)) p (suc n) (none ∷ []) (omega arith))

flow_table_main_init-pools : (n_threads : ℕ) → flow_table_main_init n_threads ≡ pools n_threads
unfolding flow_table_main_init
flow_table_main_init-pools zero = flow_table_main_init-alone
flow_table_main_init-pools (suc n) =
    threads_filled n (prealloc_flows_per_wrk (suc n))
    ∙ ap (λ p. none ∷ (replicate (suc n) (some p) ++ none ∷ [])) (worker_share n)

shares_total : (p n : ℕ) → pool_total (replicate n (some p) ++ none ∷ []) ≡ n * p
shares_total p zero = omega arith
shares_total p (suc n) = ground (arith, shares_total p n)

share_le : (n : ℕ) → suc n * (1000000 / suc n) ≤ 1000000
share_le n = grind arith

pools_le : (n : ℕ) → pool_total (pools n) ≤ 1000000
pools_le zero = omega arith
pools_le (suc n) = omega (arith, share_le n, shares_total (1000000 / suc n) (suc n))

length_shares : (x : Option ℕ) (n : ℕ) → length (replicate n x ++ none ∷ []) ≡ n + 1
length_shares x zero = refl
length_shares x (suc n) = omega (arith, length_shares x n)

length-pools : (n : ℕ) → length (pools n) ≡ 2 + n
length-pools zero = refl
length-pools (suc n) = omega (arith, length_shares (some (1000000 / suc n)) (suc n))

-- However many worker threads there are: with none, the main thread has a pool of all flows of the
-- table; else the main thread has none and each worker has a pool of the same share, rounded down.
-- There is one context more than threads, with no pool, and the pools together hold at most the flows
-- of the table.
pub flow_table_main_init-bound :
    (n_threads : ℕ)
    → (flow_table_main_init n_threads ≡ pools n_threads)
      × (length (flow_table_main_init n_threads) ≡ 2 + n_threads)
      × (pool_total (flow_table_main_init n_threads) ≤ flow_table_max_flows)
flow_table_main_init-bound n_threads =
    let same = flow_table_main_init-pools n_threads in
    (same, rw same (length-pools n_threads), rw same (pools_le n_threads))
