-- ===== src/Filter/Hook.antt =====
-- Hook lists: flow_table/vnetfilter/hook.c, `vnetfilter_hook_process` of
-- flow_table/vnetfilter/node.c, and the actions of flow_table/vnetfilter/include/vnetfilter.h. A
-- hook takes a buffer of type `B` and changes a state of type `S`, which holds all that the buffer and
-- the hook reach.
use vpp_plugins.Base.{
  ℕ, List, Bool, ◌∷◌, true, suc, Option, [], false, zero, length, some, ◌++◌, none,
}
use vpp_plugins.Ip4.Process.{Action, accept, drop, stolen, stop}

-- `vnetfilter_hook_process_t`; the function returns the action and the state behind it.
pub record HookProcess (B S : Type 0) : Type 0 where
  pub priority : ℕ
  pub function : B → S → Action × S

-- `result == VNF_ACCEPT`
unfoldable pub is_accept : Action → Bool
is_accept accept = true
is_accept drop = false
is_accept stolen = false
is_accept stop = false

module _ {B S : Type 0} where
  -- `hook##_hook_register`: the new list and the result; NULL is refused with -1 (`false`).
  unfoldable pub hook_register :
      List (HookProcess B S) → Option (HookProcess B S) → List (HookProcess B S) × Bool
  hook_register process_list none = (process_list, false)
  hook_register process_list (some h) = (process_list ++ h ∷ [], true)

  -- The loop of `vnetfilter_hook_process`: the first action that is not ACCEPT ends it.
  unfoldable pub run_hooks : List (HookProcess B S) → B → S → Action × S
  unfolding is_accept
  run_hooks [] b s = (accept, s)
  run_hooks (h ∷ hs) b s = elim (is_accept (h.function b s).0) [
    | true ↦ run_hooks hs b (h.function b s).1
    | false ↦ h.function b s
  ]

  -- The loop of `hook##_hook_process` of flow_table/vnetfilter/hook.c, `n` rounds of which are left:
  -- the pointer `hook` stays where it is.
  unfoldable pub rounds : (n : ℕ) → HookProcess B S → B → S → Action × S
  unfolding is_accept
  rounds zero hook b s = (accept, s)
  rounds (suc n) hook b s = elim (is_accept (hook.function b s).0) [
    | true ↦ rounds n hook b (hook.function b s).1
    | false ↦ hook.function b s
  ]

  -- `hook##_hook_process`; an empty list is NULL.
  unfoldable pub hook_process : List (HookProcess B S) → B → S → Action × S
  unfolding rounds
  hook_process [] b s = (accept, s)
  hook_process (h ∷ hs) b s = rounds (length (h ∷ hs)) h b s
