-- ===== src/Filter/Command.antt =====
-- The command `vnetfilter enable-disable` of flow_table/vnetfilter/cli.c, and
-- `vnetfilter_hook_enable_disable` of flow_table/vnetfilter/node.c with the hook nodes of
-- flow_table/vnetfilter/include/hook.h.
use vpp_plugins.Flow.Types.{unset32}
use vpp_plugins.Base.{
  ℕ, List, [], ◌∷◌, ◌++◌, Bool, true, false, Option, none, some, ◌==◌, if◌then◌else◌,
}

-- What a round of the loop over the input reads: the word `disable`, the index of an interface, or
-- neither.
pub data Word : Type 0 where
  disable : Word
  interface : (sw_if_index : ℕ) → Word
  other : Word

-- The nodes of `foreach_vnetfilter_hook`: the node of each is its arc with `-hook` behind it.
pub data Arc : Type 0 where
  l2_input_ip4_arc l2_input_ip6_arc l2_output_ip4_arc l2_output_ip6_arc : Arc

pub data Reply : Type 0 where
  invalid_interface_name : Reply
  failed : Arc → Reply

-- What the command asks of VPP: whether an index is free in the pool of interfaces, and the function
-- that switches a feature on (`true`) or off in the state `V`; it answers whether that went well.
pub record Features (V : Type 0) : Type 0 where
  pub pool_is_free_index : ℕ → Bool
  pub vnet_l2_feature_enable_disable : Arc → (sw_if_index : ℕ) → (enable : Bool) → V → Bool × V

-- The loop over the input, with `sw_if_index` and `enable_disable`.
unfoldable pub read_words : List Word → (sw_if_index : ℕ) → (enable_disable : Bool) → ℕ × Bool
read_words [] sw_if_index enable_disable = (sw_if_index, enable_disable)
read_words (disable ∷ ws) sw_if_index enable_disable = read_words ws sw_if_index false
read_words (interface i ∷ ws) sw_if_index enable_disable = read_words ws i enable_disable
read_words (other ∷ ws) sw_if_index enable_disable = (sw_if_index, enable_disable)

module _ {V : Type 0} (vnet : Features V) where
  -- The state and what is printed.
  unfoldable pub vnetfilter_hook_enable_disable : Arc → ℕ → Bool → V × List Reply → V × List Reply
  vnetfilter_hook_enable_disable arc i enable (v, out) =
      let out' = if vnet.pool_is_free_index i then out ++ invalid_interface_name ∷ [] else out in
      let done = vnet.vnet_l2_feature_enable_disable arc i enable v in
      (done.1, if done.0 then out' else out' ++ failed arc ∷ [])

  -- The calls for all nodes of `foreach_vnetfilter_hook`.
  unfoldable pub enable_disable_all : ℕ → Bool → V → V × List Reply
  enable_disable_all i enable v = vnetfilter_hook_enable_disable l2_output_ip6_arc i enable (
      vnetfilter_hook_enable_disable l2_output_ip4_arc i enable (
        vnetfilter_hook_enable_disable l2_input_ip6_arc i enable
          (vnetfilter_hook_enable_disable l2_input_ip4_arc i enable (v, []))))

  -- `vnetfilter_hook_enable_disable_command_fn`; `none` is the error that asks for an interface.
  unfoldable pub enable_disable_command : List Word → V → Option (V × List Reply)
  unfolding read_words enable_disable_all
  enable_disable_command words v =
      let (i, enable) = read_words words unset32 true in
      if i == unset32 then none else some (enable_disable_all i enable v)
