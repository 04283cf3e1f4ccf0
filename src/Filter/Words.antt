-- ===== src/Filter/Words.antt =====
-- What the command `vnetfilter enable-disable` of flow_table/vnetfilter/cli.c does with its input.
use vpp_plugins.Filter.Command.{
  Word, disable, interface, other, Arc, l2_input_ip4_arc, l2_input_ip6_arc, l2_output_ip4_arc,
  l2_output_ip6_arc, Reply, invalid_interface_name, failed, Features, read_words,
  vnetfilter_hook_enable_disable, enable_disable_command, enable_disable_all,
}
use mathlib.Core.List.{append-nil, append_assoc}
use vpp_plugins.Flow.Types.{unset32}
use vpp_plugins.Base.{
  ℕ, List, [], ◌∷◌, ◌++◌, Bool, true, false, Option, none, some, ◌==◌, if◌then◌else◌, ◌≡◌, refl,
  arith, not, ◌&&◌, ◌<◌, Bool-cases, inl, inr, ap, Option-cases, ◌∙◌,
}

-- The words in front of the first that is neither `disable` nor an interface.
abbrev pub readable : List Word → List Word
readable [] = []
readable (disable ∷ ws) = disable ∷ readable ws
readable (interface i ∷ ws) = interface i ∷ readable ws
readable (other ∷ ws) = []

abbrev pub or_else : Option ℕ → ℕ → ℕ
or_else none i = i
or_else (some j) i = j

-- The last interface.
abbrev pub last_interface : List Word → Option ℕ
last_interface [] = none
last_interface (disable ∷ ws) = last_interface ws
last_interface (interface i ∷ ws) = some (or_else (last_interface ws) i)
last_interface (other ∷ ws) = last_interface ws

abbrev pub has_disable : List Word → Bool
has_disable [] = false
has_disable (disable ∷ ws) = true
has_disable (interface i ∷ ws) = has_disable ws
has_disable (other ∷ ws) = has_disable ws

read_words-readable :
    (ws : List Word) (i : ℕ) (enable : Bool)
    → read_words ws i enable
      ≡ (or_else (last_interface (readable ws)) i, enable && not (has_disable (readable ws)))
unfolding read_words
read_words-readable [] i enable = ground arith
read_words-readable (disable ∷ ws) i enable = ground (arith, read_words-readable ws i false)
read_words-readable (interface j ∷ ws) i enable = ground (arith, read_words-readable ws j enable)
read_words-readable (other ∷ ws) i enable = ground arith

-- The nodes, in the order of `foreach_vnetfilter_hook`.
abbrev pub all_arcs : List Arc
all_arcs = l2_input_ip4_arc ∷ l2_input_ip6_arc ∷ l2_output_ip4_arc ∷ l2_output_ip6_arc ∷ []

module _ {V : Type 0} (vnet : Features V) where
  -- The lines for one arc: one if the index is free, and one if the switch failed.
  abbrev pub replies : Arc → ℕ → (went_well : Bool) → List Reply
  replies arc i went_well =
      (if vnet.pool_is_free_index i then invalid_interface_name ∷ [] else [])
      ++ (if went_well then [] else failed arc ∷ [])

  -- The feature is switched for each arc in turn.
  abbrev pub switch_all : List Arc → ℕ → Bool → V → V × List Reply
  switch_all [] i enable v = (v, [])
  switch_all (arc ∷ arcs) i enable v =
      let done = vnet.vnet_l2_feature_enable_disable arc i enable v in
      let rest = switch_all arcs i enable done.1 in (rest.0, replies arc i done.0 ++ rest.1)

  one_arc :
      (arc : Arc) (i : ℕ) (enable : Bool) (v : V) (out : List Reply)
      → let done = vnet.vnet_l2_feature_enable_disable arc i enable v in
        vnetfilter_hook_enable_disable vnet arc i enable (v, out)
        ≡ (done.1, out ++ replies arc i done.0)
  unfolding vnetfilter_hook_enable_disable
  one_arc arc i enable v out =
      let done = vnet.vnet_l2_feature_enable_disable arc i enable v in
      elim (Bool-cases (vnet.pool_is_free_index i)) [
        | inl free ↦ elim (Bool-cases done.0) [
          | inl well ↦ rw (free, well) refl
          | inr failed_ ↦
              rw (free, failed_) (ap (λ (l : List Reply). (done.1, l)) (append_assoc out _ _))
        ]
        | inr used ↦ elim (Bool-cases done.0) [
          | inl well ↦ rw (used, well, append-nil) refl
          | inr failed_ ↦ rw (used, failed_) refl
        ]
      ]

  enable_disable_all-switch_all :
      (i : ℕ) (enable : Bool) (v : V)
      → enable_disable_all vnet i enable v ≡ switch_all all_arcs i enable v
  unfolding enable_disable_all
  enable_disable_all-switch_all i enable v =
      let go = vnet.vnet_l2_feature_enable_disable in
      let v1 = (go l2_input_ip4_arc i enable v).1 in
      let v2 = (go l2_input_ip6_arc i enable v1).1 in
      let v3 = (go l2_output_ip4_arc i enable v2).1 in
      rw
        (
          one_arc l2_input_ip4_arc i enable v [],
          one_arc l2_input_ip6_arc i enable v1 _,
          one_arc l2_output_ip4_arc i enable v2 _,
          one_arc l2_output_ip6_arc i enable v3 _,
          append-nil,
          append_assoc,
          append_assoc,
        )
        refl

  read_command :
      (words : List Word) (v : V)
      → let i = or_else (last_interface (readable words)) unset32 in
        enable_disable_command vnet words v ≡ (
          if i == unset32
          then none
          else some (enable_disable_all vnet i (not (has_disable (readable words))) v))
  unfolding enable_disable_command
  read_command words v = rw (read_words-readable words unset32 true) refl

  -- The command reads words up to the first that is neither `disable` nor an interface. It asks for an
  -- interface exactly if none was read; otherwise it takes the last one, and switches the feature of
  -- each of the four arcs in turn, off if `disable` was read anywhere and on if not. For each arc it
  -- prints a line if the interface is not there, and a line if the switch failed; neither ends the loop.
  pub enable_disable_command-switch_all :
      (words : List Word) (v : V)
      → ((i : ℕ) → last_interface (readable words) ≡ some i → i < unset32)
      → enable_disable_command vnet words v ≡ elim (last_interface (readable words)) [
        | none ↦ none
        | some i ↦ some (switch_all all_arcs i (not (has_disable (readable words))) v)
      ]
  enable_disable_command-switch_all words v below =
      elim (Option-cases (last_interface (readable words))) [
        | inl no_interface ↦ rw no_interface (read_command words v ∙ rw no_interface refl)
        | inr (i, named) ↦
            (let differs : (i == unset32) ≡ false = ground (arith, below i named) in
              rw named (
                read_command words v
                ∙ rw (named, differs)
                    (ap some
                      (enable_disable_all-switch_all i (not (has_disable (readable words))) v))))
      ]
