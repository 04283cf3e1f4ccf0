-- ===== src/Tests/Filter.antt =====
-- Hook lists and the node loop of flow_table/vnetfilter. A hook's state is the list of the hooks
-- that ran.
use vpp_plugins.Ip4.Process.{drop, accept}
use vpp_plugins.Filter.Laws.{packet_traces, loop_four-traces, hook_process-replicate}
use vpp_plugins.Filter.Node.{Buffers, loop_four}
use vpp_plugins.Filter.Stolen.{vnetfilter_stolen_node, stolen_traces, vnetfilter_stolen_node-traces}
use vpp_plugins.Filter.Command.{
  Features, Arc, Word, disable, interface, other, enable_disable_command,
}
use vpp_plugins.Filter.Words.{switch_all, all_arcs, enable_disable_command-switch_all}
use vpp_plugins.Filter.Hook.{hook_process, run_hooks, HookProcess}
use vpp_plugins.Filter.Graph.{hook_node, next_node, sent_all, hook_node-sent_all}
use vpp_plugins.Base.{
  map, length, List, ℕ, true, ◌%◌, ◌∷◌, Bool, [], ◌++◌, if◌then◌else◌, ◌==◌, ◌≡◌, false, ◌+◌,
  replicate, some, arith,
}

abbrev Log : Type 0
Log = List (ℕ × ℕ)

-- The hook `n`, which drops the packets in a list of numbers.
abbrev hook : ℕ → (drops : ℕ → Bool) → HookProcess ℕ Log
hook n drops = record {
  priority = n;
  function = λ b s. (if drops b then drop else accept, s ++ (n, b) ∷ []);
}

abbrev hooks : List (HookProcess ℕ Log)
hooks = hook 1 (λ b. b == 5) ∷ hook 2 (λ b. false) ∷ []

hook_process-replicate_example :
    hook_process hooks 4 [] ≡ run_hooks (replicate 2 (hook 1 (λ b. b == 5))) 4 []
hook_process-replicate_example =
    hook_process-replicate (hook 1 (λ b. b == 5)) (hook 2 (λ b. false) ∷ []) 4 []

-- The packets with odd numbers are traced.
abbrev vlib : Buffers ℕ Log
vlib = record {
  is_traced = λ b. b % 2 == 1;
  rx_sw_if_index = λ b. b + 10;
  feature_next = λ b s. (3, s);
}

abbrev frame : List ℕ
frame = 1 ∷ 2 ∷ 3 ∷ 4 ∷ 5 ∷ 6 ∷ []

loop_four-traces_example :
    (length (loop_four vlib true hooks frame ([], [])).0 ≡ 6)
    × ((loop_four vlib true hooks frame ([], [])).1.1 ≡ [] ++ packet_traces vlib true frame)
loop_four-traces_example = loop_four-traces vlib true hooks frame ([], [])

-- The array on the stack holds 7 at each position.
vnetfilter_stolen_node-traces_example :
    vnetfilter_stolen_node vlib true (λ i. 7) frame ([], [])
    ≡ (0, ([], [] ++ stolen_traces vlib true (λ i. 7) 4 0 frame))
vnetfilter_stolen_node-traces_example = vnetfilter_stolen_node-traces vlib true (λ i. 7) frame [] []

-- Interface 5 is free, and switching a feature always works; the state is the list of the arcs.
abbrev vnet : Features (List Arc)
vnet = record {
  pool_is_free_index = λ i. i == 5;
  vnet_l2_feature_enable_disable = λ arc i enable v. (true, arc ∷ v);
}

abbrev words : List Word
words = disable ∷ interface 5 ∷ other ∷ interface 6 ∷ []

enable_disable_command-switch_all_example :
    enable_disable_command vnet words [] ≡ some (switch_all vnet all_arcs 5 false [])
enable_disable_command-switch_all_example =
    enable_disable_command-switch_all vnet words [] (λ i h. ground arith)

hook_node-sent_all_example :
    ((
      map next_node (hook_node vlib true hooks frame ([], [])).0,
      (hook_node vlib true hooks frame ([], [])).1.0,
    )
      ≡ sent_all vlib hooks frame [])
    × ((hook_node vlib true hooks frame ([], [])).2 ≡ 6)
hook_node-sent_all_example = hook_node-sent_all vlib true hooks frame ([], []) (λ b s. omega arith)
