-- ===== src/LinkPulse/Defs.antt =====
-- link_pulse/link_pulse.c. `callback_scripts` is a list of paths; none of its elements is NULL, since
-- only paths that `unformat` made are added. The parser's result is an argument.
use Prim.Native.String.{String}
use Prim.Native.Nat.{bit_and}
use text.Mathlib.Text.{◌==◌ as str_eq}
use vpp_plugins.Base.{
  ℕ, suc, List, [], ◌∷◌, ◌++◌, Bool, true, false, not, ◌==◌, Option, none, some, leb, if◌then◌else◌,
  length,
}

-- `link_pulse_CALLBACK_SCRIPT_NUM`
abbrev pub callback_script_num : ℕ
callback_script_num = 10

pub data Error : Type 0 where
  unknown_input max_scripts already_exists not_found : Error

-- What `unformat` makes of a command line: `add` with a path, `del` or `delete` with a path, or
-- neither.
pub data Command : Type 0 where
  add : String → Command
  del : String → Command
  other : Command

-- A line, with the answer of `unformat_check_input`: is it all read?
pub record Line : Type 0 where
  pub command : Command
  pub at_end : Bool

-- The `for` loops with `strcmp`: is the path in the list?
unfoldable pub contains : List String → String → Bool
contains [] path = false
contains (s ∷ ss) path = if str_eq s path then true else contains ss path

-- `vec_delete` of the first element that is the path.
unfoldable pub delete_first : List String → String → List String
delete_first [] path = []
delete_first (s ∷ ss) path = if str_eq s path then ss else s ∷ delete_first ss path

unfoldable pub add_script : List String → String → Option Error × List String
add_script scripts path =
    if leb callback_script_num (length scripts)
    then (some max_scripts, scripts)
    else (if contains scripts path
        then (some already_exists, scripts)
        else (none, scripts ++ path ∷ []))

unfoldable pub del_script : List String → String → Option Error × List String
del_script scripts path =
    if contains scripts path then (none, delete_first scripts path) else (some not_found, scripts)

unfoldable pub run_command : List String → Command → Bool → Option Error × List String
run_command scripts other at_end = (some unknown_input, scripts)
run_command scripts (add path) at_end =
    if at_end then add_script scripts path else (some unknown_input, scripts)
run_command scripts (del path) at_end =
    if at_end then del_script scripts path else (some unknown_input, scripts)

-- `link_pulse_update_script_command_fn`; `none` is an input with no line.
unfoldable pub update_script_command : List String → Option Line → Option Error × List String
unfolding run_command
update_script_command scripts none = (none, scripts)
update_script_command scripts (some line) = run_command scripts line.command line.at_end

-- The arguments of `execv` in a child process.
pub record Exec : Type 0 where
  pub script : String
  pub if_name : String
  pub status : String

-- `link_pulse_run_script`: with the answer of `fork`, the process that was started.
unfoldable pub run_script : Bool → String → String → Bool → List Exec
run_script forked script if_name is_up =
    if forked
    then (record { script = script; if_name = if_name; status = if is_up then "up" else "down" })
      ∷ []
    else []

-- The loop over the scripts, from the index `i` on; `fork i` is the answer of `fork` in that round.
unfoldable pub run_scripts : (fork : ℕ → Bool) → ℕ → List String → String → Bool → List Exec
unfolding run_script
run_scripts fork i [] if_name is_up = []
run_scripts fork i (s ∷ ss) if_name is_up =
    run_script (fork i) s if_name is_up ++ run_scripts fork (suc i) ss if_name is_up

-- `link_pulse_hw_interface_link_up_down`; `link_up` is `VNET_HW_INTERFACE_FLAG_LINK_UP`.
unfoldable pub link_up_down :
    (link_up : ℕ) (fork : ℕ → Bool) → List String → (name : String) (flags : ℕ) → List Exec
unfolding run_scripts
link_up_down link_up fork scripts name flags =
    run_scripts fork 0 scripts name (not (bit_and flags link_up == 0))

-- The lines that `link_pulse_show_scripts_command_fn` prints: each script's, or that there is none.
pub data Output : Type 0 where
  no_scripts header : Output
  item : String → Output

items : List String → List Output
items [] = []
items (s ∷ ss) = item s ∷ items ss

unfoldable pub show_scripts_command : List String → List Output
unfolding items
show_scripts_command [] = no_scripts ∷ []
show_scripts_command (s ∷ ss) = header ∷ items (s ∷ ss)
