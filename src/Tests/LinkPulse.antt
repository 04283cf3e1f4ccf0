-- ===== src/Tests/LinkPulse.antt =====
-- The scripts of link_pulse/link_pulse.c.
use vpp_plugins.LinkPulse.Runs.{exec_of, link_up_down-started, started}
use vpp_plugins.LinkPulse.Laws.{update_script_command-IsScriptList, IsScriptList}
use vpp_plugins.LinkPulse.Refines.{run_lines, run_lines_on, run_lines-run_lines_on}
use vpp_plugins.LinkPulse.PathSet.{view}
use Prim.Native.String.{String}
use vpp_plugins.LinkPulse.Defs.{update_script_command, link_up_down, Line, contains, add, del}
use vpp_plugins.Base.{◌==◌, arith, List, true, some, ◌≡◌, ◌∷◌, [], none, map, refl, Option}

abbrev two_scripts : List String
two_scripts = "/etc/a.sh" ∷ "/etc/b.sh" ∷ []

two_IsValid : IsScriptList two_scripts
unfolding contains
two_IsValid = record { few = omega arith; distinct = (refl, (refl, tt)) }

abbrev add_line : Line
add_line = record { command = add "/etc/c.sh"; at_end = true }

update_script_command-IsScriptList_example :
    IsScriptList (update_script_command two_scripts (some add_line)).1
update_script_command-IsScriptList_example =
    update_script_command-IsScriptList two_scripts (some add_line) two_IsValid

abbrev add_again : Line
add_again = record { command = add "/etc/b.sh"; at_end = true }

-- The first fork fails.
link_up_down-started_example :
    link_up_down 1 (λ i. i == 1) two_scripts "eth0" 3
    ≡ map (exec_of "eth0" true) (started (λ i. i == 1) 0 two_scripts)
link_up_down-started_example = link_up_down-started 1 (λ i. i == 1) two_scripts "eth0" 3

abbrev session : List (Option Line)
session =
    some add_line
    ∷ some add_again
    ∷ none
    ∷ some (record { command = del "/etc/a.sh"; at_end = true })
    ∷ []

run_lines-run_lines_on_example :
    ((run_lines two_scripts session).0 ≡ (run_lines_on (view two_scripts) session).0)
    × (view (run_lines two_scripts session).1 ≡ (run_lines_on (view two_scripts) session).1)
run_lines-run_lines_on_example = run_lines-run_lines_on two_scripts session two_IsValid
