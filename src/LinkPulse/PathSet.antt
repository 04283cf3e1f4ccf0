-- ===== src/LinkPulse/PathSet.antt =====
-- The scripts of link_pulse/link_pulse.c as a set, without the order of the list.
use vpp_plugins.LinkPulse.Defs.{
  callback_script_num, Command, add, del, other, Line, Error, unknown_input, max_scripts,
  already_exists, not_found, contains,
}
use Prim.Native.String.{String}
use text.Mathlib.Text.{◌==◌ as str_eq}
use vpp_plugins.Base.{
  ℕ, ◌+◌, ◌-◌, Bool, not, ◌&&◌, ◌||◌, Option, none, some, List, length, leb, if◌then◌else◌,
}

-- Which paths are in the set, and how many they are.
pub record PathSet : Type 0 where
  pub has : String → Bool
  pub count : ℕ

abbrev pub view : List String → PathSet
view scripts = record { has = contains scripts; count = length scripts }

-- A set of at most ten paths gets one more, if it is new.
abbrev pub insert : PathSet → String → Option Error × PathSet
insert s path =
    if leb callback_script_num s.count
    then (some max_scripts, s)
    else (if s.has path
        then (some already_exists, s)
        else (none, record { has = λ q. s.has q || str_eq path q; count = s.count + 1 }))

abbrev pub remove : PathSet → String → Option Error × PathSet
remove s path =
    if s.has path
    then (none, record { has = λ q. s.has q && not (str_eq path q); count = s.count - 1 })
    else (some not_found, s)

abbrev pub command_on : PathSet → Command → Bool → Option Error × PathSet
command_on s other at_end = (some unknown_input, s)
command_on s (add path) at_end = if at_end then insert s path else (some unknown_input, s)
command_on s (del path) at_end = if at_end then remove s path else (some unknown_input, s)

-- One line of input; `none` is an input with no line.
abbrev pub line_on : PathSet → Option Line → Option Error × PathSet
line_on s none = (none, s)
line_on s (some line) = command_on s line.command line.at_end
