-- ===== src/LinkPulse/Laws.antt =====
-- The list of callback scripts of link_pulse/link_pulse.c stays within its bounds.
use vpp_plugins.LinkPulse.Defs.{
  contains, delete_first, callback_script_num, add_script, update_script_command, del_script, Line,
  Error, Command, run_command, add, del, other,
}
use Prim.Native.String.{String}
use text.Mathlib.Text.{◌==◌ as str_eq}
use text.Mathlib.TextEquality.{eq_iff}
use text.Mathlib.TextPositions.{eq_refl}
use vpp_plugins.Base.{
  arith, List, length, ◌≡◌, ◌++◌, ◌∷◌, Bool-cases, ◌≤◌, [], false, refl, ◌||◌, inl, inr, leb,
  Option, ◌<◌, length-append, none, some, Bool, true,
}

-- No path stands twice in the list.
abbrev pub IsDistinct : List String → Type 0
IsDistinct [] = Unit {0}
IsDistinct (s ∷ ss) = (contains ss s ≡ false) × IsDistinct ss

pub record IsScriptList (scripts : List String) : Type 0 where
  pub few : length scripts ≤ callback_script_num
  pub distinct : IsDistinct scripts

pub contains-append :
    (xs : List String) (y p : String) → contains (xs ++ y ∷ []) p ≡ (contains xs p || str_eq y p)
unfolding contains
contains-append [] y p = ground arith
contains-append (x ∷ xs) y p = ground (arith, contains-append xs y p)

IsDistinct-append :
    (xs : List String) (y : String)
    → contains xs y ≡ false
    → IsDistinct xs
    → IsDistinct (xs ++ y ∷ [])
unfolding contains
IsDistinct-append [] y h d = (refl, tt)
IsDistinct-append (x ∷ xs) y h d = (
  ground (arith, contains-append xs y x, eq_iff x y, eq_iff y x),
  IsDistinct-append xs y (ground arith) d.1,
)

contains-delete_first :
    (xs : List String) (q p : String)
    → contains xs q ≡ false
    → contains (delete_first xs p) q ≡ false
unfolding contains delete_first
contains-delete_first [] q p h = refl
contains-delete_first (x ∷ xs) q p h = ground (arith, contains-delete_first xs q p)

IsDistinct-delete_first :
    (xs : List String) (p : String) → IsDistinct xs → IsDistinct (delete_first xs p)
unfolding delete_first
IsDistinct-delete_first [] p d = tt
IsDistinct-delete_first (x ∷ xs) p d = elim (Bool-cases (str_eq x p)) [
  | inl same ↦ rw same d.1
  | inr different ↦
      rw different (contains-delete_first xs x p d.0, IsDistinct-delete_first xs p d.1)
]

length-delete_first : (xs : List String) (p : String) → length (delete_first xs p) ≤ length xs
unfolding delete_first
length-delete_first [] p = omega arith
length-delete_first (x ∷ xs) p = ground (arith, length-delete_first xs p)

add_script-IsScriptList :
    (scripts : List String) (path : String)
    → IsScriptList scripts
    → IsScriptList (add_script scripts path).1
unfolding add_script
add_script-IsScriptList scripts path v =
    elim (Bool-cases (leb callback_script_num (length scripts))) [
      | inl full ↦ rw full v
      | inr room ↦ elim (Bool-cases (contains scripts path)) [
        | inl old ↦ rw (room, old) v
        | inr new ↦
            rw (room, new)
              (record {
                few = ground (arith, length-append scripts (path ∷ []));
                distinct = IsDistinct-append scripts path new v.distinct;
              })
      ]
    ]

del_script-IsScriptList :
    (scripts : List String) (path : String)
    → IsScriptList scripts
    → IsScriptList (del_script scripts path).1
unfolding del_script
del_script-IsScriptList scripts path v = elim (Bool-cases (contains scripts path)) [
  | inl old ↦ rw old (record {
    few = omega (arith, v.few, length-delete_first scripts path);
    distinct = IsDistinct-delete_first scripts path v.distinct;
  })
  | inr new ↦ rw new v
]

-- Every line, read or refused, keeps a list of at most ten scripts without repetitions such a list.
pub update_script_command-IsScriptList :
    (scripts : List String) (line : Option Line)
    → IsScriptList scripts
    → IsScriptList (update_script_command scripts line).1
unfolding update_script_command
update_script_command-IsScriptList scripts none v = v
update_script_command-IsScriptList scripts (some line) v = run line.command line.at_end
  where
    run : (c : Command) (at_end : Bool) → IsScriptList (run_command scripts c at_end).1
    run other at_end = v
    run (add path) true = add_script-IsScriptList scripts path v
    run (add path) false = v
    run (del path) true = del_script-IsScriptList scripts path v
    run (del path) false = v

-- A line that is answered with an error leaves the list as it was.
pub update_script_command-error :
    (scripts : List String) (line : Option Line) (e : Error)
    → (update_script_command scripts line).0 ≡ some e
    → (update_script_command scripts line).1 ≡ scripts
unfolding update_script_command add_script del_script
update_script_command-error scripts none e h = refl
update_script_command-error scripts (some line) e h = ground arith

delete_first-append :
    (xs : List String) (p : String) → contains xs p ≡ false → delete_first (xs ++ p ∷ []) p ≡ xs
unfolding contains delete_first
delete_first-append [] p h = ground (arith, eq_refl p)
delete_first-append (x ∷ xs) p h = ground (arith, delete_first-append xs p)

-- A path that is not in a list with room is added without an error, and deleting it gives the list
-- back without an error.
pub del_script-add_script :
    (scripts : List String) (path : String)
    → length scripts < callback_script_num
    → contains scripts path ≡ false
    → ((add_script scripts path).0 ≡ none)
      × (del_script (add_script scripts path).1 path ≡ (none, scripts))
unfolding add_script del_script
del_script-add_script scripts path room new =
    ground
      (arith, contains-append scripts path path, eq_refl path, delete_first-append scripts path new)
