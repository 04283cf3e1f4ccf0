-- ===== src/LinkPulse/Refines.antt =====
-- The commands of link_pulse/link_pulse.c beside those of a set of paths.
use vpp_plugins.LinkPulse.PathSet.{PathSet, view, insert, remove, command_on, line_on}
use vpp_plugins.LinkPulse.Laws.{
  IsDistinct, IsScriptList, contains-append, update_script_command-IsScriptList,
}
use vpp_plugins.LinkPulse.Defs.{
  callback_script_num, Command, add, del, other, Line, Error, contains, delete_first, add_script,
  del_script, run_command, update_script_command,
}
use Prim.Native.String.{String}
use text.Mathlib.Text.{◌==◌ as str_eq}
use text.Mathlib.TextEquality.{eq_iff}
use mathlib.Core.Path.{fun_ext, ap₂}
use vpp_plugins.Base.{
  ℕ, suc, ◌+◌, ◌-◌, List, [], ◌∷◌, ◌++◌, Bool, true, false, not, ◌&&◌, ◌||◌, Option, none, some,
  length, leb, ◌≡◌, refl, arith, ap, Bool-cases, inl, inr, length-append, ◌∙◌, sym,
}

contains-delete :
    (xs : List String) (p q : String)
    → IsDistinct xs
    → contains (delete_first xs p) q ≡ (contains xs q && not (str_eq p q))
unfolding contains delete_first
contains-delete [] p q d = refl
contains-delete (x ∷ xs) p q d =
    ground (arith, contains-delete xs p q d.1, d.0, eq_iff x p, eq_iff p q, eq_iff x q, absent)
  where
    absent : str_eq x q ≡ true → contains xs q ≡ false
    absent same = ap (contains xs) (sym ((eq_iff x q).0 same)) ∙ d.0

length-delete :
    (xs : List String) (p : String)
    → contains xs p ≡ true
    → length xs ≡ suc (length (delete_first xs p))
unfolding contains delete_first
length-delete [] p h = ground (arith, h)
length-delete (x ∷ xs) p h = elim (Bool-cases (str_eq x p)) [
  | inl same ↦ rw same refl
  | inr different ↦ rw different (ap suc (length-delete xs p (rw different at h)))
]

view-append :
    (scripts : List String) (path : String)
    → view (scripts ++ path ∷ [])
      ≡ record { has = λ q. contains scripts q || str_eq path q; count = length scripts + 1 }
view-append scripts path =
    ap₂ (λ (h : String → Bool) (n : ℕ). record { has = h; count = n })
      (fun_ext (contains-append scripts path)) (length-append scripts (path ∷ []))

view-delete :
    (scripts : List String) (path : String)
    → IsDistinct scripts
    → contains scripts path ≡ true
    → view (delete_first scripts path)
      ≡ record { has = λ q. contains scripts q && not (str_eq path q); count = length scripts - 1 }
view-delete scripts path d found =
    ap₂ (λ (h : String → Bool) (n : ℕ). record { has = h; count = n })
      (fun_ext (λ q. contains-delete scripts path q d))
      (omega (arith, length-delete scripts path found))

-- What the client sees: the reply, and the set.
abbrev pub seen : Option Error × List String → Option Error × PathSet
seen r = (r.0, view r.1)

add_script-insert :
    (scripts : List String) (path : String)
    → seen (add_script scripts path) ≡ insert (view scripts) path
unfolding add_script
add_script-insert scripts path = elim (Bool-cases (leb callback_script_num (length scripts))) [
  | inl full ↦ rw full refl
  | inr room ↦ elim (Bool-cases (contains scripts path)) [
    | inl old ↦ rw (room, old) refl
    | inr new ↦ rw (room, new) (ap (λ (s : PathSet). (none, s)) (view-append scripts path))
  ]
]

del_script-remove :
    (scripts : List String) (path : String)
    → IsDistinct scripts
    → seen (del_script scripts path) ≡ remove (view scripts) path
unfolding del_script
del_script-remove scripts path d = elim (Bool-cases (contains scripts path)) [
  | inl old ↦ rw old (ap (λ (s : PathSet). (none, s)) (view-delete scripts path d old))
  | inr new ↦ rw new refl
]

update_script_command-line_on :
    (scripts : List String) (line : Option Line)
    → IsScriptList scripts
    → seen (update_script_command scripts line) ≡ line_on (view scripts) line
unfolding update_script_command
update_script_command-line_on scripts none v = refl
update_script_command-line_on scripts (some line) v = run line.command line.at_end
  where
    run :
        (c : Command) (at_end : Bool)
        → seen (run_command scripts c at_end) ≡ command_on (view scripts) c at_end
    run other at_end = refl
    run (add path) true = add_script-insert scripts path
    run (add path) false = refl
    run (del path) true = del_script-remove scripts path v.distinct
    run (del path) false = refl

-- The replies to a session of lines, and what it leaves.
unfoldable pub run_lines : List String → List (Option Line) → List (Option Error) × List String
run_lines scripts [] = ([], scripts)
run_lines scripts (l ∷ ls) =
    let r = update_script_command scripts l in let rest = run_lines r.1 ls in (r.0 ∷ rest.0, rest.1)

unfoldable pub run_lines_on : PathSet → List (Option Line) → List (Option Error) × PathSet
run_lines_on s [] = ([], s)
run_lines_on s (l ∷ ls) =
    let r = line_on s l in let rest = run_lines_on r.1 ls in (r.0 ∷ rest.0, rest.1)

-- A session of any lines, from a list of at most ten scripts without repetitions on, gets the replies
-- that a set of at most ten paths gives, and leaves the paths that this set has: the order in which the
-- list keeps them, and which of its elements a deletion moves, cannot be told from the replies.
pub run_lines-run_lines_on :
    (scripts : List String) (ls : List (Option Line))
    → IsScriptList scripts
    → ((run_lines scripts ls).0 ≡ (run_lines_on (view scripts) ls).0)
      × (view (run_lines scripts ls).1 ≡ (run_lines_on (view scripts) ls).1)
unfolding run_lines run_lines_on
run_lines-run_lines_on scripts [] v = (refl, refl)
run_lines-run_lines_on scripts (l ∷ ls) v =
    let r = update_script_command scripts l in
    let one = update_script_command-line_on scripts l v in
    let rest = run_lines-run_lines_on r.1 ls (update_script_command-IsScriptList scripts l v) in
    rw (← one) (ap (λ (x : List (Option Error)). r.0 ∷ x) rest.0, rest.1)
