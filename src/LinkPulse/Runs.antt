-- ===== src/LinkPulse/Runs.antt =====
-- What runs at a change of a link in link_pulse/link_pulse.c.
use Prim.Native.Nat.{bit_and}
use vpp_plugins.LinkPulse.Defs.{link_up_down, run_scripts, run_script, Exec}
use Prim.Native.String.{String}
use vpp_plugins.Base.{
  Bool, ℕ, if◌then◌else◌, List, ◌≡◌, true, map, ◌∷◌, not, suc, [], ◌==◌, refl, ◌∙◌, Bool-cases, inl,
  ap, inr,
}

-- The process for one script.
pub exec_of : (if_name : String) (is_up : Bool) → String → Exec
exec_of if_name is_up s = record {
  script = s;
  if_name = if_name;
  status = if is_up then "up" else "down";
}

-- The scripts for which `fork` started a process; `fork i` is its answer for the script with index `i`.
pub started : (fork : ℕ → Bool) → ℕ → List String → List String
started fork i [] = []
started fork i (s ∷ ss) = let rest = started fork (suc i) ss in if fork i then s ∷ rest else rest

run_scripts-started :
    (fork : ℕ → Bool) (i : ℕ) (scripts : List String) (if_name : String) (is_up : Bool)
    → run_scripts fork i scripts if_name is_up
      ≡ map (exec_of if_name is_up) (started fork i scripts)
unfolding run_scripts run_script exec_of started
run_scripts-started fork i [] if_name is_up = refl
run_scripts-started fork i (s ∷ ss) if_name is_up =
    let rest = run_scripts-started fork (suc i) ss if_name is_up in
    elim (Bool-cases (fork i)) [ inl ok ↦ rw (ok, rest) refl | inr failed ↦ rw (failed, rest) refl ]

started-all :
    (fork : ℕ → Bool) (i : ℕ) (scripts : List String)
    → ((j : ℕ) → fork j ≡ true)
    → started fork i scripts ≡ scripts
unfolding started
started-all fork i [] h = refl
started-all fork i (s ∷ ss) h = rw (h i, started-all fork (suc i) ss h) refl

-- Every script of the list runs once, in the list's order, with the interface's name and the status, "up"
-- if the flags hold the link-up bit, else "down"; but those for which no process could be started do
-- not run, and no other script is affected.
pub link_up_down-started :
    (link_up : ℕ) (fork : ℕ → Bool) (scripts : List String) (name : String) (flags : ℕ)
    → link_up_down link_up fork scripts name flags
      ≡ map (exec_of name (not (bit_and flags link_up == 0))) (started fork 0 scripts)
unfolding link_up_down
link_up_down-started link_up fork scripts name flags =
    run_scripts-started fork 0 scripts name (not (bit_and flags link_up == 0))

-- With a fork that never fails every script of the list runs.
pub link_up_down-map :
    (link_up : ℕ) (fork : ℕ → Bool) (scripts : List String) (name : String) (flags : ℕ)
    → ((j : ℕ) → fork j ≡ true)
    → link_up_down link_up fork scripts name flags
      ≡ map (exec_of name (not (bit_and flags link_up == 0))) scripts
link_up_down-map link_up fork scripts name flags h =
    link_up_down-started link_up fork scripts name flags
    ∙ ap (map (exec_of name (not (bit_and flags link_up == 0)))) (started-all fork 0 scripts h)
