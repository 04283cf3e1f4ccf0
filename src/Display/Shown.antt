-- ===== src/Display/Shown.antt =====
-- What `show flow-table` of flow_table/core/flow.c prints.
use vpp_plugins.Display.Command.{show_flow, show_flows, show_threads, flow_table_display_command}
use vpp_plugins.Ip4.Shown.{IsShown}
use vpp_plugins.Ip4.All.{All}
use vpp_plugins.Ip4.Mirror.{IsMirror, IsMirror-Closed}
use vpp_plugins.Display.Described.{described, format_flow-described}
use vpp_plugins.Ip4.Reach.{Reach-All}
use vpp_plugins.Base.{ap}
use vpp_plugins.Ip4.Reach.{Reach, IsInitial, Reach-AllShown}
use vpp_plugins.Flow.Vpp.{Vpp}
use vpp_plugins.Display.Format.{ShownLine}
use vpp_plugins.Ip4.Safety.{has_handler}
use vpp_plugins.Flow.Defs.{WrkCtx}
use vpp_plugins.Protocol.Handlers.{registered_handlers}
use vpp_plugins.Flow.Types.{Flow}
use vpp_plugins.Base.{
  List, Option, [], arith, false, ltb, none, some, suc, zero, ℕ, ◌&&◌, ◌++◌, ◌+◌, ◌<◌, ◌==◌, ◌≡◌,
  refl, ◌∙◌, true,
}

-- The lines of one element of the pool.
abbrev pub lines_of : Option Flow → List ShownLine
lines_of none = []
lines_of (some f) = described f

-- A flow that the command shows, with entries that are for its key.
pub record IsListed (f : Flow) : Type 0 where
  pub shown : IsShown f
  pub mirror : IsMirror f

show_flow-lines_of :
    (o : Option Flow)
    → ((f : Flow) → o ≡ some f → IsListed f)
    → show_flow registered_handlers o ≡ some (lines_of o)
unfolding show_flow
show_flow-lines_of none listed = refl
show_flow-lines_of (some f) listed =
    let l = listed f refl in
    let used : (f.refcount == 0) ≡ false = ground (arith, l.shown.used) in
    rw (used, show_flow)
      (rw (has_handler f.protocol l.shown.protocol_lt) (ap some (format_flow-described f l.mirror)))

module _ {T W : Type 0} where
  -- The lines of `n` elements, from `i` on.
  abbrev pub lines_from : WrkCtx T W → (n i : ℕ) → List ShownLine
  lines_from wrk zero i = []
  lines_from wrk (suc n) i = lines_of (wrk.flows i) ++ lines_from wrk n (suc i)

  -- The lines of `n` threads, from `thread` on.
  abbrev pub thread_lines : (ℕ → ℕ) → (ℕ → WrkCtx T W) → (n thread : ℕ) → List ShownLine
  thread_lines vec_len wrk_ctx zero thread = []
  thread_lines vec_len wrk_ctx (suc n) thread =
      lines_from (wrk_ctx thread) (vec_len thread) 0 ++ thread_lines vec_len wrk_ctx n (suc thread)

  pub show_flows-lines_from :
      (wrk : WrkCtx T W) (n i : ℕ)
      → All IsListed wrk
      → show_flows registered_handlers wrk n i ≡ some (lines_from wrk n i)
  unfolding show_flows
  show_flows-lines_from wrk zero i all = refl
  show_flows-lines_from wrk (suc n) i all =
      rw (show_flow-lines_of (wrk.flows i) (all i), show_flows-lines_from wrk n (suc i) all) refl

  pub show_threads-thread_lines :
      (num_threads : ℕ) (vec_len : ℕ → ℕ) (ws : ℕ → WrkCtx T W) (n thread : ℕ)
      → ((t : ℕ) → All IsListed (ws t))
      → 0 < thread
      → show_threads registered_handlers num_threads vec_len ws n thread
        ≡ some (thread_lines vec_len ws n thread)
  unfolding show_threads
  show_threads-thread_lines m len ws zero t all pos = refl
  show_threads-thread_lines m len ws (suc n) t all pos =
      let worker : ((t == 0) && ltb 1 m) ≡ false = ground arith in
      rw (worker, show_threads)
        (rw (
          show_flows-lines_from (ws t) (len t) 0 (all t),
          show_threads-thread_lines m len ws n (suc t) all (omega arith),
        ))

  -- The main thread, with no worker beside it, shows its flows.
  display_main :
      (vec_len : ℕ → ℕ) (ws : ℕ → WrkCtx T W)
      → ((t : ℕ) → All IsListed (ws t))
      → flow_table_display_command registered_handlers 0 vec_len ws
        ≡ some (thread_lines vec_len ws 1 0)
  unfolding flow_table_display_command show_threads
  display_main len ws all = rw (show_flows-lines_from (ws 0) (len 0) 0 (all 0)) refl

  skips_main :
      (n m : ℕ) (vec_len : ℕ → ℕ) (ws : ℕ → WrkCtx T W)
      → show_threads registered_handlers (suc (suc n)) vec_len ws (suc m) 0
        ≡ show_threads registered_handlers (suc (suc n)) vec_len ws m 1
  unfolding show_threads
  skips_main n m len ws =
      let several : ltb 1 (suc (suc n)) ≡ true = ground arith in rw (several, show_threads) refl

  display_workers :
      (n : ℕ) (vec_len : ℕ → ℕ) (ws : ℕ → WrkCtx T W)
      → ((t : ℕ) → All IsListed (ws t))
      → flow_table_display_command registered_handlers (suc n) vec_len ws
        ≡ some (thread_lines vec_len ws (suc n) 1)
  unfolding flow_table_display_command
  display_workers n len ws all =
      let count : 1 + suc n ≡ suc (suc n) = omega arith in
      rw count (
        skips_main n (suc n) len ws
        ∙ show_threads-thread_lines (suc (suc n)) len ws (suc n) 1 all (omega arith))

-- The threads that handle packets: the workers, or the main thread if there is no worker. Their number
-- and the first of them.
abbrev pub packet_threads : (n_threads : ℕ) → ℕ × ℕ
packet_threads zero = (1, 0)
packet_threads (suc n) = (suc n, 1)

module _ {T W : Type 0} (vpp : Vpp T W) where
  Reach-IsListed :
      {start wrk : WrkCtx T W} → IsInitial vpp start → Reach vpp start wrk → All IsListed wrk
  Reach-IsListed z r i f found = record {
    shown = Reach-AllShown vpp z r i f found;
    mirror = Reach-All vpp IsMirror-Closed z r i f found;
  }

  -- On any number of workers, each in a context that packets of protocols below 255 and timers lead
  -- to, `show flow-table` calls no NULL function, and prints for every thread that handles packets, in
  -- order, the lines of each flow in the elements of its pool, in their order, and nothing else. The
  -- number of elements is given for each thread. The lines of a flow show the IPv4 addresses, the
  -- protocol and the VLAN tags of the flow's key, its two interfaces, and the ports of the key for TCP
  -- and UDP; for TCP they also show the state and the sequence numbers of both directions.
  pub flow_table_display_command-thread_lines :
      (n_threads : ℕ) (vec_len : ℕ → ℕ) (start ws : ℕ → WrkCtx T W)
      → ((t : ℕ) → IsInitial vpp (start t))
      → ((t : ℕ) → Reach vpp (start t) (ws t))
      → let (count, first) = packet_threads n_threads in
        flow_table_display_command registered_handlers n_threads vec_len ws
        ≡ some (thread_lines vec_len ws count first)
  flow_table_display_command-thread_lines zero len start ws z r =
      display_main len ws (λ t. Reach-IsListed (z t) (r t))
  flow_table_display_command-thread_lines (suc n) len start ws z r =
      display_workers n len ws (λ t. Reach-IsListed (z t) (r t))
