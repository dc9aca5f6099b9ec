-- ===== src/Main.antt =====
-- The trace run of `main` (idlestat.c), with `get_trace_ts`, `idlestat_wake_all`, `execute` and the calls of
-- `idlestat_store`. What the machine does is the parameter `Machine`; a step returns the state and whether
-- it succeeded. What allocates memory succeeds.
use idlestat.Base.{
  ℕ, zero, suc, ◌+◌, ◌≡◌, Bool, true, false, not, Option, none, some, List, [], ◌∷◌, if◌then◌else◌,
  ◌==◌, ◌&&◌, ◌||◌, bytes, strstr,
}
use idlestat.Base.Int.{ℤ, pos, negsuc, minus_one, ltb_ℤ}
use idlestat.Base.Double.{Double}
use idlestat.Base.Print.{Format}
use idlestat.Base.Ptr.{Ptr, err_ptr, ptr}
use idlestat.Base.Scan.{
  Strtod, Directive, lit, skip_until, read_double, double_value, Scan, scanned, sscanf,
}
use idlestat.Topology.{CpuTopology}
use idlestat.Options.{ProgramOptions, to_uint}
use idlestat.TraceSetup.{
  Tracefs, FtsEntry, TraceOptions, TraceBufferSettings, calculate_buffer_parameters,
  idlestat_trace_enable, idlestat_flush_trace, idlestat_init_trace, idlestat_store_trace_options,
  idlestat_restore_trace_options,
}
use idlestat.TraceFile.Stored.{build_init_pstates, idlestat_store}
pub mod Show
pub mod Program
pub mod Entry
pub mod Reported
pub mod Left
pub mod Ends
pub mod Stopped
pub mod LeftOn

-- What `waitpid` returns until the command has ended: by itself or by a signal. It fails before that
-- where a signal comes in, which may be the alarm.
pub data Waits : Type 0 where
  exited : Waits
  signaled : ℕ → Waits
  wait_error : Bool → Waits → Waits

pub record Machine (S D : Type 0) : Type 0 where
  pub tracefs : Tracefs S
  pub events : S → List FtsEntry
  pub stat_lines : S → Option (List (List ℕ))
  pub trace_lines : S → Option (List (List ℕ))
  pub sysfs_topo : Ptr (CpuTopology D)
  pub nr_configured : ℤ
  pub this_cpu : ℤ
  pub may_run_on : ℕ → Bool
  pub run_on : ℕ → S → S
  pub sleep : ℕ → S → S × ℕ
  pub fork : S → S × Option Waits
  pub kill : S → S
  pub cur_freq : S → ℕ → Option ℕ
  pub state_name : ℕ → ℕ → Option (List ℕ)
  pub state_residency : ℕ → ℕ → ℤ
  pub pid : ℕ
  pub version : List ℕ
  pub write_file : List ℕ → List (List ℕ) → S → S × Bool

-- A step after another, unless that fails.
abbrev pub then_step : {S : Type 0} → S × Bool → (S → S × Bool) → S × Bool
then_step r f = if r.1 then f r.0 else (r.0, false)

-- `"%*[^:]:%lf"`.
unfoldable pub ts_format : List Directive
ts_format = skip_until 58 ∷ lit 58 ∷ read_double ∷ []

abbrev as_time : {D : Type 0} → Scan D → Option D
as_time (scanned (double_value ts ∷ vs)) = some ts
as_time _ = none

-- The first line with a time decides.
unfoldable pub find_ts : {D : Type 0} → ⦃t : Strtod D⦄ → List (List ℕ) → Option D
unfolding sscanf ts_format
find_ts [] = none
find_ts (buffer ∷ lines) =
    let rest = find_ts lines in
    if strstr buffer (bytes "now ts") then as_time (sscanf buffer ts_format) else rest

unfoldable pub get_trace_ts : {D : Type 0} → ⦃t : Strtod D⦄ → Option (List (List ℕ)) → Option D
unfolding find_ts
get_trace_ts none = none
get_trace_ts (some lines) = find_ts lines

module _ {S D : Type 0} (m : Machine S D) where
  -- The CPUs `i`, `i + 1`, …, but the one that this runs on and those that it may not run on.
  unfoldable pub wake_from : ℕ → ℕ → ℕ → S → S
  wake_from i rcpu zero s = s
  wake_from i rcpu (suc n) s =
      wake_from (suc i) rcpu n (if i == rcpu || not (m.may_run_on i) then s else m.run_on i s)

  abbrev pub wake_others : ℤ → ℤ → S → S × Bool
  wake_others (pos n) (pos rcpu) s = (wake_from 0 rcpu n s, true)
  wake_others _ _ s = (s, false)

  unfoldable pub idlestat_wake_all : S → S × Bool
  unfolding wake_from
  idlestat_wake_all s = wake_others m.nr_configured m.this_cpu s

  -- The loop over `waitpid`; 15 is SIGTERM.
  unfoldable pub wait_for : Waits → S → S × Bool
  wait_for exited s = (s, true)
  wait_for (signaled n) s = (s, n == 15)
  wait_for (wait_error alarm w) s = wait_for w (if alarm then m.kill s else s)

  abbrev pub run_child : S × Option Waits → S × Bool
  run_child (s, none) = (s, false)
  run_child (s, some w) = wait_for w s

  abbrev slept : S × ℕ → S × Bool
  slept r = (r.0, r.1 == 0)

  unfoldable pub execute : Bool → ProgramOptions → S → S × Bool
  unfolding wait_for to_uint
  execute has_command o s =
      if has_command then run_child (m.fork s) else slept (m.sleep (to_uint o.duration) s)

module _ {S D : Type 0} ⦃d : Double D⦄ ⦃f : Format D⦄ (m : Machine S D) where
  abbrev pub write_trace :
      List ℕ → Option (List ℕ) → CpuTopology D → D → D → ℤ → Option (List (List ℕ)) → S → S × Bool
  write_trace path initp topo start end (negsuc n) trace s = (s, false)
  write_trace path initp topo start end (pos n) none s = (
    (m.write_file path
        (idlestat_store m.version m.pid n start end initp topo m.state_name m.state_residency [])
        s).0,
    false,
  )
  write_trace path initp topo start end (pos n) (some lines) s =
      m.write_file path
        (idlestat_store m.version m.pid n start end initp topo m.state_name m.state_residency lines)
        s

  -- `idlestat_store`; without the kernel's trace the file is written, but the step fails.
  unfoldable pub store_trace : List ℕ → Option (List ℕ) → CpuTopology D → D → D → S → S × Bool
  unfolding idlestat_store
  store_trace path initp topo start end s =
      write_trace path initp topo start end m.nr_configured (m.trace_lines s) s

  abbrev initial_pstates : CpuTopology D → S → ℤ → Option (List ℕ)
  initial_pstates topo s (pos (suc n)) = some (build_init_pstates topo (m.cur_freq s) (suc n))
  initial_pstates topo s _ = none

module _ {S D : Type 0} ⦃d : Double D⦄ ⦃f : Format D⦄ ⦃t : Strtod D⦄ (m : Machine S D)
    (has_command : Bool) (o : ProgramOptions) (path : List ℕ) (topo : CpuTopology D) where
  abbrev pub ended_at : Option (List ℕ) → D → Option D → S → S × Bool
  ended_at initp start none s = (s, false)
  ended_at initp start (some end) s = store_trace m path initp topo start end s

  abbrev pub end_ts : Option (List ℕ) → D → S → S × Bool
  end_ts initp start s = ended_at initp start (get_trace_ts (m.stat_lines s)) s

  -- From the stop of the recording on.
  unfoldable pub finish : Option (List ℕ) → D → S → S × Bool
  unfolding store_trace get_trace_ts
  finish initp start s = then_step (idlestat_trace_enable m.tracefs false s) (end_ts initp start)

  unfoldable pub last_wake : Option (List ℕ) → D → S → S × Bool
  unfolding finish idlestat_wake_all
  last_wake initp start s = then_step (idlestat_wake_all m s) (finish initp start)

  unfoldable pub run_command : Option (List ℕ) → D → S → S × Bool
  unfolding last_wake execute
  run_command initp start s = then_step (execute m has_command o s) (last_wake initp start)

  unfoldable pub first_wake : Option (List ℕ) → D → S → S × Bool
  unfolding run_command idlestat_wake_all
  first_wake initp start s = then_step (idlestat_wake_all m s) (run_command initp start)

  unfoldable pub record_events : Option (List ℕ) → D → S → S × Bool
  unfolding first_wake
  record_events initp start s =
      then_step (idlestat_trace_enable m.tracefs true s) (first_wake initp start)

  abbrev pub started_at : Option D → S → S × Bool
  started_at none s = (s, false)
  started_at (some start) s = record_events (initial_pstates m topo s m.nr_configured) start s

  abbrev pub start_ts : S → S × Bool
  start_ts s = started_at (get_trace_ts (m.stat_lines s)) s

  unfoldable pub flushed : S → S × Bool
  unfolding record_events get_trace_ts
  flushed s = then_step (idlestat_flush_trace m.tracefs s) start_ts

  -- The steps after which an error restores the options.
  unfoldable pub acquire : ℕ → S → S × Bool
  unfolding flushed
  acquire size s = then_step (idlestat_init_trace m.tracefs size s) flushed

  abbrev pub buffer_size : ℕ
  buffer_size =
      (calculate_buffer_parameters (to_uint o.duration) (record {
        percpu_buffer_size = o.percpu_buffer_size;
        poll_interval = o.poll_interval;
      })).percpu_buffer_size

  unfoldable pub acquire_with : Option TraceOptions → S → S × Bool
  unfolding acquire
  acquire_with none s = (s, false)
  acquire_with (some saved) s =
      let (t, acquired) = acquire buffer_size s in
      let (u, restored) = idlestat_restore_trace_options m.tracefs saved t in
      (u, acquired && restored)

  abbrev pub store_options : S → S × Bool
  store_options s = acquire_with (idlestat_store_trace_options m.tracefs (m.events s) s) s

  -- The run on a topology: false is where `main` returns 1.
  unfoldable pub trace_run : S → S × Bool
  unfolding acquire_with
  trace_run s = then_step (idlestat_trace_enable m.tracefs false s) store_options
