-- ===== src/Main/LeftOn.antt =====
-- A trace run whose command fails (main and execute of idlestat.c).
use idlestat.Base.{ℕ, ◌≡◌, refl, Bool, true, false, Option, some, List, ap, ◌∙◌}
use idlestat.Base.Int.{pos}
use idlestat.Base.Double.{Double}
use idlestat.Base.Print.{Format}
use idlestat.Base.Scan.{Strtod}
use idlestat.Topology.{CpuTopology}
use idlestat.Options.{ProgramOptions}
use idlestat.TraceSetup.{
  TraceOptions, idlestat_trace_enable, idlestat_store_trace_options, idlestat_init_trace,
  idlestat_flush_trace,
}
use idlestat.TraceSetup.Restore.{stored-IsEnable}
use idlestat.Main.{
  Machine, then_step, trace_run, acquire_with, acquire, buffer_size, idlestat_wake_all, execute,
  get_trace_ts, record_events, first_wake, run_command, flushed, started_at, last_wake, start_ts,
}
use idlestat.Main.Stopped.{
  HasSwitch, Switch, enable-Switch, wake_all-Switch, execute-Switch, restore-Switch,
}

then_step-eq : {S : Type 0} (r : S × Bool) (f : S → S × Bool) → r.1 ≡ true → then_step r f ≡ f r.0
then_step-eq r f e = rw e refl

then_step-failed :
    {S : Type 0} (r : S × Bool) (f : S → S × Bool) → r.1 ≡ false → then_step r f ≡ (r.0, false)
then_step-failed r f e = rw e refl

module _ {S D : Type 0} ⦃d : Double D⦄ ⦃f : Format D⦄ ⦃t : Strtod D⦄ (m : Machine S D)
    (h : HasSwitch m) (has_command : Bool) (o : ProgramOptions) (path : List ℕ)
    (topo : CpuTopology D) where
  -- The state in which the command runs, when the recording starts in `s`.
  abbrev pub at_command : S → S
  at_command s = (idlestat_wake_all m (idlestat_trace_enable m.tracefs true s).0).0

  record_events-failed :
      (initp : Option (List ℕ)) (start : D) (s : S)
      → (idlestat_trace_enable m.tracefs true s).1 ≡ true
      → (idlestat_wake_all m (idlestat_trace_enable m.tracefs true s).0).1 ≡ true
      → (execute m has_command o (at_command s)).1 ≡ false
      → record_events m has_command o path topo initp start s
        ≡ ((execute m has_command o (at_command s)).0, false)
  unfolding record_events first_wake run_command
  record_events-failed initp start s on woken failed =
      then_step-eq (idlestat_trace_enable m.tracefs true s)
        (first_wake m has_command o path topo initp start) on
      ∙ then_step-eq (idlestat_wake_all m (idlestat_trace_enable m.tracefs true s).0)
          (run_command m has_command o path topo initp start) woken
      ∙ then_step-failed (execute m has_command o (at_command s))
          (last_wake m has_command o path topo initp start) failed

  abbrev pub at_start : S → S
  at_start s =
      (idlestat_flush_trace m.tracefs
        (idlestat_init_trace m.tracefs (buffer_size m has_command o path topo) s).0).0

  acquire-failed :
      (start : D) (s : S)
      → (idlestat_init_trace m.tracefs (buffer_size m has_command o path topo) s).1 ≡ true
      → (idlestat_flush_trace m.tracefs
          (idlestat_init_trace m.tracefs (buffer_size m has_command o path topo) s).0).1
        ≡ true
      → get_trace_ts (m.stat_lines (at_start s)) ≡ some start
      → (idlestat_trace_enable m.tracefs true (at_start s)).1 ≡ true
      → (idlestat_wake_all m (idlestat_trace_enable m.tracefs true (at_start s)).0).1 ≡ true
      → (execute m has_command o (at_command (at_start s))).1 ≡ false
      → acquire m has_command o path topo (buffer_size m has_command o path topo) s
        ≡ ((execute m has_command o (at_command (at_start s))).0, false)
  unfolding acquire flushed
  acquire-failed start s sized flush ts on woken failed =
      then_step-eq (idlestat_init_trace m.tracefs (buffer_size m has_command o path topo) s)
        (flushed m has_command o path topo) sized
      ∙ then_step-eq (idlestat_flush_trace m.tracefs _) (start_ts m has_command o path topo) flush
      ∙ ap (λ z. started_at m has_command o path topo z (at_start s)) ts
      ∙ record_events-failed _ start (at_start s) on woken failed

  at_command-Switch :
      (s : S)
      → (idlestat_trace_enable m.tracefs true s).1 ≡ true
      → Switch m h (pos 1) (execute m has_command o (at_command s)).0
  at_command-Switch s on =
      execute-Switch m h (pos 1) has_command o _
        (wake_all-Switch m h (pos 1) _ (enable-Switch m h true s on))

  -- Where nothing but a write to it changes the switch `tracing_on`: if the steps of a run up to the
  -- command succeed and the command fails, the run fails and leaves the kernel recording.
  pub trace_run-left_on :
      (s : S) (saved : TraceOptions) (start : D)
      → (idlestat_trace_enable m.tracefs false s).1 ≡ true
      → let s1 = (idlestat_trace_enable m.tracefs false s).0 in
        idlestat_store_trace_options m.tracefs (m.events s1) s1 ≡ some saved
        → (idlestat_init_trace m.tracefs (buffer_size m has_command o path topo) s1).1 ≡ true
        → (idlestat_flush_trace m.tracefs
            (idlestat_init_trace m.tracefs (buffer_size m has_command o path topo) s1).0).1
          ≡ true
        → get_trace_ts (m.stat_lines (at_start s1)) ≡ some start
        → (idlestat_trace_enable m.tracefs true (at_start s1)).1 ≡ true
        → (idlestat_wake_all m (idlestat_trace_enable m.tracefs true (at_start s1)).0).1 ≡ true
        → (execute m has_command o (at_command (at_start s1))).1 ≡ false
        → ((trace_run m has_command o path topo s).1 ≡ false)
          × Switch m h (pos 1) (trace_run m has_command o path topo s).0
  unfolding trace_run acquire_with
  trace_run-left_on s saved start off e sized flush ts on woken failed =
      let s1 = (idlestat_trace_enable m.tracefs false s).0 in
      let (_, enabled) = stored-IsEnable m.tracefs (m.events s1) s1 saved e in
      let a = acquire-failed start s1 sized flush ts on woken failed in
      rw (off, e, a)
        (refl, restore-Switch m h (pos 1) saved _ enabled (at_command-Switch (at_start s1) on))
