-- ===== src/Main/Ends.antt =====
-- How a trace run ends (main of idlestat.c): what it leaves of the tracer's options and of `tracing_on`.
use idlestat.Base.{ℕ, ◌≡◌, refl, Bool, true, false, some, List, ◌&&◌, arith, ap, ◌∙◌, All}
use idlestat.Base.Double.{Double}
use idlestat.Base.Print.{Format}
use idlestat.Base.Scan.{Strtod}
use idlestat.Topology.{CpuTopology}
use idlestat.Options.{ProgramOptions}
use idlestat.TraceSetup.{
  TraceOptions, idlestat_trace_enable, idlestat_store_trace_options, idlestat_restore_trace_options,
}
use idlestat.TraceSetup.Restore.{IsTracefs, IsOn, WasOn, restore-store}
use idlestat.Main.{Machine, then_step, trace_run, acquire_with, acquire, buffer_size}

pub then_step-first :
    {S : Type 0} (r : S × Bool) (f : S → S × Bool) → (then_step r f).1 ≡ true → r.1 ≡ true
then_step-first (s, true) f e = refl
then_step-first (s, false) f e = e

pub then_step-after :
    {S : Type 0} (P : S → Type 0) (r : S × Bool) (f : S → S × Bool)
    → ((s : S) → (f s).1 ≡ true → P (f s).0)
    → (then_step r f).1 ≡ true
    → P (then_step r f).0
then_step-after P (s, true) f h e = h s e
then_step-after P (s, false) f h e = absurd (ground arith)

pub then_step-keeps :
    {S : Type 0} (P : S → Type 0) (r : S × Bool) (f : S → S × Bool)
    → P r.0
    → ((s : S) → P s → P (f s).0)
    → P (then_step r f).0
then_step-keeps P (s, true) f p h = h s p
then_step-keeps P (s, false) f p h = p

module _ {S D : Type 0} ⦃d : Double D⦄ ⦃f : Format D⦄ ⦃t : Strtod D⦄ (m : Machine S D)
    (has_command : Bool) (o : ProgramOptions) (path : List ℕ) (topo : CpuTopology D)
    (laws : IsTracefs m.tracefs) where
  abbrev run : S → S × Bool
  run = trace_run m has_command o path topo

  abbrev at_store : S → S
  at_store s = (idlestat_trace_enable m.tracefs false s).0

  abbrev acquired : S → S × Bool
  acquired s =
      acquire m has_command o path topo (buffer_size m has_command o path topo) (at_store s)

  run-stored :
      (s : S) (saved : TraceOptions)
      → (idlestat_trace_enable m.tracefs false s).1 ≡ true
      → idlestat_store_trace_options m.tracefs (m.events (at_store s)) (at_store s) ≡ some saved
      → let w = idlestat_restore_trace_options m.tracefs saved (acquired s).0 in
        run s ≡ (w.0, (acquired s).1 && w.1)
  unfolding trace_run acquire_with
  run-stored s saved e h = rw (e, h) refl

  -- Where the files of the tracer are as documented, recording can be switched off and the options of the
  -- tracer can be stored, the run ends by restoring them, whichever of its later steps fails: if the writes
  -- of that succeed, every event that was enabled when they were stored is enabled after the run, and if one
  -- of them fails, the run fails.
  pub trace_run-restores :
      (s : S) (saved : TraceOptions)
      → (idlestat_trace_enable m.tracefs false s).1 ≡ true
      → idlestat_store_trace_options m.tracefs (m.events (at_store s)) (at_store s) ≡ some saved
      → (mid : S) × ((run s).0 ≡ (idlestat_restore_trace_options m.tracefs saved mid).0)
        × ((idlestat_restore_trace_options m.tracefs saved mid).1 ≡ true
            → All (WasOn m.tracefs laws (IsOn m.tracefs laws (run s).0)) (m.events (at_store s)))
        × ((idlestat_restore_trace_options m.tracefs saved mid).1 ≡ false → (run s).1 ≡ false)
  unfolding trace_run acquire_with
  trace_run-restores s saved e h =
      let w = run-stored s saved e h in
      (
        (acquired s).0,
        ap (λ z. z.0) w,
        (λ ok. rw w (
            restore-store m.tracefs laws (m.events (at_store s)) (at_store s) (acquired s).0 saved h
              ok)),
        (λ ko. ap (λ z. z.1) w ∙ ground (arith, ko)),
      )
