-- ===== src/Main/Stopped.antt =====
-- Whether the kernel still records events after a trace run (main of idlestat.c): the file `tracing_on`.
use idlestat.Base.{
  if◌then◌else◌, ℕ, zero, suc, ◌≡◌, refl, Bool, true, false, Option, none, some, List, [], ◌∷◌,
  arith, ap, ◌∙◌, sym, eq_bytes, eq_bytes-eq, All, Bool-cases, inl, inr,
}
use idlestat.Base.Int.{ℤ, pos, negsuc}
use idlestat.Base.Double.{Double}
use idlestat.Base.Print.{Format}
use idlestat.Base.Scan.{Strtod}
use idlestat.Topology.{CpuTopology}
use idlestat.Options.{ProgramOptions}
use idlestat.TraceSetup.{
  TraceOptions, tracing_on_path, buffer_size_path, is_enable, name_of, has_slash, write_int,
  restore_events, idlestat_trace_enable, idlestat_restore_trace_options, idlestat_init_trace,
  idlestat_flush_trace,
}
use idlestat.TraceSetup.Restore.{IsEnable, stored-IsEnable}
use idlestat.Main.{
  Machine, Waits, exited, signaled, wait_error, then_step, trace_run, acquire_with, acquire,
  wake_from, idlestat_wake_all, wake_others, run_child, write_trace, wait_for, execute, store_trace,
  finish, record_events, ended_at, started_at, end_ts, start_ts, last_wake, run_command, first_wake,
  store_options, get_trace_ts, flushed,
}
use idlestat.Main.Ends.{then_step-first, then_step-after, then_step-keeps}

-- What is documented of the switch: it reads as it was written last, and nothing else changes it.
pub record HasSwitch {S D : Type 0} (m : Machine S D) : Type 0 where
  pub written :
      (v : ℤ) (s : S) → m.tracefs.read tracing_on_path (m.tracefs.put tracing_on_path v s) ≡ some v
  pub apart :
      (p : List ℕ) (v : ℤ) (s : S)
      → eq_bytes p tracing_on_path ≡ false
      → m.tracefs.read tracing_on_path (m.tracefs.put p v s) ≡ m.tracefs.read tracing_on_path s
  pub woken :
      (i : ℕ) (s : S)
      → m.tracefs.read tracing_on_path (m.run_on i s) ≡ m.tracefs.read tracing_on_path s
  pub slept :
      (n : ℕ) (s : S)
      → m.tracefs.read tracing_on_path (m.sleep n s).0 ≡ m.tracefs.read tracing_on_path s
  pub forked :
      (s : S) → m.tracefs.read tracing_on_path (m.fork s).0 ≡ m.tracefs.read tracing_on_path s
  pub killed :
      (s : S) → m.tracefs.read tracing_on_path (m.kill s) ≡ m.tracefs.read tracing_on_path s
  pub stored :
      (path : List ℕ) (lines : List (List ℕ)) (s : S)
      → m.tracefs.read tracing_on_path (m.write_file path lines s).0
        ≡ m.tracefs.read tracing_on_path s

module _ {S D : Type 0} (m : Machine S D) (h : HasSwitch m) where
  abbrev pub Switch : ℤ → S → Type 0
  Switch v s = m.tracefs.read tracing_on_path s ≡ some v

  pub enable-Switch :
      (b : Bool) (s : S)
      → (idlestat_trace_enable m.tracefs b s).1 ≡ true
      → Switch (if b then pos 1 else pos 0) (idlestat_trace_enable m.tracefs b s).0
  unfolding idlestat_trace_enable write_int
  enable-Switch b s e = ground (arith, h.written (if b then pos 1 else pos 0) s)

  write-Switch :
      (v : ℤ) (p : List ℕ) (w : ℤ) (s : S)
      → eq_bytes p tracing_on_path ≡ false
      → Switch v s
      → Switch v (write_int m.tracefs p w s).0
  unfolding write_int
  write-Switch v p w s e k = ground (arith, h.apart p w s e, k)

  wake_from-Switch : (v : ℤ) (i rcpu n : ℕ) (s : S) → Switch v s → Switch v (wake_from m i rcpu n s)
  unfolding wake_from
  wake_from-Switch v i rcpu zero s k = k
  wake_from-Switch v i rcpu (suc n) s k =
      wake_from-Switch v (suc i) rcpu n _ (ground (arith, h.woken i s, k))

  wake_others-Switch : (v n rcpu : ℤ) (s : S) → Switch v s → Switch v (wake_others m n rcpu s).0
  wake_others-Switch v (pos n) (pos rcpu) s k = wake_from-Switch v 0 rcpu n s k
  wake_others-Switch v (pos n) (negsuc j) s k = k
  wake_others-Switch v (negsuc n) rcpu s k = k

  pub wake_all-Switch : (v : ℤ) (s : S) → Switch v s → Switch v (idlestat_wake_all m s).0
  unfolding idlestat_wake_all
  wake_all-Switch v s k = wake_others-Switch v m.nr_configured m.this_cpu s k

  wait_for-Switch : (v : ℤ) (w : Waits) (s : S) → Switch v s → Switch v (wait_for m w s).0
  unfolding wait_for
  wait_for-Switch v exited s k = k
  wait_for-Switch v (signaled n) s k = k
  wait_for-Switch v (wait_error alarm w) s k = wait_for-Switch v w _ (ground (arith, h.killed s, k))

  run_child-Switch : (v : ℤ) (r : S × Option Waits) → Switch v r.0 → Switch v (run_child m r).0
  run_child-Switch v (s, none) k = k
  run_child-Switch v (s, some w) k = wait_for-Switch v w s k

  pub execute-Switch :
      (v : ℤ) (has_command : Bool) (o : ProgramOptions) (s : S)
      → Switch v s
      → Switch v (execute m has_command o s).0
  unfolding execute
  execute-Switch v true o s k = run_child-Switch v (m.fork s) (h.forked s ∙ k)
  execute-Switch v false o s k = h.slept _ s ∙ k

-- Only files other than the switch are written by it.
enable-apart : (p : List ℕ) → is_enable p ≡ true → eq_bytes p tracing_on_path ≡ false
unfolding is_enable name_of has_slash eq_bytes
enable-apart p e = elim (Bool-cases (eq_bytes p tracing_on_path)) [
  | inl k ↦ absurd (ground (arith, sym e ∙ ap is_enable (eq_bytes-eq p tracing_on_path k)))
  | inr k ↦ k
]

module _ {S D : Type 0} (m : Machine S D) (h : HasSwitch m) where
  restore_events-Switch :
      (v : ℤ) (ps : List (List ℕ)) (s : S) (ok : Bool)
      → All IsEnable ps
      → Switch m h v s
      → Switch m h v (restore_events m.tracefs ps s ok).0
  unfolding restore_events
  restore_events-Switch v [] s ok a k = k
  restore_events-Switch v (p ∷ ps) s ok a k =
      restore_events-Switch v ps _ _ a.1 (write-Switch m h v p (pos 1) s (enable-apart p a.0) k)

  pub restore-Switch :
      (v : ℤ) (saved : TraceOptions) (s : S)
      → All IsEnable saved.enabled
      → Switch m h v s
      → Switch m h v (idlestat_restore_trace_options m.tracefs saved s).0
  unfolding idlestat_restore_trace_options eq_bytes
  restore-Switch v saved s a k =
      restore_events-Switch v saved.enabled _ _ a
        (write-Switch m h v buffer_size_path saved.buffer_size s refl k)

module _ {S D : Type 0} ⦃d : Double D⦄ ⦃f : Format D⦄ ⦃t : Strtod D⦄ (m : Machine S D)
    (h : HasSwitch m) (has_command : Bool) (o : ProgramOptions) (path : List ℕ)
    (topo : CpuTopology D) where
  write_trace-Switch :
      (v : ℤ) (initp : Option (List ℕ)) (start end : D) (n : ℤ) (trace : Option (List (List ℕ)))
      (s : S)
      → Switch m h v s
      → Switch m h v (write_trace m path initp topo start end n trace s).0
  write_trace-Switch v initp start end (negsuc n) trace s k = k
  write_trace-Switch v initp start end (pos n) none s k = h.stored path _ s ∙ k
  write_trace-Switch v initp start end (pos n) (some lines) s k = h.stored path _ s ∙ k

  ended_at-Switch :
      (v : ℤ) (initp : Option (List ℕ)) (start : D) (end : Option D) (s : S)
      → Switch m h v s
      → Switch m h v (ended_at m has_command o path topo initp start end s).0
  unfolding store_trace
  ended_at-Switch v initp start none s k = k
  ended_at-Switch v initp start (some end) s k =
      write_trace-Switch v initp start end m.nr_configured (m.trace_lines s) s k

  abbrev OffAfter : (S → S × Bool) → Type 0
  OffAfter step = (s : S) → (step s).1 ≡ true → Switch m h (pos 0) (step s).0

  after-Off :
      (step : S → S × Bool) (f : S → S × Bool) → OffAfter f → OffAfter (λ s. then_step (step s) f)
  after-Off step f k s = then_step-after (Switch m h (pos 0)) (step s) f k

  -- Once recording is stopped it stays so.
  finish-Off :
      (initp : Option (List ℕ)) (start : D)
      → OffAfter (finish m has_command o path topo initp start)
  unfolding finish
  finish-Off initp start s e =
      let r = idlestat_trace_enable m.tracefs false s in
      let f = end_ts m has_command o path topo initp start in
      then_step-keeps (Switch m h (pos 0)) r f (enable-Switch m h false s (then_step-first r f e))
        (λ s k. ended_at-Switch (pos 0) initp start (get_trace_ts (m.stat_lines s)) s k)

  record_events-Off :
      (initp : Option (List ℕ)) (start : D)
      → OffAfter (record_events m has_command o path topo initp start)
  unfolding record_events first_wake run_command last_wake
  record_events-Off initp start =
      after-Off (idlestat_trace_enable m.tracefs true)
        (first_wake m has_command o path topo initp start)
        (after-Off (idlestat_wake_all m) (run_command m has_command o path topo initp start) (
          after-Off (execute m has_command o) (last_wake m has_command o path topo initp start) (
            after-Off (idlestat_wake_all m) (finish m has_command o path topo initp start)
              (finish-Off initp start))))

  started_at-Off : (start : Option D) → OffAfter (started_at m has_command o path topo start)
  started_at-Off none s e = absurd (ground arith)
  started_at-Off (some start) s e = record_events-Off _ start s e

  acquire-Off : (size : ℕ) → OffAfter (acquire m has_command o path topo size)
  unfolding acquire flushed
  acquire-Off size =
      after-Off (idlestat_init_trace m.tracefs size) (flushed m has_command o path topo) (
        after-Off (idlestat_flush_trace m.tracefs) (start_ts m has_command o path topo)
          (λ s. started_at-Off (get_trace_ts (m.stat_lines s)) s))

  acquire_with-Off :
      (saved : Option TraceOptions)
      → ((x : TraceOptions) → saved ≡ some x → All IsEnable x.enabled)
      → OffAfter (acquire_with m has_command o path topo saved)
  unfolding acquire_with
  acquire_with-Off none k s e = absurd (ground arith)
  acquire_with-Off (some saved) k s e =
      restore-Switch m h (pos 0) saved _ (k saved refl) (acquire-Off _ s (ground (arith, e)))

  -- Where nothing but a write to it changes the switch `tracing_on`: after a trace run that succeeds the
  -- kernel records no events.
  pub trace_run-stopped :
      (s : S)
      → (trace_run m has_command o path topo s).1 ≡ true
      → Switch m h (pos 0) (trace_run m has_command o path topo s).0
  unfolding trace_run
  trace_run-stopped s =
      after-Off (idlestat_trace_enable m.tracefs false) (store_options m has_command o path topo)
        (λ s. acquire_with-Off _ (λ x e. (stored-IsEnable m.tracefs (m.events s) s x e).1) s) s
