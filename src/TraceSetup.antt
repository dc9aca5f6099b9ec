-- ===== src/TraceSetup.antt =====
-- The set-up of the kernel's tracer (trace.c; `write_int`, `read_int` of utils.c). The files under
-- /sys/kernel/debug/tracing are the kernel's: what a write does to them and what a read gives are
-- the parameter `Tracefs`. As in the source, a write fails only where the file cannot be opened.
use idlestat.Base.{
  ◌||◌, ℕ, suc, ◌+◌, ◌*◌, ◌/◌, ◌%◌, ◌^◌, ◌≡◌, Bool, true, false, Option, none, some, List, [], ◌∷◌,
  ◌++◌, if◌then◌else◌, ◌==◌, ◌&&◌, bytes, eq_bytes, ◌>>=◌, not,
}
use idlestat.Base.Int.{ℤ, pos, negsuc, to_int}
use idlestat.Options.{to_uint}
pub mod Buffer
pub mod Restore

pub record Tracefs (S : Type 0) : Type 0 where
  pub can_write : List ℕ → S → Bool
  pub put : List ℕ → ℤ → S → S
  pub read : List ℕ → S → Option ℤ

pub record TraceBufferSettings : Type 0 where
  pub percpu_buffer_size : ℕ
  pub poll_interval : ℕ

-- The paths, below the directory of the tracer.
abbrev pub buffer_size_path : List ℕ
buffer_size_path = bytes "/buffer_size_kb"

abbrev pub buffer_total_path : List ℕ
buffer_total_path = bytes "/buffer_total_size_kb"

abbrev pub event_path : List ℕ
event_path = bytes "/events/enable"

abbrev pub cpuidle_event_path : List ℕ
cpuidle_event_path = bytes "/events/power/cpu_idle/enable"

abbrev pub cpufreq_event_path : List ℕ
cpufreq_event_path = bytes "/events/power/cpu_frequency/enable"

abbrev pub irq_event_path : List ℕ
irq_event_path = bytes "/events/irq/irq_handler_entry/enable"

abbrev pub ipi_event_path : List ℕ
ipi_event_path = bytes "/events/ipi/ipi_entry/enable"

abbrev pub tracing_on_path : List ℕ
tracing_on_path = bytes "/tracing_on"

abbrev pub trace_file : List ℕ
trace_file = bytes "/trace"

abbrev pub wrap : ℕ → ℕ
wrap n = n % 2 ^ 32

-- The default size of a buffer in kB, in 32-bit arithmetic.
unfoldable pub default_bufsize : ℕ → ℕ
default_bufsize poll_interval =
    let lines = wrap (wrap (2 * 196 * 10000) + 196 * 100) in
    wrap (wrap (lines * poll_interval) / 1024 + 1)

-- The interval that `calculate_buffer_parameters` sets.
abbrev pub interval_of : ℕ → TraceBufferSettings → ℕ
interval_of duration tbs = if tbs.poll_interval == 0 then duration else tbs.poll_interval

unfoldable pub calculate_buffer_parameters : ℕ → TraceBufferSettings → TraceBufferSettings
unfolding default_bufsize
calculate_buffer_parameters duration tbs = record {
  percpu_buffer_size =
      if tbs.percpu_buffer_size == 0
      then default_bufsize (interval_of duration tbs)
      else tbs.percpu_buffer_size;
  poll_interval = interval_of duration tbs;
}

-- The last part of a path, which is `fts_name`. 47 is the slash.
unfoldable pub has_slash : List ℕ → Bool
has_slash [] = false
has_slash (c ∷ cs) = c == 47 || has_slash cs

unfoldable pub name_of : List ℕ → List ℕ
unfolding has_slash
name_of [] = []
name_of (c ∷ cs) =
    let rest = name_of cs in if has_slash cs then rest else if c == 47 then cs else c ∷ cs

unfoldable pub is_enable : List ℕ → Bool
unfolding name_of
is_enable path = eq_bytes (name_of path) (bytes "enable")

-- A file that `fts_read` finds below the events: an error, or its path and the character that
-- `read_char` reads from it, if it can.
pub data FtsEntry : Type 0 where
  fts_err : FtsEntry
  fts_file : List ℕ → Option ℕ → FtsEntry

pub record TraceOptions : Type 0 where
  pub buffer_size : ℤ
  pub enabled : List (List ℕ)

-- `list_add` puts a path at the head. 49 is the character 1.
unfoldable pub events_scan : List FtsEntry → List (List ℕ) → Option (List (List ℕ))
events_scan [] head = some head
events_scan (fts_err ∷ es) head = none
events_scan (fts_file path value ∷ es) head =
    if is_enable path
    then (value >>= λ v. events_scan es (if v == 49 then path ∷ head else head))
    else events_scan es head

module _ {S : Type 0} (fs : Tracefs S) where
  unfoldable pub write_int : List ℕ → ℤ → S → S × Bool
  write_int path val s = if fs.can_write path s then (fs.put path val s, true) else (s, false)

  unfoldable pub read_int : List ℕ → S → Option ℤ
  read_int path s = fs.read path s

  unfoldable pub idlestat_trace_enable : Bool → S → S × Bool
  idlestat_trace_enable enable s = write_int tracing_on_path (if enable then pos 1 else pos 0) s

  unfoldable pub idlestat_flush_trace : S → S × Bool
  idlestat_flush_trace s = write_int trace_file (pos 0) s

  -- The writes go on after one that fails.
  unfoldable pub restore_events : List (List ℕ) → S → Bool → S × Bool
  restore_events [] s ok = (s, ok)
  restore_events (p ∷ ps) s ok =
      let (t, written) = write_int p (pos 1) s in restore_events ps t (ok && written)

  unfoldable pub idlestat_restore_trace_options : TraceOptions → S → S × Bool
  unfolding restore_events
  idlestat_restore_trace_options options s =
      let (t, written) = write_int buffer_size_path options.buffer_size s in
      restore_events options.enabled t written

  unfoldable pub idlestat_store_trace_options : List FtsEntry → S → Option TraceOptions
  unfolding read_int
  idlestat_store_trace_options entries s = read_int buffer_size_path s >>= λ size.
      events_scan entries [] >>= λ paths. some (record { buffer_size = size; enabled = paths })

  -- One write after another, up to the first that fails.
  unfoldable pub write_all : List (List ℕ × ℤ) → S → S × Bool
  write_all [] s = (s, true)
  write_all ((path, val) ∷ l) s =
      let (t, written) = write_int path val s in
      let (u, all) = write_all l t in if written then (u, all) else (t, false)

  abbrev pub init_events : List (List ℕ × ℤ)
  init_events =
      (event_path, pos 0)
      ∷ (cpuidle_event_path, pos 1)
      ∷ (cpufreq_event_path, pos 1)
      ∷ (irq_event_path, pos 1)
      ∷ []

  abbrev pub init_traces : S → S × Bool
  init_traces s =
      let (u, all) = write_all init_events s in
      if all then ((write_int ipi_event_path (pos 1) u).0, true) else (u, false)

  unfoldable pub idlestat_init_trace : ℕ → S → S × Bool
  idlestat_init_trace percpu_bufsize s =
      let (t, sized) = write_int buffer_size_path (to_int percpu_bufsize) s in
      if sized
      then elim (read_int buffer_total_path t) [ none ↦ (t, false) | some _ ↦ init_traces t ]
      else (t, false)
