-- ===== src/Examples/Commands.antt =====
-- A command line, and the tracer's files as a list of what was written to them.
use idlestat.Base.{
  ℕ, ◌+◌, ◌*◌, refl, true, false, Option, none, some, List, [], ◌∷◌, if◌then◌else◌, arith, ◌≤◌, ◌<◌,
  bytes, eq_bytes, All, eq_bytes_refl,
}
use idlestat.Base.Int.{ℤ, pos}
use idlestat.Base.Double.{whole_double}
use idlestat.Options.{
  trace_mode, ProgramOptions, Parsed, opt_mode, opt_f, opt_t, opt_C, opt_w, initial_options,
  set_report, set_option, set_options, is_bad_char, has_bad_char, bad_filename, check_with,
  check_options, getoptions,
}
use idlestat.Options.Accepted.{IsAccepted, getoptions_lem}
use idlestat.TraceSetup.{
  is_enable, name_of, has_slash, Tracefs, TraceBufferSettings, FtsEntry, fts_file, TraceOptions,
  events_scan, write_int, read_int, restore_events, idlestat_restore_trace_options,
  idlestat_store_trace_options, write_all, idlestat_init_trace, interval_of,
  calculate_buffer_parameters, cpuidle_event_path, cpufreq_event_path, irq_event_path,
}
use idlestat.TraceSetup.Buffer.{
  bytes_per_sec, calculate_buffer_parameters_lem, calculate_buffer_parameters_wraps,
}
use idlestat.TraceSetup.Restore.{IsTracefs, WasOn, IsOn, restore-store, idlestat_init_trace_lem}

abbrev pub csv_trace : List Parsed
csv_trace = opt_mode trace_mode ∷ opt_f (bytes "/tmp/t") ∷ opt_t (pos 10) ∷ opt_C ∷ opt_w ∷ []

abbrev pub csv_options : ProgramOptions
csv_options = record {
  mode = some trace_mode;
  display = record { idle = false; frequency = false; wakeup = true };
  duration = pos 10;
  percpu_buffer_size = 0;
  poll_interval = 0;
  filename = some (bytes "/tmp/t");
  baseline_filename = none;
  outfilename = none;
  verbose = 0;
  energy_model_filename = none;
  report_type_name = some (bytes "csv");
}

getoptions_lem_example : IsAccepted true csv_trace csv_options
unfolding getoptions set_options set_option set_report initial_options check_options check_with
    bad_filename has_bad_char is_bad_char
getoptions_lem_example = getoptions_lem true csv_trace csv_options refl

-- A file that was never written reads as 0.
abbrev pub read_written : List ℕ → List (List ℕ × ℤ) → Option ℤ
read_written p [] = some (pos 0)
read_written p ((q, v) ∷ l) = if eq_bytes q p then some v else read_written p l

abbrev pub written_files : Tracefs (List (List ℕ × ℤ))
written_files = record { can_write = λ p s. true; put = λ p v s. (p, v) ∷ s; read = read_written }

pub written_files-IsTracefs : IsTracefs written_files
written_files-IsTracefs = record {
  on = λ p s k. ground (arith, eq_bytes_refl p);
  keeps = λ p q s k l h. ground (arith, h);
}

abbrev pub irq_on : List FtsEntry
irq_on = fts_file irq_event_path (some 49) ∷ fts_file cpuidle_event_path (some 48) ∷ []

abbrev pub stored : TraceOptions
stored = record { buffer_size = pos 0; enabled = irq_event_path ∷ [] }

restore-store_example :
    All
      (WasOn written_files written_files-IsTracefs (
        IsOn written_files written_files-IsTracefs
          (idlestat_restore_trace_options written_files stored []).0))
      irq_on
unfolding idlestat_store_trace_options idlestat_restore_trace_options restore_events events_scan
    write_int read_int is_enable name_of has_slash eq_bytes
restore-store_example =
    restore-store written_files written_files-IsTracefs irq_on [] [] stored refl refl

idlestat_init_trace_lem_example :
    let t = (idlestat_init_trace written_files 1024 []).0 in
    IsOn written_files written_files-IsTracefs t cpuidle_event_path
    × IsOn written_files written_files-IsTracefs t cpufreq_event_path
    × IsOn written_files written_files-IsTracefs t irq_event_path
unfolding idlestat_init_trace write_all write_int read_int eq_bytes
idlestat_init_trace_lem_example =
    idlestat_init_trace_lem written_files written_files-IsTracefs 1024 [] refl

abbrev left_open : TraceBufferSettings
left_open = record { percpu_buffer_size = 0; poll_interval = 0 }

calculate_buffer_parameters_lem_example :
    let size = (calculate_buffer_parameters 10 left_open).percpu_buffer_size in
    (bytes_per_sec * interval_of 10 left_open < size * 1024)
    × (size * 1024 ≤ bytes_per_sec * interval_of 10 left_open + 1024)
calculate_buffer_parameters_lem_example =
    calculate_buffer_parameters_lem 10 left_open refl (omega arith)

calculate_buffer_parameters_wraps_example :
    (calculate_buffer_parameters 1091 left_open).percpu_buffer_size * 1024
    < bytes_per_sec * interval_of 1091 left_open
calculate_buffer_parameters_wraps_example =
    calculate_buffer_parameters_wraps 1091 left_open refl (omega arith)
