-- ===== src/Examples/Runs.antt =====
-- A trace run of ten seconds on a machine with one CPU whose tracer is a list of written files, and a run
-- whose command is killed.
use idlestat.Base.{
  ◌⊎◌, ℕ, ◌≡◌, refl, Bool, true, false, Option, none, some, List, [], ◌∷◌, bytes, arith, eq_bytes,
  strstr, starts_with, All, length, ◌++◌,
}
use idlestat.Base.Int.{ℤ, pos}
use idlestat.Base.Double.{whole_double}
use idlestat.Base.Ptr.{ptr}
use idlestat.Topology.{CpuTopology}
use idlestat.Topology.Build.{add_cpu, alloc_cpu_topo_info}
use idlestat.Options.{
  opt_mode, opt_f, opt_o, opt_C, opt_w, Parsed, ProgramOptions, import_mode, set_options,
  set_option, set_report, initial_options, check_options, check_with, bad_filename, has_bad_char,
  is_bad_char, to_uint, trace_mode, getoptions,
}
use idlestat.TraceSetup.Restore.{WasOn, IsOn}
use idlestat.TraceSetup.{
  idlestat_store_trace_options, idlestat_restore_trace_options, restore_events, events_scan,
  write_int, read_int, is_enable, name_of, has_slash, idlestat_trace_enable, idlestat_flush_trace,
  idlestat_init_trace, write_all, calculate_buffer_parameters, tracing_on_path,
}
use idlestat.Reports.Csv.{csv_report_ops, csv_cpu_header, csv_line, csv_wakeup_single_irq}
use idlestat.Datas.{CpuidleDatas}
use idlestat.Cstates.{idle_cstates}
use idlestat.Topology.{new_physical}
use idlestat.Topology.Baseline.{assign_baseline_in_topo}
use idlestat.Topology.Dump.{dump_cpu_topo_info, dump_clusters, dump_cores}
use idlestat.TraceFile.Load.{idlestat_load, check_magic}
use idlestat.Base.Scan.Decimal.{print_uint, print_int}
use idlestat.Base.Scan.{
  sscanf, scan_from, skip_blanks, convert, span_until, scan_number, split_sign, span_digits,
}
use idlestat.Main.{
  acquire_with, acquire, flushed, record_events, first_wake, run_command, last_wake, finish,
  store_trace, execute, wait_for, idlestat_wake_all, wake_from, get_trace_ts, find_ts, ts_format,
  Machine, Waits, exited, signaled, trace_run,
}
use idlestat.Main.Program.{
  run_report, report_trace, print_report, load_baseline, redirect_stdout_to_file, Host, Ending,
  reported,
}
use idlestat.Main.Entry.{main, main_options, main_with, read_model}
use idlestat.Energy.Printed.{energy_text}
use idlestat.Main.Show.{show_report, show_table, dump_places, cstate_picks, place_name}
use idlestat.Reports.{
  get_report_ops, find_ops, is_complete, display_wakeup, show_entries, entry_text, is_nothing,
  and_then,
}
use idlestat.Energy.Parse.{uninitialized}
use idlestat.Main.Stopped.{HasSwitch, Switch, trace_run-stopped}
use idlestat.Main.Ends.{trace_run-restores}
use idlestat.Main.LeftOn.{trace_run-left_on}
use idlestat.Main.Reported.{report_left}
use idlestat.Main.Left.{main_lem}
use idlestat.Examples.Whole.{whole_strtod, whole_format}
use idlestat.Examples.Commands.{
  written_files, written_files-IsTracefs, irq_on, stored, csv_trace, csv_options,
}

abbrev Written : Type 0
Written = List (List ℕ × ℤ)

abbrev one_cpu : CpuTopology ℤ
one_cpu = add_cpu alloc_cpu_topo_info 0 0 0

-- The command waits for nothing and ends as it is told. A file that is written is noted with the number
-- of its lines, under a name that no tracer's file has.
abbrev machine : Waits → Machine Written ℤ
machine w = record {
  tracefs = written_files;
  events = λ s. irq_on;
  stat_lines = λ s. some (bytes "now ts: 5\n" ∷ []);
  trace_lines = λ s. some [];
  sysfs_topo = ptr one_cpu;
  nr_configured = pos 1;
  this_cpu = pos 0;
  may_run_on = λ i. true;
  run_on = λ i s. s;
  sleep = λ n s. (s, 0);
  fork = λ s. (s, some w);
  kill = λ s. s;
  cur_freq = λ s i. none;
  state_name = λ i j. none;
  state_residency = λ i j. pos 0;
  pid = 1;
  version = bytes "0.8";
  write_file = λ path lines s. ((0 ∷ path, pos (length lines)) ∷ s, true);
}

machine-HasSwitch : (w : Waits) → HasSwitch (machine w)
unfolding eq_bytes
machine-HasSwitch w = record {
  written = λ v s. refl;
  apart = λ p v s e. ground (arith, e);
  woken = λ i s. refl;
  slept = λ n s. refl;
  forked = λ s. refl;
  killed = λ s. refl;
  stored = λ path lines s. refl;
}

abbrev run : Bool → Waits → Written × Bool
run has_command w = trace_run (machine w) has_command csv_options (bytes "/tmp/t") one_cpu []

trace_run-stopped_example :
    Switch (machine exited) (machine-HasSwitch exited) (pos 0) (run false exited).0
unfolding trace_run acquire_with acquire flushed record_events first_wake run_command last_wake
    finish store_trace execute wait_for idlestat_wake_all wake_from get_trace_ts find_ts ts_format
    sscanf scan_from skip_blanks convert span_until scan_number split_sign span_digits
    idlestat_store_trace_options idlestat_restore_trace_options restore_events events_scan write_int
    read_int is_enable name_of has_slash eq_bytes idlestat_trace_enable idlestat_flush_trace
    idlestat_init_trace write_all to_uint calculate_buffer_parameters strstr starts_with
trace_run-stopped_example =
    trace_run-stopped (machine exited) (machine-HasSwitch exited) false csv_options (bytes "/tmp/t")
      one_cpu [] refl

abbrev stopped_once : Written
stopped_once = (tracing_on_path, pos 0) ∷ []

trace_run-restores_example :
    (mid : Written) × ((run false exited).0
      ≡ (idlestat_restore_trace_options written_files stored mid).0)
    × ((idlestat_restore_trace_options written_files stored mid).1 ≡ true
        → All
            (WasOn written_files written_files-IsTracefs
              (IsOn written_files written_files-IsTracefs (run false exited).0))
            irq_on)
    × ((idlestat_restore_trace_options written_files stored mid).1 ≡ false
        → (run false exited).1 ≡ false)
unfolding trace_run acquire_with acquire flushed record_events first_wake run_command last_wake
    finish store_trace execute wait_for idlestat_wake_all wake_from get_trace_ts find_ts ts_format
    sscanf scan_from skip_blanks convert span_until scan_number split_sign span_digits
    idlestat_store_trace_options idlestat_restore_trace_options restore_events events_scan write_int
    read_int is_enable name_of has_slash eq_bytes idlestat_trace_enable idlestat_flush_trace
    idlestat_init_trace write_all to_uint calculate_buffer_parameters strstr starts_with
trace_run-restores_example =
    trace_run-restores (machine exited) false csv_options (bytes "/tmp/t") one_cpu
      written_files-IsTracefs [] stored refl refl

trace_run-left_on_example :
    ((run true (signaled 9)).1 ≡ false)
    × Switch
        (machine (signaled 9))
        (machine-HasSwitch (signaled 9))
        (pos 1)
        (run true (signaled 9)).0
unfolding trace_run acquire_with acquire flushed record_events first_wake run_command last_wake
    finish store_trace execute wait_for idlestat_wake_all wake_from get_trace_ts find_ts ts_format
    sscanf scan_from skip_blanks convert span_until scan_number split_sign span_digits
    idlestat_store_trace_options idlestat_restore_trace_options restore_events events_scan write_int
    read_int is_enable name_of has_slash eq_bytes idlestat_trace_enable idlestat_flush_trace
    idlestat_init_trace write_all to_uint calculate_buffer_parameters strstr starts_with
trace_run-left_on_example =
    trace_run-left_on (machine (signaled 9)) (machine-HasSwitch (signaled 9)) true csv_options
      (bytes "/tmp/t") one_cpu [] stored (pos 5) refl refl refl refl refl refl refl refl

-- What is loaded: a cluster that an interrupt has woken three times.
abbrev woken_cluster : CpuidleDatas ℤ
woken_cluster = record {
  cstates = [];
  pstates = [];
  topo = record {
    physicals =
        record (new_physical 0) {
          cstates = some (record (idle_cstates []) {
            irqinfo =
                record {
                  id = pos 7;
                  name = bytes "timer";
                  count = 3;
                  early_triggers = 1;
                  late_triggers = 0;
                }
                ∷ [];
          });
        }
        ∷ [];
    online_cpus = [];
  };
  nrcpus = 0;
}

abbrev host : Host Written ℤ
host = record {
  machine = machine exited;
  is_root = true;
  read_file = λ path s. some ([] ∷ []);
  is_missing = λ path s. false;
  remove = λ path s. s;
  narrow_window = false;
  duplicates = λ s. true;
  fresh = record {
    info = record {
      p_energy = [];
      c_energy = [];
      cluster_wakeup_energy = 0;
      core_wakeup_energy = 0;
    };
    state = uninitialized;
  };
  formats = record { magic = []; load = λ file. some (ptr woken_cluster) } ∷ [];
  reports = csv_report_ops ℤ ∷ [];
}

abbrev state_of : Option (Written × Ending ℤ) → Written
state_of none = []
state_of (some r) = r.0

abbrev text_of : Option (Written × Ending ℤ) → List ℕ
text_of (some (s, reported text e)) = text
text_of _ = []

abbrev traced : Option (Written × Ending ℤ)
traced = main host true csv_trace false []

main_is_reported : traced ≡ some (state_of traced, reported (text_of traced) none)
unfolding trace_run acquire_with acquire flushed record_events first_wake run_command last_wake
    finish store_trace execute wait_for idlestat_wake_all wake_from get_trace_ts find_ts ts_format
    sscanf scan_from skip_blanks convert span_until scan_number split_sign span_digits
    idlestat_store_trace_options idlestat_restore_trace_options restore_events events_scan write_int
    read_int is_enable name_of has_slash eq_bytes idlestat_trace_enable idlestat_flush_trace
    idlestat_init_trace write_all to_uint calculate_buffer_parameters strstr starts_with main
    main_options main_with read_model run_report report_trace print_report show_report show_table
    dump_places load_baseline get_report_ops find_ops is_complete getoptions set_options set_option
    set_report initial_options check_options check_with bad_filename has_bad_char is_bad_char
    csv_report_ops csv_cpu_header csv_line csv_wakeup_single_irq display_wakeup show_entries
    entry_text is_nothing and_then print_uint print_int place_name assign_baseline_in_topo
    idlestat_load check_magic dump_cpu_topo_info dump_clusters dump_cores cstate_picks new_physical
main_is_reported = refl

text_is :
    text_of traced
    ≡ bytes
        "\nWakeup Table\ncluster,core,cpu,IRQ,Name,Count,early,late\nclusterA\n,,,7,timer,3,1,0\n\n\n"
unfolding trace_run acquire_with acquire flushed record_events first_wake run_command last_wake
    finish store_trace execute wait_for idlestat_wake_all wake_from get_trace_ts find_ts ts_format
    sscanf scan_from skip_blanks convert span_until scan_number split_sign span_digits
    idlestat_store_trace_options idlestat_restore_trace_options restore_events events_scan write_int
    read_int is_enable name_of has_slash eq_bytes idlestat_trace_enable idlestat_flush_trace
    idlestat_init_trace write_all to_uint calculate_buffer_parameters strstr starts_with main
    main_options main_with read_model run_report report_trace print_report show_report show_table
    dump_places load_baseline get_report_ops find_ops is_complete getoptions set_options set_option
    set_report initial_options check_options check_with bad_filename has_bad_char is_bad_char
    csv_report_ops csv_cpu_header csv_line csv_wakeup_single_irq display_wakeup show_entries
    entry_text is_nothing and_then print_uint print_int place_name assign_baseline_in_topo
    idlestat_load check_magic dump_cpu_topo_info dump_clusters dump_cores cstate_picks new_physical
text_is = refl

-- The same report of the trace that is imported, into a file.
abbrev csv_import : List Parsed
csv_import =
    opt_mode import_mode ∷ opt_f (bytes "/tmp/t") ∷ opt_o (bytes "/tmp/r") ∷ opt_C ∷ opt_w ∷ []

abbrev import_options : ProgramOptions
import_options = record csv_options {
  mode = some import_mode;
  duration = pos 0;
  outfilename = some (bytes "/tmp/r");
}

abbrev imported : Option (Written × Ending ℤ)
imported = main host true csv_import false []

-- The file is emptied and then written.
abbrev two_writes : Written
two_writes = (0 ∷ bytes "/tmp/r", pos 1) ∷ (0 ∷ bytes "/tmp/r", pos 0) ∷ []

main_imports : imported ≡ some (two_writes, reported (text_of traced) none)
unfolding redirect_stdout_to_file energy_text trace_run acquire_with acquire flushed record_events
    first_wake run_command last_wake finish store_trace execute wait_for idlestat_wake_all wake_from
    get_trace_ts find_ts ts_format sscanf scan_from skip_blanks convert span_until scan_number
    split_sign span_digits idlestat_store_trace_options idlestat_restore_trace_options
    restore_events events_scan write_int read_int is_enable name_of has_slash eq_bytes
    idlestat_trace_enable idlestat_flush_trace idlestat_init_trace write_all to_uint
    calculate_buffer_parameters strstr starts_with main main_options main_with read_model run_report
    report_trace print_report show_report show_table dump_places load_baseline get_report_ops
    find_ops is_complete getoptions set_options set_option set_report initial_options check_options
    check_with bad_filename has_bad_char is_bad_char csv_report_ops csv_cpu_header csv_line
    csv_wakeup_single_irq display_wakeup show_entries entry_text is_nothing and_then print_uint
    print_int place_name assign_baseline_in_topo idlestat_load check_magic dump_cpu_topo_info
    dump_clusters dump_cores cstate_picks new_physical
main_imports = refl

main_lem_example :
    ((import_options.mode ≡ some trace_mode) ⊎ (false ≡ true)
      → Switch (machine exited) (machine-HasSwitch exited) (pos 0) two_writes)
    × (import_options.mode ≡ some import_mode
        → false ≡ false
        → two_writes
          ≡ report_left host
              (some (bytes "/tmp/r"))
              (text_of traced ++ energy_text {D = ℤ} none)
              [])
unfolding getoptions set_options set_option set_report initial_options check_options check_with
    bad_filename has_bad_char is_bad_char
main_lem_example =
    main_lem host (machine-HasSwitch exited) true csv_import false [] two_writes import_options
      (text_of traced) none refl main_imports
