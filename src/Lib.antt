-- ===== src/Lib.antt =====
-- A model of idlestat, which records how long the CPUs of a machine spend in each idle state
-- (C-state) and at each frequency (P-state), and what wakes them up. A trace is a sequence of events;
-- each one changes the statistics of its CPU, and then those of the core and of the cluster that the
-- CPU is in.
--
-- The parts, and the files that model them:
--   * Base and the files under it: tests on numbers, lists indexed by numbers, C's `int`, C strings
--     as lists of bytes, and `double` as an interface: every theorem holds of any arithmetic with
--     its operations. Scan: sscanf and its formats. Decimal: the numbers that printf writes and
--     sscanf reads. Ptr: a pointer or an error (utils.c: ptrerror, is_err), and fgets. Print: padding.
--   * Summary: count, least, greatest, running average and total of a list of samples, the
--     reference for the statistics of a state.
--   * Pstates: the table of P-states (idlestat.c: alloc_pstate, open_current_pstate,
--     open_next_pstate, close_current_pstate, record_group_freq, merge_pstates). Table, Alloc:
--     alloc_pstate. Merge: merge_pstates. Group, Total: record_group_freq. Stats and the files
--     under it: record_group_freq against a machine that logs stays.
--   * Cstates: the C-states (idlestat.c: cstate_begin, cstate_end, record_cstate_event,
--     build_cstate_info). Valid, Safety: the accesses to the arrays. Stays, Account: the counters
--     against the recorded stays.
--   * Wakeup: the interrupts that end a C-state (idlestat.c: find_irqinfo, store_irq). Entries,
--     Counts: what is counted for an interrupt.
--   * Topology: clusters, cores and CPUs (topology.c). Ids: the ordered lists. Build, Members,
--     Online, Order: add_topo_info. Lookup, Groups, Least: the searches, and what a group takes
--     from its CPUs. Setup, Mapped: setup_topo_states. Shape: changes to the statistics. Baseline
--     and Same under it: assign_baseline_in_topo. Dump: the walks that report and print. Read and
--     the files under it: the topology in a trace file (read_cpu_topo_info, outfile_topo_info).
--   * Datas: the data of a trace and the events (idlestat.c: cpu_change_pstate,
--     check_pstate_composite, cpu_pstate_idle, cpu_pstate_running, store_data). Put, Affected,
--     Store: the core and the cluster of a CPU after an event.
--   * Options: the command line (idlestat.c: bad_filename, getoptions).
--   * Energy: the energy of a trace (energy_model.c: calculate_energy_consumption). Terms, Total:
--     the sums as lists of terms. Parse, with Current, Lines and Filled: parse_energy_model.
--     Printed: what is printed. Template: make_energy_model_template.
--   * TraceFile: the lines of a trace file (idlestat.c: get_wakeup_irq; tracefile_idlestat.c:
--     load_text_data_line). States and Written: the C-states in a file. Load: the three loaders
--     (tracefile_*.c) and idlestat_load. Stored, Loaded: idlestat_store, and the loader on what it
--     wrote. Choice, Chosen: which loader takes a file. Taken, Events: which lines are events.
--   * Reports: the operations of a report and the walk that calls them (reports.c, topology.c:
--     display_cpu_header and the functions around it). Factored: numbers with units (utils.c).
--     Default, Csv, Comparison: the reports. Lines, Compared, Width: what they print.
--     Complete, Known: which operations a report that is found has (get_report_ops).
--   * TraceSetup: the kernel's tracer (trace.c). Buffer: the size of a buffer. Restore: which
--     events are enabled.
--   * Main: the trace run of main, with execute, idlestat_wake_all and get_trace_ts (idlestat.c). Program,
--     Show, Entry: main before and after it. Ends, Stopped, LeftOn: what the run leaves of the tracer's
--     settings, by each way it can end. Reported, Left: the same of main.
--   * Examples and the files under it: the theorems at concrete inputs.
--
-- How the code is read: a struct is a record, an array with its length a list, a pointer into an array
-- an index, a null pointer `none`. An access outside an array, a null pointer that is followed and a
-- failed assertion are faults, `none` of the function's result. An allocation succeeds, but one of a
-- negative size (from 2 ^ 31 CPUs on in a trace file) fails. An `int` is an
-- integer without a bound, except where the source's arithmetic can wrap around (the buffer size, the
-- conversions of options), which is written out. Every loop is structural recursion on a list, on a
-- count or, for a command, on the waits until it ends, so there is no fuel.
--
-- A file is the list of what fgets returns one after the other, so a line longer than its buffer of 256
-- bytes is two of them; what printf writes is a list of bytes. The name of a cluster is one `char`, which
-- is signed there. Examples use whole microseconds for `double`.
--
-- Parameters: the `double` arithmetic, strtod and how a double is printed, the contents of sysfs that
-- build_cstate_info reads and the topology and the C-states of the machine that a tracecmd or an ftrace
-- file is loaded on, what getopt_long returns, what realloc leaves in the table of the energy model,
-- whether `char` is signed in a file name, the kernel's tracer files, and for main what the machine does:
-- the files it has, how a command ends, whether dup2 succeeds, what sysconf, sched_getcpu and
-- getuid return. Main's state holds the files that are written, the report's among them; what goes to the
-- terminal is not part of it.
--
-- Not modelled: what is only input and output or the operating system's: the scans of sysfs, the
-- terminal, the handler of the alarm, and memory that is released. list.h is a copy of the Linux kernel's.
pub mod Base
pub mod Summary
pub mod Pstates
pub mod Cstates
pub mod Wakeup
pub mod Topology
pub mod Datas
pub mod Energy
pub mod Options
pub mod TraceSetup
pub mod TraceFile
pub mod Reports
pub mod Main
pub mod Examples
