-- ===== src/Examples/Files.antt =====
-- Trace files of a machine with two cores: a topology as it is stored, a file with one event, and what is
-- taken from the head of a file.
use idlestat.Base.{
  ℕ, ◌+◌, ◌≡◌, refl, Bool, true, false, Option, none, some, List, [], ◌∷◌, ◌++◌, if◌then◌else◌,
  ◌==◌, bytes, arith, starts_with, inl, inr, length, eq_bytes, All, Bool-cases,
}
use idlestat.Base.Int.{ℤ, pos}
use idlestat.Base.Double.{whole_double}
use idlestat.Base.Ptr.{ptr, err_ptr}
use idlestat.Base.Scan.{
  sscanf, scan_from, skip_blanks, convert, span_until, scan_number, split_sign, span_digits,
  as_uint, input_failure,
}
use idlestat.Topology.{CpuTopology}
use idlestat.Topology.Build.{
  add_cpu, alloc_cpu_topo_info, add_cpu_to_physical, ensure_core, physical_has_cpu, add_cpu_to_core,
  core_has_cpu, cpu_is_online, online_at, set_online, grow_online, topo_has_cpu,
}
use idlestat.Topology.Order.{
  IsTopology, add_cpu-IsTopology, cpu_is_online-add, alloc_cpu_topo_info-IsTopology,
}
use idlestat.Topology.Read.{
  TopoInput, core_of_cpu, topo_line, inner_line, outer_line, core_line, cpu_line, cluster_line,
  complete, core_format, cpu_format, core_cpu_format, cluster_format, read_topo, start_input,
  outfile_topo_info,
}
use idlestat.Topology.Read.Written.{IsIntCluster, EndsTopology}
use idlestat.Topology.Read.Same.{IsSameTopology, IsListed, read-outfile}
use idlestat.TraceFile.Loaded.{
  cpuid_line-EndsTopology, native_load-store, load_events, stored_datas,
}
use idlestat.TraceFile.{trace_format, load_lines, Span}
use idlestat.TraceFile.Taken.{events_of}
use idlestat.TraceFile.Events.{load_lines_lem}
use idlestat.TraceFile.Chosen.{idlestat_load-store}
use idlestat.TraceFile.Choice.{differ, here, later, idlestat_load_magic, ftrace_load_last_comment}
use idlestat.Datas.{CpuidleDatas}
use idlestat.Examples.Traces.{two_running}
use idlestat.TraceFile.Load.{
  idlestat_native_load, Sysfs, TraceOps, ftrace_trace_ops, idlestat_trace_ops,
  tracecmd_report_trace_ops, idlestat_load, tracecmd_report_load, ftrace_load, load_from_sysfs,
  cpus_in, ftrace_cpus_format,
}
use idlestat.TraceFile.Stored.{idlestat_store, event_lines, store_lines}
use idlestat.TraceFile.States.Written.{IsStorable}
use idlestat.Topology.{new_cpu, new_core, new_physical}
use idlestat.Topology.Ids.{
  find_id, update_found, ensure, check_exist_from_head, insert_before_greater,
}
use idlestat.TraceFile.States.{cpuid_line}
use idlestat.Examples.Whole.{whole_strtod, whole_format}
use idlestat.Examples.Traces.{two_cores}

one_core-IsTopology : IsTopology {D = ℤ} (add_cpu alloc_cpu_topo_info 0 0 0)
one_core-IsTopology =
    add_cpu-IsTopology alloc_cpu_topo_info 0 0 0 (alloc_cpu_topo_info-IsTopology ℤ)

two_cores-IsTopology : IsTopology two_cores
two_cores-IsTopology =
    add_cpu-IsTopology (add_cpu alloc_cpu_topo_info 0 0 0) 0 1 1 one_core-IsTopology

two_cores-IsInt : All IsIntCluster two_cores.physicals
unfolding add_cpu add_cpu_to_physical ensure_core physical_has_cpu add_cpu_to_core core_has_cpu
    find_id update_found ensure check_exist_from_head insert_before_greater alloc_cpu_topo_info
    new_cpu new_core new_physical
two_cores-IsInt = omega arith

two_cores-IsListed : IsListed two_cores
unfolding add_cpu add_cpu_to_physical ensure_core physical_has_cpu add_cpu_to_core core_has_cpu
    find_id update_found ensure check_exist_from_head insert_before_greater alloc_cpu_topo_info
    new_cpu new_core new_physical cpu_is_online online_at set_online grow_online topo_has_cpu
two_cores-IsListed v = ground (
  arith,
  cpu_is_online-add (add_cpu {D = ℤ} alloc_cpu_topo_info 0 0 0) 0 1 1 v one_core-IsTopology,
  cpu_is_online-add {D = ℤ} alloc_cpu_topo_info 0 0 0 v (alloc_cpu_topo_info-IsTopology ℤ),
)

read-outfile_example :
    (e : CpuTopology ℤ) × (read_topo start_input (outfile_topo_info two_cores ++ cpuid_line 0 ∷ [])
      ≡ some (ptr (e, cpuid_line 0, [])))
    × IsSameTopology two_cores e
read-outfile_example =
    read-outfile two_cores (cpuid_line 0) [] two_cores-IsTopology two_cores-IsInt
      (cpuid_line-EndsTopology 0)

abbrev comment : List ℕ
comment = bytes "# tracer: nop\n"

abbrev event : List ℕ
event = bytes "  <idle>-0  [000] d..2  12.000000: cpu_idle: state=1 cpu_id=0\n"

event-inner :
    (s : TopoInput ℤ) (ht : Bool)
    → s.is_ht ≡ ht
    → inner_line s event ≡ outer_line (core_of_cpu s) event
unfolding inner_line core_line cpu_line sscanf scan_from skip_blanks convert core_format cpu_format
    core_cpu_format
event-inner s true e = rw e refl
event-inner s false e = rw e refl

event-outer : (s : TopoInput ℤ) → outer_line s event ≡ some complete
unfolding outer_line cluster_line sscanf scan_from skip_blanks convert cluster_format
event-outer s = refl

event-EndsTopology : EndsTopology ℤ event
unfolding topo_line
event-EndsTopology s =
    ground (arith, event-inner s s.is_ht refl, event-outer (core_of_cpu s), event-outer s)

abbrev state_names : ℕ → ℕ → Option (List ℕ)
state_names cpu j = if j == 0 then some (bytes "WFI") else none

storable : (cpu : ℕ) → IsStorable (state_names cpu) (λ j. pos 1)
unfolding eq_bytes
storable cpu j = elim (Bool-cases (j == 0)) [
  | inl e ↦
      rw e
        ((λ q. absurd (ground arith), (refl, (refl, (refl, tt))), omega arith, refl), omega arith)
  | inr e ↦ rw e (tt, omega arith)
]

native_load-store_example :
    (e : CpuTopology ℤ) × IsSameTopology two_cores e
    × (idlestat_native_load (
          some (
            idlestat_store
              (bytes "0.4")
              77
              2
              (pos 12)
              (pos 13)
              none
              two_cores
              state_names
              (λ cpu j. pos 1)
              (comment ∷ event ∷ [])))
        ≡ load_events event [] (stored_datas two_cores e state_names (λ cpu j. pos 1) 2))
unfolding event_lines store_lines
native_load-store_example =
    native_load-store (bytes "0.4") 77 2 (pos 12) (pos 13) none two_cores state_names
      (λ cpu j. pos 1) (comment ∷ event ∷ []) event [] refl event-EndsTopology two_cores-IsTopology
      two_cores-IsListed two_cores-IsInt storable (omega arith) (omega arith)

abbrev quiet : Span ℤ
quiet = record { begin = pos 0; end = pos 0; start = true }

load_lines_lem_example :
    (load_lines trace_format (comment ∷ event ∷ []) two_running quiet 0
      ≡ load_lines trace_format
          (events_of ℤ trace_format (comment ∷ event ∷ []))
          two_running
          quiet
          0)
    × ((r : CpuidleDatas ℤ × Span ℤ × ℕ)
        → load_lines trace_format (comment ∷ event ∷ []) two_running quiet 0 ≡ some r
        → r.2 ≡ 0 + length (events_of ℤ trace_format (comment ∷ event ∷ [])))
load_lines_lem_example = load_lines_lem trace_format (comment ∷ event ∷ []) two_running quiet 0

-- What the machine that reads an ftrace file has.
abbrev this_machine : Sysfs ℤ
this_machine = record {
  sysfs_topo = ptr two_cores;
  state_name = state_names;
  state_residency = λ cpu j. pos 1;
}

abbrev formats : List (TraceOps ℤ)
formats =
    ftrace_trace_ops this_machine
    ∷ idlestat_trace_ops this_machine
    ∷ tracecmd_report_trace_ops this_machine
    ∷ []

idlestat_load_magic_example :
    idlestat_load formats (some (bytes "version = 6\n" ∷ bytes "cpus=2\n" ∷ event ∷ []))
    ≡ tracecmd_report_load this_machine
        (some (bytes "version = 6\n" ∷ bytes "cpus=2\n" ∷ event ∷ []))
unfolding differ starts_with
idlestat_load_magic_example =
    idlestat_load_magic (tracecmd_report_trace_ops this_machine) formats (bytes "version = 6\n")
      (bytes "cpus=2\n" ∷ event ∷ []) (later (later here)) (inr refl, (inr refl, (inl refl, tt)))
      refl

-- The comments that the kernel writes: the number of CPUs is not in the last one.
abbrev entries_comment : List ℕ
entries_comment = bytes "# entries-in-buffer/entries-written: 9/9   #P:4\n"

abbrev last_comment : List ℕ
last_comment = bytes "#              | |       |   ||||       |         |\n"

ftrace_load_last_comment_example :
    (ftrace_load this_machine
        (some (comment ∷ ((entries_comment ∷ []) ++ last_comment ∷ event ∷ [])))
      ≡ load_from_sysfs this_machine trace_format
          (cpus_in ℤ ftrace_cpus_format last_comment)
          event
          [])
    × (cpus_in ℤ ftrace_cpus_format last_comment ≡ 0
        → ftrace_load this_machine
            (some (comment ∷ ((entries_comment ∷ []) ++ last_comment ∷ event ∷ [])))
          ≡ some err_ptr)
unfolding starts_with
ftrace_load_last_comment_example =
    ftrace_load_last_comment this_machine comment (entries_comment ∷ []) last_comment event [] refl
      (refl, tt) refl refl refl

-- The kernel's file has four CPUs in its third comment, and none are found.
four_cpus_lost :
    (cpus_in ℤ ftrace_cpus_format entries_comment ≡ 4)
    × (cpus_in ℤ ftrace_cpus_format last_comment ≡ 0)
unfolding cpus_in ftrace_cpus_format sscanf scan_from skip_blanks convert span_until scan_number
    split_sign span_digits as_uint input_failure
four_cpus_lost = (refl, refl)

idlestat_load-store_example :
    (e : CpuTopology ℤ) × IsSameTopology two_cores e
    × (idlestat_load formats (
          some (
            idlestat_store
              (bytes "0.4")
              77
              2
              (pos 12)
              (pos 13)
              none
              two_cores
              state_names
              (λ cpu j. pos 1)
              (comment ∷ event ∷ [])))
        ≡ load_events event [] (stored_datas two_cores e state_names (λ cpu j. pos 1) 2))
unfolding event_lines store_lines differ
idlestat_load-store_example =
    idlestat_load-store this_machine formats (bytes "0.4") 77 2 (pos 12) (pos 13) none two_cores
      state_names (λ cpu j. pos 1) (comment ∷ event ∷ []) event [] (later here)
      (inr refl, (inl refl, (inr refl, tt))) refl event-EndsTopology two_cores-IsTopology
      two_cores-IsListed two_cores-IsInt storable (omega arith) (omega arith)
