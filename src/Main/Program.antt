-- ===== src/Main/Program.antt =====
-- `main` (idlestat.c) as a whole: the options, the report and the energy model, the trace run, the traces
-- that are loaded, and what is printed. A null pointer that is followed is a fault, and so is
-- an assertion that fails: `merge_pstates` asserts that the baseline is no error.
use idlestat.Base.{
  ℕ, Bool, true, false, Option, none, some, List, [], if◌then◌else◌, map?, ◌>>=◌, ◌∷◌, ◌++◌,
}
use idlestat.Base.Double.{Double}
use idlestat.Base.Print.{Format}
use idlestat.Base.Ptr.{Ptr, err_ptr, ptr}
use idlestat.Base.Scan.{Strtod}
use idlestat.Pstates.{merge_pstates}
use idlestat.Topology.{CpuTopology}
use idlestat.Topology.Baseline.{assign_baseline_in_topo}
use idlestat.Datas.{CpuidleDatas}
use idlestat.Options.{ProgramOptions}
use idlestat.Energy.{ClusterEnergyInfo, ClusterEnergy, calculate_energy_consumption}
use idlestat.Energy.Printed.{energy_text}
use idlestat.Energy.Parse.{ParsedCluster}
use idlestat.Energy.Parse.Template.{make_energy_model_template}
use idlestat.TraceFile.Load.{TraceOps, idlestat_load}
use idlestat.Reports.{OpenFile, redirect_stdout, CloseFile, close_stdout, ReportOps, ReportData}
use idlestat.Main.{Machine, trace_run}
use idlestat.Main.Show.{show_report}

-- The rest of what the machine does for the program; `duplicates` is whether `dup2` succeeds.
pub record Host (S D : Type 0) : Type 0 where
  pub machine : Machine S D
  pub is_root : Bool
  pub read_file : List ℕ → S → Option (List (List ℕ))
  pub is_missing : List ℕ → S → Bool
  pub remove : List ℕ → S → S
  pub narrow_window : Bool
  pub duplicates : S → Bool
  pub fresh : ParsedCluster
  pub formats : List (TraceOps D)
  pub reports : List (ReportOps D)

-- How `main` ends: with 1, with the code that is given to `exit`, or with a report and the energy.
pub data Ending (D : Type 0) : Type 0 where
  failed : Ending D
  left : Ending D
  reported : List ℕ → Option (List (ClusterEnergy D) × D) → Ending D

-- What `parse_energy_model` leads to: a model or none, or the end of the program.
pub data ModelRead (S : Type 0) : Type 0 where
  model_read : Option (List ClusterEnergyInfo) → ModelRead S
  model_failed : S → ModelRead S
  model_left : S → ModelRead S

module _ {S D : Type 0} ⦃d : Double D⦄ ⦃f : Format D⦄ ⦃t : Strtod D⦄ (host : Host S D) where
  abbrev pub load : List ℕ → S → Option (Ptr (CpuidleDatas D))
  load name s = idlestat_load host.formats (host.read_file name s)

  abbrev pub merged :
      CpuidleDatas D → Ptr (CpuidleDatas D) → Option (CpuidleDatas D × Option (CpuidleDatas D))
  merged datas err_ptr = none
  merged datas (ptr base) =
      map? {B = CpuidleDatas D × Option (CpuidleDatas D)}
        (λ r. (record datas { pstates = r.0 }, some (record base { pstates = r.1 })))
        (merge_pstates datas.pstates base.pstates)

  unfoldable pub load_baseline :
      CpuidleDatas D → Option (List ℕ) → S → Option (CpuidleDatas D × Option (CpuidleDatas D))
  unfolding idlestat_load merge_pstates
  load_baseline datas none s = some (datas, none)
  load_baseline datas (some name) s = load name s >>= merged datas

  abbrev pub energy_of :
      Option (List ClusterEnergyInfo)
      → CpuidleDatas D
      → Option (Option (List (ClusterEnergy D) × D))
  energy_of none datas = some none
  energy_of (some table) datas =
      map? some (calculate_energy_consumption table datas.cstates datas.pstates datas.topo)

  -- The file is created or emptied; it is removed again where it cannot take the place of stdout.
  unfoldable pub redirect_stdout_to_file : Option (List ℕ) → S → S × Bool
  redirect_stdout_to_file none s = (s, true)
  redirect_stdout_to_file (some path) s =
      let (u, opened) = host.machine.write_file path [] s in
      if opened
      then if host.duplicates u then (u, true) else (host.remove path u, false)
      else (u, false)

  abbrev pub opened_by : OpenFile → Option (List ℕ) → S → S × Bool
  opened_by redirect_stdout path s = redirect_stdout_to_file path s

  -- What was printed is in the file, if there is one; what `fclose` returns is not looked at.
  abbrev pub closed_by : CloseFile → Option (List ℕ) → List ℕ → S → S
  closed_by close_stdout none text s = s
  closed_by close_stdout (some path) text s = (host.machine.write_file path (text ∷ []) s).0

  -- From the tables on: the energy, and the report's end.
  abbrev pub printed :
      ProgramOptions
      → ReportOps D
      → Option (List ClusterEnergyInfo)
      → CpuidleDatas D
      → S
      → List ℕ × ReportData D
      → Option (S × Ending D)
  printed o ops model datas s out = energy_of model datas >>= λ e.
      map? (λ closes. (closed_by closes o.outfilename (out.0 ++ energy_text e) s, reported out.0 e))
        ops.close_report_file

  abbrev pub show_opened :
      ProgramOptions
      → ReportOps D
      → ReportData D
      → Option (List ClusterEnergyInfo)
      → CpuidleDatas D
      → Option (CpuidleDatas D)
      → S × Bool
      → Option (S × Ending D)
  show_opened o ops rdata model datas baseline (s, false) = some (s, failed)
  show_opened o ops rdata model datas baseline (s, true) =
      show_report ops o.display datas baseline rdata >>= printed o ops model datas s

  unfoldable pub print_report :
      ProgramOptions
      → ReportOps D
      → ReportData D
      → Option (List ClusterEnergyInfo)
      → CpuidleDatas D
      → Option (CpuidleDatas D)
      → S
      → Option (S × Ending D)
  unfolding show_report calculate_energy_consumption redirect_stdout_to_file energy_text
  print_report o ops rdata model datas baseline s = ops.open_report_file >>= λ opens.
      show_opened o ops rdata model datas baseline (opened_by opens o.outfilename s)

  -- From the loaded trace on.
  unfoldable pub report_trace :
      ProgramOptions
      → ReportOps D
      → ReportData D
      → Option (List ClusterEnergyInfo)
      → CpuidleDatas D
      → S
      → Option (S × Ending D)
  unfolding load_baseline assign_baseline_in_topo print_report
  report_trace o ops rdata model datas s = load_baseline datas o.baseline_filename s >>= λ r.
      assign_baseline_in_topo (r.0).topo (map? (λ (b : CpuidleDatas D). b.topo) r.1) >>= λ topo.
      print_report o ops rdata model (record (r.0) { topo = topo }) r.1 s

  abbrev pub report_loaded :
      ProgramOptions
      → ReportOps D
      → ReportData D
      → Option (List ClusterEnergyInfo)
      → S
      → Ptr (CpuidleDatas D)
      → Option (S × Ending D)
  report_loaded o ops rdata model s err_ptr = some (s, failed)
  report_loaded o ops rdata model s (ptr datas) = report_trace o ops rdata model datas s

  abbrev pub traced : Bool → ProgramOptions → List ℕ → Ptr (CpuTopology D) → S → S × Bool
  traced has_command o path err_ptr s = (s, false)
  traced has_command o path (ptr topo) s = trace_run host.machine has_command o path topo s

  abbrev pub report_run :
      ProgramOptions
      → List ℕ
      → ReportOps D
      → ReportData D
      → Option (List ClusterEnergyInfo)
      → S × Bool
      → Option (S × Ending D)
  report_run o path ops rdata model (u, true) = load path u >>= report_loaded o ops rdata model u
  report_run o path ops rdata model (u, false) = some (u, failed)

  -- From the trace run on, if there is one.
  unfoldable pub run_report :
      Bool
      → Bool
      → ProgramOptions
      → List ℕ
      → ReportOps D
      → ReportData D
      → Option (List ClusterEnergyInfo)
      → S
      → Option (S × Ending D)
  unfolding report_trace trace_run
  run_report tracing has_command o path ops rdata model s =
      report_run o path ops rdata model
        (if tracing then traced has_command o path host.machine.sysfs_topo s else (s, true))

  -- Where there is no energy model: the state after the template is written.
  unfoldable pub write_template : List ℕ → List ℕ → S → Option S
  unfolding make_energy_model_template idlestat_load
  write_template name path s =
      let (u, opened) = host.machine.write_file name [] s in
      if opened then load path u >>= template u else some u
    where
      template : S → Ptr (CpuidleDatas D) → Option S
      template u err_ptr = some (host.remove name u)
      template u (ptr datas) =
          map? (λ lines. (host.machine.write_file name lines u).0)
            (make_energy_model_template datas.cstates datas.pstates datas.topo)
