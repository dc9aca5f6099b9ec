-- ===== src/Main/Entry.antt =====
-- `main` (idlestat.c) up to the trace run: the command line, the report, and the file of the energy model
-- (the beginning of `parse_energy_model`, energy_model.c).
use idlestat.Base.{
  ℕ, Bool, true, false, not, Option, none, some, List, if◌then◌else◌, map?, ◌>>=◌, ◌&&◌, ◌||◌, map,
}
use idlestat.Base.Double.{Double}
use idlestat.Base.Print.{Format}
use idlestat.Base.Ptr.{Ptr, err_ptr, ptr}
use idlestat.Base.Scan.{Strtod}
use idlestat.Options.{
  Mode, ProgramOptions, Parsed, accepted, refused, exited, getoptions, is_trace, or_default,
}
use idlestat.Energy.Parse.{ParsedCluster, parse_energy_model}
use idlestat.Reports.{ReportOps, get_report_ops}
use idlestat.Main.Program.{
  Host, Ending, failed, left, ModelRead, model_read, model_failed, model_left, write_template,
  run_report,
}

abbrev pub has_name : Option (List ℕ) → Bool
has_name none = false
has_name (some s) = true

abbrev pub check_baseline : Option (Option (List ℕ) → Bool) → Option (List ℕ) → Bool
check_baseline none b = false
check_baseline (some check) b = check b

module _ {S D : Type 0} ⦃d : Double D⦄ ⦃f : Format D⦄ ⦃t : Strtod D⦄ (host : Host S D) where
  abbrev parsed_model : S → Ptr (List ParsedCluster) → ModelRead S
  parsed_model s err_ptr = model_failed s
  parsed_model s (ptr table) = model_read (some (map (λ (c : ParsedCluster). c.info) table))

  -- A file that cannot be opened is an error, but one that is missing in import mode gets a template.
  unfoldable pub read_model : Mode → List ℕ → Option (List ℕ) → S → Option (ModelRead S)
  unfolding parse_energy_model write_template
  read_model mode path none s = some (model_read none)
  read_model mode path (some name) s = elim (host.read_file name s) [
    | some lines ↦ map? (parsed_model s) (parse_energy_model D host.fresh lines)
    | none ↦
        if host.is_missing name s && not (is_trace mode)
        then map? model_left (write_template host name path s)
        else some (model_failed s)
  ]

  abbrev pub continue :
      Bool → ProgramOptions → Mode → List ℕ → ReportOps D → S → ModelRead S → Option (S × Ending D)
  continue has_command o mode path ops s (model_failed u) = some (u, failed)
  continue has_command o mode path ops s (model_left u) = some (u, left)
  continue has_command o mode path ops s (model_read model) =
      run_report host (is_trace mode || has_command) has_command o path ops ops.allocate_report_data
        model s

  abbrev pub after_check :
      Bool
      → ProgramOptions
      → Mode
      → List ℕ
      → ReportOps D
      → S
      → (Bool → Bool → Bool)
      → Option (S × Ending D)
  after_check has_command o mode path ops s check =
      if check host.narrow_window (has_name o.outfilename)
      then some (s, failed)
      else (read_model mode path o.energy_model_filename s
          >>= continue has_command o mode path ops s)

  -- On the report that was found.
  unfoldable pub main_with :
      Bool → ProgramOptions → Mode → List ℕ → ReportOps D → S → Option (S × Ending D)
  unfolding read_model run_report
  main_with has_command o mode path ops s =
      if check_baseline ops.check_options o.baseline_filename
      then some (s, failed)
      else (ops.check_output >>= after_check has_command o mode path ops s)

  abbrev pub with_report :
      Bool → ProgramOptions → Mode → List ℕ → S → Ptr (Option (ReportOps D)) → Option (S × Ending D)
  with_report has_command o mode path s err_ptr = some (s, failed)
  with_report has_command o mode path s (ptr none) = none
  with_report has_command o mode path s (ptr (some ops)) = main_with has_command o mode path ops s

  -- The options that `getoptions` accepts have a mode and a file name.
  unfoldable pub main_options : Bool → ProgramOptions → S → Option (S × Ending D)
  unfolding get_report_ops main_with
  main_options has_command o s = o.mode >>= λ mode. o.filename >>= λ path.
      if is_trace mode && not host.is_root
      then some (s, failed)
      else (get_report_ops host.reports (or_default o.report_type_name)
          >>= with_report has_command o mode path s)

  -- `main` on what `getopt_long` returns; `has_command` is whether there are operands.
  unfoldable pub main : Bool → List Parsed → Bool → S → Option (S × Ending D)
  unfolding getoptions main_options
  main signed ps has_command s = elim (getoptions signed ps) [
    | refused ↦ some (s, failed)
    | exited ↦ some (s, left)
    | accepted o ↦ main_options has_command o s
  ]
