-- ===== src/Reports/Csv.antt =====
-- The report `csv` (csv_report.c): values between commas, without units.
use idlestat.Base.{ℕ, false, none, some, List, [], ◌∷◌, ◌++◌, if◌then◌else◌, bytes, strstr}
use idlestat.Base.Int.{minus_one, eq_ℤ}
use idlestat.Base.Double.{Double}
use idlestat.Base.Print.{Format}
use idlestat.Base.Scan.Decimal.{print_uint, print_int}
use idlestat.Pstates.{CpufreqPstate}
use idlestat.Cstates.{CpuidleCstate, WakeupIrq}
use idlestat.TraceFile.States.{print_name}
use idlestat.Reports.{redirect_stdout, close_stdout, ReportOps, no_prepare}
use idlestat.Reports.Factored.{shown_min, joined}
use idlestat.Reports.Default.{plain_table}

unfoldable pub csv_cpu_header : List ℕ → List ℕ
csv_cpu_header cpu =
    if strstr cpu (bytes "cluster")
    then cpu ++ 10 ∷ []
    else if strstr cpu (bytes "core")
    then 44 ∷ (cpu ++ 10 ∷ [])
    else 44 ∷ 44 ∷ (cpu ++ 10 ∷ [])

-- Fields after the empty ones of the cluster, the core and the CPU.
unfoldable pub csv_line : List ℕ → List (List ℕ) → List ℕ
csv_line start fields = start ++ joined (44 ∷ []) fields ++ 10 ∷ []

module _ {D : Type 0} ⦃d : Double D⦄ ⦃f : Format D⦄ where
  unfoldable pub csv_cstate_single_state : CpuidleCstate D → List ℕ
  unfolding csv_line print_name print_uint shown_min
  csv_cstate_single_state c = csv_line (bytes ",,,") (
      print_name c.name
      ∷ f.fixed 6 (shown_min c.min_time)
      ∷ f.fixed 6 c.max_time
      ∷ f.fixed 6 c.avg_time
      ∷ f.fixed 6 c.duration
      ∷ print_uint c.nrdata
      ∷ print_uint c.early_wakings
      ∷ print_uint c.late_wakings
      ∷ [])

  unfoldable pub csv_pstate_single_freq : CpufreqPstate D → List ℕ
  unfolding csv_line print_uint shown_min
  csv_pstate_single_freq p = csv_line (bytes ",,,") (
      print_uint p.freq
      ∷ f.fixed 6 (shown_min p.min_time)
      ∷ f.fixed 6 p.max_time
      ∷ f.fixed 6 p.avg_time
      ∷ f.fixed 6 p.duration
      ∷ print_uint p.count
      ∷ [])

unfoldable pub csv_wakeup_single_irq : WakeupIrq → List ℕ
unfolding csv_line print_uint print_int
csv_wakeup_single_irq x = csv_line (bytes ",,,") (
    (if eq_ℤ x.id minus_one then bytes "IPI" else print_int x.id)
    ∷ x.name
    ∷ print_uint x.count
    ∷ print_uint x.early_triggers
    ∷ print_uint x.late_triggers
    ∷ [])

-- `check_output` never has an error.
unfoldable pub csv_report_ops : (D : Type 0) ⦃d : Double D⦄ ⦃f : Format D⦄ → ReportOps D
unfolding csv_cpu_header csv_cstate_single_state csv_pstate_single_freq csv_wakeup_single_irq
csv_report_ops D = record {
  name = bytes "csv";
  prepare = no_prepare;
  check_options = none;
  check_output = some (λ small has_outfile. false);
  allocate_report_data = none;
  open_report_file = some redirect_stdout;
  close_report_file = some close_stdout;
  cstate =
      plain_table
        (bytes "C-State Table\n"
          ++ bytes
              "cluster,core,cpu,C-state,min (us),max (us),avg (us),total (us),hits,over,under\n")
        (bytes "\n\n") csv_cpu_header csv_cstate_single_state [];
  pstate =
      plain_table
        (bytes "P-State Table\n"
          ++ bytes ",,,P-state (kHz),min (us),max (us),avg (us),total (us),hits\n")
        (bytes "\n\n") csv_cpu_header csv_pstate_single_freq [];
  wakeup =
      plain_table (bytes "\nWakeup Table\n" ++ bytes "cluster,core,cpu,IRQ,Name,Count,early,late\n")
        (bytes "\n\n") csv_cpu_header csv_wakeup_single_irq [];
}
