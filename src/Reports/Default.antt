-- ===== src/Reports/Default.antt =====
-- The reports `default` and `boxless` (default_report.c). The lines of both have the same columns; they
-- differ in the texts before, between and after them.
use idlestat.Base.{
  ℕ, ◌-◌, Bool, not, none, some, List, [], ◌∷◌, ◌++◌, if◌then◌else◌, ◌&&◌, bytes, strstr, replicate,
  take,
}
use idlestat.Base.Int.{minus_one, eq_ℤ}
use idlestat.Base.Double.{Double}
use idlestat.Base.Print.{Format, pad_left, pad_right}
use idlestat.Base.Scan.Decimal.{print_int}
use idlestat.Pstates.{CpufreqPstate}
use idlestat.Cstates.{CpuidleCstate, WakeupIrq}
use idlestat.TraceFile.States.{print_name}
use idlestat.Reports.{redirect_stdout, close_stdout, TableOps, ReportOps, no_prepare, say}
use idlestat.Reports.Factored.{
  display_factored_time, display_factored_freq, shown_min, column, joined,
}

-- A small window is refused where the report goes to it: the result is whether there is an error.
unfoldable pub default_check_output : Bool → Bool → Bool
default_check_output small has_outfile = small && not has_outfile

unfoldable pub charrep : ℕ → ℕ → List ℕ
charrep c count = replicate count c

unfoldable pub boxless_cpu_header : List ℕ → List ℕ
boxless_cpu_header cpu =
    if strstr cpu (bytes "cluster")
    then bytes "  " ++ cpu ++ 10 ∷ []
    else if strstr cpu (bytes "core")
    then bytes "    " ++ cpu ++ 10 ∷ []
    else bytes "       " ++ cpu ++ 10 ∷ []

-- The line with the name: 45 is the dash.
unfoldable pub name_line : List ℕ → ℕ → List ℕ
unfolding pad_right
name_line cpu len =
    if strstr cpu (bytes "cluster")
    then bytes "| " ++ pad_right (len - 4) cpu ++ bytes " |"
    else if strstr cpu (bytes "core")
    then bytes "|      " ++ pad_right (len - 9) cpu ++ bytes " |"
    else bytes "|             " ++ pad_right (len - 16) cpu ++ bytes " |"

unfoldable pub default_cpu_header : ℕ → List ℕ → List ℕ
unfolding charrep name_line
default_cpu_header len cpu =
    charrep 45 len ++ 10 ∷ (name_line cpu len ++ 10 ∷ (charrep 45 len ++ 10 ∷ []))

-- What stands before, between and after the columns.
pub record Style : Type 0 where
  pub before : List ℕ
  pub between : List ℕ
  pub after : List ℕ

abbrev pub boxless_style : Style
boxless_style = record { before = bytes "  "; between = bytes "   "; after = 10 ∷ [] }

abbrev pub default_style : Style
default_style = record { before = bytes "| "; between = bytes " | "; after = bytes " |\n" }

unfoldable pub line_of : Style → List (List ℕ) → List ℕ
line_of style columns = style.before ++ joined style.between columns ++ style.after

module _ {D : Type 0} ⦃d : Double D⦄ ⦃f : Format D⦄ where
  unfoldable pub cstate_columns : CpuidleCstate D → List (List ℕ)
  unfolding display_factored_time shown_min column print_name pad_left
  cstate_columns c =
      pad_left 8 (print_name c.name)
      ∷ display_factored_time (shown_min c.min_time) 8
      ∷ display_factored_time c.max_time 8
      ∷ display_factored_time c.avg_time 8
      ∷ display_factored_time c.duration 8
      ∷ column 5 c.nrdata
      ∷ column 5 c.early_wakings
      ∷ column 5 c.late_wakings
      ∷ []

  unfoldable pub cstate_single_state : Style → CpuidleCstate D → List ℕ
  unfolding line_of cstate_columns
  cstate_single_state style c = line_of style (cstate_columns c)

  unfoldable pub pstate_columns : CpufreqPstate D → List (List ℕ)
  unfolding display_factored_time display_factored_freq shown_min column
  pstate_columns p =
      display_factored_freq D p.freq 8
      ∷ display_factored_time (shown_min p.min_time) 8
      ∷ display_factored_time p.max_time 8
      ∷ display_factored_time p.avg_time 8
      ∷ display_factored_time p.duration 8
      ∷ column 5 p.count
      ∷ []

  unfoldable pub pstate_single_freq : Style → CpufreqPstate D → List ℕ
  unfolding line_of pstate_columns
  pstate_single_freq style p = line_of style (pstate_columns p)

-- `IPI` in place of the number -1.
unfoldable pub irq_columns : WakeupIrq → List (List ℕ)
unfolding column pad_right print_int
irq_columns x =
    (if eq_ℤ x.id minus_one then bytes "IPI" else pad_right 3 (print_int x.id))
    ∷ pad_right 15 (take 15 x.name)
    ∷ column 7 x.count
    ∷ column 7 x.early_triggers
    ∷ column 7 x.late_triggers
    ∷ []

unfoldable pub wakeup_single_irq : Style → WakeupIrq → List ℕ
unfolding line_of irq_columns
wakeup_single_irq style x = line_of style (irq_columns x)

-- A table with a header, a footer and lines, and nothing for a baseline.
abbrev pub plain_table :
    {D A : Type 0} → List ℕ → List ℕ → (List ℕ → List ℕ) → (A → List ℕ) → List ℕ → TableOps D A
plain_table header footer cpu_header single end_cpu = record {
  table_header = some header;
  table_footer = some footer;
  cpu_header = some cpu_header;
  baseline = none;
  single = some (say single);
  end_cpu = some (λ r. some (end_cpu, r));
}

unfoldable pub default_report_ops : (D : Type 0) ⦃d : Double D⦄ ⦃f : Format D⦄ → ReportOps D
unfolding charrep default_cpu_header default_check_output cstate_single_state pstate_single_freq
    wakeup_single_irq
default_report_ops D = record {
  name = bytes "default";
  prepare = no_prepare;
  check_options = none;
  check_output = some default_check_output;
  allocate_report_data = none;
  open_report_file = some redirect_stdout;
  close_report_file = some close_stdout;
  cstate =
      plain_table
        (charrep 45 80
          ++ bytes
              "\n| C-state  |   min    |   max    |   avg    |   total  | hits  |  over | under |\n")
        (charrep 45 80 ++ bytes "\n\n") (default_cpu_header 80) (cstate_single_state default_style)
        [];
  pstate =
      plain_table
        (charrep 45 64
          ++ bytes "\n| P-state  |   min    |   max    |   avg    |   total  | hits  |\n")
        (charrep 45 64 ++ bytes "\n\n") (default_cpu_header 64) (pstate_single_freq default_style)
        [];
  wakeup =
      plain_table
        (charrep 45 55 ++ bytes "\n| IRQ |       Name      |  Count  |  early  |  late   |\n")
        (charrep 45 55 ++ bytes "\n\n") (default_cpu_header 55) (wakeup_single_irq default_style)
        [];
}

unfoldable pub boxless_report_ops : (D : Type 0) ⦃d : Double D⦄ ⦃f : Format D⦄ → ReportOps D
unfolding boxless_cpu_header default_check_output cstate_single_state pstate_single_freq
    wakeup_single_irq
boxless_report_ops D = record {
  name = bytes "boxless";
  prepare = no_prepare;
  check_options = none;
  check_output = some default_check_output;
  allocate_report_data = none;
  open_report_file = some redirect_stdout;
  close_report_file = some close_stdout;
  cstate =
      plain_table
        (bytes "   C-state        min        max        avg      total    hits    over   under\n")
        (bytes "\n") boxless_cpu_header (cstate_single_state boxless_style) (bytes "\n");
  pstate =
      plain_table (bytes "   P-state        min        max        avg      total    hits\n")
        (bytes "\n") boxless_cpu_header (pstate_single_freq boxless_style) (bytes "\n");
  wakeup =
      plain_table (bytes "  IRQ   Name                Count     early      late\n") (bytes "\n")
        boxless_cpu_header (wakeup_single_irq boxless_style) (bytes "\n");
}
