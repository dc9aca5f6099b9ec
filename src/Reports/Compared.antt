-- ===== src/Reports/Compared.antt =====
-- What the comparison report prints (comparison_report.c), and the other reports of a table
-- (default_report.c, csv_report.c), through display_cstates and display_pstates (idlestat.c).
use idlestat.Base.{
  Bool, not, ltb, ◌||◌, bytes, ◌∷◌, arith, ℕ, ◌≡◌, refl, false, Option, none, some, List, [], ◌++◌,
  append-nil, map?, ◌>>=◌, ◌==◌, length, ap, ◌∙◌,
}
use idlestat.Base.Int.{pos, add_ℤ, sub_ℤ}
use idlestat.Base.Double.{Double}
use idlestat.Base.Print.{Format}
use idlestat.Energy.{rounds}
use idlestat.Pstates.{CpufreqPstate, CpufreqPstates}
use idlestat.Cstates.{CpuidleCstate, CpuidleCstates}
use idlestat.Reports.{
  ReportData, ReportOps, is_nothing, and_then, baseline_text, single_text, show_entries, entries,
  display_cstates, display_pstates, copied_ops,
}
use idlestat.Reports.Factored.{display_factored_time_delta, display_int_delta}
use idlestat.Reports.Default.{
  default_style, cstate_single_state, pstate_single_freq, default_report_ops, default_cpu_header,
}
use idlestat.Reports.Comparison.{
  comparison_report_ops, compare_cstates, compare_pstates, empty_cstate, empty_pstate,
  compare_set_baseline_cstate, compare_cstate_single_state, compare_cstate_end_cpu, compare_pair,
  compare_set_baseline_pstate, compare_pstate_single_freq, compare_pstate_end_cpu,
  compare_pair_freq,
}
use idlestat.Reports.Lines.{IsByLine, show-lines, table_text}

-- The operations of the comparison report once they are prepared.
abbrev pub compared_ops : (D : Type 0) ⦃d : Double D⦄ ⦃f : Format D⦄ → ReportOps D
compared_ops D = copied_ops (comparison_report_ops D) (default_report_ops D)

-- Data where no baseline waits.
abbrev pub nothing_waits : {D : Type 0} → ReportData D
nothing_waits = some (record { curr_cstate_baseline = none; curr_pstate_baseline = none })

-- How much a number is above another, and a line with four times.
abbrev fewer : ℕ → ℕ → List ℕ
fewer n m = display_int_delta (sub_ℤ (pos n) (pos m)) 5

abbrev times_line : List ℕ → List ℕ → List ℕ → List ℕ → List ℕ
times_line a b c e =
    bytes "|          | "
    ++ a
    ++ bytes " | "
    ++ b
    ++ bytes " | "
    ++ c
    ++ bytes " | "
    ++ e
    ++ bytes " |"

module _ {D : Type 0} ⦃d : Double D⦄ ⦃f : Format D⦄ where
  -- The line of a state, and that of how much its times and numbers are above the ones given.
  abbrev less : D → D → List ℕ
  less x y = display_factored_time_delta (d.sub x y) 8

  abbrev cstate_against : CpuidleCstate D → D → D → D → D → ℕ → ℕ → ℕ → List ℕ
  cstate_against c least greatest avg total hits early late =
      cstate_single_state default_style c
      ++ times_line (less c.min_time least) (less c.max_time greatest) (less c.avg_time avg)
          (less c.duration total)
      ++ fewer c.nrdata hits
      ++ fewer c.early_wakings early
      ++ fewer c.late_wakings late
      ++ 10 ∷ []

  abbrev pstate_against : CpufreqPstate D → D → D → D → D → ℕ → List ℕ
  pstate_against p least greatest avg total hits =
      pstate_single_freq default_style p
      ++ times_line (less p.min_time least) (less p.max_time greatest) (less p.avg_time avg)
          (less p.duration total)
      ++ fewer p.count hits
      ++ 10 ∷ []

  -- Against the state of the same number in the baseline, or against zeros.
  abbrev pub cstate_row : CpuidleCstate D × Option (CpuidleCstate D) → List ℕ
  cstate_row (c, none) = cstate_against c d.nought d.nought d.nought d.nought 0 0 0
  cstate_row (c, some b) =
      cstate_against c b.min_time b.max_time b.avg_time b.duration b.nrdata b.early_wakings
        b.late_wakings

  abbrev pub pstate_row : CpufreqPstate D × Option (CpufreqPstate D) → List ℕ
  pstate_row (p, none) = pstate_against p d.nought d.nought d.nought d.nought 0
  pstate_row (p, some b) = pstate_against p b.min_time b.max_time b.avg_time b.duration b.count

  -- The state was hit in the trace or in the baseline.
  abbrev pub cstate_is_hit : CpuidleCstate D × Option (CpuidleCstate D) → Bool
  cstate_is_hit (c, none) = ltb 0 c.nrdata
  cstate_is_hit (c, some b) = ltb 0 c.nrdata || ltb 0 b.nrdata

  abbrev pub pstate_is_hit : CpufreqPstate D × Option (CpufreqPstate D) → Bool
  pstate_is_hit (p, none) = ltb 0 p.count
  pstate_is_hit (p, some b) = ltb 0 p.count || ltb 0 b.count

  is_nothing-cstate :
      (e : CpuidleCstate D × Option (CpuidleCstate D))
      → is_nothing (λ (c : CpuidleCstate D). c.nrdata == 0) e ≡ not (cstate_is_hit e)
  unfolding is_nothing
  is_nothing-cstate (c, none) = ground arith
  is_nothing-cstate (c, some b) = ground arith

  is_nothing-pstate :
      (e : CpufreqPstate D × Option (CpufreqPstate D))
      → is_nothing (λ (p : CpufreqPstate D). p.count == 0) e ≡ not (pstate_is_hit e)
  unfolding is_nothing
  is_nothing-pstate (p, none) = ground arith
  is_nothing-pstate (p, some b) = ground arith

  cstate_entry :
      (cpu text : List ℕ) (c : CpuidleCstate D) (b : Option (CpuidleCstate D))
      → and_then
          (and_then (some (text, nothing_waits)) (baseline_text (compared_ops D).cstate cpu b))
          (single_text (compared_ops D).cstate cpu c)
        ≡ some (text ++ cstate_row (c, b), nothing_waits)
  unfolding and_then copied_ops comparison_report_ops compare_set_baseline_cstate
      compare_cstate_single_state compare_pair compare_cstates empty_cstate
  cstate_entry cpu text c none =
      ap (λ t. some (t ++ cstate_row (c, none), nothing_waits)) (append-nil text)
  cstate_entry cpu text c (some b) =
      ap (λ t. some (t ++ cstate_row (c, some b), nothing_waits)) (append-nil text)

  cstates-IsByLine :
      IsByLine (compared_ops D).cstate (default_cpu_header 80) cstate_row [] nothing_waits
  unfolding copied_ops comparison_report_ops default_report_ops compare_cstate_end_cpu
      compare_set_baseline_cstate and_then
  cstates-IsByLine = record { header_is = refl; entry_is = cstate_entry; end_is = refl }

  pstate_entry :
      (cpu text : List ℕ) (p : CpufreqPstate D) (b : Option (CpufreqPstate D))
      → and_then
          (and_then (some (text, nothing_waits)) (baseline_text (compared_ops D).pstate cpu b))
          (single_text (compared_ops D).pstate cpu p)
        ≡ some (text ++ pstate_row (p, b), nothing_waits)
  unfolding and_then copied_ops comparison_report_ops compare_set_baseline_pstate
      compare_pstate_single_freq compare_pair_freq compare_pstates empty_pstate
  pstate_entry cpu text p none =
      ap (λ t. some (t ++ pstate_row (p, none), nothing_waits)) (append-nil text)
  pstate_entry cpu text p (some b) =
      ap (λ t. some (t ++ pstate_row (p, some b), nothing_waits)) (append-nil text)

  pstates-IsByLine :
      IsByLine (compared_ops D).pstate (default_cpu_header 64) pstate_row [] nothing_waits
  unfolding copied_ops comparison_report_ops default_report_ops compare_pstate_end_cpu
      compare_set_baseline_pstate and_then
  pstates-IsByLine = record { header_is = refl; entry_is = pstate_entry; end_is = refl }

  -- The states that the loops go through, with those of the baseline.
  abbrev pub cstate_entries :
      CpuidleCstates D
      → Option (CpuidleCstates D)
      → Option (List (CpuidleCstate D × Option (CpuidleCstate D)))
  cstate_entries s base =
      entries s.cstate (map? (λ (b : CpuidleCstates D). b.cstate) base) 0
        (rounds (add_ℤ s.cstate_max (pos 1)))

  abbrev pub pstate_entries :
      CpufreqPstates D
      → Option (CpufreqPstates D)
      → Option (List (CpufreqPstate D × Option (CpufreqPstate D)))
  pstate_entries ps base =
      entries ps.pstate (map? (λ (b : CpufreqPstates D). b.pstate) base) 0 (length ps.pstate)

  -- The comparison report of a CPU, a core or a cluster: if any state has hits in the trace or in the
  -- baseline, the header, and for each such state in order its line and the line of the differences
  -- from the baseline's state of the same number, or from zeros without a baseline; and no baseline
  -- waits afterwards. This holds for the C-states and for the P-states, where none waits before and the
  -- loops stay within the arrays.
  pub display_compared :
      (cpu : List ℕ) (s : CpuidleCstates D) (base : Option (CpuidleCstates D))
      (ps : CpufreqPstates D) (base_ps : Option (CpufreqPstates D))
      (cs : List (CpuidleCstate D × Option (CpuidleCstate D)))
      (fs : List (CpufreqPstate D × Option (CpufreqPstate D)))
      → cstate_entries s base ≡ some cs
      → pstate_entries ps base_ps ≡ some fs
      → (display_cstates (compared_ops D) cpu s base nothing_waits
          ≡ some (
            table_text cstate_is_hit cstate_row [] (default_cpu_header 80 cpu) cs,
            nothing_waits,
          ))
        × (display_pstates (compared_ops D) cpu ps base_ps nothing_waits
            ≡ some (
              table_text pstate_is_hit pstate_row [] (default_cpu_header 64 cpu) fs,
              nothing_waits,
            ))
  unfolding display_cstates display_pstates
  display_compared cpu s base ps base_ps cs fs e g = (
    ap
          (λ o. o >>= λ es.
            show_entries (compared_ops D).cstate cpu (λ c. c.nrdata == 0) false es nothing_waits)
          e
        ∙ show-lines (compared_ops D).cstate (default_cpu_header 80) cstate_row [] nothing_waits
            cstates-IsByLine (λ c. c.nrdata == 0) cstate_is_hit is_nothing-cstate cpu cs,
    ap
          (λ o. o >>= λ es.
            show_entries (compared_ops D).pstate cpu (λ p. p.count == 0) false es nothing_waits)
          g
        ∙ show-lines (compared_ops D).pstate (default_cpu_header 64) pstate_row [] nothing_waits
            pstates-IsByLine (λ p. p.count == 0) pstate_is_hit is_nothing-pstate cpu fs,
  )
