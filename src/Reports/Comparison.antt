-- ===== src/Reports/Comparison.antt =====
-- The report `comparison` (comparison_report.c): an entry of the baseline waits in the report's data for
-- the entry of the trace, and a line with the differences follows the trace's.
use idlestat.Base.{ℕ, Bool, Option, none, some, List, [], ◌∷◌, ◌++◌, map?, ◌>>=◌, bytes}
use idlestat.Base.Int.{ℤ, pos, sub_ℤ}
use idlestat.Base.Double.{Double}
use idlestat.Base.Print.{Format}
use idlestat.Pstates.{CpufreqPstate}
use idlestat.Cstates.{CpuidleCstate}
use idlestat.Reports.{
  CompareReportData, ReportData, Out, TableOps, ReportOps, copy_ops_from_default, and_then,
}
use idlestat.Reports.Factored.{display_factored_time_delta, display_int_delta}
use idlestat.Reports.Default.{default_style, cstate_single_state, pstate_single_freq}

-- `compare_check_options`: an error without a baseline trace.
unfoldable pub compare_check_options : Option (List ℕ) → Bool
compare_check_options none = Bool.true
compare_check_options (some baseline_filename) = Bool.false

-- The data of `compare_alloc_data`.
abbrev pub compare_alloc_data : {D : Type 0} → CompareReportData D
compare_alloc_data = record { curr_cstate_baseline = none; curr_pstate_baseline = none }

module _ {D : Type 0} ⦃d : Double D⦄ where
  -- The state that stands for one that is in one trace only: zeros.
  unfoldable pub empty_cstate : Option (List ℕ) → CpuidleCstate D
  empty_cstate name = record {
    name = name;
    stays = [];
    nrdata = 0;
    early_wakings = 0;
    late_wakings = 0;
    avg_time = d.nought;
    max_time = d.nought;
    min_time = d.nought;
    duration = d.nought;
    target_residency = pos 0;
  }

  unfoldable pub empty_pstate : ℕ → CpufreqPstate D
  empty_pstate freq = record {
    id = 0;
    freq = freq;
    count = 0;
    min_time = d.nought;
    max_time = d.nought;
    avg_time = d.nought;
    duration = d.nought;
  }

abbrev pub delta : ℕ → ℕ → ℤ
delta a b = sub_ℤ (pos a) (pos b)

module _ {D : Type 0} ⦃d : Double D⦄ ⦃f : Format D⦄ where
  -- The times of the line with the differences.
  abbrev pub time_deltas : D → D → D → D → List ℕ
  time_deltas least greatest avg duration =
      bytes "|          | "
      ++ display_factored_time_delta least 8
      ++ bytes " | "
      ++ display_factored_time_delta greatest 8
      ++ bytes " | "
      ++ display_factored_time_delta avg 8
      ++ bytes " | "
      ++ display_factored_time_delta duration 8
      ++ bytes " |"

  -- The two lines of a state against that of the baseline.
  unfoldable pub compare_cstates : CpuidleCstate D → CpuidleCstate D → List ℕ
  unfolding cstate_single_state display_factored_time_delta display_int_delta
  compare_cstates c b =
      cstate_single_state default_style c
      ++ time_deltas (d.sub c.min_time b.min_time) (d.sub c.max_time b.max_time)
          (d.sub c.avg_time b.avg_time) (d.sub c.duration b.duration)
      ++ display_int_delta (delta c.nrdata b.nrdata) 5
      ++ display_int_delta (delta c.early_wakings b.early_wakings) 5
      ++ display_int_delta (delta c.late_wakings b.late_wakings) 5
      ++ 10 ∷ []

  unfoldable pub compare_pstates : CpufreqPstate D → CpufreqPstate D → List ℕ
  unfolding pstate_single_freq display_factored_time_delta display_int_delta
  compare_pstates p b =
      pstate_single_freq default_style p
      ++ time_deltas (d.sub p.min_time b.min_time) (d.sub p.max_time b.max_time)
          (d.sub p.avg_time b.avg_time) (d.sub p.duration b.duration)
      ++ display_int_delta (delta p.count b.count) 5
      ++ 10 ∷ []

  -- A state that is missing on one side is empty; with neither the assertion fails.
  unfoldable pub compare_pair :
      Option (CpuidleCstate D) → Option (CpuidleCstate D) → Option (List ℕ)
  unfolding compare_cstates empty_cstate
  compare_pair none none = none
  compare_pair none (some b) = some (compare_cstates (empty_cstate b.name) b)
  compare_pair (some c) none = some (compare_cstates c (empty_cstate none))
  compare_pair (some c) (some b) = some (compare_cstates c b)

  unfoldable pub compare_pair_freq :
      Option (CpufreqPstate D) → Option (CpufreqPstate D) → Option (List ℕ)
  unfolding compare_pstates empty_pstate
  compare_pair_freq none none = none
  compare_pair_freq none (some b) = some (compare_pstates (empty_pstate b.freq) b)
  compare_pair_freq (some p) none = some (compare_pstates p (empty_pstate 0))
  compare_pair_freq (some p) (some b) = some (compare_pstates p b)

  -- `compare_cstate_single_state`: the baseline that waits is taken.
  unfoldable pub compare_cstate_single_state : Option (CpuidleCstate D) → ReportData D → Out D
  unfolding compare_pair
  compare_cstate_single_state c r = r >>= λ rdata.
      map? (λ text. (text, some (record rdata { curr_cstate_baseline = none })))
        (compare_pair c rdata.curr_cstate_baseline)

  abbrev waiting_cstate : ReportData D → Option (CpuidleCstate D) → Out D
  waiting_cstate r none = some ([], r)
  waiting_cstate r (some b) = compare_cstate_single_state none r

  -- A baseline that still waits had no entry in the trace: it is printed first.
  unfoldable pub compare_set_baseline_cstate : Option (CpuidleCstate D) → ReportData D → Out D
  unfolding compare_cstate_single_state and_then
  compare_set_baseline_cstate b r =
      r >>= λ rdata. and_then (waiting_cstate r rdata.curr_cstate_baseline) (wait_for b)
    where
      wait_for : Option (CpuidleCstate D) → ReportData D → Out D
      wait_for none r = some ([], r)
      wait_for (some b) r =
          map? (λ rdata. ([], some (record rdata { curr_cstate_baseline = some b }))) r

  unfoldable pub compare_cstate_end_cpu : ReportData D → Out D
  unfolding compare_set_baseline_cstate
  compare_cstate_end_cpu r = compare_set_baseline_cstate none r

  unfoldable pub compare_pstate_single_freq : Option (CpufreqPstate D) → ReportData D → Out D
  unfolding compare_pair_freq
  compare_pstate_single_freq p r = r >>= λ rdata.
      map? (λ text. (text, some (record rdata { curr_pstate_baseline = none })))
        (compare_pair_freq p rdata.curr_pstate_baseline)

  abbrev waiting_pstate : ReportData D → Option (CpufreqPstate D) → Out D
  waiting_pstate r none = some ([], r)
  waiting_pstate r (some b) = compare_pstate_single_freq none r

  unfoldable pub compare_set_baseline_pstate : Option (CpufreqPstate D) → ReportData D → Out D
  unfolding compare_pstate_single_freq and_then
  compare_set_baseline_pstate b r =
      r >>= λ rdata. and_then (waiting_pstate r rdata.curr_pstate_baseline) (wait_for b)
    where
      wait_for : Option (CpufreqPstate D) → ReportData D → Out D
      wait_for none r = some ([], r)
      wait_for (some b) r =
          map? (λ rdata. ([], some (record rdata { curr_pstate_baseline = some b }))) r

  unfoldable pub compare_pstate_end_cpu : ReportData D → Out D
  unfolding compare_set_baseline_pstate
  compare_pstate_end_cpu r = compare_set_baseline_pstate none r

  -- The operations that the report has of its own.
  abbrev own_table :
      {A : Type 0}
      → (Option A → ReportData D → Out D)
      → (Option A → ReportData D → Out D)
      → (ReportData D → Out D)
      → TableOps D A
  own_table set single end_cpu = record {
    table_header = none;
    table_footer = none;
    cpu_header = none;
    baseline = some (λ b. set (some b));
    single = some (λ c. single (some c));
    end_cpu = some end_cpu;
  }

unfoldable pub comparison_report_ops : (D : Type 0) ⦃d : Double D⦄ ⦃f : Format D⦄ → ReportOps D
unfolding compare_check_options compare_set_baseline_cstate compare_cstate_single_state
    compare_cstate_end_cpu compare_set_baseline_pstate compare_pstate_single_freq
    compare_pstate_end_cpu
comparison_report_ops D = record {
  name = bytes "comparison";
  prepare = copy_ops_from_default;
  check_options = some compare_check_options;
  check_output = none;
  allocate_report_data = some compare_alloc_data;
  open_report_file = none;
  close_report_file = none;
  cstate = own_table compare_set_baseline_cstate compare_cstate_single_state compare_cstate_end_cpu;
  pstate = own_table compare_set_baseline_pstate compare_pstate_single_freq compare_pstate_end_cpu;
  wakeup = record {
    table_header = none;
    table_footer = none;
    cpu_header = none;
    baseline = none;
    single = none;
    end_cpu = none;
  };
}
