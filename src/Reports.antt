-- ===== src/Reports.antt =====
-- The reports (report_ops.h, reports.c; display_cstates, display_pstates and display_wakeup of
-- idlestat.c): the operations of a report as a record, how they are found by name, and the tables that
-- they print. An operation gives the text that it prints; a null operation that is called and an
-- assertion that fails are faults.
use idlestat.Base.{
  ℕ, zero, suc, ◌+◌, ◌≡◌, Bool, true, false, not, Option, none, some, List, [], ◌∷◌, ◌++◌,
  if◌then◌else◌, map?, ◌>>=◌, ◌==◌, ◌&&◌, ◌||◌, get_elem?, eq_bytes, bytes, length, map,
}
use idlestat.Base.Int.{ℤ, pos, add_ℤ}
use idlestat.Base.Ptr.{Ptr, err_ptr, ptr}
use idlestat.Pstates.{CpufreqPstate, CpufreqPstates}
use idlestat.Cstates.{CpuidleCstate, CpuidleCstates, WakeupIrq}
use idlestat.Energy.{rounds}
pub mod Factored
pub mod Default
pub mod Csv
pub mod Comparison
pub mod Lines
pub mod Compared
pub mod Complete
pub mod Known
pub mod Width

-- `struct compare_report_data`, which `report_data` points to or is null.
pub record CompareReportData (D : Type 0) : Type 0 where
  pub curr_cstate_baseline : Option (CpuidleCstate D)
  pub curr_pstate_baseline : Option (CpufreqPstate D)

abbrev pub ReportData : Type 0 → Type 0
ReportData D = Option (CompareReportData D)

-- What is printed, and the report's data afterwards.
abbrev pub Out : Type 0 → Type 0
Out D = Option (List ℕ × ReportData D)

-- The operations of one of the three tables; `A` is what it has a line for.
pub record TableOps (D : Type 0) (A : Type 0) : Type 0 where
  pub table_header : Option (List ℕ)
  pub table_footer : Option (List ℕ)
  pub cpu_header : Option (List ℕ → List ℕ)
  pub baseline : Option (A → ReportData D → Out D)
  pub single : Option (A → ReportData D → Out D)
  pub end_cpu : Option (ReportData D → Out D)

pub data Prepare : Type 0 where
  no_prepare copy_ops_from_default : Prepare

-- The functions that the reports have for their file: `redirect_stdout_to_file` of the path, and `fclose`
-- of stdout.
pub data OpenFile : Type 0 where
  redirect_stdout : OpenFile

pub data CloseFile : Type 0 where
  close_stdout : CloseFile

-- `check_options` is on the baseline's name; it and `check_output` tell whether there is an error.
-- `check_output` is on whether the window is too small and whether there is a file for the report.
pub record ReportOps (D : Type 0) : Type 0 where
  pub name : List ℕ
  pub prepare : Prepare
  pub check_options : Option (Option (List ℕ) → Bool)
  pub check_output : Option (Bool → Bool → Bool)
  pub allocate_report_data : Option (CompareReportData D)
  pub open_report_file : Option OpenFile
  pub close_report_file : Option CloseFile
  pub cstate : TableOps D (CpuidleCstate D)
  pub pstate : TableOps D (CpufreqPstate D)
  pub wakeup : TableOps D WakeupIrq

-- An operation that prints a text and leaves the data.
abbrev pub say : {D A : Type 0} → (A → List ℕ) → A → ReportData D → Out D
say text a r = some (text a, r)

-- Nothing to report for this state.
unfoldable pub is_nothing : {A : Type 0} → (A → Bool) → A × Option A → Bool
is_nothing empty (c, none) = empty c
is_nothing empty (c, some b) = empty c && empty b

module _ {D : Type 0} where
  -- The text of one step after that of another.
  unfoldable pub and_then : Out D → (ReportData D → Out D) → Out D
  and_then none f = none
  and_then (some (text, r)) f = map? (λ o. (text ++ o.0, o.1)) (f r)

  module _ {A : Type 0} (ops : TableOps D A) (cpu : List ℕ) where
    -- The header of the CPU, unless it is printed already.
    abbrev pub header_text : Bool → ReportData D → Out D
    header_text true r = some ([], r)
    header_text false r = map? (λ h. (h cpu, r)) ops.cpu_header

    abbrev pub baseline_text : Option A → ReportData D → Out D
    baseline_text none r = some ([], r)
    baseline_text (some b) r = elim (ops.baseline) [ none ↦ some ([], r) | some f ↦ f b r ]

    abbrev pub single_text : A → ReportData D → Out D
    single_text c r = ops.single >>= λ f. f c r

    -- A line of the table, with the baseline's if there is one.
    unfoldable pub entry_text : Bool → A × Option A → ReportData D → Out D
    unfolding and_then
    entry_text cpu_header (c, b) r =
        and_then (and_then (header_text cpu_header r) (baseline_text b)) (single_text c)

    -- The lines from one on: an entry that is empty in both traces has none.
    unfoldable pub show_entries : (A → Bool) → Bool → List (A × Option A) → ReportData D → Out D
    unfolding entry_text
    show_entries empty cpu_header [] r =
        if cpu_header then ops.end_cpu >>= (λ f. f r) else some ([], r)
    show_entries empty cpu_header (e ∷ rest) r = elim (is_nothing empty e) [
      | true ↦ show_entries empty cpu_header rest r
      | false ↦ and_then (entry_text cpu_header e r) (show_entries empty true rest)
    ]

-- `c` and `b` of the loops: entry `i`, `i + 1`, … of the arrays, the second one if there is a baseline.
abbrev pub entry_of : {A : Type 0} → Option (List A) → ℕ → Option (Option A)
entry_of none i = some none
entry_of (some bs) i = map? (λ b. some b) (get_elem? bs i)

unfoldable pub entries :
    {A : Type 0} → List A → Option (List A) → ℕ → ℕ → Option (List (A × Option A))
entries cs bs i zero = some []
entries cs bs i (suc n) =
    get_elem? cs i >>= λ c. entry_of bs i >>= λ b. map? (λ l. (c, b) ∷ l) (entries cs bs (suc i) n)

module _ {D : Type 0} (ops : ReportOps D) (cpu : List ℕ) where
  unfoldable pub display_cstates :
      CpuidleCstates D → Option (CpuidleCstates D) → ReportData D → Out D
  unfolding show_entries entries
  display_cstates s base r =
      entries s.cstate (map? (λ b. b.cstate) base) 0 (rounds (add_ℤ s.cstate_max (pos 1))) >>= λ es.
      show_entries ops.cstate cpu (λ c. c.nrdata == 0) false es r

  unfoldable pub display_pstates :
      CpufreqPstates D → Option (CpufreqPstates D) → ReportData D → Out D
  unfolding show_entries entries
  display_pstates ps base r =
      entries ps.pstate (map? (λ b. b.pstate) base) 0 (length ps.pstate) >>= λ es.
      show_entries ops.pstate cpu (λ p. p.count == 0) false es r

  -- Every interrupt has a line; there is no baseline.
  unfoldable pub display_wakeup : CpuidleCstates D → ReportData D → Out D
  unfolding show_entries
  display_wakeup s r =
      show_entries ops.wakeup cpu (λ x. false) false (map (λ x. (x, none)) s.irqinfo) r

-- The assertions of `get_report_ops` on the operations of a table.
abbrev pub is_there : {A : Type 0} → Option A → Bool
is_there none = false
is_there (some a) = true

abbrev pub is_table : {D A : Type 0} → TableOps D A → Bool
is_table t =
    is_there t.table_header
    && is_there t.table_footer
    && is_there t.cpu_header
    && is_there t.single
    && is_there t.end_cpu

module _ {D : Type 0} where
  unfoldable pub is_complete : ReportOps D → Bool
  is_complete ops =
      is_there ops.check_output
      && is_there ops.open_report_file
      && is_there ops.close_report_file
      && is_table ops.cstate
      && is_table ops.pstate
      && is_table ops.wakeup

  unfoldable pub find_ops : List (ReportOps D) → List ℕ → Option (ReportOps D)
  find_ops [] name = none
  find_ops (ops ∷ rest) name = if eq_bytes ops.name name then some ops else find_ops rest name

  abbrev pub asserted : ReportOps D → Option (Ptr (Option (ReportOps D)))
  asserted ops = if is_complete ops then some (ptr (some ops)) else none

  abbrev copy_table : {A : Type 0} → TableOps D A → TableOps D A → TableOps D A
  copy_table t def = record t {
    table_header = def.table_header;
    table_footer = def.table_footer;
    cpu_header = def.cpu_header;
  }

  -- The copies of `copy_ops_from_default`.
  unfoldable pub copied_ops : ReportOps D → ReportOps D → ReportOps D
  copied_ops self def = record self {
    check_output = def.check_output;
    open_report_file = def.open_report_file;
    close_report_file = def.close_report_file;
    cstate = copy_table self.cstate def.cstate;
    pstate = copy_table self.pstate def.pstate;
    wakeup = record (copy_table self.wakeup def.wakeup) {
      single = def.wakeup.single;
      end_cpu = def.wakeup.end_cpu;
    };
  }

  abbrev pub copied : ReportOps D → ReportOps D → Prepare → Option (Ptr (Option (ReportOps D)))
  copied self def no_prepare = if is_complete def then asserted (copied_ops self def) else none
  copied self def copy_ops_from_default = none

  -- With the default report's operations: an error of the search for them gives a null pointer, and
  -- a null pointer is followed. A default that asks for itself does not end.
  unfoldable pub prepared : ReportOps D → Option (ReportOps D) → Option (Ptr (Option (ReportOps D)))
  unfolding copied_ops is_complete
  prepared self none = some (ptr none)
  prepared self (some def) = copied self def def.prepare

  abbrev pub with_prepare :
      List (ReportOps D) → ReportOps D → Prepare → Option (Ptr (Option (ReportOps D)))
  with_prepare table ops no_prepare = asserted ops
  with_prepare table ops copy_ops_from_default = prepared ops (find_ops table (bytes "default"))

  abbrev pub on_found :
      List (ReportOps D) → Option (ReportOps D) → Option (Ptr (Option (ReportOps D)))
  on_found table none = some err_ptr
  on_found table (some ops) = with_prepare table ops ops.prepare

  -- A null pointer, an error or the operations.
  unfoldable pub get_report_ops : List (ReportOps D) → List ℕ → Option (Ptr (Option (ReportOps D)))
  unfolding find_ops prepared is_complete
  get_report_ops table name = on_found table (find_ops table name)
