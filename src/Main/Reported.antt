-- ===== src/Main/Reported.antt =====
-- The state in which main (idlestat.c) prints its report.
use idlestat.Base.{
  none, [], ◌∷◌, ◌++◌, ◌⊎◌, inl, inr, ◌||◌, map?-eq-some, map?, ℕ, ◌≡◌, refl, Bool, true, false,
  Option, some, List, map?, ◌>>=◌, ◌||◌, arith, ap, ◌∙◌, sym, ◌⊎◌, inl, inr, >>=-eq-some,
  map?-eq-some, some-injective,
}
use idlestat.Base.Int.{pos}
use idlestat.Base.Double.{Double}
use idlestat.Base.Print.{Format}
use idlestat.Base.Ptr.{Ptr, err_ptr, ptr}
use idlestat.Base.Scan.{Strtod}
use idlestat.Topology.{CpuTopology}
use idlestat.Topology.Baseline.{assign_baseline_in_topo}
use idlestat.Datas.{CpuidleDatas}
use idlestat.Options.{
  trace_mode, import_mode, Mode, trace_mode, import_mode, is_trace, ProgramOptions, Mode,
  trace_mode, import_mode, ProgramOptions, is_trace,
}
use idlestat.Energy.{ClusterEnergyInfo, ClusterEnergy}
use idlestat.Energy.Printed.{energy_text}
use idlestat.Reports.{OpenFile, redirect_stdout, CloseFile, close_stdout, ReportOps, ReportData}
use idlestat.Main.Program.{
  Host, Ending, failed, reported, run_report, report_trace, report_loaded, load_baseline,
  print_report, printed, report_run, energy_of, traced, load, redirect_stdout_to_file, opened_by,
  closed_by, show_opened,
}
use idlestat.Main.Show.{show_report}
use idlestat.Main.Entry.{}
use idlestat.Main.Stopped.{HasSwitch, Switch, trace_run-stopped}

pub bind-holds :
    {A B : Type 0} (P : B → Type 0) (m : Option A) (f : A → Option B) {b : B}
    → ((a : A) → f a ≡ some b → P b)
    → (m >>= f) ≡ some b
    → P b
bind-holds P m f k e = let (a, _, e1) = >>=-eq-some m f e in k a e1

pub tracing-mode :
    (mode : Mode) (chosen : Option Mode) (has_command : Bool)
    → chosen ≡ some mode
    → (chosen ≡ some trace_mode) ⊎ (has_command ≡ true)
    → is_trace mode || has_command ≡ true
tracing-mode mode chosen has_command m (inl t) =
    ground (arith, ap is_trace (some-injective _ _ (sym m ∙ t)))
tracing-mode mode chosen has_command m (inr t) = ground (arith, t)

pub importing-mode :
    (mode : Mode) (chosen : Option Mode) (has_command : Bool)
    → chosen ≡ some mode
    → chosen ≡ some import_mode
    → has_command ≡ false
    → is_trace mode || has_command ≡ false
importing-mode mode chosen has_command m t n =
    ground (arith, n, ap is_trace (some-injective _ _ (sym m ∙ t)))

abbrev pub is_reported : {D : Type 0} → Ending D → Bool
is_reported (reported text energy) = true
is_reported _ = false

abbrev text_of : {D : Type 0} → Ending D → List ℕ
text_of (reported text energy) = text
text_of _ = []

abbrev spent_of : {D : Type 0} → Ending D → Option (List (ClusterEnergy D) × D)
spent_of (reported text energy) = energy
spent_of _ = none

module _ {S D : Type 0} ⦃d : Double D⦄ ⦃f : Format D⦄ ⦃t : Strtod D⦄ (host : Host S D) where
  -- The report's file, if there is one, is created or emptied, and is left with the text.
  abbrev pub report_left : Option (List ℕ) → List ℕ → S → S
  report_left none text s = s
  report_left (some path) text s =
      (host.machine.write_file path (text ∷ []) (host.machine.write_file path [] s).0).0

  -- A report that was printed changes nothing but its file, which holds the tables and the energy.
  abbrev pub Prints : Option (List ℕ) → S → S × Ending D → Type 0
  Prints path s x =
      (text : List ℕ) (energy : Option (List (ClusterEnergy D) × D))
      → x.1 ≡ reported text energy
      → x.0 ≡ report_left path (text ++ energy_text energy) s

  pub failed-Prints :
      (path : Option (List ℕ)) (s u : S) (x : S × Ending D)
      → some (u, failed) ≡ some x
      → Prints path s x
  failed-Prints path s u x e text energy l =
      absurd (ground (arith, ap is_reported l, ap (λ z. is_reported z.1) (some-injective _ _ e)))

  -- The state in which the report is printed.
  opened_by-state :
      (opens : OpenFile) (path : Option (List ℕ)) (s : S)
      → (opened_by host opens path s).1 ≡ true
      → (closes : CloseFile) (text : List ℕ)
      → closed_by host closes path text (opened_by host opens path s).0 ≡ report_left path text s
  unfolding redirect_stdout_to_file
  opened_by-state redirect_stdout none s e close_stdout text = refl
  opened_by-state redirect_stdout (some path) s e close_stdout text = ground (arith, e)

  show_opened-Prints :
      (o : ProgramOptions) (ops : ReportOps D) (rdata : ReportData D)
      (model : Option (List ClusterEnergyInfo)) (datas : CpuidleDatas D)
      (baseline : Option (CpuidleDatas D)) (s : S) (r : S × Bool) (x : S × Ending D)
      → (r.1 ≡ true
          → (closes : CloseFile) (text : List ℕ)
          → closed_by host closes o.outfilename text r.0 ≡ report_left o.outfilename text s)
      → show_opened host o ops rdata model datas baseline r ≡ some x
      → Prints o.outfilename s x
  show_opened-Prints o ops rdata model datas baseline s (u, false) x h e =
      failed-Prints o.outfilename s u x e
  show_opened-Prints o ops rdata model datas baseline s (u, true) x h e =
      bind-holds (Prints o.outfilename s) (show_report ops o.display datas baseline rdata)
        (printed host o ops model datas u)
        (λ out.
          bind-holds (Prints o.outfilename s) (energy_of host model datas) _
            λ spent k. printed-Prints out spent (map?-eq-some _ ops.close_report_file {b = x} k))
        e
    where
      printed-Prints :
          (out : List ℕ × ReportData D) (spent : Option (List (ClusterEnergy D) × D))
          → ((closes : CloseFile) × (ops.close_report_file ≡ some closes)
              × ((
                closed_by host closes o.outfilename (out.0 ++ energy_text spent) u,
                reported out.0 spent,
              )
                  ≡ x))
          → Prints o.outfilename s x
      printed-Prints out spent (closes, _, k) text energy l =
          sym (ap (λ (z : S × Ending D). z.0) k)
          ∙ h refl closes (out.0 ++ energy_text spent)
          ∙ ap (λ z. report_left o.outfilename (text_of z ++ energy_text (spent_of z)) s)
              (ap (λ (z : S × Ending D). z.1) k ∙ l)

  pub print_report-Prints :
      (o : ProgramOptions) (ops : ReportOps D) (rdata : ReportData D)
      (model : Option (List ClusterEnergyInfo)) (datas : CpuidleDatas D)
      (baseline : Option (CpuidleDatas D)) (s : S) (x : S × Ending D)
      → print_report host o ops rdata model datas baseline s ≡ some x
      → Prints o.outfilename s x
  unfolding print_report
  print_report-Prints o ops rdata model datas baseline s x =
      bind-holds (Prints o.outfilename s) ops.open_report_file _ λ opens.
        show_opened-Prints o ops rdata model datas baseline s (opened_by host opens o.outfilename s)
          x (opened_by-state opens o.outfilename s)

  pub report_trace-Prints :
      (o : ProgramOptions) (ops : ReportOps D) (rdata : ReportData D)
      (model : Option (List ClusterEnergyInfo)) (datas : CpuidleDatas D) (s : S) (r : S × Ending D)
      → report_trace host o ops rdata model datas s ≡ some r
      → Prints o.outfilename s r
  unfolding report_trace
  report_trace-Prints o ops rdata model datas s r =
      let P = Prints o.outfilename s in
      bind-holds P (load_baseline host datas o.baseline_filename s) _ λ b.
        bind-holds P
          (assign_baseline_in_topo (b.0).topo (map? (λ (b : CpuidleDatas D). b.topo) b.1)) _
          λ topo. print_report-Prints o ops rdata model (record (b.0) { topo = topo }) b.1 s r

  pub report_loaded-Prints :
      (o : ProgramOptions) (ops : ReportOps D) (rdata : ReportData D)
      (model : Option (List ClusterEnergyInfo)) (s : S) (p : Ptr (CpuidleDatas D))
      (r : S × Ending D)
      → report_loaded host o ops rdata model s p ≡ some r
      → Prints o.outfilename s r
  report_loaded-Prints o ops rdata model s err_ptr r e = failed-Prints o.outfilename s s r e
  report_loaded-Prints o ops rdata model s (ptr datas) r e =
      report_trace-Prints o ops rdata model datas s r e

  pub run_report-untraced :
      (has_command : Bool) (o : ProgramOptions) (path : List ℕ) (ops : ReportOps D)
      (rdata : ReportData D) (model : Option (List ClusterEnergyInfo)) (s : S) (r : S × Ending D)
      → run_report host false has_command o path ops rdata model s ≡ some r
      → Prints o.outfilename s r
  unfolding run_report
  run_report-untraced has_command o path ops rdata model s r e =
      let (p, _, e1) = >>=-eq-some (load host path s) _ e in
      report_loaded-Prints o ops rdata model s p r e1

  pub traced-stopped :
      (h : HasSwitch host.machine) (has_command : Bool) (o : ProgramOptions) (path : List ℕ)
      (topo : Ptr (CpuTopology D)) (s : S)
      → (traced host has_command o path topo s).1 ≡ true
      → Switch host.machine h (pos 0) (traced host has_command o path topo s).0
  traced-stopped h has_command o path err_ptr s e = absurd (ground arith)
  traced-stopped h has_command o path (ptr topo) s e =
      trace_run-stopped host.machine h has_command o path topo s e

  report_left-Switch :
      (h : HasSwitch host.machine) (path : Option (List ℕ)) (text : List ℕ) (s : S)
      → Switch host.machine h (pos 0) s
      → Switch host.machine h (pos 0) (report_left path text s)
  report_left-Switch h none text s k = k
  report_left-Switch h (some path) text s k =
      h.stored path (text ∷ []) (host.machine.write_file path [] s).0 ∙ h.stored path [] s ∙ k

  pub report_run-stopped :
      (h : HasSwitch host.machine) (o : ProgramOptions) (path : List ℕ) (ops : ReportOps D)
      (rdata : ReportData D) (model : Option (List ClusterEnergyInfo)) (r : S × Bool)
      (x : S × Ending D) (text : List ℕ) (energy : Option (List (ClusterEnergy D) × D))
      → (r.1 ≡ true → Switch host.machine h (pos 0) r.0)
      → report_run host o path ops rdata model r ≡ some x
      → x.1 ≡ reported text energy
      → Switch host.machine h (pos 0) x.0
  report_run-stopped h o path ops rdata model (s, true) x text energy k e l =
      let prints : Prints o.outfilename s x =
        bind-holds (Prints o.outfilename s) (load host path s) _
          (λ p. report_loaded-Prints o ops rdata model s p x) e in
      rw (prints text energy l)
        (report_left-Switch h o.outfilename (text ++ energy_text energy) s (k refl))
  report_run-stopped h o path ops rdata model (s, false) x text energy k e l =
      absurd (ground (arith, ap is_reported l, ap (λ z. is_reported z.1) (some-injective _ _ e)))
