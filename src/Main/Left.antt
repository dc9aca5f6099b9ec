-- ===== src/Main/Left.antt =====
-- In which state `main` (idlestat.c) leaves the machine when it has printed a report.
use idlestat.Base.{
  ◌++◌, ◌⊎◌, inl, inr, ◌||◌, ℕ, ◌≡◌, refl, Bool, true, false, not, Option, none, some, List, ◌&&◌,
  ◌||◌, arith, ap, ◌∙◌, sym, ◌⊎◌, inl, inr, Bool-cases, >>=-eq-some, some-injective,
}
use idlestat.Base.Int.{pos}
use idlestat.Base.Double.{Double}
use idlestat.Base.Print.{Format}
use idlestat.Base.Ptr.{Ptr, err_ptr, ptr}
use idlestat.Base.Scan.{Strtod}
use idlestat.Options.{
  trace_mode, import_mode, accepted, Parsed, getoptions, or_default, Mode, trace_mode, import_mode,
  is_trace, ProgramOptions, Mode, trace_mode, import_mode, ProgramOptions, Parsed, accepted,
  getoptions, is_trace, or_default,
}
use idlestat.Energy.{ClusterEnergyInfo, ClusterEnergy}
use idlestat.Energy.Printed.{energy_text}
use idlestat.Reports.{get_report_ops, ReportOps, ReportData, get_report_ops}
use idlestat.Main.Program.{
  model_failed, model_left, ModelRead, model_read, Host, Ending, failed, reported, model_failed,
  model_left, ModelRead, model_read, run_report,
}
use idlestat.Main.Entry.{
  main, main_options, main_with, main_options, with_report, main, read_model, check_baseline,
  has_name, continue, after_check, main, main_options, main_with, with_report, read_model,
}
use idlestat.Main.Stopped.{HasSwitch, Switch}
use idlestat.Main.Reported.{
  bind-holds, tracing-mode, importing-mode, report_left, run_report-untraced, traced-stopped,
  is_reported, report_run-stopped,
}

module _ {S D : Type 0} ⦃d : Double D⦄ ⦃f : Format D⦄ ⦃t : Strtod D⦄ (host : Host S D) where
  -- What a report that is printed says of the state after it.
  abbrev pub Leaves : HasSwitch host.machine → Option (List ℕ) → Bool → S → S × Ending D → Type 0
  Leaves h path tracing s x =
      (text : List ℕ) (energy : Option (List (ClusterEnergy D) × D))
      → x.1 ≡ reported text energy
      → (tracing ≡ true → Switch host.machine h (pos 0) x.0)
        × (tracing ≡ false → x.0 ≡ report_left host path (text ++ energy_text energy) s)

  module _ (h : HasSwitch host.machine) (has_command : Bool) (o : ProgramOptions) where
    run_report-Leaves :
        (tracing : Bool) (path : List ℕ) (ops : ReportOps D) (rdata : ReportData D)
        (model : Option (List ClusterEnergyInfo)) (s : S) (x : S × Ending D)
        → run_report host tracing has_command o path ops rdata model s ≡ some x
        → Leaves h o.outfilename tracing s x
    unfolding run_report
    run_report-Leaves true path ops rdata model s x e text energy l = (
      (λ _.
          report_run-stopped host h o path ops rdata model _ x text energy
            (traced-stopped host h has_command o path host.machine.sysfs_topo s) e l),
      (λ k. absurd (ground arith)),
    )
    run_report-Leaves false path ops rdata model s x e text energy l = (
      (λ k. absurd (ground arith)),
      (λ _. run_report-untraced host has_command o path ops rdata model s x e text energy l),
    )

    unreported :
        (tracing : Bool) (s u : S) (x : S × Ending D)
        → some (u, failed) ≡ some x
        → Leaves h o.outfilename tracing s x
    unreported tracing s u x e text energy l =
        absurd (ground (arith, ap is_reported l, ap (λ z. is_reported z.1) (some-injective _ _ e)))

    continue-Leaves :
        (mode : Mode) (path : List ℕ) (ops : ReportOps D) (s : S) (m : ModelRead S)
        (x : S × Ending D)
        → continue host has_command o mode path ops s m ≡ some x
        → Leaves h o.outfilename (is_trace mode || has_command) s x
    continue-Leaves mode path ops s (model_failed u) x e text energy l =
        unreported _ s u x e text energy l
    continue-Leaves mode path ops s (model_left u) x e text energy l =
        absurd (ground (arith, ap is_reported l, ap (λ z. is_reported z.1) (some-injective _ _ e)))
    continue-Leaves mode path ops s (model_read model) x e text energy l =
        run_report-Leaves (is_trace mode || has_command) path ops ops.allocate_report_data model s x
          e text energy l

    after_check-Leaves :
        (mode : Mode) (path : List ℕ) (ops : ReportOps D) (s : S) (check : Bool → Bool → Bool)
        (x : S × Ending D)
        → after_check host has_command o mode path ops s check ≡ some x
        → Leaves h o.outfilename (is_trace mode || has_command) s x
    after_check-Leaves mode path ops s check x e =
        elim (Bool-cases (check host.narrow_window (has_name o.outfilename))) [
          | inl k ↦ unreported _ s s x (ground (arith, k, e))
          | inr k ↦
              bind-holds (Leaves h o.outfilename (is_trace mode || has_command) s)
                (read_model host mode path o.energy_model_filename s)
                (continue host has_command o mode path ops s)
                (λ m. continue-Leaves mode path ops s m x) (ground (arith, k, e))
        ]

    with_report-Leaves :
        (mode : Mode) (path : List ℕ) (s : S) (p : Ptr (Option (ReportOps D))) (x : S × Ending D)
        → with_report host has_command o mode path s p ≡ some x
        → Leaves h o.outfilename (is_trace mode || has_command) s x
    unfolding main_with
    with_report-Leaves mode path s err_ptr x e = unreported _ s s x e
    with_report-Leaves mode path s (ptr none) x e = absurd (ground arith)
    with_report-Leaves mode path s (ptr (some ops)) x e =
        elim (Bool-cases (check_baseline ops.check_options o.baseline_filename)) [
          | inl k ↦ unreported _ s s x (ground (arith, k, e))
          | inr k ↦
              bind-holds (Leaves h o.outfilename (is_trace mode || has_command) s) ops.check_output
                (after_check host has_command o mode path ops s)
                (λ check. after_check-Leaves mode path ops s check x) (ground (arith, k, e))
        ]

    main_options-Leaves :
        (s : S) (x : S × Ending D)
        → main_options host has_command o s ≡ some x
        → (mode : Mode) × (o.mode ≡ some mode)
          × Leaves h o.outfilename (is_trace mode || has_command) s x
    unfolding main_options
    main_options-Leaves s x e =
        let (mode, m, e1) = >>=-eq-some o.mode _ e in
        (
          mode,
          m,
          bind-holds (Leaves h o.outfilename (is_trace mode || has_command) s) o.filename _
              (λ path k. elim (Bool-cases (is_trace mode && not host.is_root)) [
                | inl b ↦ unreported _ s s x (ground (arith, b, k))
                | inr b ↦
                    bind-holds (Leaves h o.outfilename (is_trace mode || has_command) s)
                      (get_report_ops host.reports (or_default o.report_type_name))
                      (with_report host has_command o mode path s)
                      (λ p. with_report-Leaves mode path s p x) (ground (arith, b, k))
              ])
              e1,
        )

  main-accepted :
      (signed : Bool) (ps : List Parsed) (has_command : Bool) (s : S) (o : ProgramOptions)
      → getoptions signed ps ≡ accepted o
      → main host signed ps has_command s ≡ main_options host has_command o s
  unfolding main
  main-accepted signed ps has_command s o e = rw (main, e) refl

  -- Where nothing but a write to it changes the switch `tracing_on`, and `main` accepts the options and
  -- prints a report: if it was to trace (in trace mode, or with a command), the kernel records no events
  -- afterwards, and if it only imported a trace, the machine is as it was but for the file that the report
  -- goes to, if one is named: that is created or emptied, and is left with the text of the report and of
  -- the energy.
  pub main_lem :
      (h : HasSwitch host.machine) (signed : Bool) (ps : List Parsed) (has_command : Bool) (s u : S)
      (o : ProgramOptions) (text : List ℕ) (energy : Option (List (ClusterEnergy D) × D))
      → getoptions signed ps ≡ accepted o
      → main host signed ps has_command s ≡ some (u, reported text energy)
      → ((o.mode ≡ some trace_mode) ⊎ (has_command ≡ true) → Switch host.machine h (pos 0) u)
        × (o.mode ≡ some import_mode
            → has_command ≡ false
            → u ≡ report_left host o.outfilename (text ++ energy_text energy) s)
  main_lem h signed ps has_command s u o text energy e k =
      let (mode, m, l) =
        main_options-Leaves h has_command o s (u, reported text energy)
          (sym (main-accepted signed ps has_command s o e) ∙ k) in
      let (on, off) = l text energy refl in
      (
        (λ t. on (tracing-mode mode o.mode has_command m t)),
        (λ i n. off (importing-mode mode o.mode has_command m i n)),
      )
