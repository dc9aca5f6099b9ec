-- ===== src/Reports/Known.antt =====
-- `get_report_ops` (reports.c) on a table of reports, in whatever order the linker gives it.
use idlestat.Base.{
  ℕ, ◌≡◌, refl, Bool, true, false, Option, none, some, List, [], ◌∷◌, if◌then◌else◌, ◌⊎◌, inl, inr,
  eq_bytes, eq_bytes-eq, bytes, arith, All, ap, ◌∙◌, sym, some-injective, Bool-cases, Option-cases,
}
use idlestat.Base.Double.{Double}
use idlestat.Base.Print.{Format}
use idlestat.Base.Ptr.{ptr, err_ptr}
use idlestat.Reports.{
  ReportOps, no_prepare, is_complete, find_ops, copied_ops, prepared, get_report_ops,
}
use idlestat.Reports.Complete.{HasOps, is_complete-HasOps, HasOps-is_complete}
use idlestat.Reports.Default.{default_report_ops, boxless_report_ops}
use idlestat.Reports.Csv.{csv_report_ops}
use idlestat.Reports.Comparison.{comparison_report_ops}

-- A report that has its mandatory operations and can be used as it is, or the comparison report.
abbrev pub IsUsable : (D : Type 0) ⦃d : Double D⦄ ⦃f : Format D⦄ → ReportOps D → Type 0
IsUsable D ops = ((ops.prepare ≡ no_prepare) × HasOps ops) ⊎ (ops ≡ comparison_report_ops D)

if_some :
    {A : Type 0} (b : Bool) (x y : A) (o : Option A)
    → b ≡ true
    → (if b then some x else o) ≡ some y
    → x ≡ y
if_some true x y o h e = some-injective _ _ e
if_some false x y o h e = absurd (ground arith)

module _ {D : Type 0} where
  ready_ops :
      (table : List (ReportOps D)) (name : List ℕ) (ops : ReportOps D)
      → find_ops table name ≡ some ops
      → ops.prepare ≡ no_prepare
      → HasOps ops
      → get_report_ops table name ≡ some (ptr (some ops))
  unfolding get_report_ops
  ready_ops table name ops e p c = simp (get_report_ops, e, p, HasOps-is_complete ops c)

  unknown_ops :
      (table : List (ReportOps D)) (name : List ℕ)
      → find_ops table name ≡ none
      → get_report_ops table name ≡ some err_ptr
  unfolding get_report_ops
  unknown_ops table name e = rw (get_report_ops, e) refl

comparison_complete :
    (D : Type 0) ⦃d : Double D⦄ ⦃f : Format D⦄
    → HasOps (copied_ops (comparison_report_ops D) (default_report_ops D))
      × ((copied_ops (comparison_report_ops D) (default_report_ops D)).name
          ≡ (comparison_report_ops D).name)
unfolding is_complete comparison_report_ops default_report_ops copied_ops
comparison_complete D =
    (is_complete-HasOps (copied_ops (comparison_report_ops D) (default_report_ops D)) refl, refl)

-- The reports of the program, in one order.
abbrev pub report_table : (D : Type 0) ⦃d : Double D⦄ ⦃f : Format D⦄ → List (ReportOps D)
report_table D =
    default_report_ops D ∷ boxless_report_ops D ∷ csv_report_ops D ∷ comparison_report_ops D ∷ []

pub report_table-IsUsable :
    (D : Type 0) ⦃d : Double D⦄ ⦃f : Format D⦄ → All (IsUsable D) (report_table D)
unfolding is_complete default_report_ops boxless_report_ops csv_report_ops
report_table-IsUsable D = (
  inl (refl, is_complete-HasOps (default_report_ops D) refl),
  (
    inl (refl, is_complete-HasOps (boxless_report_ops D) refl),
    (inl (refl, is_complete-HasOps (csv_report_ops D) refl), (inr refl, tt)),
  ),
)

module _ {D : Type 0} ⦃d : Double D⦄ ⦃f : Format D⦄ where
  find_ops-IsUsable :
      (table : List (ReportOps D)) (name : List ℕ) (ops : ReportOps D)
      → All (IsUsable D) table
      → find_ops table name ≡ some ops
      → IsUsable D ops × (ops.name ≡ name)
  unfolding find_ops
  find_ops-IsUsable [] name ops h e = absurd (ground arith)
  find_ops-IsUsable (x ∷ table) name ops h e = elim (Bool-cases (eq_bytes x.name name)) [
    | inl q ↦
        let k = if_some (eq_bytes x.name name) x ops (find_ops table name) q e in
        (rw (sym k) h.0, ap (λ (o : ReportOps D). o.name) (sym k) ∙ eq_bytes-eq x.name name q)
    | inr q ↦ find_ops-IsUsable table name ops h.1 (ground (arith, q, e))
  ]

  comparison_prepared :
      prepared (comparison_report_ops D) (some (default_report_ops D))
      ≡ some (ptr (some (copied_ops (comparison_report_ops D) (default_report_ops D))))
  unfolding prepared is_complete comparison_report_ops default_report_ops copied_ops
  comparison_prepared = refl

  comparison_found :
      (table : List (ReportOps D)) (name : List ℕ)
      → find_ops table name ≡ some (comparison_report_ops D)
      → find_ops table (bytes "default") ≡ some (default_report_ops D)
      → get_report_ops table name
        ≡ some (ptr (some (copied_ops (comparison_report_ops D) (default_report_ops D))))
  unfolding get_report_ops comparison_report_ops
  comparison_found table name e g = rw (get_report_ops, e, g) comparison_prepared

  -- What a search for a report finds.
  abbrev pub Found : List (ReportOps D) → List ℕ → Type 0
  Found table name =
      (ops : ReportOps D) × (get_report_ops table name ≡ some (ptr (some ops)))
      × HasOps ops
      × (ops.name ≡ name)

  IsUsable-Found :
      (table : List (ReportOps D)) (name : List ℕ) (ops : ReportOps D)
      → find_ops table (bytes "default") ≡ some (default_report_ops D)
      → find_ops table name ≡ some ops
      → ops.name ≡ name
      → IsUsable D ops
      → Found table name
  IsUsable-Found table name ops g e n (inl (p, c)) = (ops, ready_ops table name ops e p c, c, n)
  IsUsable-Found table name ops g e n (inr k) =
      let (c, same) = comparison_complete D in
      (
        copied_ops (comparison_report_ops D) (default_report_ops D),
        comparison_found table name (e ∙ ap (λ o. some o) k) g,
        c,
        same ∙ ap (λ (o : ReportOps D). o.name) (sym k) ∙ n,
      )

  -- A search in a table whose reports have their mandatory operations or are the comparison report, in
  -- any order, with the default report under its name: either the name is unknown and it is an error, or
  -- a report of that name is returned and no mandatory operation of it is null. It is never a null pointer
  -- or a fault.
  pub get_report_ops_lem :
      (table : List (ReportOps D)) (name : List ℕ)
      → All (IsUsable D) table
      → find_ops table (bytes "default") ≡ some (default_report_ops D)
      → ((find_ops table name ≡ none) × (get_report_ops table name ≡ some err_ptr))
        ⊎ Found table name
  get_report_ops_lem table name h g = elim (Option-cases (find_ops table name)) [
    | inl e ↦ inl (e, unknown_ops table name e)
    | inr (ops, e) ↦
        let (u, n) = find_ops-IsUsable table name ops h e in
        inr (IsUsable-Found table name ops g e n u)
  ]
