-- ===== src/Reports/Complete.antt =====
-- The operations that `get_report_ops` (reports.c) asserts of a report.
use idlestat.Base.{
  ℕ, ◌≡◌, refl, Bool, true, false, Option, none, some, List, [], ◌∷◌, inl, inr, eq_bytes,
  eq_bytes-eq, arith, ap, ◌∙◌, sym, some-injective, Bool-cases,
}
use idlestat.Base.Ptr.{Ptr, ptr, err_ptr}
use idlestat.Reports.{
  ReportOps, TableOps, Prepare, no_prepare, copy_ops_from_default, is_there, is_table, is_complete,
  find_ops, asserted, copied_ops, copied, prepared, with_prepare, on_found, get_report_ops,
}

-- The operation is not null.
abbrev pub Has : {A : Type 0} → Option A → Type 0
Has {A} o = (a : A) × (o ≡ some a)

abbrev pub HasTable : {D A : Type 0} → TableOps D A → Type 0
HasTable t =
    Has t.table_header × Has t.table_footer × Has t.cpu_header × Has t.single × Has t.end_cpu

-- No mandatory operation of the report is null.
abbrev pub HasOps : {D : Type 0} → ReportOps D → Type 0
HasOps ops =
    Has ops.check_output
    × Has ops.open_report_file
    × Has ops.close_report_file
    × HasTable ops.cstate
    × HasTable ops.pstate
    × HasTable ops.wakeup

is_there-Has : {A : Type 0} (o : Option A) → is_there o ≡ true → Has o
is_there-Has none e = absurd (ground arith)
is_there-Has (some a) e = (a, refl)

Has-is_there : {A : Type 0} (o : Option A) → Has o → is_there o ≡ true
Has-is_there o (a, e) = rw e refl

is_table-HasTable : {D A : Type 0} (t : TableOps D A) → is_table t ≡ true → HasTable t
is_table-HasTable t e = (
  is_there-Has t.table_header (ground (arith, e)),
  is_there-Has t.table_footer (ground (arith, e)),
  is_there-Has t.cpu_header (ground (arith, e)),
  is_there-Has t.single (ground (arith, e)),
  is_there-Has t.end_cpu (ground (arith, e)),
)

HasTable-is_table : {D A : Type 0} (t : TableOps D A) → HasTable t → is_table t ≡ true
HasTable-is_table t (a, b, c, d, e) =
    rw
      (
        Has-is_there t.table_header a,
        Has-is_there t.table_footer b,
        Has-is_there t.cpu_header c,
        Has-is_there t.single d,
        Has-is_there t.end_cpu e,
      )
      refl

-- What a search returns, where it is no error and no fault.
abbrev from_ptr : {A : Type 0} → A → Ptr A → A
from_ptr o err_ptr = o
from_ptr o (ptr p) = p

abbrev is_op : {A : Type 0} → Option (Ptr (Option A)) → Bool
is_op (some (ptr (some a))) = true
is_op _ = false

module _ {D : Type 0} where
  pub is_complete-HasOps : (ops : ReportOps D) → is_complete ops ≡ true → HasOps ops
  unfolding is_complete
  is_complete-HasOps ops e = (
    is_there-Has ops.check_output (ground (arith, e)),
    is_there-Has ops.open_report_file (ground (arith, e)),
    is_there-Has ops.close_report_file (ground (arith, e)),
    is_table-HasTable ops.cstate (ground (arith, e)),
    is_table-HasTable ops.pstate (ground (arith, e)),
    is_table-HasTable ops.wakeup (ground (arith, e)),
  )

  pub HasOps-is_complete : (ops : ReportOps D) → HasOps ops → is_complete ops ≡ true
  unfolding is_complete
  HasOps-is_complete ops (a, b, c, d, e, f) =
      rw
        (
          Has-is_there ops.check_output a,
          Has-is_there ops.open_report_file b,
          Has-is_there ops.close_report_file c,
          HasTable-is_table ops.cstate d,
          HasTable-is_table ops.pstate e,
          HasTable-is_table ops.wakeup f,
        )
        refl

  -- What the assertions let through is the report itself, with its operations.
  asserted-HasOps :
      (x ops : ReportOps D) → asserted x ≡ some (ptr (some ops)) → (x ≡ ops) × HasOps ops
  asserted-HasOps x ops e = elim (Bool-cases (is_complete x)) [
    | inr k ↦ absurd (ground (arith, k, e))
    | inl k ↦
        let same : x ≡ ops = some-injective x ops (
          ap (from_ptr none)
            (some-injective (ptr (some x)) (ptr (some ops)) (ground (arith, k, e)))) in
        (same, rw (sym same) (is_complete-HasOps x k))
  ]

  copied-HasOps :
      (self def ops : ReportOps D) (p : Prepare)
      → copied self def p ≡ some (ptr (some ops))
      → (ops.name ≡ self.name) × HasOps ops
  unfolding copied_ops
  copied-HasOps self def ops no_prepare e = elim (Bool-cases (is_complete def)) [
    | inr k ↦ absurd (ground (arith, k, e))
    | inl k ↦
        let (same, h) = asserted-HasOps (copied_ops self def) ops (ground (arith, k, e)) in
        (ap (λ (o : ReportOps D). o.name) (sym same), h)
  ]
  copied-HasOps self def ops copy_ops_from_default e = absurd (ground arith)

  prepared-HasOps :
      (self : ReportOps D) (def : Option (ReportOps D)) (ops : ReportOps D)
      → prepared self def ≡ some (ptr (some ops))
      → (ops.name ≡ self.name) × HasOps ops
  unfolding prepared
  prepared-HasOps self none ops e = absurd (ground (arith, ap is_op e))
  prepared-HasOps self (some def) ops e = copied-HasOps self def ops def.prepare e

  with_prepare-HasOps :
      (table : List (ReportOps D)) (x ops : ReportOps D) (p : Prepare)
      → with_prepare table x p ≡ some (ptr (some ops))
      → (ops.name ≡ x.name) × HasOps ops
  with_prepare-HasOps table x ops no_prepare e =
      let (same, h) = asserted-HasOps x ops e in (ap (λ (o : ReportOps D). o.name) (sym same), h)
  with_prepare-HasOps table x ops copy_ops_from_default e = prepared-HasOps x _ ops e

  find_ops-name :
      (table : List (ReportOps D)) (name : List ℕ) (x : ReportOps D)
      → find_ops table name ≡ some x
      → x.name ≡ name
  unfolding find_ops
  find_ops-name [] name x e = absurd (ground arith)
  find_ops-name (y ∷ table) name x e = elim (Bool-cases (eq_bytes y.name name)) [
    | inl k ↦
        ap (λ (o : ReportOps D). o.name) (sym (some-injective y x (ground (arith, k, e))))
        ∙ eq_bytes-eq y.name name k
    | inr k ↦ find_ops-name table name x (ground (arith, k, e))
  ]

  on_found-HasOps :
      (table : List (ReportOps D)) (name : List ℕ) (o : Option (ReportOps D)) (ops : ReportOps D)
      → find_ops table name ≡ o
      → on_found table o ≡ some (ptr (some ops))
      → (ops.name ≡ name) × HasOps ops
  on_found-HasOps table name none ops q e = absurd (ground (arith, ap is_op e))
  on_found-HasOps table name (some x) ops q e =
      let (same, h) = with_prepare-HasOps table x ops x.prepare e in
      (same ∙ find_ops-name table name x q, h)

  -- Whatever the table of reports holds: a report that `get_report_ops` returns has the name that was
  -- asked for, and none of its mandatory operations is null: the check of the output, the opening and
  -- the closing of the file, and of each of the three tables the header, the footer, the header of a CPU,
  -- the line and the end.
  pub get_report_ops-HasOps :
      (table : List (ReportOps D)) (name : List ℕ) (ops : ReportOps D)
      → get_report_ops table name ≡ some (ptr (some ops))
      → (ops.name ≡ name) × HasOps ops
  unfolding get_report_ops
  get_report_ops-HasOps table name ops e =
      on_found-HasOps table name (find_ops table name) ops refl e
