-- ===== src/Reports/Lines.antt =====
-- The tables of display_cstates, display_pstates and display_wakeup (idlestat.c), line by line, for a
-- report whose operations print a line for an entry and leave the report's data as they were.
use idlestat.Base.{
  not, ℕ, ◌≡◌, refl, Bool, true, false, Option, none, some, List, [], ◌∷◌, ◌++◌, append-nil,
  if◌then◌else◌, ◌>>=◌, ap, Bool-cases, inl, inr,
}
use idlestat.Reports.{
  ReportData, TableOps, and_then, baseline_text, single_text, entry_text, show_entries, is_nothing,
}
use idlestat.Reports.Default.{plain_table}

-- What a table is: the header of the CPU before the first entry that is shown, the lines of these entries
-- in order, and an end if there was one.
module _ {A : Type 0} (shown : A × Option A → Bool) (row : A × Option A → List ℕ)
    (fin : List ℕ) where
  abbrev pub rest_text : List (A × Option A) → List ℕ
  rest_text [] = fin
  rest_text (e ∷ es) = if shown e then row e ++ rest_text es else rest_text es

  abbrev pub table_text : List ℕ → List (A × Option A) → List ℕ
  table_text header [] = []
  table_text header (e ∷ es) =
      if shown e then (header ++ row e) ++ rest_text es else table_text header es

module _ {D A : Type 0} where
  -- The operations print the row of an entry after any text, from the data `r`, and leave `r`.
  pub record IsByLine (ops : TableOps D A) (header : List ℕ → List ℕ) (row : A × Option A → List ℕ)
      (fin : List ℕ) (r : ReportData D) : Type 0 where
    pub header_is : ops.cpu_header ≡ some header
    pub entry_is :
        (cpu text : List ℕ) (c : A) (b : Option A)
        → and_then (and_then (some (text, r)) (baseline_text ops cpu b)) (single_text ops cpu c)
          ≡ some (text ++ row (c, b), r)
    pub end_is : (ops.end_cpu >>= (λ f. f r)) ≡ some (fin, r)

  plain-single :
      (header footer : List ℕ) (cpu_header : List ℕ → List ℕ) (single : A → List ℕ) (fin : List ℕ)
      (r : ReportData D) (cpu text : List ℕ) (c : A) (b : Option A)
      → and_then
          (and_then
            (some (text, r))
            (baseline_text (plain_table {D = D} header footer cpu_header single fin) cpu b))
          (single_text (plain_table {D = D} header footer cpu_header single fin) cpu c)
        ≡ some (text ++ single c, r)
  unfolding and_then
  plain-single header footer cpu_header single fin r cpu text c none =
      ap (λ t. some (t ++ single c, r)) (append-nil text)
  plain-single header footer cpu_header single fin r cpu text c (some b) =
      ap (λ t. some (t ++ single c, r)) (append-nil text)

  -- The tables of the reports without a baseline.
  pub plain_table-IsByLine :
      (header footer : List ℕ) (cpu_header : List ℕ → List ℕ) (single : A → List ℕ) (fin : List ℕ)
      (r : ReportData D)
      → IsByLine
          (plain_table {D = D} header footer cpu_header single fin)
          cpu_header
          (λ e. single e.0)
          fin
          r
  plain_table-IsByLine header footer cpu_header single fin r = record {
    header_is = refl;
    entry_is = plain-single header footer cpu_header single fin r;
    end_is = refl;
  }

  module _ (ops : TableOps D A) (header : List ℕ → List ℕ) (row : A × Option A → List ℕ)
      (fin : List ℕ) (r : ReportData D) (by_line : IsByLine ops header row fin r) (empty : A → Bool)
      (shown : A × Option A → Bool) (is : (e : A × Option A) → is_nothing empty e ≡ not (shown e))
      (cpu : List ℕ) where
    entry-first :
        (c : A) (b : Option A)
        → entry_text ops cpu false (c, b) r ≡ some (header cpu ++ row (c, b), r)
    unfolding entry_text
    entry-first c b = rw by_line.header_is (by_line.entry_is cpu (header cpu) c b)

    entry-later : (c : A) (b : Option A) → entry_text ops cpu true (c, b) r ≡ some (row (c, b), r)
    unfolding entry_text
    entry-later c b = by_line.entry_is cpu [] c b

    show-rest :
        (es : List (A × Option A))
        → show_entries ops cpu empty true es r ≡ some (rest_text shown row fin es, r)
    unfolding show_entries and_then
    show-rest [] = by_line.end_is
    show-rest ((c, b) ∷ es) = elim (Bool-cases (shown (c, b))) [
      | inl e ↦ rw (show_entries, is (c, b), e) (rw (entry-later c b) (rw (show-rest es) refl))
      | inr e ↦ rw (show_entries, is (c, b), e) (show-rest es)
    ]

    -- A table is the text of its lines.
    pub show-lines :
        (es : List (A × Option A))
        → show_entries ops cpu empty false es r ≡ some (table_text shown row fin (header cpu) es, r)
    unfolding show_entries and_then
    show-lines [] = refl
    show-lines ((c, b) ∷ es) = elim (Bool-cases (shown (c, b))) [
      | inl e ↦ rw (show_entries, is (c, b), e) (rw (entry-first c b) (rw (show-rest es) refl))
      | inr e ↦ rw (show_entries, is (c, b), e) (show-lines es)
    ]
