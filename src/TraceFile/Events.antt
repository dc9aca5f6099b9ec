-- ===== src/TraceFile/Events.antt =====
-- Which lines of a trace file are events (`load_text_data_line`, `load_text_data_lines`, tracefile_idlestat.c;
-- `get_wakeup_irq`, idlestat.c).
use idlestat.Base.{
  ℕ, ◌+◌, ◌≡◌, refl, true, false, Option, none, some, List, [], ◌∷◌, ◌>>=◌, length, bytes, strstr,
  arith, ap, ◌∙◌, sym, some-injective, Bool-cases, inl, inr, >>=-eq-some,
}
use idlestat.Base.Int.{minus_one}
use idlestat.Base.Double.{Double}
use idlestat.Base.Scan.{Strtod, Directive, sscanf}
use idlestat.Datas.{CpuidleDatas}
use idlestat.TraceFile.{
  trace_irq_format, trace_ipiirq_format, as_event, as_irq, as_ipi, get_wakeup_irq, Span, Line,
  load_text_data_line, load_lines, count_of,
}
use idlestat.TraceFile.Taken.{is_event, not-taken, IsDone, taken-IsDone, events_of}

bind-cong :
    {A B : Type 0} (m : Option A) (f g : A → Option B)
    → ((a : A) → f a ≡ g a)
    → (m >>= f) ≡ (m >>= g)
bind-cong none f g h = refl
bind-cong (some a) f g h = h a

module _ {D : Type 0} ⦃d : Double D⦄ ⦃t : Strtod D⦄ where
  -- A line that is no event changes nothing, and is not counted.
  load_text_data_line-skip :
      (buffer : List ℕ) (datas : CpuidleDatas D) (format : List Directive) (w : Span D)
      → is_event D format buffer ≡ false
      → load_text_data_line buffer datas format w ≡ some (datas, w, minus_one)
  unfolding load_text_data_line get_wakeup_irq is_event
  load_text_data_line-skip buffer datas format w h =
      not-taken datas w (strstr buffer (bytes "cpu_idle")) (strstr buffer (bytes "cpu_frequency"))
        (strstr buffer (bytes "irq_handler_entry")) (strstr buffer (bytes "ipi_entry"))
        (as_event (sscanf buffer format)) (as_irq (sscanf {D = D} buffer trace_irq_format))
        (as_ipi (sscanf {D = D} buffer trace_ipiirq_format)) h

  load_text_data_line-IsDone :
      (buffer : List ℕ) (datas : CpuidleDatas D) (format : List Directive) (w : Span D)
      → is_event D format buffer ≡ true
      → IsDone (load_text_data_line buffer datas format w)
  unfolding load_text_data_line get_wakeup_irq is_event
  load_text_data_line-IsDone buffer datas format w h =
      taken-IsDone datas w (strstr buffer (bytes "cpu_idle"))
        (strstr buffer (bytes "cpu_frequency")) (strstr buffer (bytes "irq_handler_entry"))
        (strstr buffer (bytes "ipi_entry")) (as_event (sscanf buffer format))
        (as_irq (sscanf {D = D} buffer trace_irq_format))
        (as_ipi (sscanf {D = D} buffer trace_ipiirq_format)) h

  load_lines-cons :
      (format : List Directive) (l : List ℕ) (ls : List (List ℕ)) (datas : CpuidleDatas D)
      (w : Span D) (n : ℕ)
      → load_lines format (l ∷ ls) datas w n ≡ (
          load_text_data_line l datas format w >>= λ r.
          let (e, v, ret) = r in load_lines format ls e v (count_of ret n))
  unfolding load_lines
  load_lines-cons format l ls datas w n = refl

  load_lines-skip :
      (format : List Directive) (l : List ℕ) (ls : List (List ℕ)) (datas : CpuidleDatas D)
      (w : Span D) (n : ℕ)
      → is_event D format l ≡ false
      → load_lines format (l ∷ ls) datas w n ≡ load_lines format ls datas w n
  load_lines-skip format l ls datas w n h =
      load_lines-cons format l ls datas w n
      ∙ ap
          (λ o.
            o >>= λ (r : Line D). let (e, v, ret) = r in load_lines format ls e v (count_of ret n))
          (load_text_data_line-skip l datas format w h)

  load_lines-events_of :
      (format : List Directive) (ls : List (List ℕ)) (datas : CpuidleDatas D) (w : Span D) (n : ℕ)
      → load_lines format ls datas w n ≡ load_lines format (events_of D format ls) datas w n
  load_lines-events_of format [] datas w n = refl
  load_lines-events_of format (l ∷ ls) datas w n = elim (Bool-cases (is_event D format l)) [
    | inl e ↦ rw e (
        load_lines-cons format l ls datas w n
        ∙ bind-cong (load_text_data_line l datas format w) _ _
            (λ r. load_lines-events_of format ls r.0 r.1 (count_of r.2 n))
        ∙ sym (load_lines-cons format l (events_of D format ls) datas w n))
    | inr e ↦
        rw e (load_lines-skip format l ls datas w n e ∙ load_lines-events_of format ls datas w n)
  ]

  load_lines-count :
      (format : List Directive) (ls : List (List ℕ)) (datas : CpuidleDatas D) (w : Span D) (n : ℕ)
      (r : CpuidleDatas D × Span D × ℕ)
      → load_lines format ls datas w n ≡ some r
      → r.2 ≡ n + length (events_of D format ls)
  unfolding load_lines
  load_lines-count format [] datas w n r e =
      let k = ap (λ (r : CpuidleDatas D × Span D × ℕ). r.2) (some-injective _ _ e) in
      omega (arith, k)
  load_lines-count format (l ∷ ls) datas w n r e = elim (Bool-cases (is_event D format l)) [
    | inl h ↦
        let (x, e1, e2) = >>=-eq-some (load_text_data_line l datas format w) _ e in
        let counted = load_lines-count format ls x.0 x.1 (count_of x.2 n) r e2 in
        let one = ap (λ z. count_of z n) (load_text_data_line-IsDone l datas format w h x e1) in
        rw h (omega (arith, counted, one))
    | inr h ↦
        rw h (
          load_lines-count format ls datas w n r
            (sym (load_lines-skip format l ls datas w n h) ∙ e))
  ]

  -- What is loaded depends on the events of the file alone, and they are what is counted: with the
  -- lines that are no events left out the outcome is the same, and where there is no fault the number
  -- that is reported has grown by the number of events.
  pub load_lines_lem :
      (format : List Directive) (ls : List (List ℕ)) (datas : CpuidleDatas D) (w : Span D) (n : ℕ)
      → (load_lines format ls datas w n ≡ load_lines format (events_of D format ls) datas w n)
        × ((r : CpuidleDatas D × Span D × ℕ)
            → load_lines format ls datas w n ≡ some r
            → r.2 ≡ n + length (events_of D format ls))
  load_lines_lem format ls datas w n =
      (load_lines-events_of format ls datas w n, load_lines-count format ls datas w n)
