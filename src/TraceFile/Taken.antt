-- ===== src/TraceFile/Taken.antt =====
-- Which lines of a trace file are events, line by line: load_text_data_line (tracefile_idlestat.c) and
-- get_wakeup_irq (idlestat.c).
use idlestat.Base.{
  ℕ, ◌≡◌, refl, Bool, true, false, Option, none, some, List, [], ◌∷◌, if◌then◌else◌, map?, ◌>>=◌,
  bytes, strstr, arith, ap, ◌∙◌, sym, some-injective, >>=-eq-some, map?-eq-some,
}
use idlestat.Base.Int.{ℤ, pos, minus_one, to_int}
use idlestat.Base.Double.{Double}
use idlestat.Base.Scan.{Strtod, Directive, sscanf}
use idlestat.Topology.Build.{nonneg}
use idlestat.Datas.{CpuidleDatas, store_data, cpu_change_pstate, store_cpu_irq}
use idlestat.TraceFile.{
  trace_irq_format, trace_ipiirq_format, as_event, as_irq, as_ipi, wake, wake_irq, wake_ipi,
  drop_last, Span, Line, idle_line, frequency_line,
}

abbrev pub is_some : {A : Type 0} → Option A → Bool
is_some none = false
is_some (some a) = true

-- Whether a line is an event, whatever the data: one of the four kinds, in the form of its format.
unfoldable pub is_event : (D : Type 0) ⦃t : Strtod D⦄ → List Directive → List ℕ → Bool
is_event D format buffer =
    if strstr buffer (bytes "cpu_idle")
    then is_some (as_event (sscanf {D = D} buffer format))
    else if strstr buffer (bytes "cpu_frequency")
    then is_some (as_event (sscanf {D = D} buffer format))
    else if strstr buffer (bytes "irq_handler_entry")
    then is_some (as_irq (sscanf {D = D} buffer trace_irq_format))
    else if strstr buffer (bytes "ipi_entry")
    then is_some (as_ipi (sscanf {D = D} buffer trace_ipiirq_format))
    else false

module _ {D : Type 0} ⦃d : Double D⦄ where
  pub idle_line-none :
      (datas : CpuidleDatas D) (w : Span D) (o : Option (D × ℕ × ℤ))
      → is_some o ≡ false
      → idle_line datas w o ≡ some (datas, w, minus_one)
  unfolding idle_line
  idle_line-none datas w none h = refl
  idle_line-none datas w (some x) h = absurd (ground arith)

  pub frequency_line-none :
      (datas : CpuidleDatas D) (w : Span D) (o : Option (D × ℕ × ℤ))
      → is_some o ≡ false
      → frequency_line datas w o ≡ some (datas, w, minus_one)
  unfolding frequency_line
  frequency_line-none datas w none h = refl
  frequency_line-none datas w (some x) h = absurd (ground arith)

  pub wake_irq-none :
      (datas : CpuidleDatas D) (o : Option (ℤ × ℤ × List ℕ))
      → is_some o ≡ false
      → wake_irq datas o ≡ some (datas, minus_one)
  wake_irq-none datas none h = refl
  wake_irq-none datas (some x) h = absurd (ground arith)

  pub wake_ipi-none :
      (datas : CpuidleDatas D) (o : Option (ℤ × List ℕ))
      → is_some o ≡ false
      → wake_ipi datas o ≡ some (datas, minus_one)
  wake_ipi-none datas none h = refl
  wake_ipi-none datas (some x) h = absurd (ground arith)

  -- The choice among the four kinds, on what the tests and the formats give.
  abbrev pub chosen :
      Bool
      → Bool
      → Bool
      → Bool
      → Option (D × ℕ × ℤ)
      → Option (ℤ × ℤ × List ℕ)
      → Option (ℤ × List ℕ)
      → Bool
  chosen a b c e o p q =
      if a
      then is_some o
      else if b
      then is_some o
      else if c
      then is_some p
      else if e
      then is_some q
      else false

  abbrev pub taken :
      CpuidleDatas D
      → Span D
      → Bool
      → Bool
      → Bool
      → Bool
      → Option (D × ℕ × ℤ)
      → Option (ℤ × ℤ × List ℕ)
      → Option (ℤ × List ℕ)
      → Option (Line D)
  taken datas w a b c e o p q =
      if a
      then idle_line datas w o
      else if b
      then frequency_line datas w o
      else map? {B = Line D} (λ r. (r.0, w, r.1))
          (if c then wake_irq datas p else if e then wake_ipi datas q else some (datas, minus_one))

  pub not-taken :
      (datas : CpuidleDatas D) (w : Span D) (a b c e : Bool) (o : Option (D × ℕ × ℤ))
      (p : Option (ℤ × ℤ × List ℕ)) (q : Option (ℤ × List ℕ))
      → chosen a b c e o p q ≡ false
      → taken datas w a b c e o p q ≡ some (datas, w, minus_one)
  not-taken datas w true b c e o p q h = idle_line-none datas w o h
  not-taken datas w false true c e o p q h = frequency_line-none datas w o h
  not-taken datas w false false true e o p q h = rw (wake_irq-none datas p h) refl
  not-taken datas w false false false true o p q h = rw (wake_ipi-none datas q h) refl
  not-taken datas w false false false false o p q h = refl

  -- What an event returns.
  abbrev pub IsDone : Option (Line D) → Type 0
  IsDone o = (r : Line D) → o ≡ some r → r.2 ≡ pos 0

  pub idle_line-IsDone :
      (datas : CpuidleDatas D) (w : Span D) (o : Option (D × ℕ × ℤ))
      → is_some o ≡ true
      → IsDone (idle_line datas w o)
  unfolding idle_line
  idle_line-IsDone datas w none h r e = absurd (ground arith)
  idle_line-IsDone datas w (some (time, state, cpu)) h r e =
      let (c, _, e1) = >>=-eq-some (nonneg cpu) _ e in
      let (x, _, e2) = map?-eq-some _ (store_data time (to_int state) c datas) e1 in
      ap (λ (r : Line D). r.2) (sym e2)

  pub frequency_line-IsDone :
      (datas : CpuidleDatas D) (w : Span D) (o : Option (D × ℕ × ℤ))
      → is_some o ≡ true
      → IsDone (frequency_line datas w o)
  unfolding frequency_line
  frequency_line-IsDone datas w none h r e = absurd (ground arith)
  frequency_line-IsDone datas w (some (time, freq, cpu)) h r e =
      let (x, _, e1) = map?-eq-some _ (cpu_change_pstate datas cpu freq time) e in
      ap (λ (r : Line D). r.2) (sym e1)

  pub wake-done :
      (datas : CpuidleDatas D) (cpu irqid : ℤ) (name : List ℕ) (r : CpuidleDatas D × ℤ)
      → wake datas cpu irqid name ≡ some r
      → r.1 ≡ pos 0
  unfolding wake
  wake-done datas cpu irqid name r e =
      let (x, _, e1) = map?-eq-some _ (nonneg cpu >>= λ c. store_cpu_irq c irqid name datas) e in
      ap (λ (r : CpuidleDatas D × ℤ). r.1) (sym e1)

  pub wakes-IsDone :
      (w : Span D) (o : Option (CpuidleDatas D × ℤ))
      → ((r : CpuidleDatas D × ℤ) → o ≡ some r → r.1 ≡ pos 0)
      → IsDone (map? {B = Line D} (λ r. (r.0, w, r.1)) o)
  wakes-IsDone w none h r e = absurd (ground arith)
  wakes-IsDone w (some x) h r e = ap (λ (r : Line D). r.2) (sym (some-injective _ _ e)) ∙ h x refl

  pub taken-IsDone :
      (datas : CpuidleDatas D) (w : Span D) (a b c e : Bool) (o : Option (D × ℕ × ℤ))
      (p : Option (ℤ × ℤ × List ℕ)) (q : Option (ℤ × List ℕ))
      → chosen a b c e o p q ≡ true
      → IsDone (taken datas w a b c e o p q)
  taken-IsDone datas w true b c e o p q h = idle_line-IsDone datas w o h
  taken-IsDone datas w false true c e o p q h = frequency_line-IsDone datas w o h
  taken-IsDone datas w false false true e o none q h = absurd (ground arith)
  taken-IsDone datas w false false true e o (some (cpu, irqid, name)) q h =
      wakes-IsDone w (wake datas cpu irqid name) (wake-done datas cpu irqid name)
  taken-IsDone datas w false false false true o p none h = absurd (ground arith)
  taken-IsDone datas w false false false true o p (some (cpu, name)) h =
      wakes-IsDone w (wake datas cpu minus_one (drop_last name))
        (wake-done datas cpu minus_one (drop_last name))
  taken-IsDone datas w false false false false o p q h = absurd (ground arith)

abbrev pub events_of : (D : Type 0) ⦃t : Strtod D⦄ → List Directive → List (List ℕ) → List (List ℕ)
events_of D format [] = []
events_of D format (l ∷ ls) =
    if is_event D format l then l ∷ events_of D format ls else events_of D format ls
