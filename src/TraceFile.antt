-- ===== src/TraceFile.antt =====
-- A line of a trace file and what it does to the data: `get_wakeup_irq` (idlestat.c),
-- `load_text_data_line` and `load_text_data_lines` (tracefile_idlestat.c),
-- `tracecmd_load_text_data_lines` (tracefile_tracecmd.c). A file is the list of what `fgets` returns
-- one after the other. The warnings are not kept; -1 is a line that is not an event.
use idlestat.Base.{
  ℕ, zero, suc, ◌+◌, ◌≡◌, Bool, true, false, Option, none, some, List, [], ◌∷◌, ◌++◌, if◌then◌else◌,
  map?, ◌>>=◌, take, bytes, strstr,
}
use idlestat.Base.Int.{ℤ, pos, negsuc, minus_one, to_int}
use idlestat.Base.Double.{Double}
use idlestat.Base.Scan.{
  Strtod, Directive, lit, skip_until, read_word, blank, skip_word, read_int, read_uint, read_double,
  Value, int_value, uint_value, double_value, word_value, Scan, scan_eof, scanned, sscanf,
}
use idlestat.Topology.Build.{nonneg}
use idlestat.Topology.Setup.{setup_topo_states}
use idlestat.Datas.{CpuidleDatas, store_data, cpu_change_pstate, store_cpu_irq}
pub mod States
pub mod Load
pub mod Stored
pub mod Loaded
pub mod Choice
pub mod Chosen
pub mod Taken
pub mod Events

-- `"%*[^]]] %*s %lf:%*[^=]=%u%*[^=]=%d"`, and the same without the flags of an event. 61 is `=`, 93 is `]`.
abbrev event_tail : List Directive
event_tail =
    read_double
    ∷ lit 58
    ∷ skip_until 61
    ∷ lit 61
    ∷ read_uint
    ∷ skip_until 61
    ∷ lit 61
    ∷ read_int
    ∷ []

unfoldable pub trace_format : List Directive
trace_format = skip_until 93 ∷ lit 93 ∷ blank ∷ skip_word ∷ blank ∷ event_tail

unfoldable pub trace_cmd_report_format : List Directive
trace_cmd_report_format = skip_until 93 ∷ lit 93 ∷ blank ∷ event_tail

-- `"%*[^[][%d] %*[^=]=%d%*[^=]=%16s"`.
unfoldable pub trace_irq_format : List Directive
trace_irq_format =
    skip_until 91
    ∷ lit 91
    ∷ read_int
    ∷ lit 93
    ∷ blank
    ∷ skip_until 61
    ∷ lit 61
    ∷ read_int
    ∷ skip_until 61
    ∷ lit 61
    ∷ read_word 16
    ∷ []

-- `"%*[^[][%d] %*[^(](%16s"`.
unfoldable pub trace_ipiirq_format : List Directive
trace_ipiirq_format =
    skip_until 91 ∷ lit 91 ∷ read_int ∷ lit 93 ∷ blank ∷ skip_until 40 ∷ lit 40 ∷ read_word 16 ∷ []

-- What the three formats store, where they match to the end. A `%d` of an event goes to an
-- `unsigned int`, which is an `int` again where it is used.
abbrev as_event : {D : Type 0} → Scan D → Option (D × ℕ × ℤ)
as_event (scanned (double_value time ∷ uint_value state ∷ int_value cpu ∷ [])) =
    some (time, state, cpu)
as_event _ = none

abbrev as_irq : {D : Type 0} → Scan D → Option (ℤ × ℤ × List ℕ)
as_irq (scanned (int_value cpu ∷ int_value irqid ∷ word_value irqname ∷ [])) =
    some (cpu, irqid, irqname)
as_irq _ = none

abbrev as_ipi : {D : Type 0} → Scan D → Option (ℤ × List ℕ)
as_ipi (scanned (int_value cpu ∷ word_value irqname ∷ [])) = some (cpu, irqname)
as_ipi _ = none

-- `irqname[strlen(irqname) - 1] = '\0'`.
unfoldable pub drop_last : List ℕ → List ℕ
drop_last [] = []
drop_last (c ∷ []) = []
drop_last (c ∷ e ∷ s) = c ∷ drop_last (e ∷ s)

module _ {D : Type 0} ⦃d : Double D⦄ where
  abbrev skipped : CpuidleDatas D → Option (CpuidleDatas D × ℤ)
  skipped datas = some (datas, minus_one)

  abbrev done : CpuidleDatas D → CpuidleDatas D × ℤ
  done datas = (datas, pos 0)

  -- The statistics of a number that is no CPU's are out of bounds.
  unfoldable pub wake : CpuidleDatas D → ℤ → ℤ → List ℕ → Option (CpuidleDatas D × ℤ)
  wake datas cpu irqid irqname = map? done (nonneg cpu >>= λ c. store_cpu_irq c irqid irqname datas)

  abbrev wake_irq : CpuidleDatas D → Option (ℤ × ℤ × List ℕ) → Option (CpuidleDatas D × ℤ)
  wake_irq datas none = skipped datas
  wake_irq datas (some (cpu, irqid, irqname)) = wake datas cpu irqid irqname

  abbrev wake_ipi : CpuidleDatas D → Option (ℤ × List ℕ) → Option (CpuidleDatas D × ℤ)
  wake_ipi datas none = skipped datas
  wake_ipi datas (some (cpu, irqname)) = wake datas cpu minus_one (drop_last irqname)

  unfoldable pub get_wakeup_irq :
      ⦃t : Strtod D⦄ → CpuidleDatas D → List ℕ → Option (CpuidleDatas D × ℤ)
  unfolding wake drop_last sscanf trace_irq_format trace_ipiirq_format
  get_wakeup_irq datas buffer =
      if strstr buffer (bytes "irq_handler_entry")
      then wake_irq datas (as_irq (sscanf {D = D} buffer trace_irq_format))
      else if strstr buffer (bytes "ipi_entry")
      then wake_ipi datas (as_ipi (sscanf {D = D} buffer trace_ipiirq_format))
      else skipped datas

-- `begin`, `end` and `start`: the times of the first and of the last idle event.
pub record Span (D : Type 0) : Type 0 where
  pub begin : D
  pub end : D
  pub start : Bool

-- The data, the span, and what the function returns.
abbrev pub Line : Type 0 → Type 0
Line D = CpuidleDatas D × Span D × ℤ

abbrev count_of : ℤ → ℕ → ℕ
count_of (negsuc zero) n = n
count_of _ n = n + 1

module _ {D : Type 0} ⦃d : Double D⦄ where
  abbrev extend : Span D → D → Span D
  extend w time =
      if w.start
      then record { begin = time; end = time; start = false }
      else record w { end = time }

  unfoldable pub idle_line : CpuidleDatas D → Span D → Option (D × ℕ × ℤ) → Option (Line D)
  unfolding to_int
  idle_line datas w none = some (datas, w, minus_one)
  idle_line datas w (some (time, state, cpu)) = nonneg cpu >>= λ c.
      map? {B = Line D} (λ e. (e, extend w time, pos 0)) (store_data time (to_int state) c datas)

  unfoldable pub frequency_line : CpuidleDatas D → Span D → Option (D × ℕ × ℤ) → Option (Line D)
  frequency_line datas w none = some (datas, w, minus_one)
  frequency_line datas w (some (time, freq, cpu)) =
      map? {B = Line D} (λ e. (e, w, pos 0)) (cpu_change_pstate datas cpu freq time)

module _ {D : Type 0} ⦃d : Double D⦄ ⦃t : Strtod D⦄ where
  unfoldable pub load_text_data_line :
      List ℕ → CpuidleDatas D → List Directive → Span D → Option (Line D)
  unfolding idle_line frequency_line sscanf
  load_text_data_line buffer datas format w =
      if strstr buffer (bytes "cpu_idle")
      then idle_line datas w (as_event (sscanf buffer format))
      else if strstr buffer (bytes "cpu_frequency")
      then frequency_line datas w (as_event (sscanf buffer format))
      else map? {B = Line D} (λ r. (r.0, w, r.1)) (get_wakeup_irq datas buffer)

  -- The lines from one on; the result has the number of events.
  unfoldable pub load_lines :
      List Directive
      → List (List ℕ)
      → CpuidleDatas D
      → Span D
      → ℕ
      → Option (CpuidleDatas D × Span D × ℕ)
  load_lines format [] datas w count = some (datas, w, count)
  load_lines format (buffer ∷ lines) datas w count =
      load_text_data_line buffer datas format w >>= λ r.
      let (e, v, ret) = r in load_lines format lines e v (count_of ret count)

  abbrev no_span : Span D
  no_span = record { begin = d.of_int (pos 0); end = d.of_int (pos 0); start = true }

  -- `load_text_data_lines`, and `tracecmd_load_text_data_lines` with the other format. `buffer` holds the
  -- first line.
  unfoldable pub load_data_lines :
      List Directive
      → List ℕ
      → List (List ℕ)
      → CpuidleDatas D
      → Option (CpuidleDatas D × Span D × ℕ)
  unfolding load_lines
  load_data_lines format buffer lines datas =
      setup_topo_states datas.cstates datas.nrcpus datas.topo >>= λ topo.
      load_lines format (buffer ∷ lines) (record datas { topo = topo }) no_span 0
