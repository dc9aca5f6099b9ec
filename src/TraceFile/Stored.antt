-- ===== src/TraceFile/Stored.antt =====
-- What a trace file holds (idlestat.c): `idlestat_store`, with `output_pstates`, `build_init_pstates` and
-- the copy of the kernel's trace by `idlestat_file_for_each_line` and `store_line` (utils.c). A file that
-- cannot be opened or written is not modelled.
use idlestat.Base.{
  ℕ, zero, suc, Bool, false, Option, none, some, List, [], ◌∷◌, ◌++◌, if◌then◌else◌, ◌==◌,
  get_elem?, bytes, length,
}
use idlestat.Base.Int.{ℤ}
use idlestat.Base.Double.{Double}
use idlestat.Base.Print.{Format, pad_left, pad_right, pad_zeros}
use idlestat.Base.Scan.Decimal.{print_uint}
use idlestat.Cstates.{build_cstate_info}
use idlestat.Topology.{CpuTopology}
use idlestat.Topology.Build.{cpu_is_online}
use idlestat.Topology.Read.{outfile_topo_info}
use idlestat.TraceFile.States.{output_cstate_info}

-- The CPUs `cpu`, `cpu + 1`, …; `read_int` of the file in sysfs is the parameter, and 0 where it fails or
-- the CPU is not online. An `int` is kept as the `unsigned int` with its bits.
unfoldable pub init_freqs : {D : Type 0} → CpuTopology D → (ℕ → Option ℕ) → ℕ → ℕ → List ℕ
init_freqs topo cur_freq cpu zero = []
init_freqs topo cur_freq cpu (suc n) =
    (if cpu_is_online topo cpu then elim (cur_freq cpu) [ none ↦ 0 | some f ↦ f ] else 0)
    ∷ init_freqs topo cur_freq (suc cpu) n

unfoldable pub build_init_pstates : {D : Type 0} → CpuTopology D → (ℕ → Option ℕ) → ℕ → List ℕ
unfolding init_freqs
build_init_pstates topo cur_freq nrcpus = init_freqs topo cur_freq 0 nrcpus

-- `"%16s-%-5d [%03d] .... %5lu.%06lu: cpu_frequency: state=%u cpu_id=%d\n"`, with `idlestat` and `getpid()`.
unfoldable pub pstate_line : ℕ → ℕ → ℕ → ℕ → ℕ → List ℕ
unfolding pad_left pad_right pad_zeros print_uint
pstate_line pid cpu ts_sec ts_usec freq =
    pad_left 16 (bytes "idlestat")
    ++ 45 ∷ pad_right 5 (print_uint pid)
    ++ bytes " ["
    ++ pad_zeros 3 (print_uint cpu)
    ++ bytes "] .... "
    ++ pad_left 5 (print_uint ts_sec)
    ++ 46 ∷ pad_zeros 6 (print_uint ts_usec)
    ++ bytes ": cpu_frequency: state="
    ++ print_uint freq
    ++ bytes " cpu_id="
    ++ print_uint cpu
    ++ 10 ∷ []

abbrev freq_at : Option (List ℕ) → ℕ → ℕ
freq_at none cpu = 0
freq_at (some freqs) cpu = elim (get_elem? freqs cpu) [ none ↦ 0 | some x ↦ x ]

module _ {D : Type 0} ⦃f : Format D⦄ where
  -- Without frequencies the frequency is 0, which closes the states that are open.
  unfoldable pub output_freqs : ℕ → CpuTopology D → D → (ℕ → ℕ) → ℕ → ℕ → List (List ℕ)
  unfolding pstate_line
  output_freqs pid topo ts freq cpu zero = []
  output_freqs pid topo ts freq cpu (suc n) =
      let rest = output_freqs pid topo ts freq (suc cpu) n in
      if cpu_is_online topo cpu
      then pstate_line pid cpu (f.seconds ts) (f.microseconds ts) (freq cpu) ∷ rest
      else rest

  unfoldable pub output_pstates : ℕ → Option (List ℕ) → ℕ → CpuTopology D → D → List (List ℕ)
  unfolding output_freqs
  output_pstates pid initp nrcpus topo ts = output_freqs pid topo ts (freq_at initp) 0 nrcpus

-- Comments are not stored.
unfoldable pub store_lines : List (List ℕ) → List (List ℕ)
store_lines [] = []
store_lines (line ∷ lines) =
    if is_comment_line line then store_lines lines else line ∷ store_lines lines
  where
    is_comment_line : List ℕ → Bool
    is_comment_line [] = false
    is_comment_line (c ∷ s) = c == 35

module _ {D : Type 0} ⦃d : Double D⦄ ⦃f : Format D⦄ where
  -- The lines with events: the first frequencies, the trace, and the last ones.
  unfoldable pub event_lines :
      ℕ → D → D → Option (List ℕ) → CpuTopology D → List (List ℕ) → List (List ℕ)
  unfolding output_pstates store_lines
  event_lines pid start_ts end_ts none topo trace = store_lines trace
  event_lines pid start_ts end_ts (some freqs) topo trace =
      output_pstates pid (some freqs) (length freqs) topo start_ts
      ++ store_lines trace
      ++ output_pstates pid none (length freqs) topo end_ts

  -- The whole file; `ret` is the number of configured CPUs, and the C-states are read again.
  unfoldable pub idlestat_store :
      List ℕ
      → ℕ
      → ℕ
      → D
      → D
      → Option (List ℕ)
      → CpuTopology D
      → (ℕ → ℕ → Option (List ℕ))
      → (ℕ → ℕ → ℤ)
      → List (List ℕ)
      → List (List ℕ)
  unfolding event_lines outfile_topo_info output_cstate_info build_cstate_info print_uint
  idlestat_store version pid ret start_ts end_ts initp cpu_topo name residency trace =
      (bytes "idlestat version = " ++ version ++ 10 ∷ [])
      ∷ (bytes "cpus=" ++ print_uint ret ++ 10 ∷ [])
      ∷ (outfile_topo_info cpu_topo
          ++ output_cstate_info cpu_topo (build_cstate_info name residency ret)
          ++ event_lines pid start_ts end_ts initp cpu_topo trace)
