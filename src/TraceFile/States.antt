-- ===== src/TraceFile/States.antt =====
-- The C-states in a trace file: `write_cstate_info` and `output_cstate_info` (idlestat.c), which write
-- their names and residencies, and `load_and_build_cstate_info` (tracefile_idlestat.c). At the end of
-- the file `fgets` leaves the buffer as it is, which is not tested. A variable that `sscanf` did not set
-- and a name that does not fit are faults.
use idlestat.Base.{
  ℕ, zero, suc, ◌+◌, ◌≡◌, Bool, true, false, Option, none, some, List, [], ◌∷◌, ◌++◌, if◌then◌else◌,
  map?, ◌>>=◌, ltb, ◌==◌, length, replicate, eq_bytes, bytes,
}
use idlestat.Base.Int.{ℤ, pos, minus_one, eq_ℤ}
use idlestat.Base.Double.{Double}
use idlestat.Base.Ptr.{Ptr, err_ptr, ptr, with_ptr, fgets}
use idlestat.Base.Scan.{
  Strtod, Directive, lit, blank, read_int, read_word, Value, int_value, word_value, Scan, scanned,
  sscanf,
}
use idlestat.Base.Scan.Decimal.{print_uint, print_int}
use idlestat.Cstates.{CpuidleCstate, CpuidleCstates, maxcstate, fresh_cstate, idle_cstates}
use idlestat.Topology.{CpuTopology}
use idlestat.Topology.Build.{cpu_is_online}
pub mod Written

-- `"cpuid %d:\n"`, `"\t%s\n"` and `"\t%d\n"`.
unfoldable pub cpuid_format : List Directive
cpuid_format =
    lit 99 ∷ lit 112 ∷ lit 117 ∷ lit 105 ∷ lit 100 ∷ blank ∷ read_int ∷ lit 58 ∷ blank ∷ []

unfoldable pub name_format : List Directive
name_format = blank ∷ read_word 256 ∷ blank ∷ []

unfoldable pub residency_format : List Directive
residency_format = blank ∷ read_int ∷ blank ∷ []

-- The number, if there is one.
abbrev pub as_number : {D : Type 0} → Scan D → Option ℤ
as_number (scanned (int_value n ∷ vs)) = some n
as_number _ = none

abbrev pub as_name : {D : Type 0} → Scan D → Option (List ℕ)
as_name (scanned (word_value w ∷ vs)) = if ltb (length w) 128 then some w else none
as_name _ = none

-- `name` is a null pointer where the line has `(null)`, which is what `printf` writes for one.
unfoldable pub stored_name : List ℕ → Option (List ℕ)
stored_name w = if eq_bytes w (bytes "(null)") then none else some w

unfoldable pub print_name : Option (List ℕ) → List ℕ
print_name none = bytes "(null)"
print_name (some w) = w

-- Whether the buffer is the line of the CPU.
unfoldable pub is_cpuid : ℕ → Option ℤ → Bool
is_cpuid cpu none = false
is_cpuid cpu (some n) = eq_ℤ n (pos cpu)

-- The states that are left to read, and the buffer and the lines after them.
abbrev pub StatesRead : Type 0 → Type 0
StatesRead D = List (CpuidleCstate D) × List ℕ × List (List ℕ)

abbrev pub CpusRead : Type 0 → Type 0
CpusRead D = List (CpuidleCstates D) × List ℕ × List (List ℕ)

module _ {D : Type 0} ⦃d : Double D⦄ where
  -- The states of a CPU that is not online are zeros.
  unfoldable pub zero_cstate : CpuidleCstate D
  zero_cstate = record {
    name = none;
    stays = [];
    nrdata = 0;
    early_wakings = 0;
    late_wakings = 0;
    avg_time = d.nought;
    max_time = d.nought;
    min_time = d.nought;
    duration = d.nought;
    target_residency = pos 0;
  }

  abbrev pub zero_cstates : CpuidleCstates D
  zero_cstates = idle_cstates (replicate maxcstate zero_cstate)

module _ {D : Type 0} ⦃d : Double D⦄ ⦃t : Strtod D⦄ where
  -- The rounds of the loop over `i`: two lines each.
  unfoldable pub load_states : ℕ → List ℕ → List (List ℕ) → Option (StatesRead D)
  unfolding stored_name fresh_cstate sscanf name_format residency_format
  load_states zero buffer lines = some ([], buffer, lines)
  load_states (suc n) buffer lines =
      let (name_line, after_name) = fgets buffer lines in
      let (residency_line, rest) = fgets name_line after_name in
      as_name (sscanf {D = D} name_line name_format) >>= λ name.
      as_number (sscanf {D = D} residency_line residency_format) >>= λ residency.
      map? {B = StatesRead D}
        (λ r. let (states, b, l) = r in (fresh_cstate (stored_name name) residency ∷ states, b, l))
        (load_states n residency_line rest)

  -- A CPU: its states, and the buffer and the lines for the next one.
  unfoldable pub load_cpu :
      CpuTopology D
      → ℕ
      → List ℕ
      → List (List ℕ)
      → Option (Ptr (CpuidleCstates D × List ℕ × List (List ℕ)))
  unfolding load_states is_cpuid cpuid_format sscanf
  load_cpu topo cpu buffer lines =
      if cpu_is_online topo cpu
      then (if is_cpuid cpu (as_number (sscanf {D = D} buffer cpuid_format))
          then map?
              (λ r.
                let (states, b, l) = r in
                let (b', l') = fgets b l in ptr (idle_cstates states, b', l'))
              (load_states maxcstate buffer lines)
          else some err_ptr)
      else some (ptr (zero_cstates, buffer, lines))

  abbrev pub cons_cpu : CpuidleCstates D → Ptr (CpusRead D) → Ptr (CpusRead D)
  cons_cpu s err_ptr = err_ptr
  cons_cpu s (ptr (rest, b, l)) = ptr (s ∷ rest, b, l)

  -- The CPUs `cpu`, `cpu + 1`, ….
  unfoldable pub load_cpus :
      CpuTopology D → ℕ → ℕ → List ℕ → List (List ℕ) → Option (Ptr (CpusRead D))
  unfolding load_cpu
  load_cpus topo cpu zero buffer lines = some (ptr ([], buffer, lines))
  load_cpus topo cpu (suc n) buffer lines = load_cpu topo cpu buffer lines >>= λ r.
      with_ptr r λ x. let (s, b, l) = x in map? (cons_cpu s) (load_cpus topo (suc cpu) n b l)

  unfoldable pub load_and_build_cstate_info :
      List ℕ → List (List ℕ) → ℕ → CpuTopology D → Option (Ptr (CpusRead D))
  unfolding load_cpus
  load_and_build_cstate_info buffer lines nrcpus topo = load_cpus topo 0 nrcpus buffer lines

unfoldable pub cpuid_line : ℕ → List ℕ
unfolding print_uint
cpuid_line cpu = bytes "cpuid " ++ print_uint cpu ++ 58 ∷ 10 ∷ []

module _ {D : Type 0} where
  unfoldable pub write_cstate_info : CpuidleCstate D → List (List ℕ)
  unfolding print_name print_int
  write_cstate_info c =
      (9 ∷ (print_name c.name ++ 10 ∷ [])) ∷ (9 ∷ (print_int c.target_residency ++ 10 ∷ [])) ∷ []

  unfoldable pub write_states : List (CpuidleCstate D) → List (List ℕ)
  unfolding write_cstate_info
  write_states [] = []
  write_states (c ∷ cs) = write_cstate_info c ++ write_states cs

  -- The lines of the CPUs from `cpu` on, with the states that `build_cstate_info` read.
  unfoldable pub output_cstates : CpuTopology D → ℕ → List (CpuidleCstates D) → List (List ℕ)
  unfolding write_states cpuid_line
  output_cstates topo cpu [] = []
  output_cstates topo cpu (s ∷ rest) =
      if cpu_is_online topo cpu
      then cpuid_line cpu ∷ (write_states s.cstate ++ output_cstates topo (suc cpu) rest)
      else output_cstates topo (suc cpu) rest

  unfoldable pub output_cstate_info : CpuTopology D → List (CpuidleCstates D) → List (List ℕ)
  unfolding output_cstates
  output_cstate_info topo cstates = output_cstates topo 0 cstates
