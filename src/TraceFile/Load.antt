-- ===== src/TraceFile/Load.antt =====
-- The trace files as a whole: `idlestat_store` with `output_pstates` and `build_init_pstates`
-- (idlestat.c), which write one, and the loaders `idlestat_native_load` (tracefile_idlestat.c),
-- `ftrace_load` (tracefile_ftrace.c) and `tracecmd_report_load` (tracefile_tracecmd.c), with
-- `idlestat_load` (idlestat.c), which chooses among them. A file that cannot be opened is `none`.
use idlestat.Base.{
  ℕ, ◌^◌, Bool, true, false, not, Option, none, some, List, [], ◌∷◌, if◌then◌else◌, map?, ◌>>=◌,
  ltb, ◌==◌, ◌||◌, bytes, starts_with,
}
use idlestat.Base.Int.{ℤ, pos, minus_one, ltb_ℤ, eq_ℤ}
use idlestat.Base.Double.{Double}
use idlestat.Base.Ptr.{Ptr, err_ptr, ptr, with_ptr}
use idlestat.Base.Scan.{
  Strtod, Directive, lit, skip_until, read_uint, uint_value, Scan, scanned, sscanf,
}
use idlestat.Pstates.{build_pstate_info}
use idlestat.Cstates.{CpuidleCstates, build_cstate_info}
use idlestat.Topology.{CpuTopology}
use idlestat.Topology.Read.{read_cpu_topo_info}
use idlestat.Datas.{CpuidleDatas}
use idlestat.TraceFile.{load_data_lines, trace_format, trace_cmd_report_format}
use idlestat.TraceFile.States.{load_and_build_cstate_info}

abbrev File : Type 0
File = List (List ℕ)

-- `"cpus=%u"` and `"#%*[^#]#P:%u"`.
unfoldable pub cpus_format : List Directive
cpus_format = lit 99 ∷ lit 112 ∷ lit 117 ∷ lit 115 ∷ lit 61 ∷ read_uint ∷ []

unfoldable pub ftrace_cpus_format : List Directive
ftrace_cpus_format = lit 35 ∷ skip_until 35 ∷ lit 35 ∷ lit 80 ∷ lit 58 ∷ read_uint ∷ []

-- The number that was read, 0 if there is none.
abbrev pub as_count : {D : Type 0} → Scan D → ℕ
as_count (scanned (uint_value n ∷ vs)) = n
as_count _ = 0

-- The number of CPUs in a line; 0 is refused, whether it is missing or written.
unfoldable pub cpus_in : (D : Type 0) ⦃t : Strtod D⦄ → List Directive → List ℕ → ℕ
unfolding sscanf
cpus_in D format line = as_count (sscanf {D = D} line format)

module _ {D : Type 0} ⦃d : Double D⦄ ⦃t : Strtod D⦄ where
  -- `propagate_error_free_datas` frees what was built; the P-states of all CPUs are empty.
  unfoldable pub load_with :
      List Directive
      → ℕ
      → Ptr (CpuTopology D × List ℕ × File)
      → (CpuTopology D → List ℕ → File → Option (Ptr (List (CpuidleCstates D) × List ℕ × File)))
      → Option (Ptr (CpuidleDatas D))
  unfolding load_data_lines build_pstate_info
  load_with format nrcpus topo states = with_ptr topo λ x.
      let (topo, b, l) = x in
      states topo b l >>= λ s. with_ptr s λ y.
        let (cstates, b', l') = y in
        let datas : CpuidleDatas D = record {
          cstates = cstates;
          pstates = build_pstate_info nrcpus;
          topo = topo;
          nrcpus = nrcpus;
        } in
        map? (λ r. ptr r.0) (load_data_lines format b' l' datas)

  -- The rest of `idlestat_native_load`, from the topology on. From 2 ^ 31 CPUs on `calloc`
  -- is asked for a negative number of them, and fails.
  unfoldable pub native_load_from : ℕ → List ℕ → File → Option (Ptr (CpuidleDatas D))
  unfolding load_with read_cpu_topo_info load_and_build_cstate_info trace_format
  native_load_from nrcpus buffer lines =
      if ltb nrcpus (2 ^ 31)
      then (read_cpu_topo_info buffer lines >>= λ topo.
          load_with trace_format nrcpus topo
            (λ topo b l. load_and_build_cstate_info b l nrcpus topo))
      else some err_ptr

  unfoldable pub idlestat_native_load : Option File → Option (Ptr (CpuidleDatas D))
  unfolding native_load_from cpus_in cpus_format
  idlestat_native_load (some (version ∷ cpus ∷ line ∷ lines)) =
      let nrcpus = cpus_in D cpus_format cpus in
      if nrcpus == 0 then some err_ptr else native_load_from nrcpus line lines
  idlestat_native_load _ = some err_ptr

-- What `ftrace_load` and `tracecmd_report_load` take from the machine that they run on.
pub record Sysfs (D : Type 0) : Type 0 where
  pub sysfs_topo : Ptr (CpuTopology D)
  pub state_name : ℕ → ℕ → Option (List ℕ)
  pub state_residency : ℕ → ℕ → ℤ

-- `feof` after the last line that `fgets` gave: the file ends without a newline.
unfoldable pub at_eof : List ℕ → File → Bool
at_eof [] [] = true
at_eof (c ∷ []) [] = not (c == 10)
at_eof (c ∷ e ∷ s) [] = at_eof (e ∷ s) []
at_eof buffer (line ∷ lines) = false

abbrev pub is_hash : List ℕ → Bool
is_hash [] = false
is_hash (c ∷ s) = c == 35

-- The number of CPUs after a comment line: the one in the line, or 0. The test lets every line
-- through that does not begin with `#P:`.
unfoldable pub comment_cpus : (D : Type 0) ⦃t : Strtod D⦄ → ℕ → List ℕ → ℕ
unfolding cpus_in ftrace_cpus_format starts_with
comment_cpus D nrcpus buffer =
    if starts_with buffer (bytes "#P:") then nrcpus else cpus_in D ftrace_cpus_format buffer

-- The loop over the comments at the head of an ftrace file: the number of CPUs, and the first line
-- that is no comment with those after it. Null where `fgets` came to the end.
unfoldable pub ftrace_head :
    (D : Type 0) ⦃t : Strtod D⦄ → ℕ → List ℕ → File → Option (ℕ × List ℕ × File)
unfolding at_eof comment_cpus
ftrace_head D nrcpus buffer [] =
    if at_eof buffer [] || not (is_hash buffer) then some (nrcpus, buffer, []) else none
ftrace_head D nrcpus buffer (line ∷ lines) =
    let rest = ftrace_head D (comment_cpus D nrcpus buffer) line lines in
    if is_hash buffer then rest else some (nrcpus, buffer, line ∷ lines)

module _ {D : Type 0} ⦃d : Double D⦄ ⦃t : Strtod D⦄ (sysfs : Sysfs D) where
  -- The rest of both loaders; the topology and the C-states are the ones of this machine.
  unfoldable pub load_from_sysfs :
      List Directive → ℕ → List ℕ → File → Option (Ptr (CpuidleDatas D))
  unfolding load_with build_cstate_info
  load_from_sysfs format nrcpus buffer lines =
      if nrcpus == 0
      then some err_ptr
      else if ltb nrcpus (2 ^ 31)
      then load_with format nrcpus (with_sysfs sysfs.sysfs_topo buffer lines) (λ topo b l.
        some (ptr (build_cstate_info sysfs.state_name sysfs.state_residency nrcpus, b, l)))
      else some err_ptr
    where
      with_sysfs : Ptr (CpuTopology D) → List ℕ → File → Ptr (CpuTopology D × List ℕ × File)
      with_sysfs err_ptr b l = err_ptr
      with_sysfs (ptr topo) b l = ptr (topo, b, l)

  abbrev pub from_head : Option (ℕ × List ℕ × File) → Option (Ptr (CpuidleDatas D))
  from_head none = some err_ptr
  from_head (some (nrcpus, buffer, lines)) = load_from_sysfs trace_format nrcpus buffer lines

  unfoldable pub ftrace_load : Option File → Option (Ptr (CpuidleDatas D))
  unfolding ftrace_head load_from_sysfs trace_format
  ftrace_load (some (line ∷ lines)) = from_head (ftrace_head D 0 line lines)
  ftrace_load _ = some err_ptr

  -- Without a second or a third line there is an error, too.
  unfoldable pub tracecmd_report_load : Option File → Option (Ptr (CpuidleDatas D))
  unfolding load_from_sysfs cpus_in cpus_format trace_cmd_report_format
  tracecmd_report_load (some (version ∷ cpus ∷ line ∷ lines)) =
      load_from_sysfs trace_cmd_report_format (cpus_in D cpus_format cpus) line lines
  tracecmd_report_load _ = some err_ptr

-- `check_magic`: -1, or whether the first line begins with the text.
unfoldable pub check_magic : List ℕ → Option File → ℤ
unfolding starts_with
check_magic magic none = minus_one
check_magic magic (some []) = pos 0
check_magic magic (some (line ∷ lines)) = if starts_with line magic then pos 1 else pos 0

abbrev pub idlestat_magic : List ℕ
idlestat_magic = bytes "idlestat version"

abbrev pub ftrace_magic : List ℕ
ftrace_magic = bytes "# tracer"

abbrev pub tracecmd_report_magic : List ℕ
tracecmd_report_magic = bytes "version = "

pub record TraceOps (D : Type 0) : Type 0 where
  pub magic : List ℕ
  pub load : Option File → Option (Ptr (CpuidleDatas D))

-- The table that the linker collects, in its order.
unfoldable pub idlestat_load :
    {D : Type 0} → List (TraceOps D) → Option File → Option (Ptr (CpuidleDatas D))
unfolding check_magic
idlestat_load [] file = some err_ptr
idlestat_load (ops ∷ rest) file =
    let ret = check_magic ops.magic file in
    let others = idlestat_load rest file in
    if eq_ℤ ret minus_one then some err_ptr else if ltb_ℤ (pos 0) ret then ops.load file else others

module _ {D : Type 0} ⦃d : Double D⦄ ⦃t : Strtod D⦄ (sysfs : Sysfs D) where
  abbrev pub idlestat_trace_ops : TraceOps D
  idlestat_trace_ops = record { magic = idlestat_magic; load = idlestat_native_load }

  abbrev pub ftrace_trace_ops : TraceOps D
  ftrace_trace_ops = record { magic = ftrace_magic; load = ftrace_load sysfs }

  abbrev pub tracecmd_report_trace_ops : TraceOps D
  tracecmd_report_trace_ops = record {
    magic = tracecmd_report_magic;
    load = tracecmd_report_load sysfs;
  }
