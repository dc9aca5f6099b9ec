-- ===== src/TraceFile/Loaded.antt =====
-- `idlestat_native_load` (tracefile_idlestat.c) on a file of `idlestat_store` (idlestat.c).
use idlestat.Base.{
  ℕ, suc, ◌^◌, ◌<◌, ◌≡◌, refl, Bool, true, false, Option, some, List, [], ◌∷◌, ◌++◌, append_assoc,
  map?, ◌>>=◌, ltb, ◌==◌, bytes, arith, All, ap, ◌∙◌, sym, Bool-cases, inl, inr,
}
use idlestat.Base.Int.{ℤ}
use idlestat.Base.Double.{Double}
use idlestat.Base.Print.{Format}
use idlestat.Base.Ptr.{Ptr, ptr}
use idlestat.Base.Scan.{Strtod, sscanf, scan_from, skip_blanks, convert}
use idlestat.Base.Scan.Decimal.{print_uint, scan_from-print_uint}
use idlestat.Pstates.{build_pstate_info}
use idlestat.Cstates.{CpuidleCstates, build_cstate_info}
use idlestat.Topology.{CpuTopology}
use idlestat.Topology.Build.{cpu_is_online}
use idlestat.Topology.Order.{IsTopology}
use idlestat.Topology.Read.{
  TopoInput, core_of_cpu, topo_line, inner_line, outer_line, core_line, cpu_line, cluster_line,
  complete, core_format, cpu_format, core_cpu_format, cluster_format, read_topo, read_cpu_topo_info,
  start_input, outfile_topo_info,
}
use idlestat.Topology.Read.Written.{IsIntCluster, EndsTopology}
use idlestat.Topology.Read.Same.{IsSameTopology, IsListed, read-outfile}
use idlestat.Datas.{CpuidleDatas}
use idlestat.TraceFile.{load_data_lines, trace_format}
use idlestat.TraceFile.States.{
  output_cstates, output_cstate_info, cpuid_line, write_states, load_and_build_cstate_info,
  load_cpus,
}
use idlestat.TraceFile.States.Written.{IsStorable, stored_cpus, with_first, load_cpus-written}
use idlestat.TraceFile.Load.{
  cpus_format, cpus_in, load_with, native_load_from, idlestat_native_load, as_count,
}
use idlestat.TraceFile.Stored.{idlestat_store, event_lines}

cpus_in-print :
    (D : Type 0) ⦃t : Strtod D⦄ (n : ℕ)
    → n < 2 ^ 32
    → cpus_in D cpus_format (bytes "cpus=" ++ print_uint n ++ 10 ∷ []) ≡ n
unfolding cpus_in sscanf scan_from skip_blanks convert cpus_format
cpus_in-print D n h = ap as_count (scan_from-print_uint {D = D} n (10 ∷ []) [] [] refl h)

module _ {D : Type 0} ⦃d : Double D⦄ ⦃t : Strtod D⦄ where
  cpuid_line-inner :
      (s : TopoInput D) (ht : Bool) (cpu : ℕ)
      → s.is_ht ≡ ht
      → inner_line s (cpuid_line cpu) ≡ outer_line (core_of_cpu s) (cpuid_line cpu)
  unfolding inner_line core_line cpu_line cpuid_line sscanf scan_from skip_blanks convert
      core_format cpu_format core_cpu_format
  cpuid_line-inner s true cpu e = rw e refl
  cpuid_line-inner s false cpu e = rw e refl

  cpuid_line-outer : (s : TopoInput D) (cpu : ℕ) → outer_line s (cpuid_line cpu) ≡ some complete
  unfolding outer_line cluster_line cpuid_line sscanf scan_from skip_blanks convert cluster_format
  cpuid_line-outer s cpu = refl

  -- The line of a CPU in the C-states ends the topology.
  pub cpuid_line-EndsTopology : (cpu : ℕ) → EndsTopology D (cpuid_line cpu)
  unfolding topo_line
  cpuid_line-EndsTopology cpu s = ground (
    arith,
    cpuid_line-inner s s.is_ht cpu refl,
    cpuid_line-outer (core_of_cpu s) cpu,
    cpuid_line-outer s cpu,
  )

-- The first line after a topology, whether there are C-states or not.
record IsFirst (D : Type 0) ⦃d : Double D⦄ ⦃t : Strtod D⦄ (ls : List (List ℕ)) : Type 0 where
  first : List ℕ
  others : List (List ℕ)
  is : ls ≡ first ∷ others
  ends : EndsTopology D first

module _ {D : Type 0} ⦃d : Double D⦄ ⦃t : Strtod D⦄ where
  output_cstates-IsFirst :
      (topo : CpuTopology D) (cpu : ℕ) (cs : List (CpuidleCstates D)) (next : List ℕ)
      (rest : List (List ℕ))
      → EndsTopology D next
      → IsFirst D (output_cstates topo cpu cs ++ next ∷ rest)
  unfolding output_cstates
  output_cstates-IsFirst topo cpu [] next rest h = record {
    first = next;
    others = rest;
    is = refl;
    ends = h;
  }
  output_cstates-IsFirst topo cpu (s ∷ cs) next rest h =
      elim (Bool-cases (cpu_is_online topo cpu)) [
        | inl e ↦ rw e (record {
          first = cpuid_line cpu;
          others = (write_states s.cstate ++ output_cstates topo (suc cpu) cs) ++ next ∷ rest;
          is = refl;
          ends = cpuid_line-EndsTopology cpu;
        })
        | inr e ↦ rw e (output_cstates-IsFirst topo (suc cpu) cs next rest h)
      ]

  load_after_head :
      (version cpus : List ℕ) (n : ℕ) (xs : List (List ℕ)) (next : List ℕ) (rest : List (List ℕ))
      → cpus_in D cpus_format cpus ≡ n
      → 0 < n
      → idlestat_native_load {D = D} (some (version ∷ cpus ∷ (xs ++ next ∷ rest)))
        ≡ with_first (native_load_from n) (xs ++ next ∷ rest)
  unfolding idlestat_native_load
  load_after_head version cpus n [] next rest e h =
      let b : (n == 0) ≡ false = ground arith in rw (e, b) refl
  load_after_head version cpus n (x ∷ xs) next rest e h =
      let b : (n == 0) ≡ false = ground arith in rw (e, b) refl

  output_cstate_info-IsFirst :
      (topo : CpuTopology D) (cs : List (CpuidleCstates D)) (next : List ℕ) (rest : List (List ℕ))
      → EndsTopology D next
      → IsFirst D (output_cstate_info topo cs ++ next ∷ rest)
  unfolding output_cstate_info
  output_cstate_info-IsFirst topo cs next rest h = output_cstates-IsFirst topo 0 cs next rest h

  abbrev after_topology :
      ℕ → Ptr (CpuTopology D × List ℕ × List (List ℕ)) → Option (Ptr (CpuidleDatas D))
  after_topology n topo =
      load_with trace_format n topo (λ topo b l. load_and_build_cstate_info b l n topo)

  native_load_from-topo :
      (n : ℕ) (xs : List (List ℕ)) (next : List ℕ) (rest : List (List ℕ))
      → n < 2 ^ 31
      → with_first (native_load_from n) (xs ++ next ∷ rest)
        ≡ (read_topo (start_input {D = D}) (xs ++ next ∷ rest) >>= after_topology n)
  unfolding native_load_from read_cpu_topo_info
  native_load_from-topo n [] next rest h = let b : ltb n (2 ^ 31) ≡ true = ground arith in rw b refl
  native_load_from-topo n (x ∷ xs) next rest h =
      let b : ltb n (2 ^ 31) ≡ true = ground arith in rw b refl

  -- The data before the first event.
  abbrev pub stored_datas :
      CpuTopology D → CpuTopology D → (ℕ → ℕ → Option (List ℕ)) → (ℕ → ℕ → ℤ) → ℕ → CpuidleDatas D
  stored_datas topo e name residency n = record {
    cstates = stored_cpus topo name residency 0 n;
    pstates = build_pstate_info n;
    topo = e;
    nrcpus = n;
  }

  abbrev pub load_events : List ℕ → List (List ℕ) → CpuidleDatas D → Option (Ptr (CpuidleDatas D))
  load_events next rest datas = map? (λ r. ptr r.0) (load_data_lines trace_format next rest datas)

  load_with-states :
      (n : ℕ) (e : CpuTopology D) (b : List ℕ) (l : List (List ℕ)) (cs : List (CpuidleCstates D))
      (next : List ℕ) (rest : List (List ℕ))
      → load_and_build_cstate_info b l n e ≡ some (ptr (cs, next, rest))
      → after_topology n (ptr (e, b, l))
        ≡ load_events next rest
            (record { cstates = cs; pstates = build_pstate_info n; topo = e; nrcpus = n })
  unfolding load_with
  load_with-states n e b l cs next rest q = rw q refl

  load_states-first :
      (topo e : CpuTopology D) (name : ℕ → ℕ → Option (List ℕ)) (residency : ℕ → ℕ → ℤ) (n : ℕ)
      (next : List ℕ) (rest : List (List ℕ)) (first : List ℕ) (others : List (List ℕ))
      → ((v : ℕ) → cpu_is_online e v ≡ cpu_is_online topo v)
      → ((cpu : ℕ) → IsStorable (name cpu) (residency cpu))
      → n < 2 ^ 31
      → (output_cstate_info topo (build_cstate_info name residency n) ++ next ∷ rest)
        ≡ first ∷ others
      → load_and_build_cstate_info first others n e
        ≡ some (ptr (stored_cpus topo name residency 0 n, next, rest))
  unfolding output_cstate_info build_cstate_info load_and_build_cstate_info
  load_states-first topo e name residency n next rest first others same storable h q =
      ap (with_first (load_cpus e 0 n)) (sym q)
      ∙ load_cpus-written topo e same name residency next rest storable 0 n (omega arith)

  -- A file that was stored is loaded: its topology has the same CPUs in the same cores and clusters,
  -- the C-states have the names and residencies that were read when it was stored, and the events are
  -- those of the file. This holds where the topology is well formed, its numbers have the range of the
  -- formats, its CPUs are the ones that are online, the names can be stored, the number of CPUs is
  -- above 0 and below 2^31, and there is an event whose line does not look like one of the topology.
  pub native_load-store :
      ⦃f : Format D⦄ (version : List ℕ) (pid n : ℕ) (start_ts end_ts : D) (initp : Option (List ℕ))
      (topo : CpuTopology D) (name : ℕ → ℕ → Option (List ℕ)) (residency : ℕ → ℕ → ℤ)
      (trace : List (List ℕ)) (next : List ℕ) (rest : List (List ℕ))
      → event_lines pid start_ts end_ts initp topo trace ≡ next ∷ rest
      → EndsTopology D next
      → IsTopology topo
      → IsListed topo
      → All IsIntCluster topo.physicals
      → ((cpu : ℕ) → IsStorable (name cpu) (residency cpu))
      → 0 < n
      → n < 2 ^ 31
      → (e : CpuTopology D) × IsSameTopology topo e
        × (idlestat_native_load
              (some (idlestat_store version pid n start_ts end_ts initp topo name residency trace))
            ≡ load_events next rest (stored_datas topo e name residency n))
  unfolding idlestat_store
  native_load-store version pid n start_ts end_ts initp topo name residency trace next rest events
        ends formed listed printable storable lo hi =
      let states : List (CpuidleCstates D) = build_cstate_info name residency n in
      let info = output_cstate_info topo states in
      let f = output_cstate_info-IsFirst topo states next rest ends in
      let (e, read, same) = read-outfile topo f.first f.others formed printable f.ends in
      let loaded =
        load_states-first topo e name residency n next rest f.first f.others (same.online listed)
          storable hi f.is in
      (
        e,
        same,
        ap
              (λ l. idlestat_native_load (
                some (
                  (bytes "idlestat version = " ++ version ++ 10 ∷ [])
                  ∷ (bytes "cpus=" ++ print_uint n ++ 10 ∷ [])
                  ∷ l)))
              (ap (λ l. (outfile_topo_info topo ++ info) ++ l) events
                ∙ append_assoc (outfile_topo_info topo) info (next ∷ rest)
                ∙ ap (λ l. outfile_topo_info topo ++ l) f.is)
            ∙ load_after_head _ _ n (outfile_topo_info topo) f.first f.others
                (cpus_in-print D n (omega arith)) lo
            ∙ native_load_from-topo n (outfile_topo_info topo) f.first f.others hi
            ∙ ap (λ o. o >>= after_topology n) read
            ∙ load_with-states n e f.first f.others _ next rest loaded,
      )
