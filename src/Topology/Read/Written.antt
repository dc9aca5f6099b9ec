-- ===== src/Topology/Read/Written.antt =====
-- `read_cpu_topo_info` on the lines of `outfile_topo_info` (topology.c).
use idlestat.Base.{
  ℕ, ◌+◌, ◌%◌, ◌^◌, ◌<◌, ◌≡◌, refl, Bool, true, false, Option, some, List, [], ◌∷◌, ◌++◌, ◌>>=◌,
  arith, All, map, map-append, append_assoc, ap, ◌∙◌, sym, if◌then◌else◌,
}
use idlestat.Base.Int.{ℤ, pos}
use idlestat.Base.Double.{Double}
use idlestat.Base.Ptr.{ptr}
use idlestat.Base.Scan.{Strtod, int_value, scanned, sscanf, scan_from, skip_blanks, convert}
use idlestat.Base.Scan.Decimal.{scan_from-print, as_int-pos}
use idlestat.Topology.{CpuCpu, CpuCore, CpuPhysical, CpuTopology}
use idlestat.Topology.Build.{add_cpu, add_topo_info, alloc_cpu_topo_info}
use idlestat.Topology.Dump.{
  cluster_place, core_place, cpu_place, print_cpus, print_cores, print_clusters, output_topo_info,
}
use idlestat.Topology.Read.{
  TopoInput, next_line, complete, cluster_format, core_format, cpu_format, core_cpu_format,
  core_of_cpu, cluster_line, cluster_number, outer_line, enter_cpu, cpu_line, core_line, inner_line,
  topo_line, read_topo, place_line, outfile_topo_info, start_input, go_on,
}

cluster_number-print : (n : ℕ) → n < 63 → cluster_number ((n + 65) % 256) ≡ pos n
unfolding cluster_number
cluster_number-print n h = ground arith

-- The numbers have the range of the formats: a cluster has a letter, the others are an `int`.
abbrev pub IsIntCpu : CpuCpu → Type 0
IsIntCpu c = c.cpu_id < 2 ^ 31

module _ {D : Type 0} where
  abbrev pub IsIntCore : CpuCore D → Type 0
  IsIntCore c = (c.core_id < 2 ^ 31) × All IsIntCpu c.cpus

  abbrev pub IsIntCluster : CpuPhysical D → Type 0
  IsIntCluster p = (p.physical_id < 63) × All IsIntCore p.cores

-- The line ends a topology.
abbrev pub EndsTopology : (D : Type 0) ⦃d : Double D⦄ ⦃t : Strtod D⦄ → List ℕ → Type 0
EndsTopology D buf = (s : TopoInput D) → topo_line s buf ≡ some complete

-- The CPUs of a topology in the order of its walks, each with its cluster, its core and its number.
abbrev pub Entry : Type 0
Entry = ℕ × ℕ × ℕ

abbrev pub cpu_entries : ℕ → ℕ → List CpuCpu → List Entry
cpu_entries p c [] = []
cpu_entries p c (u ∷ us) = (p, c, u.cpu_id) ∷ cpu_entries p c us

module _ {D : Type 0} where
  abbrev pub core_entries : ℕ → List (CpuCore D) → List Entry
  core_entries p [] = []
  core_entries p (c ∷ cs) = cpu_entries p c.core_id c.cpus ++ core_entries p cs

  abbrev pub cluster_entries : List (CpuPhysical D) → List Entry
  cluster_entries [] = []
  cluster_entries (p ∷ ps) = core_entries p.physical_id p.cores ++ cluster_entries ps

module _ {D : Type 0} ⦃d : Double D⦄ where
  abbrev pub add_entries : CpuTopology D → List Entry → CpuTopology D
  add_entries topo [] = topo
  add_entries topo ((p, c, u) ∷ es) = add_entries (add_cpu topo p c u) es

  add_entries-append :
      (topo : CpuTopology D) (xs ys : List Entry)
      → add_entries topo (xs ++ ys) ≡ add_entries (add_entries topo xs) ys
  add_entries-append topo [] ys = refl
  add_entries-append topo ((p, c, u) ∷ xs) ys = add_entries-append (add_cpu topo p c u) xs ys

module _ {D : Type 0} ⦃d : Double D⦄ ⦃t : Strtod D⦄ where
  sscanf-core_line :
      (n : ℕ)
      → n < 2 ^ 31
      → sscanf {D = D} (place_line (core_place n)) core_format ≡ scanned (int_value (pos n) ∷ [])
  unfolding sscanf scan_from skip_blanks convert place_line core_format
  sscanf-core_line n h = rw (as_int-pos n h) at (scan_from-print {D = D} n (10 ∷ []) [] [] refl)

  sscanf-cpu_line :
      (n : ℕ)
      → n < 2 ^ 31
      → sscanf {D = D} (place_line (cpu_place n)) core_cpu_format ≡ scanned (int_value (pos n) ∷ [])
  unfolding sscanf scan_from skip_blanks convert place_line core_cpu_format
  sscanf-cpu_line n h = rw (as_int-pos n h) at (scan_from-print {D = D} n (10 ∷ []) [] [] refl)

  sscanf-no_core : (n : ℕ) → sscanf {D = D} (place_line (cpu_place n)) core_format ≡ scanned []
  unfolding sscanf scan_from skip_blanks convert place_line core_format
  sscanf-no_core n = refl

  -- A core line in the inner loop.
  topo_line-core :
      (s : TopoInput D) (n : ℕ)
      → s.inside ≡ true
      → n < 2 ^ 31
      → topo_line s (place_line (core_place n))
        ≡ some (next_line (record s { core_id = some (pos n); is_ht = true }))
  unfolding topo_line inner_line core_line place_line
  topo_line-core s n i h = rw i (rw (sscanf-core_line n h) refl)

  abbrev input_in : CpuTopology D → ℕ → Option ℤ → Option ℤ → Bool → TopoInput D
  input_in topo p core cpu ht = record {
    result = topo;
    physical_id = pos p;
    core_id = core;
    cpu_id = cpu;
    is_ht = ht;
    inside = true;
  }

  topo_line-cpu :
      (topo : CpuTopology D) (p c n : ℕ) (cpu : Option ℤ)
      → n < 2 ^ 31
      → topo_line (input_in topo p (some (pos c)) cpu true) (place_line (cpu_place n))
        ≡ some (next_line (input_in (add_cpu topo p c n) p (some (pos c)) (some (pos n)) true))
  unfolding topo_line inner_line core_line cpu_line place_line enter_cpu add_topo_info
  topo_line-cpu topo p c n cpu h = rw (sscanf-cpu_line n h) refl

  outer_line-cluster :
      (s : TopoInput D) (n : ℕ)
      → n < 63
      → outer_line s (place_line (cluster_place n))
        ≡ some (next_line (record s { physical_id = pos n; is_ht = false; inside = true }))
  unfolding outer_line cluster_line place_line sscanf scan_from skip_blanks convert cluster_format
  outer_line-cluster s n h = rw (cluster_number-print n h) refl

  -- No line of a cluster is a core's or a CPU's.
  inner_line-cluster :
      (s : TopoInput D) (n : ℕ) (ht : Bool)
      → s.is_ht ≡ ht
      → inner_line s (place_line (cluster_place n))
        ≡ outer_line (core_of_cpu s) (place_line (cluster_place n))
  unfolding inner_line core_line cpu_line place_line sscanf scan_from skip_blanks convert
      core_format cpu_format core_cpu_format
  inner_line-cluster s n true e = rw e refl
  inner_line-cluster s n false e = rw e refl

  abbrev core_left : TopoInput D → Option ℤ
  core_left s = if s.inside then (core_of_cpu s).core_id else s.core_id

  topo_line-cluster :
      (s : TopoInput D) (n : ℕ) (inside : Bool)
      → s.inside ≡ inside
      → n < 63
      → topo_line s (place_line (cluster_place n))
        ≡ some (next_line (input_in s.result n (core_left s) s.cpu_id false))
  unfolding topo_line
  topo_line-cluster s n true i h =
      ground (arith, i, inner_line-cluster s n s.is_ht refl, outer_line-cluster (core_of_cpu s) n h)
  topo_line-cluster s n false i h = ground (arith, i, outer_line-cluster s n h)

  -- A line that the reader takes.
  read_topo-next :
      (s s' : TopoInput D) (buf : List ℕ) (lines : List (List ℕ))
      → topo_line s buf ≡ some (next_line s')
      → read_topo s (buf ∷ lines) ≡ read_topo s' lines
  unfolding read_topo
  read_topo-next s s' buf lines e = ap (λ o. o >>= go_on buf lines (λ n. read_topo n lines) s) e

  read_cpus :
      (topo : CpuTopology D) (p c : ℕ) (cpu : Option ℤ) (cs : List CpuCpu) (rest : List (List ℕ))
      → All IsIntCpu cs
      → (cpu' : Option ℤ) × (read_topo
            (input_in topo p (some (pos c)) cpu true)
            (map place_line (print_cpus cs) ++ rest)
          ≡ read_topo
              (input_in (add_entries topo (cpu_entries p c cs)) p (some (pos c)) cpu' true)
              rest)
  read_cpus topo p c cpu [] rest h = (cpu, refl)
  read_cpus topo p c cpu (u ∷ us) rest h =
      let (cpu', e) = read_cpus (add_cpu topo p c u.cpu_id) p c (some (pos u.cpu_id)) us rest h.1 in
      (cpu', read_topo-next _ _ _ _ (topo_line-cpu topo p c u.cpu_id cpu h.0) ∙ e)

  read_cores :
      (topo : CpuTopology D) (p : ℕ) (core cpu : Option ℤ) (ht : Bool) (cs : List (CpuCore D))
      (rest : List (List ℕ))
      → All IsIntCore cs
      → (core' : Option ℤ) × (cpu' : Option ℤ) × (ht' : Bool) × (read_topo
            (input_in topo p core cpu ht)
            (map place_line (print_cores cs) ++ rest)
          ≡ read_topo (input_in (add_entries topo (core_entries p cs)) p core' cpu' ht') rest)
  unfolding print_cores
  read_cores topo p core cpu ht [] rest h = (core, cpu, ht, refl)
  read_cores topo p core cpu ht (c ∷ cs) rest h =
      let (cpu1, e1) =
        read_cpus topo p c.core_id cpu c.cpus (map place_line (print_cores cs) ++ rest) h.0.1 in
      let (core', cpu', ht', e2) =
        read_cores (add_entries topo (cpu_entries p c.core_id c.cpus)) p (some (pos c.core_id)) cpu1
          true cs rest h.1 in
      (
        core',
        cpu',
        ht',
        ap (λ l. read_topo (input_in topo p core cpu ht) (place_line (core_place c.core_id) ∷ l))
              (ap (λ l. l ++ rest) (map-append place_line (print_cpus c.cpus) (print_cores cs))
                ∙ append_assoc (map place_line (print_cpus c.cpus))
                    (map place_line (print_cores cs)) rest)
            ∙ read_topo-next _ _ _ _
                (topo_line-core (input_in topo p core cpu ht) c.core_id refl h.0.0)
            ∙ e1
            ∙ e2
            ∙ ap (λ t. read_topo (input_in t p core' cpu' ht') rest)
                (sym
                  (add_entries-append topo (cpu_entries p c.core_id c.cpus) (core_entries p cs))),
      )

  read_clusters :
      (s : TopoInput D) (ps : List (CpuPhysical D)) (rest : List (List ℕ))
      → All IsIntCluster ps
      → (s' : TopoInput D) × (s'.result ≡ add_entries s.result (cluster_entries ps))
        × (read_topo s (map place_line (print_clusters ps) ++ rest) ≡ read_topo s' rest)
  unfolding print_clusters
  read_clusters s [] rest h = (s, refl, refl)
  read_clusters s (p ∷ ps) rest h =
      let (core1, cpu1, ht1, e1) =
        read_cores s.result p.physical_id (core_left s) s.cpu_id false p.cores
          (map place_line (print_clusters ps) ++ rest) h.0.1 in
      let mid =
        input_in (add_entries s.result (core_entries p.physical_id p.cores)) p.physical_id core1
          cpu1 ht1 in
      let (s', g, e2) = read_clusters mid ps rest h.1 in
      (
        s',
        g
            ∙ sym (
                add_entries-append s.result (core_entries p.physical_id p.cores)
                  (cluster_entries ps)),
        ap (λ l. read_topo s (place_line (cluster_place p.physical_id) ∷ l))
              (ap (λ l. l ++ rest) (map-append place_line (print_cores p.cores) (print_clusters ps))
                ∙ append_assoc (map place_line (print_cores p.cores))
                    (map place_line (print_clusters ps)) rest)
            ∙ read_topo-next _ _ _ _ (topo_line-cluster s p.physical_id s.inside refl h.0.0)
            ∙ e1
            ∙ e2,
      )

  read_topo-complete :
      (s : TopoInput D) (buf : List ℕ) (lines : List (List ℕ))
      → topo_line s buf ≡ some complete
      → read_topo s (buf ∷ lines) ≡ some (ptr (s.result, buf, lines))
  unfolding read_topo
  read_topo-complete s buf lines e = ap (λ o. o >>= go_on buf lines (λ n. read_topo n lines) s) e

  -- A topology that was written is read up to the line that follows, as its CPUs in order.
  pub read_topo-written :
      (topo : CpuTopology D) (next : List ℕ) (rest : List (List ℕ))
      → All IsIntCluster topo.physicals
      → EndsTopology D next
      → read_topo (start_input {D = D}) (outfile_topo_info topo ++ next ∷ rest)
        ≡ some (ptr (add_entries alloc_cpu_topo_info (cluster_entries topo.physicals), next, rest))
  unfolding outfile_topo_info output_topo_info
  read_topo-written topo next rest h e =
      let (s', g, r) = read_clusters (start_input {D = D}) topo.physicals (next ∷ rest) h in
      r ∙ read_topo-complete s' next rest (e s') ∙ ap (λ t. some (ptr (t, next, rest))) g
