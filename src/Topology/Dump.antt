-- ===== src/Topology/Dump.antt =====
-- The walks over a topology (topology.c): `dump_cpu_topo_info`, which calls a function of the report on
-- each place, `output_topo_info` and `outfile_topo_info`, which print it, and
-- `release_cpu_topo_cstates`. A printed line is the place that it names.
use idlestat.Base.{ℕ, ◌≡◌, refl, none, List, [], ◌∷◌, ◌++◌, if◌then◌else◌, ap, ◌∙◌, sym, arith}
use idlestat.Topology.{CpuCpu, CpuCore, CpuPhysical, CpuTopology}

pub data Place : Type 0 where
  cluster_place core_place cpu_place : ℕ → Place

-- What `dump` is called on: the statistics of a cluster, of a core, of a CPU.
pub record Picks (D : Type 0) (A : Type 0) : Type 0 where
  pub of_cluster : CpuPhysical D → A
  pub of_core : CpuCore D → A
  pub of_cpu : CpuCpu → A

module _ {D : Type 0} {A : Type 0} (picks : Picks D A) where
  abbrev pub dump_cpus : List CpuCpu → List (Place × A)
  dump_cpus [] = []
  dump_cpus (c ∷ cs) = (cpu_place c.cpu_id, picks.of_cpu c) ∷ dump_cpus cs

  -- A core has a line of its own only where it has more than one CPU.
  unfoldable pub dump_core : CpuCore D → List (Place × A)
  dump_core c =
      if c.is_ht
      then (core_place c.core_id, picks.of_core c) ∷ dump_cpus c.cpus
      else dump_cpus c.cpus

  unfoldable pub dump_cores : List (CpuCore D) → List (Place × A)
  unfolding dump_core
  dump_cores [] = []
  dump_cores (c ∷ cs) = dump_core c ++ dump_cores cs

  unfoldable pub dump_clusters : List (CpuPhysical D) → List (Place × A)
  unfolding dump_cores
  dump_clusters [] = []
  dump_clusters (p ∷ ps) =
      ((cluster_place p.physical_id, picks.of_cluster p) ∷ dump_cores p.cores) ++ dump_clusters ps

  unfoldable pub dump_cpu_topo_info : CpuTopology D → List (Place × A)
  unfolding dump_clusters
  dump_cpu_topo_info topo = dump_clusters topo.physicals

abbrev pub print_cpus : List CpuCpu → List Place
print_cpus [] = []
print_cpus (c ∷ cs) = cpu_place c.cpu_id ∷ print_cpus cs

module _ {D : Type 0} where
  unfoldable pub print_cores : List (CpuCore D) → List Place
  print_cores [] = []
  print_cores (c ∷ cs) = (core_place c.core_id ∷ print_cpus c.cpus) ++ print_cores cs

  unfoldable pub print_clusters : List (CpuPhysical D) → List Place
  unfolding print_cores
  print_clusters [] = []
  print_clusters (p ∷ ps) = (cluster_place p.physical_id ∷ print_cores p.cores) ++ print_clusters ps

  unfoldable pub output_topo_info : CpuTopology D → List Place
  unfolding print_clusters
  output_topo_info topo = print_clusters topo.physicals

  -- The statistics of a core of one CPU are not released.
  unfoldable pub release_cores : List (CpuCore D) → List (CpuCore D)
  release_cores [] = []
  release_cores (c ∷ cs) = (if c.is_ht then record c { cstates = none } else c) ∷ release_cores cs

  unfoldable pub release_clusters : List (CpuPhysical D) → List (CpuPhysical D)
  unfolding release_cores
  release_clusters [] = []
  release_clusters (p ∷ ps) =
      record p { cstates = none; cores = release_cores p.cores } ∷ release_clusters ps

  unfoldable pub release_cpu_topo_cstates : CpuTopology D → CpuTopology D
  unfolding release_clusters
  release_cpu_topo_cstates topo = record topo { physicals = release_clusters topo.physicals }

-- The lines that are not a core's.
abbrev pub without_cores : List Place → List Place
without_cores [] = []
without_cores (cluster_place n ∷ l) = cluster_place n ∷ without_cores l
without_cores (core_place n ∷ l) = without_cores l
without_cores (cpu_place n ∷ l) = cpu_place n ∷ without_cores l

abbrev pub places : {A : Type 0} → List (Place × A) → List Place
places [] = []
places ((p, a) ∷ l) = p ∷ places l

places-append : {A : Type 0} (xs ys : List (Place × A)) → places (xs ++ ys) ≡ places xs ++ places ys
places-append [] ys = refl
places-append ((p, a) ∷ xs) ys = ap (◌∷◌ p) (places-append xs ys)

without_cores-append :
    (xs ys : List Place) → without_cores (xs ++ ys) ≡ without_cores xs ++ without_cores ys
without_cores-append [] ys = refl
without_cores-append (cluster_place n ∷ xs) ys =
    ap (◌∷◌ (cluster_place n)) (without_cores-append xs ys)
without_cores-append (core_place n ∷ xs) ys = without_cores-append xs ys
without_cores-append (cpu_place n ∷ xs) ys = ap (◌∷◌ (cpu_place n)) (without_cores-append xs ys)

module _ {D : Type 0} {A : Type 0} (picks : Picks D A) where
  places-dump_cpus : (cs : List CpuCpu) → places (dump_cpus picks cs) ≡ print_cpus cs
  places-dump_cpus [] = refl
  places-dump_cpus (c ∷ cs) = ap (◌∷◌ (cpu_place c.cpu_id)) (places-dump_cpus cs)

  dump_core-places :
      (c : CpuCore D)
      → without_cores (places (dump_core picks c)) ≡ without_cores (print_cpus c.cpus)
  unfolding dump_core
  dump_core-places c = ground (arith, ap without_cores (places-dump_cpus c.cpus))

  dump_cores-places :
      (cs : List (CpuCore D))
      → without_cores (places (dump_cores picks cs)) ≡ without_cores (print_cores cs)
  unfolding dump_cores print_cores
  dump_cores-places [] = refl
  dump_cores-places (c ∷ cs) =
      ap without_cores (places-append (dump_core picks c) (dump_cores picks cs))
      ∙ without_cores-append (places (dump_core picks c)) (places (dump_cores picks cs))
      ∙ ap (λ l. l ++ without_cores (places (dump_cores picks cs))) (dump_core-places c)
      ∙ ap (λ l. without_cores (print_cpus c.cpus) ++ l) (dump_cores-places cs)
      ∙ sym (without_cores-append (print_cpus c.cpus) (print_cores cs))

  dump_clusters-places :
      (ps : List (CpuPhysical D))
      → without_cores (places (dump_clusters picks ps)) ≡ without_cores (print_clusters ps)
  unfolding dump_clusters print_clusters
  dump_clusters-places [] = refl
  dump_clusters-places (p ∷ ps) = ap (◌∷◌ (cluster_place p.physical_id)) (
      ap without_cores (places-append (dump_cores picks p.cores) (dump_clusters picks ps))
      ∙ without_cores-append (places (dump_cores picks p.cores)) (places (dump_clusters picks ps))
      ∙ ap (λ l. l ++ without_cores (places (dump_clusters picks ps))) (dump_cores-places p.cores)
      ∙ ap (λ l. without_cores (print_cores p.cores) ++ l) (dump_clusters-places ps)
      ∙ sym (without_cores-append (print_cores p.cores) (print_clusters ps)))

  -- A report goes over the same clusters and CPUs, in the same order, as the topology that is stored in
  -- a trace file.
  pub dump_cpu_topo_info-places :
      (topo : CpuTopology D)
      → without_cores (places (dump_cpu_topo_info picks topo))
        ≡ without_cores (output_topo_info topo)
  unfolding dump_cpu_topo_info output_topo_info
  dump_cpu_topo_info-places topo = dump_clusters-places topo.physicals
