-- ===== src/Topology/Baseline.antt =====
-- `assign_baseline_in_topo` (topology.c): the statistics of a baseline are attached to a topology, the
-- first cluster's to the first and so on. The step to the next entry past the end of a list gives no
-- object: to read from it is a fault.
use idlestat.Base.{
  ℕ, zero, suc, ◌≡◌, refl, Option, none, some, List, [], ◌∷◌, map?, ◌>>=◌, ap, ◌∙◌, sym, map,
}
use idlestat.Topology.{CpuCpu, CpuCore, CpuPhysical, CpuTopology}
pub mod Same

unfoldable pub assign_cpus : List CpuCpu → List CpuCpu → Option (List CpuCpu)
assign_cpus [] bs = some []
assign_cpus (c ∷ cs) [] = none
assign_cpus (c ∷ cs) (b ∷ bs) =
    map? (λ rest. record c { base_cstates = b.cstates; base_pstates = b.pstates } ∷ rest)
      (assign_cpus cs bs)

module _ {D : Type 0} where
  unfoldable pub assign_cores : List (CpuCore D) → List (CpuCore D) → Option (List (CpuCore D))
  unfolding assign_cpus
  assign_cores [] bs = some []
  assign_cores (c ∷ cs) [] = none
  assign_cores (c ∷ cs) (b ∷ bs) = assign_cpus c.cpus b.cpus >>= λ cpus.
      map?
        (λ rest.
          record c { cpus = cpus; base_cstates = b.cstates; base_pstates = some b.pstates } ∷ rest)
        (assign_cores cs bs)

  unfoldable pub assign_clusters :
      List (CpuPhysical D) → List (CpuPhysical D) → Option (List (CpuPhysical D))
  unfolding assign_cores
  assign_clusters [] bs = some []
  assign_clusters (p ∷ ps) [] = none
  assign_clusters (p ∷ ps) (b ∷ bs) = assign_cores p.cores b.cores >>= λ cores.
      map?
        (λ rest.
          record p { cores = cores; base_cstates = b.cstates; base_pstates = some b.pstates }
          ∷ rest)
        (assign_clusters ps bs)

  -- Without a baseline nothing is assigned.
  unfoldable pub assign_baseline_in_topo :
      CpuTopology D → Option (CpuTopology D) → Option (CpuTopology D)
  unfolding assign_clusters
  assign_baseline_in_topo topo none = some topo
  assign_baseline_in_topo topo (some base) =
      map? (λ ps. record topo { physicals = ps }) (assign_clusters topo.physicals base.physicals)
