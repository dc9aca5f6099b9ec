-- ===== src/Topology/Setup.antt =====
-- `setup_topo_states` (topology.c): the CPUs of the topology get their entries of the arrays, and
-- the cores and clusters get C-states of their own.
use idlestat.Base.{
  ℕ, zero, suc, ◌+◌, Option, none, some, List, [], ◌∷◌, if◌then◌else◌, map?, ◌>>=◌, take, map,
}
use idlestat.Base.Int.{pos}
use idlestat.Base.Double.{Double}
use idlestat.Cstates.{CpuidleCstate, CpuidleCstates, maxcstate, idle_cstates}
use idlestat.Topology.{CpuCpu, CpuCore, CpuPhysical, CpuTopology}
use idlestat.Topology.Ids.{update_found}
use idlestat.Topology.Build.{cpu_is_online}
use idlestat.Topology.Lookup.{update_first, core_cpu, cluster_cpu}
use idlestat.Topology.Groups.{cpu_cstates}

-- `list_first_entry` under the assertion that there is one.
abbrev pub first_entry : {A : Type 0} → List A → Option A
first_entry [] = none
first_entry (x ∷ xs) = some x

abbrev pub map_states : ℕ → CpuCpu → CpuCpu
map_states i c = record c { cstates = some i; pstates = some i }

module _ {D : Type 0} where
  -- The CPU that `find_cpu_point` finds gets its states.
  unfoldable pub map_core_cpu : ℕ → CpuCore D → CpuCore D
  map_core_cpu i core = record core {
    cpus = update_found (λ (c : CpuCpu). c.cpu_id) i (map_states i) core.cpus;
  }

  unfoldable pub map_cluster_cpu : ℕ → CpuPhysical D → CpuPhysical D
  unfolding map_core_cpu
  map_cluster_cpu i phy = record phy {
    cores = update_first (core_cpu i) (map_core_cpu i) phy.cores;
  }

  unfoldable pub map_cpu : ℕ → CpuTopology D → CpuTopology D
  map_cpu i topo = record topo {
    physicals = update_first (cluster_cpu i) (map_cluster_cpu i) topo.physicals;
  }

  -- The CPUs `i`, `i + 1`, … of the first loop.
  unfoldable pub map_cpus : ℕ → ℕ → CpuTopology D → CpuTopology D
  map_cpus i zero topo = topo
  map_cpus i (suc n) topo =
      map_cpus (i + 1) n (if cpu_is_online topo i then map_cpu i topo else topo)

module _ {D : Type 0} ⦃d : Double D⦄ where
  -- The zeroed entry of `calloc`, with the name where there is one.
  unfoldable pub create_state : CpuidleCstate D → CpuidleCstate D
  create_state s = elim (s.name) [
    | none ↦ record {
      name = none;
      stays = [];
      nrdata = 0;
      early_wakings = 0;
      late_wakings = 0;
      avg_time = d.nought;
      max_time = d.nought;
      min_time = d.nought;
      duration = d.nought;
      target_residency = pos 0;
    }
    | some n ↦ record {
      name = some n;
      stays = [];
      nrdata = 0;
      early_wakings = 0;
      late_wakings = 0;
      avg_time = d.nought;
      max_time = d.nought;
      min_time = d.dbl_max;
      duration = d.nought;
      target_residency = s.target_residency;
    }
  ]

  unfoldable pub create_states : List (CpuidleCstate D) → CpuidleCstates D
  unfolding create_state
  create_states s_state = idle_cstates (map create_state (take maxcstate s_state))

  unfoldable pub create_core_states :
      List (CpuidleCstates D) → CpuCore D → Option (CpuidleCstates D)
  create_core_states states s_core = first_entry s_core.cpus >>= λ origin_cpu.
      cpu_cstates states origin_cpu >>= λ s. some (create_states s.cstate)

  unfoldable pub create_cluster_states : CpuPhysical D → Option (CpuidleCstates D)
  create_cluster_states s_phy = first_entry s_phy.cores >>= λ origin_core.
      origin_core.cstates >>= λ s. some (create_states s.cstate)

  unfoldable pub setup_cores :
      List (CpuidleCstates D) → List (CpuCore D) → Option (List (CpuCore D))
  setup_cores states [] = some []
  setup_cores states (c ∷ cs) = create_core_states states c >>= λ s.
      map? (λ rest. record c { cstates = some s } ∷ rest) (setup_cores states cs)

  unfoldable pub setup_cluster : List (CpuidleCstates D) → CpuPhysical D → Option (CpuPhysical D)
  setup_cluster states phy = setup_cores states phy.cores >>= λ cores.
      let with_cores = record phy { cores = cores } in
      create_cluster_states with_cores >>= λ s. some (record with_cores { cstates = some s })

  unfoldable pub setup_clusters :
      List (CpuidleCstates D) → List (CpuPhysical D) → Option (List (CpuPhysical D))
  setup_clusters states [] = some []
  setup_clusters states (p ∷ ps) =
      setup_cluster states p >>= λ q. map? (λ rest. q ∷ rest) (setup_clusters states ps)

  unfoldable pub setup_topo_states :
      List (CpuidleCstates D) → ℕ → CpuTopology D → Option (CpuTopology D)
  setup_topo_states states nrcpus topo =
      let mapped = map_cpus 0 nrcpus topo in
      map? (λ ps. record mapped { physicals = ps }) (setup_clusters states mapped.physicals)
