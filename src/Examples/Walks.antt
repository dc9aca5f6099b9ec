-- ===== src/Examples/Walks.antt =====
-- The walks over a cluster of two cores, and the same cluster as a baseline.
use idlestat.Base.{ℕ, ◌≡◌, refl, Option, none, some, map?}
use idlestat.Base.Int.{ℤ}
use idlestat.Base.Double.{whole_double}
use idlestat.Topology.{CpuTopology, new_cpu, new_core, new_physical}
use idlestat.Topology.Build.{
  add_cpu, alloc_cpu_topo_info, add_cpu_to_physical, ensure_core, physical_has_cpu, add_cpu_to_core,
  core_has_cpu,
}
use idlestat.Topology.Ids.{
  find_id, update_found, ensure, check_exist_from_head, insert_before_greater,
}
use idlestat.Topology.Lookup.{find_cpu_point}
use idlestat.Topology.Baseline.{assign_baseline_in_topo}
use idlestat.Topology.Baseline.Same.{own, based, assign_baseline_in_topo_lem}
use idlestat.Topology.Dump.{
  Picks, without_cores, places, dump_cpu_topo_info, output_topo_info, dump_cpu_topo_info-places,
}
use idlestat.Examples.Traces.{two_cores}

abbrev state_indices : Picks ℤ (Option ℕ)
state_indices = record { of_cluster = λ p. none; of_core = λ c. none; of_cpu = λ c. c.cstates }

dump_cpu_topo_info-places_example :
    without_cores (places (dump_cpu_topo_info state_indices two_cores))
    ≡ without_cores (output_topo_info two_cores)
dump_cpu_topo_info-places_example = dump_cpu_topo_info-places state_indices two_cores

assign_baseline_in_topo_lem_example :
    (t : CpuTopology ℤ) × (assign_baseline_in_topo two_cores (some two_cores) ≡ some t)
    × ((v : ℕ)
        → (map? based (find_cpu_point t v) ≡ map? own (find_cpu_point two_cores v))
          × (map? own (find_cpu_point t v) ≡ map? own (find_cpu_point two_cores v)))
unfolding add_cpu add_cpu_to_physical ensure_core physical_has_cpu add_cpu_to_core core_has_cpu
    find_id update_found ensure check_exist_from_head insert_before_greater alloc_cpu_topo_info
    new_cpu new_core new_physical
assign_baseline_in_topo_lem_example =
    assign_baseline_in_topo_lem two_cores two_cores (((refl, tt), ((refl, tt), tt)), tt)
