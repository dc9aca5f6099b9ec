-- ===== src/Examples/Traces.antt =====
-- A cluster of two cores of one CPU each, at the start of a trace.
use idlestat.Base.{
  ℕ, ◌≡◌, refl, true, Option, none, some, List, [], ◌∷◌, if◌then◌else◌, All, ◌&&◌, ◌||◌, ◌==◌, ltb,
  get_elem?, map?,
}
use idlestat.Base.Int.{ℤ, pos, minus_one}
use idlestat.Base.Double.{whole_double}
use idlestat.Pstates.{empty_pstates, fresh_pstate}
use idlestat.Cstates.{
  CpuidleCstates, maxcstate, fresh_cstate, fresh_states, build_from, build_cstate_info,
}
use idlestat.Topology.{CpuCpu, CpuPhysical, CpuTopology, new_cpu, new_core, new_physical}
use idlestat.Topology.Build.{
  add_cpu, add_topo_info, topo_has_cpu, cpu_is_online, alloc_cpu_topo_info, online_at,
  add_cpu_to_physical, ensure_core, physical_has_cpu, add_cpu_to_core, core_has_cpu, set_online,
  grow_online,
}
use idlestat.Topology.Order.{IsTopology, add_topo_info_lem, alloc_cpu_topo_info-IsTopology}
use idlestat.Topology.Lookup.{
  cluster_cpu, find_map, update_first, find_cpu_point, cluster_cpus, enum_cpus,
}
use idlestat.Topology.Groups.{
  cluster_get_least_cstate, cluster_get_highest_freq, least_from, highest_from, counted_freq,
}
use idlestat.Topology.Setup.{
  map_states, setup_topo_states, setup_clusters, setup_cluster, setup_cores, create_cluster_states,
  create_core_states, create_states, create_state, map_cpus, map_cpu, map_cluster_cpu, map_core_cpu,
}
use idlestat.Topology.Mapped.{IsPrepared, setup_topo_states_lem}
use idlestat.Topology.Least.{
  IsLeast, IsHighest, cluster_get_least_cstate_lem, cluster_get_highest_freq_lem,
}
use idlestat.Topology.Ids.{
  find_id, update_found, ensure, check_exist_from_head, insert_before_greater,
}
use idlestat.Datas.{CpuidleDatas}
use idlestat.Examples.{names, residencies, two_freqs}

abbrev pub from_some : {A : Type 0} → A → Option A → A
from_some a none = a
from_some a (some x) = x

abbrev pub two_cores : CpuTopology ℤ
two_cores = add_cpu (add_cpu alloc_cpu_topo_info 0 0 0) 0 1 1

abbrev pub two_cpus : List (CpuidleCstates ℤ)
two_cpus = build_cstate_info (λ cpu. names) (λ cpu. residencies) 2

abbrev mapped_cores : CpuTopology ℤ
mapped_cores = from_some two_cores (setup_topo_states two_cpus 2 two_cores)

add_topo_info_lem_example :
    (t : CpuTopology ℤ) × (add_topo_info alloc_cpu_topo_info
        (record { physical_id = pos 0; core_id = pos 1; cpu_id = pos 3 })
      ≡ some t)
    × IsTopology t
    × ((p' c' u' : ℕ)
        → topo_has_cpu t p' c' u' ≡ (
            (p' == 0 && c' == 1 && u' == 3) || topo_has_cpu (alloc_cpu_topo_info {D = ℤ}) p' c' u'))
    × ((v : ℕ) → cpu_is_online t v ≡ (v == 3 || cpu_is_online (alloc_cpu_topo_info {D = ℤ}) v))
add_topo_info_lem_example =
    add_topo_info_lem alloc_cpu_topo_info 0 1 3 (alloc_cpu_topo_info-IsTopology ℤ)

setup_is_some : setup_topo_states two_cpus 2 two_cores ≡ some mapped_cores
unfolding setup_topo_states setup_clusters setup_cluster setup_cores create_cluster_states
    create_core_states create_states create_state map_cpus map_cpu map_cluster_cpu map_core_cpu
    cpu_is_online online_at topo_has_cpu find_id update_found ensure check_exist_from_head
    insert_before_greater add_cpu add_cpu_to_physical ensure_core physical_has_cpu add_cpu_to_core
    core_has_cpu set_online grow_online cluster_cpu find_map update_first build_cstate_info
    build_from fresh_states fresh_cstate empty_pstates alloc_cpu_topo_info new_cpu new_core
    new_physical
setup_is_some = refl

setup_topo_states_lem_example :
    ((v : ℕ)
      → find_cpu_point mapped_cores v ≡ (
          if ltb v 2 && cpu_is_online two_cores v
          then map? (map_states v) (find_cpu_point two_cores v)
          else find_cpu_point two_cores v))
    × All IsPrepared mapped_cores.physicals
setup_topo_states_lem_example =
    setup_topo_states_lem two_cpus 2 two_cores mapped_cores setup_is_some

abbrev pub two_running : CpuidleDatas ℤ
two_running = record {
  cstates = two_cpus;
  pstates = two_freqs ∷ two_freqs ∷ [];
  topo = mapped_cores;
  nrcpus = 2;
}

abbrev cluster_of_two : CpuPhysical ℤ
cluster_of_two = from_some (new_physical 0) (get_elem? mapped_cores.physicals 0)

least_is : cluster_get_least_cstate two_cpus cluster_of_two ≡ some minus_one
unfolding setup_topo_states setup_clusters setup_cluster setup_cores create_cluster_states
    create_core_states create_states create_state map_cpus map_cpu map_cluster_cpu map_core_cpu
    cpu_is_online online_at topo_has_cpu find_id update_found ensure check_exist_from_head
    insert_before_greater add_cpu add_cpu_to_physical ensure_core physical_has_cpu add_cpu_to_core
    core_has_cpu set_online grow_online cluster_cpu find_map update_first build_cstate_info
    build_from fresh_states fresh_cstate empty_pstates alloc_cpu_topo_info new_cpu new_core
    new_physical cluster_get_least_cstate least_from cluster_cpus enum_cpus
least_is = refl

highest_is : cluster_get_highest_freq (two_freqs ∷ two_freqs ∷ []) cluster_of_two ≡ some 2_000_000
unfolding setup_topo_states setup_clusters setup_cluster setup_cores create_cluster_states
    create_core_states create_states create_state map_cpus map_cpu map_cluster_cpu map_core_cpu
    cpu_is_online online_at topo_has_cpu find_id update_found ensure check_exist_from_head
    insert_before_greater add_cpu add_cpu_to_physical ensure_core physical_has_cpu add_cpu_to_core
    core_has_cpu set_online grow_online cluster_cpu find_map update_first build_cstate_info
    build_from fresh_states fresh_cstate empty_pstates alloc_cpu_topo_info new_cpu new_core
    new_physical cluster_get_highest_freq highest_from counted_freq cluster_cpus enum_cpus
    fresh_pstate
highest_is = refl

cluster_get_least_cstate_lem_example :
    (cs : List CpuCpu) × (cluster_cpus cluster_of_two ≡ some cs)
    × IsLeast two_cpus (pos maxcstate) minus_one cs
cluster_get_least_cstate_lem_example =
    cluster_get_least_cstate_lem two_cpus cluster_of_two minus_one least_is

cluster_get_highest_freq_lem_example :
    (cs : List CpuCpu) × (cluster_cpus cluster_of_two ≡ some cs)
    × IsHighest true (two_freqs ∷ two_freqs ∷ []) 0 2_000_000 cs
cluster_get_highest_freq_lem_example =
    cluster_get_highest_freq_lem (two_freqs ∷ two_freqs ∷ []) cluster_of_two 2_000_000 highest_is
