-- ===== src/Examples/Events.antt =====
-- A CPU of two enters its second C-state, as `store_data` (idlestat.c) records it.
use idlestat.Base.{ℕ, ◌≡◌, refl, some, get_elem?}
use idlestat.Base.Int.{ℤ, pos}
use idlestat.Base.Double.{whole_double}
use idlestat.Topology.{new_cpu, new_core, new_physical}
use idlestat.Topology.Build.{
  add_cpu, topo_has_cpu, cpu_is_online, alloc_cpu_topo_info, online_at, add_cpu_to_physical,
  ensure_core, physical_has_cpu, add_cpu_to_core, core_has_cpu, set_online, grow_online,
}
use idlestat.Topology.Lookup.{
  cluster_cpu, find_map, update_first, cpu_to_core, cpu_to_cluster, cluster_cpus, enum_cpus,
  find_index, enum_has_cpu, core_in,
}
use idlestat.Topology.Groups.{
  cluster_get_least_cstate, cluster_get_highest_freq, least_from, highest_from, counted_freq,
  core_get_least_cstate, core_get_highest_freq,
}
use idlestat.Topology.Setup.{
  setup_topo_states, setup_clusters, setup_cluster, setup_cores, create_cluster_states,
  create_core_states, create_states, create_state, map_cpus, map_cpu, map_cluster_cpu, map_core_cpu,
}
use idlestat.Topology.Ids.{
  find_id, update_found, ensure, check_exist_from_head, insert_before_greater,
}
use idlestat.Datas.Affected.{CoreAgrees, ClusterAgrees}
use idlestat.Datas.Store.{store_data-agrees}
use idlestat.Examples.{names, residencies}
use idlestat.Pstates.{
  record_group_freq, add_sample, alloc_at, alloc_pstate, current_pstate, find_slot, fresh_pstate,
  insert_pstate, open_current_pstate, open_next_pstate, renumber, switch_group,
  close_current_pstate, empty_pstates,
}
use idlestat.Cstates.{
  CpuidleCstates, maxcstate, idle_cstates, record_cstate_event, cstate_begin, add_stay, cstate_end,
  end_stay, finish_stay, is_late, judge, judge_late, judge_next, open_stay, fresh_states,
  fresh_cstate, build_from, build_cstate_info,
}
use idlestat.Datas.{
  CpuidleDatas, store_data, store_pstate, cpu_pstate_idle, put_cpu_cstates, check_pstate_composite,
  put_cpu_pstates, record_core_freq, cpu_pstate_running, idle_pstates, put_cluster, put_core,
  put_core_in, record_cluster_cstate, record_cluster_freq, record_core_cstate, running_pstates,
  update_affected,
}
use idlestat.Examples.Traces.{two_running, from_some, two_cpus}

abbrev one_idle : CpuidleDatas ℤ
one_idle = from_some two_running (store_data (pos 5) (pos 1) 0 two_running)

stored_is : store_data (pos 5) (pos 1) 0 two_running ≡ some one_idle
unfolding setup_topo_states setup_clusters setup_cluster setup_cores create_cluster_states
    create_core_states create_states create_state map_cpus map_cpu map_cluster_cpu map_core_cpu
    cpu_is_online online_at topo_has_cpu find_id update_found ensure check_exist_from_head
    insert_before_greater add_cpu add_cpu_to_physical ensure_core physical_has_cpu add_cpu_to_core
    core_has_cpu set_online grow_online cluster_cpu find_map update_first build_cstate_info
    build_from fresh_states fresh_cstate empty_pstates alloc_cpu_topo_info new_cpu new_core
    new_physical record_group_freq add_sample alloc_at alloc_pstate current_pstate find_slot
    fresh_pstate insert_pstate open_current_pstate open_next_pstate renumber switch_group
    close_current_pstate record_cstate_event cstate_begin add_stay cstate_end end_stay finish_stay
    is_late judge judge_late judge_next open_stay store_data store_pstate cpu_pstate_idle
    put_cpu_cstates check_pstate_composite put_cpu_pstates record_core_freq cpu_pstate_running
    idle_pstates put_cluster put_core put_core_in record_cluster_cstate record_cluster_freq
    record_core_cstate running_pstates update_affected cpu_to_core find_index cpu_to_cluster
    enum_has_cpu core_get_highest_freq highest_from counted_freq cluster_get_highest_freq
    cluster_get_least_cstate core_get_least_cstate least_from cluster_cpus core_in enum_cpus
stored_is = refl

abbrev idle_again : CpuidleCstates ℤ
idle_again = idle_cstates (fresh_states names residencies 0 maxcstate)

first_is : get_elem? two_cpus 0 ≡ some idle_again
unfolding build_cstate_info build_from
first_is = refl

store_data-agrees_example :
    ((t : CpuidleCstates ℤ) × (get_elem? one_idle.cstates 0 ≡ some t) × (t.current_cstate ≡ pos 1))
    × ((at : ℕ × ℕ) × (cpu_to_core 0 one_idle.topo ≡ some at) × CoreAgrees one_idle at)
    × ((k : ℕ) × (cpu_to_cluster 0 one_idle.topo ≡ some k) × ClusterAgrees one_idle k)
store_data-agrees_example =
    store_data-agrees (pos 5) (pos 1) 0 two_running one_idle idle_again first_is refl stored_is
