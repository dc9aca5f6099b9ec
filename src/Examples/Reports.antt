-- ===== src/Examples/Reports.antt =====
-- Reports on a CPU with one stay in a C-state and no P-states, and the template of an energy model.
use idlestat.Base.{
  strstr, starts_with, ℕ, ◌≡◌, refl, Option, none, some, List, [], ◌∷◌, ◌++◌, ◌⊎◌, bytes, arith,
  length, eq_bytes, take,
}
use idlestat.Base.Int.{ℤ, pos}
use idlestat.Base.Double.{whole_double}
use idlestat.Base.Ptr.{Ptr, ptr, err_ptr}
use idlestat.Pstates.{empty_pstates}
use idlestat.Cstates.{CpuidleCstate, CpuidleCstates, idle_cstates}
use idlestat.Topology.{new_cpu, new_core, new_physical}
use idlestat.Topology.Build.{
  add_cpu, alloc_cpu_topo_info, add_cpu_to_physical, ensure_core, physical_has_cpu, add_cpu_to_core,
  core_has_cpu,
}
use idlestat.Topology.Ids.{
  find_id, update_found, ensure, check_exist_from_head, insert_before_greater,
}
use idlestat.Reports.Complete.{HasOps, get_report_ops-HasOps}
use idlestat.Reports.Csv.{csv_report_ops}
use idlestat.Reports.Comparison.{comparison_report_ops}
use idlestat.Reports.{
  is_complete, copied_ops, prepared, display_cstates, display_pstates, find_ops, get_report_ops,
  entries,
}
use idlestat.Reports.Default.{boxless_report_ops, default_cpu_header, default_report_ops}
use idlestat.Reports.Known.{report_table, report_table-IsUsable, Found, get_report_ops_lem}
use idlestat.Reports.Width.{default_cpu_header_lem}
use idlestat.Reports.Lines.{table_text}
use idlestat.Reports.Compared.{
  compared_ops, nothing_waits, cstate_is_hit, cstate_row, display_compared,
}
use idlestat.Base.Scan.{
  sscanf, scan_from, skip_blanks, convert, span_word, scan_number, split_sign, span_digits,
}
use idlestat.Topology.Read.{cluster_number}
use idlestat.Energy.Parse.Current.{IsParsing}
use idlestat.Energy.Parse.Filled.{energy_lines_lem}
use idlestat.Energy.Parse.{
  start_parser, energy_lines, EnergyParser, start_pstates, start_cstates, energy_line,
  clusters_line, cluster_info_line, start_cluster, put_entry, data_line, entry_line, cap_state_line,
  clusters_format, cluster_info_format, pstate_format, ParsedCluster, uninitialized,
  parse_energy_model,
}
use idlestat.Energy.Parse.Template.{make_energy_model_template, cluster_templates, template_refused}
use idlestat.Examples.Whole.{whole_strtod, whole_format}
use idlestat.Examples.Traces.{two_running, from_some}
use idlestat.Topology.Build.{topo_has_cpu, cpu_is_online, online_at, set_online, grow_online}
use idlestat.Topology.Lookup.{cluster_cpu, find_map, update_first}
use idlestat.Topology.Setup.{
  setup_topo_states, setup_clusters, setup_cluster, setup_cores, create_cluster_states,
  create_core_states, create_states, create_state, map_cpus, map_cpu, map_cluster_cpu, map_core_cpu,
}
use idlestat.Cstates.{build_cstate_info, build_from, fresh_states, fresh_cstate}

-- One state with a hit, of three microseconds.
abbrev idle_once : CpuidleCstate ℤ
idle_once = record {
  name = some (bytes "WFI");
  stays = [];
  nrdata = 1;
  early_wakings = 0;
  late_wakings = 0;
  avg_time = pos 3;
  max_time = pos 3;
  min_time = pos 3;
  duration = pos 3;
  target_residency = pos 1;
}

abbrev one_state : CpuidleCstates ℤ
one_state = record (idle_cstates (idle_once ∷ [])) { cstate_max = pos 0 }

display_compared_example :
    (display_cstates (compared_ops ℤ) (bytes "cpu0") one_state (some one_state) nothing_waits
      ≡ some (
        table_text cstate_is_hit cstate_row []
            (default_cpu_header 80 (bytes "cpu0"))
            ((idle_once, some idle_once) ∷ []),
        nothing_waits,
      ))
    × (display_pstates (compared_ops ℤ) (bytes "cpu0") empty_pstates none nothing_waits
        ≡ some ([], nothing_waits))
unfolding entries empty_pstates
display_compared_example =
    display_compared (bytes "cpu0") one_state (some one_state) empty_pstates none
      ((idle_once, some idle_once) ∷ []) [] refl refl

get_report_ops_lem_example :
    ((find_ops (report_table ℤ) (bytes "comparison") ≡ none)
      × (get_report_ops (report_table ℤ) (bytes "comparison") ≡ some err_ptr))
    ⊎ Found (report_table ℤ) (bytes "comparison")
unfolding find_ops default_report_ops eq_bytes
get_report_ops_lem_example =
    get_report_ops_lem (report_table ℤ) (bytes "comparison") (report_table-IsUsable ℤ) refl

-- The comparison report with the operations that it takes from the default report.
get_report_ops-HasOps_example :
    ((compared_ops ℤ).name ≡ bytes "comparison") × HasOps (compared_ops ℤ)
unfolding get_report_ops prepared find_ops is_complete eq_bytes copied_ops default_report_ops
    boxless_report_ops csv_report_ops comparison_report_ops
get_report_ops-HasOps_example =
    get_report_ops-HasOps (report_table ℤ) (bytes "comparison") (compared_ops ℤ) refl

default_cpu_header_lem_example :
    (top middle bottom : List ℕ) × (default_cpu_header 80 (bytes "cpu0")
      ≡ top ++ 10 ∷ (middle ++ 10 ∷ (bottom ++ 10 ∷ [])))
    × (length top ≡ 80)
    × (length middle ≡ 80)
    × (length bottom ≡ 80)
default_cpu_header_lem_example = default_cpu_header_lem 80 (bytes "cpu0") (omega arith)

-- An entry of the table with nothing in it.
abbrev cleared : ParsedCluster
cleared = record {
  info = record { p_energy = []; c_energy = []; cluster_wakeup_energy = 0; core_wakeup_energy = 0 };
  state = uninitialized;
}

abbrev two_template : Option (List (List ℕ))
two_template = make_energy_model_template two_running.cstates two_running.pstates two_running.topo

template_is : two_template ≡ some (from_some [] two_template)
unfolding setup_topo_states setup_clusters setup_cluster setup_cores create_cluster_states
    create_core_states create_states create_state map_cpus map_cpu map_cluster_cpu map_core_cpu
    cpu_is_online online_at topo_has_cpu find_id update_found ensure check_exist_from_head
    insert_before_greater add_cpu add_cpu_to_physical ensure_core physical_has_cpu add_cpu_to_core
    core_has_cpu set_online grow_online cluster_cpu find_map update_first build_cstate_info
    build_from fresh_states fresh_cstate empty_pstates alloc_cpu_topo_info new_cpu new_core
    new_physical make_energy_model_template cluster_templates
template_is = refl

template_refused_example :
    parse_energy_model ℤ cleared (take 6 (from_some [] two_template) ++ bytes "P-states:\n" ∷ [])
    ≡ some err_ptr
unfolding setup_topo_states setup_clusters setup_cluster setup_cores create_cluster_states
    create_core_states create_states create_state map_cpus map_cpu map_cluster_cpu map_core_cpu
    cpu_is_online online_at topo_has_cpu find_id update_found ensure check_exist_from_head
    insert_before_greater add_cpu add_cpu_to_physical ensure_core physical_has_cpu add_cpu_to_core
    core_has_cpu set_online grow_online cluster_cpu find_map update_first build_cstate_info
    build_from fresh_states fresh_cstate empty_pstates alloc_cpu_topo_info new_cpu new_core
    new_physical
template_refused_example =
    template_refused ℤ cleared two_running.cstates two_running.pstates two_running.topo
      (from_some [] two_template) (bytes "P-states:\n" ∷ []) template_is (omega arith)

-- A model of one cluster, up to its first speed.
abbrev one_model : List (List ℕ)
one_model =
    bytes "clusters 1\n"
    ∷ bytes "clusterA: 1 cap states 1 C states\n"
    ∷ bytes "P-states:\n"
    ∷ bytes "350\t 10 20\n"
    ∷ []

abbrev parser_of : Option (Ptr EnergyParser) → EnergyParser
parser_of (some (ptr p)) = p
parser_of _ = start_parser ℤ cleared

abbrev model_parser : EnergyParser
model_parser = parser_of (energy_lines ℤ cleared (start_parser ℤ cleared) one_model)

energy_lines_lem_example :
    IsParsing model_parser
    × ¬ (start_pstates model_parser ≡ none)
    × ¬ (start_cstates model_parser ≡ none)
unfolding energy_lines energy_line clusters_line cluster_info_line start_cluster start_pstates
    put_entry data_line entry_line cap_state_line strstr starts_with sscanf scan_from skip_blanks
    convert span_word scan_number split_sign span_digits clusters_format cluster_info_format
    pstate_format cluster_number
energy_lines_lem_example = energy_lines_lem ℤ cleared one_model model_parser refl
