-- ===== src/Examples/Energies.antt =====
-- The energy of a cluster of one CPU, under a model with one entry of each kind.
use idlestat.Base.{◌≡◌, refl, some, List, [], ◌∷◌, bytes, eq_bytes}
use idlestat.Base.Int.{ℤ, pos}
use idlestat.Base.Double.{whole_double}
use idlestat.Pstates.{CpufreqPstates, fresh_pstate, empty_pstates}
use idlestat.Cstates.{CpuidleCstates, fresh_cstate, idle_cstates}
use idlestat.Topology.{CpuPhysical, CpuTopology, new_cpu, new_core, new_physical}
use idlestat.Energy.{
  ClusterEnergyInfo, ClusterEnergy, find_c, find_cstate_energy_info, find_p,
  find_pstate_energy_info, add_idle, add_idles, add_cap, add_pstates, add_cpu_energy,
  add_cpus_energy, add_cores_energy, cluster_energy, energy_from, calculate_energy_consumption,
}
use idlestat.Energy.Terms.{sum_from}
use idlestat.Energy.Total.{expected_all, energies, calculate_energy_consumption_lem}

abbrev wfi : CpuidleCstates ℤ
wfi =
    record (idle_cstates (
      record (fresh_cstate (some (bytes "WFI")) (pos 1)) { nrdata = 2; duration = pos 5_000_000 }
      ∷ [])) { cstate_max = pos 0 }

abbrev one_freq : CpufreqPstates ℤ
one_freq = record empty_pstates {
  pstate = record (fresh_pstate 0 1_000_000) { count = 1; duration = pos 3_000_000 } ∷ [];
}

abbrev one_cpu : CpuPhysical ℤ
one_cpu = record (new_physical 0) {
  cores =
      record (new_core 0) { cpus = record (new_cpu 0) { cstates = some 0; pstates = some 0 } ∷ [] }
      ∷ [];
  cstates = some wfi;
  pstates = one_freq;
}

abbrev one_cluster : CpuTopology ℤ
one_cluster = record { physicals = one_cpu ∷ []; online_cpus = [] }

abbrev model : List ClusterEnergyInfo
model =
    record {
      p_energy = record { speed = 1000; cluster_power = 20; core_power = 150 } ∷ [];
      c_energy =
          record { cstate_name = bytes "WFI"; cluster_idle_power = 7; core_idle_power = 3 } ∷ [];
      cluster_wakeup_energy = 0;
      core_wakeup_energy = 0;
    }
    ∷ []

-- 3 s at 20 and at 150, 5 s at 7 and at 3.
abbrev printed : List (ClusterEnergy ℤ) × ℤ
printed = (record { cluster = 0; cap = pos 510; idle = pos 50; energy = pos 560 } ∷ [], pos 560)

printed_is :
    calculate_energy_consumption model (wfi ∷ []) (one_freq ∷ []) one_cluster ≡ some printed
unfolding calculate_energy_consumption energy_from cluster_energy add_cores_energy add_cpus_energy
    add_cpu_energy add_pstates add_cap add_idles add_idle find_pstate_energy_info find_p
    find_cstate_energy_info find_c eq_bytes fresh_cstate fresh_pstate empty_pstates new_cpu new_core
    new_physical
printed_is = refl

calculate_energy_consumption_lem_example :
    (printed.0 ≡ expected_all model (wfi ∷ []) (one_freq ∷ []) one_cluster.physicals)
    × (printed.1 ≡ sum_from (pos 0) (energies printed.0))
calculate_energy_consumption_lem_example =
    calculate_energy_consumption_lem model (wfi ∷ []) (one_freq ∷ []) one_cluster printed printed_is
