-- ===== src/Energy.antt =====
-- The energy of a trace (energy_model.c): the searches in the table of the energy model, and
-- `calculate_energy_consumption`. The table is the global `cluster_energy_table`; what is printed is
-- the result. A null pointer that is followed and a cluster outside the table are faults.
use idlestat.Base.{
  ℕ, zero, suc, ◌+◌, ◌/◌, ◌≡◌, Bool, true, false, Option, none, some, List, [], ◌∷◌, ◌++◌,
  if◌then◌else◌, map?, get_elem?, ◌>>=◌, ◌==◌, ◌||◌, eq_bytes, take, length,
}
use idlestat.Base.Int.{ℤ, pos, add_ℤ}
use idlestat.Base.Double.{Double}
use idlestat.Pstates.{CpufreqPstate, CpufreqPstates}
use idlestat.Cstates.{CpuidleCstate, CpuidleCstates, elem_at}
use idlestat.Topology.{CpuCpu, CpuCore, CpuPhysical, CpuTopology}
use idlestat.Topology.Groups.{cpu_cstates, cpu_pstates}
pub mod Terms
pub mod Total
pub mod Printed
pub mod Parse

pub record PstateEnergyInfo : Type 0 where
  pub speed : ℕ
  pub cluster_power : ℕ
  pub core_power : ℕ

pub record CstateEnergyInfo : Type 0 where
  pub cstate_name : List ℕ
  pub cluster_idle_power : ℕ
  pub core_idle_power : ℕ

-- `number_cap_states` and `number_c_states` are the lengths of the arrays.
pub record ClusterEnergyInfo : Type 0 where
  pub p_energy : List PstateEnergyInfo
  pub c_energy : List CstateEnergyInfo
  pub cluster_wakeup_energy : ℕ
  pub core_wakeup_energy : ℕ

-- The search is `none` where it faults, as `strcmp` does on a null name.
unfoldable pub find_c : Option (List ℕ) → List CstateEnergyInfo → Option (Option CstateEnergyInfo)
find_c name [] = some none
find_c none (x ∷ xs) = none
find_c (some name) (x ∷ xs) =
    if eq_bytes x.cstate_name name then some (some x) else find_c (some name) xs

unfoldable pub find_cstate_energy_info :
    List ClusterEnergyInfo → ℕ → Option (List ℕ) → Option (Option CstateEnergyInfo)
unfolding find_c
find_cstate_energy_info table cluster name =
    get_elem? table cluster >>= λ (clustp : ClusterEnergyInfo). find_c name clustp.c_energy

unfoldable pub find_p : ℕ → List PstateEnergyInfo → Option PstateEnergyInfo
find_p speed [] = none
find_p speed (x ∷ xs) = if speed == x.speed then some x else find_p speed xs

unfoldable pub find_pstate_energy_info :
    List ClusterEnergyInfo → ℕ → ℕ → Option (Option PstateEnergyInfo)
unfolding find_p
find_pstate_energy_info table cluster speed =
    get_elem? table cluster >>= λ (clustp : ClusterEnergyInfo). some (find_p speed clustp.p_energy)

-- `physical_id` in the printed name, `Energy Caps`, `Energy Idle` and `Energy Index`.
pub record ClusterEnergy (D : Type 0) : Type 0 where
  pub cluster : ℕ
  pub cap : D
  pub idle : D
  pub energy : D

-- The number of rounds of a loop up to an `int`.
abbrev pub rounds : ℤ → ℕ
rounds (ℤ.pos n) = n
rounds (ℤ.negsuc n) = 0

module _ {D : Type 0} ⦃d : Double D⦄ where
  -- A state without hits, or of which the model has no entry, adds nothing.
  unfoldable pub add_idle :
      List ClusterEnergyInfo → ℕ → (CstateEnergyInfo → ℕ) → D → CpuidleCstate D → Option D
  add_idle table cluster power acc c =
      if c.nrdata == 0
      then some acc
      else (find_cstate_energy_info table cluster c.name >>= λ cp. elim cp [
        | none ↦ some acc
        | some x ↦ some (d.add acc (d.mul c.duration (d.of_int (pos (power x)))))
      ])

  -- The first `n` states of an array, from state `j` on.
  unfoldable pub add_idles :
      List ClusterEnergyInfo
      → ℕ
      → (CstateEnergyInfo → ℕ)
      → List (CpuidleCstate D)
      → ℕ
      → ℕ
      → D
      → Option D
  add_idles table cluster power states j zero acc = some acc
  add_idles table cluster power states j (suc n) acc = get_elem? states j >>= λ c.
      add_idle table cluster power acc c >>= λ acc.
      add_idles table cluster power states (suc j) n acc

  -- The loop up to `cstate_max + 1`.
  abbrev pub add_cstates :
      List ClusterEnergyInfo → ℕ → (CstateEnergyInfo → ℕ) → D → CpuidleCstates D → Option D
  add_cstates table cluster power acc s =
      add_idles table cluster power s.cstate 0 (rounds (add_ℤ s.cstate_max (pos 1))) acc

  unfoldable pub add_cap :
      List ClusterEnergyInfo → ℕ → (PstateEnergyInfo → ℕ) → D → CpufreqPstate D → Option D
  add_cap table cluster power acc p =
      if p.freq == 0 || p.count == 0
      then some acc
      else (find_pstate_energy_info table cluster (p.freq / 1000) >>= λ pp. elim pp [
        | none ↦ some acc
        | some x ↦ some (d.add acc (d.mul p.duration (d.of_int (pos (power x)))))
      ])

  unfoldable pub add_pstates :
      List ClusterEnergyInfo → ℕ → (PstateEnergyInfo → ℕ) → D → List (CpufreqPstate D) → Option D
  add_pstates table cluster power acc [] = some acc
  add_pstates table cluster power acc (p ∷ ps) =
      add_cap table cluster power acc p >>= λ acc. add_pstates table cluster power acc ps

  -- `US_TO_SEC`, and what is printed of the cluster.
  abbrev pub us_to_sec : D → D
  us_to_sec us = d.div us (d.of_int (pos 1_000_000))

  abbrev pub report_cluster : ℕ → D × D → ClusterEnergy D
  report_cluster cluster acc = record {
    cluster = cluster;
    cap = us_to_sec acc.0;
    idle = us_to_sec acc.1;
    energy = d.add (us_to_sec acc.0) (us_to_sec acc.1);
  }

module _ {D : Type 0} ⦃d : Double D⦄ (table : List ClusterEnergyInfo)
    (cstates : List (CpuidleCstates D)) (pstates : List (CpufreqPstates D)) where
  -- `cluster_cap` and `cluster_idl`.
  unfoldable pub add_cpu_energy : ℕ → D × D → CpuCpu → Option (D × D)
  add_cpu_energy cluster acc c = cpu_cstates cstates c >>= λ s.
      add_cstates table cluster (λ x. x.core_idle_power) acc.1 s >>= λ idle.
      cpu_pstates pstates c >>= λ ps.
      map? (λ cap. (cap, idle)) (add_pstates table cluster (λ x. x.core_power) acc.0 ps.pstate)

  unfoldable pub add_cpus_energy : ℕ → D × D → List CpuCpu → Option (D × D)
  add_cpus_energy cluster acc [] = some acc
  add_cpus_energy cluster acc (c ∷ cs) =
      add_cpu_energy cluster acc c >>= λ acc. add_cpus_energy cluster acc cs

  unfoldable pub add_cores_energy : ℕ → D × D → List (CpuCore D) → Option (D × D)
  add_cores_energy cluster acc [] = some acc
  add_cores_energy cluster acc (c ∷ cs) =
      add_cpus_energy cluster acc c.cpus >>= λ acc. add_cores_energy cluster acc cs

  unfoldable pub cluster_energy : CpuPhysical D → Option (ClusterEnergy D)
  cluster_energy phy = phy.cstates >>= λ s.
      add_cstates table phy.physical_id (λ x. x.cluster_idle_power) (d.of_int (pos 0)) s >>= λ idle.
      add_pstates table phy.physical_id (λ x. x.cluster_power) (d.of_int (pos 0)) phy.pstates.pstate
      >>= λ cap. add_cores_energy phy.physical_id (cap, idle) phy.cores >>= λ acc.
          some (report_cluster phy.physical_id acc)

  -- What is printed: each cluster, and the total.
  unfoldable pub energy_from : D → List (CpuPhysical D) → Option (List (ClusterEnergy D) × D)
  energy_from total [] = some ([], total)
  energy_from total (p ∷ ps) =
      cluster_energy p >>= λ e. map? (λ r. (e ∷ r.0, r.1)) (energy_from (d.add total e.energy) ps)

  unfoldable pub calculate_energy_consumption : CpuTopology D → Option (List (ClusterEnergy D) × D)
  unfolding energy_from
  calculate_energy_consumption topo = energy_from (d.of_int (pos 0)) topo.physicals
