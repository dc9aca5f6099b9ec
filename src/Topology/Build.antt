-- ===== src/Topology/Build.antt =====
-- `add_topo_info` (topology.c): a CPU is entered in its cluster, its core and the online CPUs.
use idlestat.Base.{
  ℕ, zero, suc, ◌+◌, ◌-◌, Bool, true, false, Option, none, some, List, [], ◌∷◌, ◌++◌, if◌then◌else◌,
  set, length, ◌>>=◌, ltb, leb, replicate,
}
use idlestat.Base.Int.{ℤ, pos, negsuc}
use idlestat.Base.Double.{Double}
use idlestat.Topology.{
  CpuCpu, CpuCore, CpuPhysical, CpuTopology, TopologyInfo, new_cpu, new_core, new_physical,
}
use idlestat.Topology.Ids.{
  check_exist_from_head, insert_before_greater, ensure, update_found, find_id,
}

-- `online_cpus` grows to `cpu_id + 1` entries, the new ones 0.
unfoldable pub grow_online : List Bool → ℕ → List Bool
grow_online online cpu =
    if leb (length online) cpu then online ++ replicate (cpu + 1 - length online) false else online

unfoldable pub set_online : List Bool → ℕ → List Bool
unfolding grow_online
set_online online cpu = set (grow_online online cpu) cpu true

-- The assertions `info->… >= 0`.
abbrev pub nonneg : ℤ → Option ℕ
nonneg (pos n) = some n
nonneg (negsuc n) = none

module _ {D : Type 0} ⦃d : Double D⦄ where
  abbrev pub core_number : CpuCore D → ℕ
  core_number c = c.core_id

  abbrev pub physical_number : CpuPhysical D → ℕ
  physical_number p = p.physical_id

  unfoldable pub core_has_cpu : CpuCore D → ℕ → Bool
  core_has_cpu core cpu = check_exist_from_head (λ (c : CpuCpu). c.cpu_id) core.cpus cpu

  unfoldable pub add_cpu_to_core : ℕ → CpuCore D → CpuCore D
  add_cpu_to_core cpu core = if core_has_cpu core cpu then core else record core {
    cpus = insert_before_greater (λ c. c.cpu_id) (new_cpu cpu) core.cpus;
    cpu_num = core.cpu_num + 1;
    is_ht = if ltb 1 (core.cpu_num + 1) then true else core.is_ht;
  }

  abbrev pub has_in_core : Option (CpuCore D) → ℕ → Bool
  has_in_core none cpu = false
  has_in_core (some core) cpu = core_has_cpu core cpu

  -- Whether the CPU is in the core already, which may be missing.
  unfoldable pub physical_has_cpu : CpuPhysical D → ℕ → ℕ → Bool
  physical_has_cpu phy core cpu = has_in_core (find_id core_number core phy.cores) cpu

  -- The core is added if it is missing, then the CPU.
  unfoldable pub ensure_core : ℕ → CpuPhysical D → CpuPhysical D
  ensure_core core phy =
      if check_exist_from_head core_number phy.cores core then phy else record phy {
        cores = insert_before_greater core_number (new_core core) phy.cores;
        core_num = phy.core_num + 1;
      }

  unfoldable pub add_cpu_to_physical : ℕ → ℕ → CpuPhysical D → CpuPhysical D
  add_cpu_to_physical core cpu phy =
      let with_core = ensure_core core phy in
      record with_core {
        cores = update_found core_number core (add_cpu_to_core cpu) with_core.cores;
        cpu_enum =
            if physical_has_cpu phy core cpu
            then with_core.cpu_enum
            else with_core.cpu_enum ++ ((core, cpu) ∷ []);
      }

  abbrev pub has_in_physical : Option (CpuPhysical D) → ℕ → ℕ → Bool
  has_in_physical none core cpu = false
  has_in_physical (some p) core cpu = physical_has_cpu p core cpu

  unfoldable pub topo_has_cpu : CpuTopology D → ℕ → ℕ → ℕ → Bool
  topo_has_cpu topo phy core cpu =
      has_in_physical (find_id physical_number phy topo.physicals) core cpu

  unfoldable pub add_cpu : CpuTopology D → ℕ → ℕ → ℕ → CpuTopology D
  add_cpu topo phy core cpu = record topo {
    physicals =
        update_found physical_number phy (add_cpu_to_physical core cpu)
          (ensure physical_number (new_physical phy) topo.physicals);
    online_cpus =
        if topo_has_cpu topo phy core cpu
        then topo.online_cpus
        else set_online topo.online_cpus cpu;
  }

  unfoldable pub add_topo_info : CpuTopology D → TopologyInfo → Option (CpuTopology D)
  add_topo_info topo info = nonneg info.physical_id >>= λ phy.
      nonneg info.core_id >>= λ core. nonneg info.cpu_id >>= λ cpu. some (add_cpu topo phy core cpu)

  -- `alloc_cpu_topo_info`.
  unfoldable pub alloc_cpu_topo_info : CpuTopology D
  alloc_cpu_topo_info = record { physicals = []; online_cpus = [] }

unfoldable pub online_at : List Bool → ℕ → Bool
online_at [] i = false
online_at (x ∷ xs) zero = x
online_at (x ∷ xs) (suc i) = online_at xs i

unfoldable pub cpu_is_online : {D : Type 0} → CpuTopology D → ℕ → Bool
cpu_is_online topo cpu = online_at topo.online_cpus cpu
