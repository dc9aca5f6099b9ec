-- ===== src/Topology.antt =====
-- The CPU topology (topology.c, topology.h): clusters of cores of CPUs in lists ordered by number.
-- A pointer of a CPU into the arrays of `struct cpuidle_datas` is an index; a CPU object that a
-- cluster enumerates is named by the numbers of its core and of itself. The asserts of
-- `add_topo_info` on negative numbers are faults.
use idlestat.Base.{
  ℕ, zero, suc, ◌+◌, ◌-◌, ◌≡◌, Bool, true, false, Option, none, some, List, [], ◌∷◌, ◌++◌,
  if◌then◌else◌, map?, get_elem?, set, length, ◌&&◌, ◌||◌, ◌>>=◌, ltb, leb, ◌==◌, replicate,
}
use idlestat.Base.Int.{ℤ, pos, negsuc}
use idlestat.Base.Double.{Double}
use idlestat.Pstates.{CpufreqPstates, empty_pstates}
use idlestat.Cstates.{CpuidleCstates}
pub mod Ids
pub mod Build
pub mod Members
pub mod Online
pub mod Order
pub mod Lookup
pub mod Groups
pub mod Least
pub mod Shape
pub mod Baseline
pub mod Dump
pub mod Read
pub mod Setup
pub mod Mapped

pub record CpuCpu : Type 0 where
  pub cpu_id : ℕ
  pub cstates : Option ℕ
  pub pstates : Option ℕ
  pub base_cstates : Option ℕ
  pub base_pstates : Option ℕ

pub record CpuCore (D : Type 0) : Type 0 where
  pub core_id : ℕ
  pub cpus : List CpuCpu
  pub cpu_num : ℕ
  pub is_ht : Bool
  pub cstates : Option (CpuidleCstates D)
  pub pstates : CpufreqPstates D
  pub base_cstates : Option (CpuidleCstates D)
  pub base_pstates : Option (CpufreqPstates D)

-- `cpu_enum` lists the CPU objects by core number and CPU number, in the order of their addition.
pub record CpuPhysical (D : Type 0) : Type 0 where
  pub physical_id : ℕ
  pub cores : List (CpuCore D)
  pub core_num : ℕ
  pub cpu_enum : List (ℕ × ℕ)
  pub cstates : Option (CpuidleCstates D)
  pub pstates : CpufreqPstates D
  pub base_cstates : Option (CpuidleCstates D)
  pub base_pstates : Option (CpufreqPstates D)

-- `online_cpus` with its length `online_array_size`.
pub record CpuTopology (D : Type 0) : Type 0 where
  pub physicals : List (CpuPhysical D)
  pub online_cpus : List Bool

pub record TopologyInfo : Type 0 where
  pub physical_id : ℤ
  pub core_id : ℤ
  pub cpu_id : ℤ

module _ {D : Type 0} ⦃d : Double D⦄ where
  unfoldable pub new_physical : ℕ → CpuPhysical D
  unfolding empty_pstates
  new_physical id = record {
    physical_id = id;
    cores = [];
    core_num = 0;
    cpu_enum = [];
    cstates = none;
    pstates = empty_pstates;
    base_cstates = none;
    base_pstates = none;
  }

  unfoldable pub new_core : ℕ → CpuCore D
  unfolding empty_pstates
  new_core id = record {
    core_id = id;
    cpus = [];
    cpu_num = 0;
    is_ht = false;
    cstates = none;
    pstates = empty_pstates;
    base_cstates = none;
    base_pstates = none;
  }

unfoldable pub new_cpu : ℕ → CpuCpu
new_cpu id = record {
  cpu_id = id;
  cstates = none;
  pstates = none;
  base_cstates = none;
  base_pstates = none;
}
