-- ===== src/Datas.antt =====
-- The data of a trace: `struct cpuidle_datas` (idlestat.h), and the event handlers of idlestat.c that
-- change it. The member `baseline` is a second value of the type where a function uses it. A null
-- pointer that is followed and a failed assertion are faults.
use idlestat.Base.{
  ℕ, zero, suc, ◌+◌, ◌≡◌, Bool, true, false, Option, none, some, List, [], ◌∷◌, if◌then◌else◌, map?,
  get_elem?, set, ◌>>=◌, ltb, leb, ◌&&◌, length,
}
use idlestat.Base.Int.{ℤ, pos, negsuc, minus_one, eq_ℤ, ltb_ℤ}
use idlestat.Base.Double.{Double}
use idlestat.Pstates.{
  CpufreqPstate, CpufreqPstates, alloc_pstate, open_current_pstate, open_next_pstate,
  close_current_pstate, record_group_freq,
}
use idlestat.Cstates.{CpuidleCstates, elem_at, record_cstate_event}
use idlestat.Topology.{CpuCore, CpuPhysical, CpuTopology}
use idlestat.Topology.Lookup.{cpu_to_core, cpu_to_cluster, core_at}
use idlestat.Topology.Groups.{
  core_get_highest_freq, cluster_get_highest_freq, core_get_least_cstate, cluster_get_least_cstate,
}
use idlestat.Wakeup
pub mod Put
pub mod Affected
pub mod Store

pub record CpuidleDatas (D : Type 0) : Type 0 where
  pub cstates : List (CpuidleCstates D)
  pub pstates : List (CpufreqPstates D)
  pub topo : CpuTopology D
  pub nrcpus : ℕ

module _ {D : Type 0} where
  unfoldable pub put_cpu_cstates : CpuidleDatas D → ℕ → CpuidleCstates D → CpuidleDatas D
  put_cpu_cstates datas cpu s = record datas { cstates = set datas.cstates cpu s }

  unfoldable pub put_cpu_pstates : CpuidleDatas D → ℕ → CpufreqPstates D → CpuidleDatas D
  put_cpu_pstates datas cpu s = record datas { pstates = set datas.pstates cpu s }

  -- A write through `aff_cluster`, at an index of the list.
  unfoldable pub put_cluster : CpuidleDatas D → ℕ → CpuPhysical D → CpuidleDatas D
  put_cluster datas k phy = record datas {
    topo = record datas.topo { physicals = set datas.topo.physicals k phy };
  }

  unfoldable pub put_core_in :
      CpuidleDatas D → ℕ × ℕ → CpuCore D → Option (CpuPhysical D) → CpuidleDatas D
  unfolding put_cluster
  put_core_in datas at core none = datas
  put_core_in datas at core (some phy) =
      put_cluster datas at.0 (record phy { cores = set phy.cores at.1 core })

  -- A write through `aff_core`.
  unfoldable pub put_core : CpuidleDatas D → ℕ × ℕ → CpuCore D → CpuidleDatas D
  unfolding put_core_in
  put_core datas at core = put_core_in datas at core (get_elem? datas.topo.physicals at.0)

  -- `get_current_pstate`: the CPU's `idle`, with its P-states and whether one of them is current; -2
  -- for a number that is no CPU's, with the pointers left null. The test lets `nrcpus` itself
  -- through, which is read out of bounds.
  unfoldable pub get_current_pstate : CpuidleDatas D → ℤ → Option (ℤ × Option (ℕ × Bool))
  get_current_pstate datas (negsuc n) = some (negsuc 1, none)
  get_current_pstate datas (pos cpu) =
      if ltb datas.nrcpus cpu
      then some (negsuc 1, none)
      else map?
          (λ (s : CpufreqPstates D).
            (s.idle, some (cpu, if eq_ℤ s.current minus_one then false else true)))
          (get_elem? datas.pstates cpu)

module _ {D : Type 0} ⦃d : Double D⦄ where
  unfoldable pub record_core_freq : CpuidleDatas D → ℕ × ℕ → D → Option (CpuidleDatas D)
  record_core_freq datas at time = core_at datas.topo at >>= λ core.
      core_get_highest_freq datas.pstates core >>= λ freq.
      map? (λ ps. put_core datas at (record core { pstates = ps }))
        (record_group_freq core.pstates time freq)

  unfoldable pub record_cluster_freq : CpuidleDatas D → ℕ → D → Option (CpuidleDatas D)
  record_cluster_freq datas k time = get_elem? datas.topo.physicals k >>= λ phy.
      cluster_get_highest_freq datas.pstates phy >>= λ freq.
      map? (λ ps. put_cluster datas k (record phy { pstates = ps }))
        (record_group_freq phy.pstates time freq)

  unfoldable pub check_pstate_composite : CpuidleDatas D → ℕ → D → Option (CpuidleDatas D)
  check_pstate_composite datas cpu time = cpu_to_core cpu datas.topo >>= λ aff_core.
      cpu_to_cluster cpu datas.topo >>= λ aff_cluster.
      record_core_freq datas aff_core time >>= λ e. record_cluster_freq e aff_cluster time

  -- The running CPU takes a new frequency; a state that has been opened is closed.
  unfoldable pub change_running : CpufreqPstates D → Bool → ℤ → D → Option (CpufreqPstates D)
  change_running ps started next time =
      map? (λ s. open_next_pstate s next time)
        (if started then close_current_pstate ps time else some ps)

  -- The `switch` of `cpu_change_pstate` on `cur`, which is the CPU's `idle`; `started` is whether a
  -- state was current before the allocation. `exit` is a fault.
  unfoldable pub change_cpu_pstate :
      ℤ → Bool → CpufreqPstates D → ℤ → D → Option (CpufreqPstates D × Bool)
  unfolding change_running
  change_cpu_pstate (pos (suc zero)) started ps next time =
      some (record ps { current = next }, false)
  change_cpu_pstate (negsuc zero) started ps next time = some (open_next_pstate ps next time, true)
  change_cpu_pstate (pos zero) started ps next time =
      map? (λ s. (s, true)) (change_running ps started next time)
  change_cpu_pstate cur started ps next time = none

  unfoldable pub cpu_change_pstate : CpuidleDatas D → ℤ → ℕ → D → Option (CpuidleDatas D)
  cpu_change_pstate datas cpu freq time = get_current_pstate datas cpu >>= λ r. r.1 >>= λ at.
      get_elem? datas.pstates at.0 >>= λ old.
      let (ps, next) = alloc_pstate old freq in
      change_cpu_pstate r.0 at.1 ps (pos next) time >>= λ t.
      if t.1
      then check_pstate_composite (put_cpu_pstates datas at.0 t.0) at.0 time
      else some (put_cpu_pstates datas at.0 t.0)

  unfoldable pub idle_pstates : CpufreqPstates D → D → Option (CpufreqPstates D)
  idle_pstates ps time =
      map? {B = CpufreqPstates D} (λ s. record s { idle = pos 1 })
        (if eq_ℤ ps.current minus_one then some ps else close_current_pstate ps time)

  unfoldable pub cpu_pstate_idle : CpuidleDatas D → ℕ → D → Option (CpuidleDatas D)
  unfolding idle_pstates
  cpu_pstate_idle datas cpu time = get_elem? datas.pstates cpu >>= λ ps.
      idle_pstates ps time >>= λ s. check_pstate_composite (put_cpu_pstates datas cpu s) cpu time

  unfoldable pub running_pstates : CpufreqPstates D → D → CpufreqPstates D
  running_pstates ps time =
      let running = record ps { idle = pos 0 } in
      if eq_ℤ ps.current minus_one then running else open_current_pstate running time

  unfoldable pub cpu_pstate_running : CpuidleDatas D → ℕ → D → Option (CpuidleDatas D)
  unfolding running_pstates
  cpu_pstate_running datas cpu time = get_elem? datas.pstates cpu >>= λ ps.
      check_pstate_composite (put_cpu_pstates datas cpu (running_pstates ps time)) cpu time

  -- A core or cluster without C-states of its own is a null pointer.
  unfoldable pub record_core_cstate : CpuidleDatas D → ℕ × ℕ → D → Option (CpuidleDatas D)
  record_core_cstate datas at time = core_at datas.topo at >>= λ core.
      core_get_least_cstate datas.cstates core >>= λ state. core.cstates >>= λ s.
      map? (λ t. put_core datas at (record core { cstates = some t }))
        (record_cstate_event s time state)

  unfoldable pub record_cluster_cstate : CpuidleDatas D → ℕ → D → Option (CpuidleDatas D)
  record_cluster_cstate datas k time = get_elem? datas.topo.physicals k >>= λ phy.
      cluster_get_least_cstate datas.cstates phy >>= λ state. phy.cstates >>= λ s.
      map? (λ t. put_cluster datas k (record phy { cstates = some t }))
        (record_cstate_event s time state)

  -- The core and the cluster of the CPU take the least state.
  unfoldable pub update_affected : CpuidleDatas D → ℕ → D → Option (CpuidleDatas D)
  update_affected datas cpu time = cpu_to_core cpu datas.topo >>= λ aff_core.
      record_core_cstate datas aff_core time >>= λ e.
      cpu_to_cluster cpu e.topo >>= λ aff_cluster. record_cluster_cstate e aff_cluster time

  abbrev pub supports_pstates : CpufreqPstates D → Bool
  supports_pstates ps = elim (ps.pstate) [ [] ↦ false | _ ∷ _ ↦ true ]

  -- The P-states of a CPU that changes between idle and running; `supported` is whether it had any.
  unfoldable pub store_pstate : CpuidleDatas D → Bool → ℤ → ℕ → D → Option (CpuidleDatas D)
  store_pstate datas supported state cpu time =
      if supported
      then (if eq_ℤ state minus_one
          then cpu_pstate_running datas cpu time
          else cpu_pstate_idle datas cpu time)
      else some datas

  unfoldable pub store_data : D → ℤ → ℕ → CpuidleDatas D → Option (CpuidleDatas D)
  store_data time state cpu datas = get_elem? datas.cstates cpu >>= λ s.
      get_elem? datas.pstates cpu >>= λ ps.
      if eq_ℤ state minus_one && eq_ℤ s.cstate_max minus_one
      then some datas
      else (record_cstate_event s time state >>= λ t.
          store_pstate (put_cpu_cstates datas cpu t) (supports_pstates ps) state cpu time >>= λ e.
          update_affected e cpu time)

  -- `store_irq` on the data of a trace.
  unfoldable pub store_cpu_irq : ℕ → ℤ → List ℕ → CpuidleDatas D → Option (CpuidleDatas D)
  store_cpu_irq cpu irqid irqname datas =
      map? (λ s. put_cpu_cstates datas cpu (Wakeup.store_irq s irqid irqname))
        (get_elem? datas.cstates cpu)
