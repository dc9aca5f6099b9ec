-- ===== src/Topology/Groups.antt =====
-- What a core and a cluster take from their CPUs (topology.c): the least C-state, and the highest
-- frequency. The pointers of the CPUs into the arrays of the trace are read here.
use idlestat.Base.{
  ℕ, Bool, true, false, Option, some, List, [], ◌∷◌, if◌then◌else◌, get_elem?, ◌>>=◌, ltb, ◌&&◌,
}
use idlestat.Base.Int.{ℤ, pos, ltb_ℤ, leb_ℤ}
use idlestat.Pstates.{CpufreqPstates}
use idlestat.Cstates.{CpuidleCstates, maxcstate, elem_at}
use idlestat.Topology.{CpuCpu, CpuCore, CpuPhysical}
use idlestat.Topology.Lookup.{cluster_cpus}

module _ {D : Type 0} where
  abbrev pub cpu_cstates : List (CpuidleCstates D) → CpuCpu → Option (CpuidleCstates D)
  cpu_cstates states c = c.cstates >>= λ i. get_elem? states i

  abbrev pub cpu_pstates : List (CpufreqPstates D) → CpuCpu → Option (CpufreqPstates D)
  cpu_pstates states c = c.pstates >>= λ i. get_elem? states i

  -- The loop, from the value `ret` on.
  unfoldable pub least_from : List (CpuidleCstates D) → ℤ → List CpuCpu → Option ℤ
  least_from states ret [] = some ret
  least_from states ret (c ∷ cs) = cpu_cstates states c >>= λ s.
      least_from states (if ltb_ℤ s.current_cstate ret then s.current_cstate else ret) cs

  unfoldable pub cluster_get_least_cstate : List (CpuidleCstates D) → CpuPhysical D → Option ℤ
  cluster_get_least_cstate states clust =
      cluster_cpus clust >>= λ cs. least_from states (pos maxcstate) cs

  unfoldable pub core_get_least_cstate : List (CpuidleCstates D) → CpuCore D → Option ℤ
  core_get_least_cstate states core = least_from states (pos maxcstate) core.cpus

  -- The frequency that a CPU adds to a group, 0 where the loop goes on without it. The cluster
  -- leaves idle CPUs out, the core does not.
  unfoldable pub counted_freq : Bool → CpufreqPstates D → Option ℕ
  counted_freq skip_idle s =
      if leb_ℤ (pos 0) s.current
      then (if skip_idle && ltb_ℤ (pos 0) s.idle
          then some 0
          else elem_at s.pstate s.current >>= λ p. some p.freq)
      else some 0

  unfoldable pub highest_from : Bool → List (CpufreqPstates D) → ℕ → List CpuCpu → Option ℕ
  highest_from skip_idle states ret [] = some ret
  highest_from skip_idle states ret (c ∷ cs) = cpu_pstates states c >>= λ s.
      counted_freq skip_idle s >>= λ f.
      highest_from skip_idle states (if ltb ret f then f else ret) cs

  unfoldable pub cluster_get_highest_freq : List (CpufreqPstates D) → CpuPhysical D → Option ℕ
  cluster_get_highest_freq states clust = cluster_cpus clust >>= λ cs. highest_from true states 0 cs

  unfoldable pub core_get_highest_freq : List (CpufreqPstates D) → CpuCore D → Option ℕ
  core_get_highest_freq states core = highest_from false states 0 core.cpus
