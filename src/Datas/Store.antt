-- ===== src/Datas/Store.antt =====
-- `store_data` (idlestat.c): an event of a CPU, and the C-states of the CPU, its core and its cluster.
use idlestat.Base.{
  ℕ, ◌≡◌, refl, Bool, true, false, Option, none, some, if◌then◌else◌, get_elem?, ◌>>=◌, ◌&&◌, arith,
  ap, ◌∙◌, sym, >>=-eq-some, map?-eq-some, get_elem?-set_self, lt-of_get_elem?,
}
use idlestat.Base.Int.{ℤ, minus_one, eq_ℤ}
use idlestat.Base.Double.{Double}
use idlestat.Pstates.{CpufreqPstates, record_group_freq}
use idlestat.Cstates.{CpuidleCstates, record_cstate_event}
use idlestat.Topology.{CpuCore, CpuPhysical}
use idlestat.Topology.Lookup.{cpu_to_core, cpu_to_cluster, core_at}
use idlestat.Topology.Groups.{
  core_get_highest_freq, cluster_get_highest_freq, core_get_least_cstate, cluster_get_least_cstate,
}
use idlestat.Datas.{
  CpuidleDatas, put_core, put_core_in, put_cluster, put_cpu_cstates, put_cpu_pstates,
  record_core_freq, record_cluster_freq, check_pstate_composite, idle_pstates, running_pstates,
  cpu_pstate_idle, cpu_pstate_running, record_core_cstate, record_cluster_cstate, update_affected,
  supports_pstates, store_pstate, store_data,
}
use idlestat.Datas.Put.{record_cstate_event-current}
use idlestat.Datas.Affected.{CoreAgrees, ClusterAgrees, update_affected-agrees}

module _ {D : Type 0} where
  cstates-put_core :
      (datas : CpuidleDatas D) (at : ℕ × ℕ) (core : CpuCore D)
      → (put_core datas at core).cstates ≡ datas.cstates
  unfolding put_core put_core_in put_cluster
  cstates-put_core datas at core = go (get_elem? datas.topo.physicals at.0)
    where
      go : (o : Option (CpuPhysical D)) → (put_core_in datas at core o).cstates ≡ datas.cstates
      go none = refl
      go (some p) = refl

module _ {D : Type 0} ⦃d : Double D⦄ where
  cstates-record_core_freq :
      (datas e : CpuidleDatas D) (at : ℕ × ℕ) (time : D)
      → record_core_freq datas at time ≡ some e
      → e.cstates ≡ datas.cstates
  unfolding record_core_freq
  cstates-record_core_freq datas e at time q =
      let (core, _, q1) = >>=-eq-some (core_at datas.topo at) _ q in
      let (freq, _, q2) = >>=-eq-some (core_get_highest_freq datas.pstates core) _ q1 in
      let (ps, _, q3) = map?-eq-some _ (record_group_freq core.pstates time freq) q2 in
      ap (λ (u : CpuidleDatas D). u.cstates) (sym q3)
      ∙ cstates-put_core datas at (record core { pstates = ps })

  cstates-record_cluster_freq :
      (datas e : CpuidleDatas D) (k : ℕ) (time : D)
      → record_cluster_freq datas k time ≡ some e
      → e.cstates ≡ datas.cstates
  unfolding record_cluster_freq put_cluster
  cstates-record_cluster_freq datas e k time q =
      let (phy, _, q1) = >>=-eq-some (get_elem? datas.topo.physicals k) _ q in
      let (freq, _, q2) = >>=-eq-some (cluster_get_highest_freq datas.pstates phy) _ q1 in
      let (ps, _, q3) = map?-eq-some _ (record_group_freq phy.pstates time freq) q2 in
      ap (λ (u : CpuidleDatas D). u.cstates) (sym q3)

  cstates-check_pstate_composite :
      (datas e : CpuidleDatas D) (cpu : ℕ) (time : D)
      → check_pstate_composite datas cpu time ≡ some e
      → e.cstates ≡ datas.cstates
  unfolding check_pstate_composite
  cstates-check_pstate_composite datas e cpu time q =
      let (at, _, q1) = >>=-eq-some (cpu_to_core cpu datas.topo) _ q in
      let (k, _, q2) = >>=-eq-some (cpu_to_cluster cpu datas.topo) _ q1 in
      let (u, r, q3) = >>=-eq-some (record_core_freq datas at time) _ q2 in
      cstates-record_cluster_freq u e k time q3 ∙ cstates-record_core_freq datas u at time r

  cstates-cpu_pstate_idle :
      (datas e : CpuidleDatas D) (cpu : ℕ) (time : D)
      → cpu_pstate_idle datas cpu time ≡ some e
      → e.cstates ≡ datas.cstates
  unfolding cpu_pstate_idle put_cpu_pstates
  cstates-cpu_pstate_idle datas e cpu time q =
      let (ps, _, q1) = >>=-eq-some (get_elem? datas.pstates cpu) _ q in
      let (s, _, q2) = >>=-eq-some (idle_pstates ps time) _ q1 in
      cstates-check_pstate_composite (put_cpu_pstates datas cpu s) e cpu time q2

  cstates-cpu_pstate_running :
      (datas e : CpuidleDatas D) (cpu : ℕ) (time : D)
      → cpu_pstate_running datas cpu time ≡ some e
      → e.cstates ≡ datas.cstates
  unfolding cpu_pstate_running put_cpu_pstates
  cstates-cpu_pstate_running datas e cpu time q =
      let (ps, _, q1) = >>=-eq-some (get_elem? datas.pstates cpu) _ q in
      cstates-check_pstate_composite (put_cpu_pstates datas cpu (running_pstates ps time)) e cpu
        time q1

  cstates-store_pstate :
      (datas e : CpuidleDatas D) (supported : Bool) (state : ℤ) (cpu : ℕ) (time : D)
      → store_pstate datas supported state cpu time ≡ some e
      → e.cstates ≡ datas.cstates
  unfolding store_pstate
  cstates-store_pstate datas e supported state cpu time q =
      ground (
        arith,
        cstates-cpu_pstate_idle datas e cpu time,
        cstates-cpu_pstate_running datas e cpu time,
      )

  cstates-record_core_cstate :
      (datas e : CpuidleDatas D) (at : ℕ × ℕ) (time : D)
      → record_core_cstate datas at time ≡ some e
      → e.cstates ≡ datas.cstates
  unfolding record_core_cstate
  cstates-record_core_cstate datas e at time r =
      let (core, _, r1) = >>=-eq-some (core_at datas.topo at) _ r in
      let (state, _, r2) = >>=-eq-some (core_get_least_cstate datas.cstates core) _ r1 in
      let (s, _, r3) = >>=-eq-some core.cstates _ r2 in
      let (t, _, r4) = map?-eq-some _ (record_cstate_event s time state) r3 in
      ap (λ (u : CpuidleDatas D). u.cstates) (sym r4)
      ∙ cstates-put_core datas at (record core { cstates = some t })

  cstates-record_cluster_cstate :
      (datas e : CpuidleDatas D) (k : ℕ) (time : D)
      → record_cluster_cstate datas k time ≡ some e
      → e.cstates ≡ datas.cstates
  unfolding record_cluster_cstate put_cluster
  cstates-record_cluster_cstate datas e k time r =
      let (phy, _, r1) = >>=-eq-some (get_elem? datas.topo.physicals k) _ r in
      let (state, _, r2) = >>=-eq-some (cluster_get_least_cstate datas.cstates phy) _ r1 in
      let (s, _, r3) = >>=-eq-some phy.cstates _ r2 in
      let (t, _, r4) = map?-eq-some _ (record_cstate_event s time state) r3 in
      ap (λ (u : CpuidleDatas D). u.cstates) (sym r4)

  cstates-update_affected :
      (datas e : CpuidleDatas D) (cpu : ℕ) (time : D)
      → update_affected datas cpu time ≡ some e
      → e.cstates ≡ datas.cstates
  unfolding update_affected
  cstates-update_affected datas e cpu time q =
      let (at, _, q1) = >>=-eq-some (cpu_to_core cpu datas.topo) _ q in
      let (u, r, q2) = >>=-eq-some (record_core_cstate datas at time) _ q1 in
      let (k, _, q3) = >>=-eq-some (cpu_to_cluster cpu u.topo) _ q2 in
      cstates-record_cluster_cstate u e k time q3 ∙ cstates-record_core_cstate datas u at time r

  -- Where an event of a CPU is taken without a fault and is not a closing event of a CPU that was
  -- never idle, the CPU is in the state of the event afterwards, and its core and its cluster are
  -- each in the least state of their CPUs, with 16 as the bound.
  pub store_data-agrees :
      (time : D) (state : ℤ) (cpu : ℕ) (datas e : CpuidleDatas D) (s : CpuidleCstates D)
      → get_elem? datas.cstates cpu ≡ some s
      → (eq_ℤ state minus_one && eq_ℤ s.cstate_max minus_one) ≡ false
      → store_data time state cpu datas ≡ some e
      → ((t : CpuidleCstates D) × (get_elem? e.cstates cpu ≡ some t) × (t.current_cstate ≡ state))
        × ((at : ℕ × ℕ) × (cpu_to_core cpu e.topo ≡ some at) × CoreAgrees e at)
        × ((k : ℕ) × (cpu_to_cluster cpu e.topo ≡ some k) × ClusterAgrees e k)
  unfolding store_data put_cpu_cstates
  store_data-agrees time state cpu datas e s c taken q =
      let (ps, _, q1) = >>=-eq-some (get_elem? datas.pstates cpu) _ (known q) in
      let (t, r, q2) = >>=-eq-some (record_cstate_event s time state) _ (went ps _ taken q1) in
      let (u, o, q3) =
        >>=-eq-some
          (store_pstate (put_cpu_cstates datas cpu t) (supports_pstates ps) state cpu time) _ q2 in
      let (core, cluster, _) = update_affected-agrees u e cpu time q3 in
      (
        (
          t,
          ap (λ l. get_elem? l cpu)
                (cstates-update_affected u e cpu time q3
                  ∙ cstates-store_pstate (put_cpu_cstates datas cpu t) u (supports_pstates ps) state
                      cpu time o)
              ∙ get_elem?-set_self datas.cstates cpu t (lt-of_get_elem? datas.cstates cpu c),
          record_cstate_event-current s t time state r,
        ),
        core,
        cluster,
      )
    where
      rest : CpuidleCstates D → Option (CpuidleDatas D)
      rest s = get_elem? datas.pstates cpu >>= λ ps.
          if eq_ℤ state minus_one && eq_ℤ s.cstate_max minus_one
          then some datas
          else (record_cstate_event s time state >>= λ t.
              store_pstate (put_cpu_cstates datas cpu t) (supports_pstates ps) state cpu time
              >>= λ e. update_affected e cpu time)

      known : (get_elem? datas.cstates cpu >>= rest) ≡ some e → rest s ≡ some e
      known q = ap (λ o. o >>= rest) (sym c) ∙ q

      went :
          (ps : CpufreqPstates D) (b : Bool)
          → b ≡ false
          → (if b
              then some datas
              else (record_cstate_event s time state >>= λ t.
                  store_pstate (put_cpu_cstates datas cpu t) (supports_pstates ps) state cpu time
                  >>= λ e. update_affected e cpu time))
            ≡ some e
          → (record_cstate_event s time state >>= λ t.
              store_pstate (put_cpu_cstates datas cpu t) (supports_pstates ps) state cpu time
              >>= λ e. update_affected e cpu time)
            ≡ some e
      went ps true h q = absurd (ground arith)
      went ps false h q = q
