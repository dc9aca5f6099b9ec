-- ===== src/Datas/Affected.antt =====
-- What an event of a CPU does to the C-states of its core and its cluster (idlestat.c: `store_data`).
use idlestat.Base.{
  ℕ, ◌≡◌, refl, Option, some, List, [], ◌∷◌, map?, get_elem?, ◌>>=◌, >>=-eq-some, map?-eq-some, ap,
  ◌∙◌, sym,
}
use idlestat.Base.Int.{pos}
use idlestat.Base.Double.{Double}
use idlestat.Cstates.{maxcstate, CpuidleCstates, record_cstate_event}
use idlestat.Topology.{CpuCore, CpuPhysical}
use idlestat.Topology.Shape.{SameShape, trans_shape}
use idlestat.Topology.Lookup.{
  cpu_to_core, cpu_to_cluster, core_at, cluster_cpus, enum_cpus, enum_cpu,
}
use idlestat.Topology.Groups.{least_from, core_get_least_cstate, cluster_get_least_cstate}
use idlestat.Datas.{
  CpuidleDatas, put_core, put_cluster, record_core_cstate, record_cluster_cstate, update_affected,
}
use idlestat.Datas.Put.{
  record_cstate_event-current, IsCorePut, put_core_lem, IsClusterPut, put_cluster_lem,
}

module _ {D : Type 0} where
  enum_cpus-cstates :
      (phy : CpuPhysical D) (o : Option (CpuidleCstates D)) (es : List (ℕ × ℕ))
      → enum_cpus (record phy { cstates = o }) es ≡ enum_cpus phy es
  unfolding enum_cpus
  enum_cpus-cstates phy o [] = refl
  enum_cpus-cstates phy o (x ∷ es) =
      ap (λ r. enum_cpu phy x >>= λ c. map? (λ cs. c ∷ cs) r) (enum_cpus-cstates phy o es)

  same_least :
      (states : List (CpuidleCstates D)) (phy : CpuPhysical D) (o : Option (CpuidleCstates D))
      → cluster_get_least_cstate states (record phy { cstates = o })
        ≡ cluster_get_least_cstate states phy
  unfolding cluster_get_least_cstate cluster_cpus
  same_least states phy o =
      ap (λ r. r >>= λ cs. least_from states (pos maxcstate) cs)
        (enum_cpus-cstates phy o phy.cpu_enum)

module _ {D : Type 0} ⦃d : Double D⦄ where
  -- The statistics of a core, of a cluster, are in the least state of its CPUs.
  pub record CoreAgrees (datas : CpuidleDatas D) (at : ℕ × ℕ) : Type 0 where
    pub core : CpuCore D
    pub states : CpuidleCstates D
    pub core_there : core_at datas.topo at ≡ some core
    pub states_there : core.cstates ≡ some states
    pub least : core_get_least_cstate datas.cstates core ≡ some states.current_cstate

  pub record ClusterAgrees (datas : CpuidleDatas D) (k : ℕ) : Type 0 where
    pub cluster : CpuPhysical D
    pub states : CpuidleCstates D
    pub cluster_there : get_elem? datas.topo.physicals k ≡ some cluster
    pub states_there : cluster.cstates ≡ some states
    pub least : cluster_get_least_cstate datas.cstates cluster ≡ some states.current_cstate

  record_core_cstate-agrees :
      (datas e : CpuidleDatas D) (at : ℕ × ℕ) (time : D)
      → record_core_cstate datas at time ≡ some e
      → CoreAgrees e at × SameShape datas.topo e.topo
  unfolding record_core_cstate
  record_core_cstate-agrees datas e at time q =
      let (core, c, q1) = >>=-eq-some (core_at datas.topo at) _ q in
      let (state, l, q2) = >>=-eq-some (core_get_least_cstate datas.cstates core) _ q1 in
      let (s, o, q3) = >>=-eq-some core.cstates _ q2 in
      let (t, r, q4) = map?-eq-some _ (record_cstate_event s time state) q3 in
      written core t (put_core_lem datas at core (record core { cstates = some t }) c refl)
        (l ∙ ap some (sym (record_cstate_event-current s t time state r))) q4
    where
      written :
          (core : CpuCore D) (t : CpuidleCstates D)
          → IsCorePut datas
              (put_core datas at (record core { cstates = some t }))
              at
              (record core { cstates = some t })
          → core_get_least_cstate datas.cstates core ≡ some t.current_cstate
          → put_core datas at (record core { cstates = some t }) ≡ e
          → CoreAgrees e at × SameShape datas.topo e.topo
      written core t p l h = (
        record {
          core = record core { cstates = some t };
          states = t;
          core_there = ap (λ (u : CpuidleDatas D). core_at u.topo at) (sym h) ∙ p.there;
          states_there = refl;
          least =
              unfold core_get_least_cstate in
              ap (λ (u : CpuidleDatas D). least_from u.cstates (pos maxcstate) core.cpus) (sym h)
              ∙ ap (λ l. least_from l (pos maxcstate) core.cpus) p.cstates
              ∙ l;
        },
        rw (sym h) p.shape,
      )

  record_cluster_cstate-agrees :
      (datas e : CpuidleDatas D) (k : ℕ) (time : D)
      → record_cluster_cstate datas k time ≡ some e
      → ClusterAgrees e k
        × SameShape datas.topo e.topo
        × ((at : ℕ × ℕ) → CoreAgrees datas at → CoreAgrees e at)
  unfolding record_cluster_cstate
  record_cluster_cstate-agrees datas e k time q =
      let (phy, c, q1) = >>=-eq-some (get_elem? datas.topo.physicals k) _ q in
      let (state, l, q2) = >>=-eq-some (cluster_get_least_cstate datas.cstates phy) _ q1 in
      let (s, o, q3) = >>=-eq-some phy.cstates _ q2 in
      let (t, r, q4) = map?-eq-some _ (record_cstate_event s time state) q3 in
      written phy t (put_cluster_lem datas k phy (record phy { cstates = some t }) c refl refl)
        (l ∙ ap some (sym (record_cstate_event-current s t time state r))) q4
    where
      written :
          (phy : CpuPhysical D) (t : CpuidleCstates D)
          → IsClusterPut datas
              (put_cluster datas k (record phy { cstates = some t }))
              k
              (record phy { cstates = some t })
          → cluster_get_least_cstate datas.cstates phy ≡ some t.current_cstate
          → put_cluster datas k (record phy { cstates = some t }) ≡ e
          → ClusterAgrees e k
            × SameShape datas.topo e.topo
            × ((at : ℕ × ℕ) → CoreAgrees datas at → CoreAgrees e at)
      written phy t p l h = (
        record {
          cluster = record phy { cstates = some t };
          states = t;
          cluster_there =
              ap (λ (u : CpuidleDatas D). get_elem? u.topo.physicals k) (sym h) ∙ p.there;
          states_there = refl;
          least =
              ap
                (λ (u : CpuidleDatas D).
                  cluster_get_least_cstate u.cstates (record phy { cstates = some t }))
                (sym h)
              ∙ ap (λ l. cluster_get_least_cstate l (record phy { cstates = some t })) p.cstates
              ∙ same_least datas.cstates phy (some t)
              ∙ l;
        },
        rw (sym h) p.shape,
        λ at a. record {
          core = a.core;
          states = a.states;
          core_there =
              ap (λ (u : CpuidleDatas D). core_at u.topo at) (sym h) ∙ p.cores at ∙ a.core_there;
          states_there = a.states_there;
          least =
              ap (λ (u : CpuidleDatas D). core_get_least_cstate u.cstates a.core) (sym h)
              ∙ ap (λ l. core_get_least_cstate l a.core) p.cstates
              ∙ a.least;
        },
      )

  -- The core and the cluster of a CPU whose event was taken.
  pub update_affected-agrees :
      (datas e : CpuidleDatas D) (cpu : ℕ) (time : D)
      → update_affected datas cpu time ≡ some e
      → ((at : ℕ × ℕ) × (cpu_to_core cpu e.topo ≡ some at) × CoreAgrees e at)
        × ((k : ℕ) × (cpu_to_cluster cpu e.topo ≡ some k) × ClusterAgrees e k)
        × SameShape datas.topo e.topo
  unfolding update_affected
  update_affected-agrees datas e cpu time q =
      let (at, c, q1) = >>=-eq-some (cpu_to_core cpu datas.topo) _ q in
      let (u, r, q2) = >>=-eq-some (record_core_cstate datas at time) _ q1 in
      let (k, o, q3) = >>=-eq-some (cpu_to_cluster cpu u.topo) _ q2 in
      let (agrees, shape) = record_core_cstate-agrees datas u at time r in
      let (cluster, later, keeps) = record_cluster_cstate-agrees u e k time q3 in
      let all = trans_shape datas.topo u.topo e.topo shape later in
      ((at, all.cores cpu ∙ c, keeps at agrees), (k, later.clusters cpu ∙ o, cluster), all)
