-- ===== src/Topology/Mapped.antt =====
-- What `setup_topo_states` (topology.c) maps the CPUs of a topology to.
use idlestat.Base.{
  ℕ, zero, suc, ◌+◌, ◌≡◌, refl, true, false, Option, none, some, List, [], ◌∷◌, if◌then◌else◌, map?,
  arith, ap, ◌∙◌, sym, Bool-cases, inl, inr, ◌==◌, map?-eq-some, some-injective, >>=-eq-some, leb,
  ltb, ◌&&◌, All,
}
use idlestat.Base.Int.{minus_one}
use idlestat.Base.Double.{Double}
use idlestat.Cstates.{CpuidleCstates}
use idlestat.Topology.{CpuCpu, CpuCore, CpuPhysical, CpuTopology}
use idlestat.Topology.Ids.{find_id-update_found}
use idlestat.Topology.Build.{cpu_is_online}
use idlestat.Topology.Lookup.{
  find_map, core_cpu, cluster_cpu, find_cpu_point, find_map-update_first,
  find_map-update_first_same,
}
use idlestat.Topology.Groups.{cpu_cstates}
use idlestat.Topology.Setup.{
  first_entry, map_states, map_core_cpu, map_cluster_cpu, map_cpu, map_cpus, setup_topo_states,
  setup_cores, setup_cluster, setup_clusters, create_states, create_core_states,
  create_cluster_states,
}

module _ {D : Type 0} where
  core_cpu-map :
      (i v : ℕ) (core : CpuCore D)
      → core_cpu v (map_core_cpu i core)
        ≡ (if v == i then map? (map_states i) (core_cpu i core) else core_cpu v core)
  unfolding map_core_cpu
  core_cpu-map i v core =
      find_id-update_found (λ (c : CpuCpu). c.cpu_id) v i (map_states i) core.cpus (λ x. refl)

  cluster_cpu-map :
      (i v : ℕ) (p : CpuPhysical D)
      → cluster_cpu v (map_cluster_cpu i p)
        ≡ (if v == i then map? (map_states i) (cluster_cpu i p) else cluster_cpu v p)
  unfolding cluster_cpu map_cluster_cpu
  cluster_cpu-map i v p = elim (Bool-cases (v == i)) [
    | inl e ↦
        let e' : v ≡ i = ground arith in
        rw e (
          rw e' (
            find_map-update_first (core_cpu i) (map_core_cpu i) (map_states i) p.cores
              (λ x. core_cpu-map i i x ∙ ground arith)))
    | inr e ↦ rw e (
        find_map-update_first_same (core_cpu i) (core_cpu v) (map_core_cpu i) p.cores (λ x.
          core_cpu-map i v x
          ∙ ap (λ b. if b then map? (map_states i) (core_cpu i x) else core_cpu v x) e))
  ]

  find_cpu_point-map :
      (i v : ℕ) (topo : CpuTopology D)
      → find_cpu_point (map_cpu i topo) v
        ≡ (if v == i then map? (map_states i) (find_cpu_point topo i) else find_cpu_point topo v)
  unfolding find_cpu_point map_cpu
  find_cpu_point-map i v topo = elim (Bool-cases (v == i)) [
    | inl e ↦
        let e' : v ≡ i = ground arith in
        rw e (
          rw e' (
            find_map-update_first (cluster_cpu i) (map_cluster_cpu i) (map_states i) topo.physicals
              (λ x. cluster_cpu-map i i x ∙ ground arith)))
    | inr e ↦ rw e (
        find_map-update_first_same (cluster_cpu i) (cluster_cpu v) (map_cluster_cpu i)
          topo.physicals
          (λ x.
            cluster_cpu-map i v x
            ∙ ap (λ b. if b then map? (map_states i) (cluster_cpu i x) else cluster_cpu v x) e))
  ]

  -- The CPUs `i` to `i + n - 1` that are online are mapped, the others are as they were.
  map_cpus-find :
      (i n v : ℕ) (topo : CpuTopology D)
      → find_cpu_point (map_cpus i n topo) v ≡ (
          if leb i v && ltb v (i + n) && cpu_is_online topo v
          then map? (map_states v) (find_cpu_point topo v)
          else find_cpu_point topo v)
  unfolding map_cpus map_cpu cpu_is_online
  map_cpus-find i zero v topo = ground arith
  map_cpus-find i (suc n) v topo =
      map_cpus-find (i + 1) n v (if cpu_is_online topo i then map_cpu i topo else topo)
      ∙ elim (Bool-cases (cpu_is_online topo i)) [
        | inl e ↦ rw e (mapped (find_cpu_point-map i v topo) e)
        | inr e ↦ rw e (skipped e)
      ]
    where
      after : CpuTopology D → Option CpuCpu
      after t =
          if leb (i + 1) v && ltb v (i + 1 + n) && cpu_is_online topo v
          then map? (map_states v) (find_cpu_point t v)
          else find_cpu_point t v

      before : Option CpuCpu
      before =
          if leb i v && ltb v (i + suc n) && cpu_is_online topo v
          then map? (map_states v) (find_cpu_point topo v)
          else find_cpu_point topo v

      mapped :
          find_cpu_point (map_cpu i topo) v ≡ (
            if v == i then map? (map_states i) (find_cpu_point topo i) else find_cpu_point topo v)
          → cpu_is_online topo i ≡ true
          → after (map_cpu i topo) ≡ before
      mapped h e = elim (Bool-cases (v == i)) [
        | inl k ↦
            let k' : v ≡ i = ground arith in
            ground
              (arith, ap (cpu_is_online topo) k', ap (find_cpu_point topo) k', ap map_states k')
        | inr k ↦ ground arith
      ]

      skipped : cpu_is_online topo i ≡ false → after topo ≡ before
      skipped e = elim (Bool-cases (v == i)) [
        | inl k ↦ let k' : v ≡ i = ground arith in ground (arith, ap (cpu_is_online topo) k')
        | inr k ↦ ground arith
      ]

module _ {D : Type 0} ⦃d : Double D⦄ where
  -- C-states of its own, none of them entered.
  abbrev pub IsFresh : Option (CpuidleCstates D) → Type 0
  IsFresh o =
      (s : CpuidleCstates D) × (o ≡ some s)
      × (s.current_cstate ≡ minus_one)
      × (s.cstate_max ≡ minus_one)

  abbrev pub IsPrepared : CpuPhysical D → Type 0
  IsPrepared p = IsFresh p.cstates × All (λ (c : CpuCore D). IsFresh c.cstates) p.cores

  create_core_states-IsFresh :
      (states : List (CpuidleCstates D)) (c : CpuCore D) (s : CpuidleCstates D)
      → create_core_states states c ≡ some s
      → IsFresh (some s)
  unfolding create_core_states create_states
  create_core_states-IsFresh states c s e =
      let (origin, _, e1) = >>=-eq-some (first_entry c.cpus) _ e in
      let (t, _, e2) = >>=-eq-some (cpu_cstates states origin) _ e1 in
      let same = some-injective _ _ (sym e2) in
      (
        s,
        refl,
        ap (λ (u : CpuidleCstates D). u.current_cstate) same,
        ap (λ (u : CpuidleCstates D). u.cstate_max) same,
      )

  create_cluster_states-IsFresh :
      (p : CpuPhysical D) (s : CpuidleCstates D)
      → create_cluster_states p ≡ some s
      → IsFresh (some s)
  unfolding create_cluster_states create_states
  create_cluster_states-IsFresh p s e =
      let (origin, _, e1) = >>=-eq-some (first_entry p.cores) _ e in
      let (t, _, e2) = >>=-eq-some origin.cstates _ e1 in
      let same = some-injective _ _ (sym e2) in
      (
        s,
        refl,
        ap (λ (u : CpuidleCstates D). u.current_cstate) same,
        ap (λ (u : CpuidleCstates D). u.cstate_max) same,
      )

  setup_cores_lem :
      (states : List (CpuidleCstates D)) (cs cs' : List (CpuCore D))
      → setup_cores states cs ≡ some cs'
      → ((v : ℕ) → find_map (core_cpu v) cs' ≡ find_map (core_cpu v) cs)
        × All (λ (c : CpuCore D). IsFresh c.cstates) cs'
  unfolding setup_cores find_map
  setup_cores_lem states [] cs' e = rw (sym (some-injective _ _ e)) ((λ v. refl), tt)
  setup_cores_lem states (c ∷ cs) cs' e =
      let (s, q, e1) = >>=-eq-some (create_core_states states c) _ e in
      let (rest, r, e2) = map?-eq-some _ (setup_cores states cs) e1 in
      let (same, fresh) = setup_cores_lem states cs rest r in
      rw (sym e2) (
        (λ v. ap (λ o. elim (core_cpu v c) [ some b ↦ some b | none ↦ o ]) (same v)),
        (create_core_states-IsFresh states c s q, fresh),
      )

  setup_cluster_lem :
      (states : List (CpuidleCstates D)) (p q : CpuPhysical D)
      → setup_cluster states p ≡ some q
      → ((v : ℕ) → cluster_cpu v q ≡ cluster_cpu v p) × IsPrepared q
  unfolding setup_cluster cluster_cpu
  setup_cluster_lem states p q e =
      let (cores, r, e1) = >>=-eq-some (setup_cores states p.cores) _ e in
      let (same, fresh) = setup_cores_lem states p.cores cores r in
      let (s, o, e2) = >>=-eq-some (create_cluster_states (record p { cores = cores })) _ e1 in
      rw (sym (some-injective _ _ e2))
        (same, (create_cluster_states-IsFresh (record p { cores = cores }) s o, fresh))

  setup_clusters_lem :
      (states : List (CpuidleCstates D)) (ps qs : List (CpuPhysical D))
      → setup_clusters states ps ≡ some qs
      → ((v : ℕ) → find_map (cluster_cpu v) qs ≡ find_map (cluster_cpu v) ps) × All IsPrepared qs
  unfolding setup_clusters find_map
  setup_clusters_lem states [] qs e = rw (sym (some-injective _ _ e)) ((λ v. refl), tt)
  setup_clusters_lem states (p ∷ ps) qs e =
      let (q, r, e1) = >>=-eq-some (setup_cluster states p) _ e in
      let (rest, o, e2) = map?-eq-some _ (setup_clusters states ps) e1 in
      let (first, prepared) = setup_cluster_lem states p q r in
      let (same, others) = setup_clusters_lem states ps rest o in
      rw (sym e2) (
        (λ v.
            ap (λ o. elim o [ some b ↦ some b | none ↦ find_map (cluster_cpu v) rest ]) (first v)
            ∙ ap (λ o. elim (cluster_cpu v p) [ some b ↦ some b | none ↦ o ]) (same v)),
        (prepared, others),
      )

  -- Where `setup_topo_states` has no fault, the object of a CPU is mapped to the CPU's entries of the
  -- arrays if the CPU is online and has such entries, it is as it was otherwise, and every core and
  -- cluster has C-states of its own in which no state was entered.
  pub setup_topo_states_lem :
      (states : List (CpuidleCstates D)) (nrcpus : ℕ) (topo t : CpuTopology D)
      → setup_topo_states states nrcpus topo ≡ some t
      → ((v : ℕ)
          → find_cpu_point t v ≡ (
              if ltb v nrcpus && cpu_is_online topo v
              then map? (map_states v) (find_cpu_point topo v)
              else find_cpu_point topo v))
        × All IsPrepared t.physicals
  unfolding setup_topo_states
  setup_topo_states_lem states nrcpus topo t e =
      let (ps, r, e1) =
        map?-eq-some _ (setup_clusters states (map_cpus 0 nrcpus topo).physicals) e in
      let (same, prepared) = setup_clusters_lem states (map_cpus 0 nrcpus topo).physicals ps r in
      rw (sym e1) (
        (λ v. unfold find_cpu_point in same v ∙ ground (arith, map_cpus-find 0 nrcpus v topo)),
        prepared,
      )
