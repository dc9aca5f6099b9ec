-- ===== src/Energy/Total.antt =====
-- `calculate_energy_consumption` (energy_model.c) against the terms of each cluster.
use mathlib.Core.Path.{ap₂}
use idlestat.Base.{
  ℕ, ◌+◌, ◌≡◌, refl, Option, none, some, List, [], ◌∷◌, ◌++◌, get_elem?, ap, ◌∙◌, sym, arith,
  >>=-eq-some, map?-eq-some, some-injective,
}
use idlestat.Base.Int.{pos, add_ℤ}
use idlestat.Base.Double.{Double}
use idlestat.Pstates.{CpufreqPstates}
use idlestat.Cstates.{CpuidleCstates}
use idlestat.Topology.{CpuCpu, CpuCore, CpuPhysical, CpuTopology}
use idlestat.Topology.Groups.{cpu_cstates, cpu_pstates}
use idlestat.Energy.{
  CstateEnergyInfo, ClusterEnergyInfo, ClusterEnergy, rounds, add_cstates, add_pstates,
  add_cpu_energy, add_cpus_energy, add_cores_energy, report_cluster, cluster_energy, energy_from,
  calculate_energy_consumption,
}
use idlestat.Energy.Terms.{
  sum_from, sum_from-append, cstates_terms, cap_terms, add_pstates_lem, add_idles_lem,
}

module _ {D : Type 0} ⦃d : Double D⦄ where
  abbrev pub cpus_terms : (CpuCpu → List D) → List CpuCpu → List D
  cpus_terms f [] = []
  cpus_terms f (c ∷ cs) = f c ++ cpus_terms f cs

  abbrev pub cores_terms : (CpuCpu → List D) → List (CpuCore D) → List D
  cores_terms f [] = []
  cores_terms f (c ∷ cs) = cpus_terms f c.cpus ++ cores_terms f cs

  -- Both sums after some more terms.
  abbrev Adds : D × D → D × D → List D → List D → Type 0
  Adds acc r cap idle = (r.0 ≡ sum_from acc.0 cap) × (r.1 ≡ sum_from acc.1 idle)

  then-Adds :
      (a b c : D × D) (cap cap' idle idle' : List D)
      → Adds a b cap idle
      → Adds b c cap' idle'
      → Adds a c (cap ++ cap') (idle ++ idle')
  then-Adds a b c cap cap' idle idle' h k = (
    k.0 ∙ ap (λ x. sum_from x cap') h.0 ∙ sym (sum_from-append a.0 cap cap'),
    k.1 ∙ ap (λ x. sum_from x idle') h.1 ∙ sym (sum_from-append a.1 idle idle'),
  )

  -- From 0, in seconds.
  abbrev pub seconds_of : List D → D
  seconds_of l = d.div (sum_from (d.of_int (pos 0)) l) (d.of_int (pos 1_000_000))

  abbrev pub energies : List (ClusterEnergy D) → List D
  energies [] = []
  energies (e ∷ es) = e.energy ∷ energies es

module _ {D : Type 0} ⦃d : Double D⦄ (table : List ClusterEnergyInfo)
    (cstates : List (CpuidleCstates D)) (pstates : List (CpufreqPstates D)) where
  -- The terms of a CPU.
  abbrev pub cpu_idle : ℕ → CpuCpu → List D
  cpu_idle cluster c = elim (cpu_cstates cstates c) [
    | none ↦ []
    | some s ↦ cstates_terms table cluster (λ x. x.core_idle_power) s
  ]

  abbrev pub cpu_cap : ℕ → CpuCpu → List D
  cpu_cap cluster c = elim (cpu_pstates pstates c) [
    | none ↦ []
    | some s ↦ cap_terms table cluster (λ x. x.core_power) s.pstate
  ]

  add_cstates_lem :
      (cluster : ℕ) (power : CstateEnergyInfo → ℕ) (acc r : D) (s : CpuidleCstates D)
      → add_cstates table cluster power acc s ≡ some r
      → r ≡ sum_from acc (cstates_terms table cluster power s)
  add_cstates_lem cluster power acc r s e =
      add_idles_lem table cluster power s.cstate s.cstate 0 (rounds (add_ℤ s.cstate_max (pos 1)))
        acc r (λ k. let z : k + 0 ≡ k = omega arith in ap (get_elem? s.cstate) z) e

  add_cpu_energy_lem :
      (cluster : ℕ) (acc r : D × D) (c : CpuCpu)
      → add_cpu_energy table cstates pstates cluster acc c ≡ some r
      → Adds acc r (cpu_cap cluster c) (cpu_idle cluster c)
  unfolding add_cpu_energy
  add_cpu_energy_lem cluster acc r c e =
      let (s, q1, e1) = >>=-eq-some (cpu_cstates cstates c) _ e in
      let (idle, q2, e2) =
        >>=-eq-some (add_cstates table cluster (λ x. x.core_idle_power) acc.1 s) _ e1 in
      let (ps, q3, e3) = >>=-eq-some (cpu_pstates pstates c) _ e2 in
      let (cap, q4, e4) =
        map?-eq-some _ (add_pstates table cluster (λ x. x.core_power) acc.0 ps.pstate) e3 in
      (
        ap (λ (x : D × D). x.0) (sym e4)
            ∙ add_pstates_lem table cluster (λ x. x.core_power) acc.0 cap ps.pstate q4
            ∙ ap
                (λ o. sum_from acc.0 (elim o [
                  | none ↦ []
                  | some s ↦ cap_terms table cluster (λ x. x.core_power) s.pstate
                ]))
                (sym q3),
        ap (λ (x : D × D). x.1) (sym e4)
            ∙ add_cstates_lem cluster (λ x. x.core_idle_power) acc.1 idle s q2
            ∙ ap
                (λ o. sum_from acc.1 (elim o [
                  | none ↦ []
                  | some s ↦ cstates_terms table cluster (λ x. x.core_idle_power) s
                ]))
                (sym q1),
      )

  add_cpus_energy_lem :
      (cluster : ℕ) (acc r : D × D) (cs : List CpuCpu)
      → add_cpus_energy table cstates pstates cluster acc cs ≡ some r
      → Adds acc r (cpus_terms (cpu_cap cluster) cs) (cpus_terms (cpu_idle cluster) cs)
  unfolding add_cpus_energy
  add_cpus_energy_lem cluster acc r [] e = rw (sym (some-injective _ _ e)) (refl, refl)
  add_cpus_energy_lem cluster acc r (c ∷ cs) e =
      let (a, q, e1) = >>=-eq-some (add_cpu_energy table cstates pstates cluster acc c) _ e in
      then-Adds acc a r (cpu_cap cluster c) (cpus_terms (cpu_cap cluster) cs) (cpu_idle cluster c)
        (cpus_terms (cpu_idle cluster) cs) (add_cpu_energy_lem cluster acc a c q)
        (add_cpus_energy_lem cluster a r cs e1)

  add_cores_energy_lem :
      (cluster : ℕ) (acc r : D × D) (cs : List (CpuCore D))
      → add_cores_energy table cstates pstates cluster acc cs ≡ some r
      → Adds acc r (cores_terms (cpu_cap cluster) cs) (cores_terms (cpu_idle cluster) cs)
  unfolding add_cores_energy
  add_cores_energy_lem cluster acc r [] e = rw (sym (some-injective _ _ e)) (refl, refl)
  add_cores_energy_lem cluster acc r (c ∷ cs) e =
      let (a, q, e1) = >>=-eq-some (add_cpus_energy table cstates pstates cluster acc c.cpus) _ e in
      then-Adds acc a r (cpus_terms (cpu_cap cluster) c.cpus) (cores_terms (cpu_cap cluster) cs)
        (cpus_terms (cpu_idle cluster) c.cpus) (cores_terms (cpu_idle cluster) cs)
        (add_cpus_energy_lem cluster acc a c.cpus q) (add_cores_energy_lem cluster a r cs e1)

  -- The terms of a cluster: its own states, and then those of its CPUs.
  abbrev own_idle : ℕ → Option (CpuidleCstates D) → List D
  own_idle cluster none = []
  own_idle cluster (some s) = cstates_terms table cluster (λ x. x.cluster_idle_power) s

  abbrev pub cluster_idle : CpuPhysical D → List D
  cluster_idle p = own_idle p.physical_id p.cstates ++ cores_terms (cpu_idle p.physical_id) p.cores

  abbrev pub cluster_cap : CpuPhysical D → List D
  cluster_cap p =
      cap_terms table p.physical_id (λ x. x.cluster_power) p.pstates.pstate
      ++ cores_terms (cpu_cap p.physical_id) p.cores

  abbrev pub expected : CpuPhysical D → ClusterEnergy D
  expected p = record {
    cluster = p.physical_id;
    cap = seconds_of (cluster_cap p);
    idle = seconds_of (cluster_idle p);
    energy = d.add (seconds_of (cluster_cap p)) (seconds_of (cluster_idle p));
  }

  abbrev pub expected_all : List (CpuPhysical D) → List (ClusterEnergy D)
  expected_all [] = []
  expected_all (p ∷ ps) = expected p ∷ expected_all ps

  cluster_energy_lem :
      (p : CpuPhysical D) (r : ClusterEnergy D)
      → cluster_energy table cstates pstates p ≡ some r
      → r ≡ expected p
  unfolding cluster_energy
  cluster_energy_lem p r e =
      let id = p.physical_id in
      let (s, q1, e1) = >>=-eq-some p.cstates _ e in
      let (idle, q2, e2) =
        >>=-eq-some (add_cstates table id (λ x. x.cluster_idle_power) (d.of_int (pos 0)) s) _ e1 in
      let (cap, q3, e3) =
        >>=-eq-some
          (add_pstates table id (λ x. x.cluster_power) (d.of_int (pos 0)) p.pstates.pstate) _ e2 in
      let (acc, q4, e4) =
        >>=-eq-some (add_cores_energy table cstates pstates id (cap, idle) p.cores) _ e3 in
      let start : D × D = (d.of_int (pos 0), d.of_int (pos 0)) in
      let own : Adds start (cap, idle) (cap_terms table id (λ x. x.cluster_power) p.pstates.pstate)
          (own_idle id p.cstates) =
        (
          add_pstates_lem table id (λ x. x.cluster_power) (d.of_int (pos 0)) cap p.pstates.pstate
              q3,
          add_cstates_lem id (λ x. x.cluster_idle_power) (d.of_int (pos 0)) idle s q2
              ∙ ap (λ o. sum_from (d.of_int (pos 0)) (own_idle id o)) (sym q1),
        ) in
      let (caps, idles) =
        then-Adds start (cap, idle) acc (cap_terms table id (λ x. x.cluster_power) p.pstates.pstate)
          (cores_terms (cpu_cap id) p.cores) (own_idle id p.cstates)
          (cores_terms (cpu_idle id) p.cores) own
          (add_cores_energy_lem id (cap, idle) acc p.cores q4) in
      some-injective _ _ (sym e4)
      ∙ reported id acc (sum_from (d.of_int (pos 0)) (cluster_cap p))
          (sum_from (d.of_int (pos 0)) (cluster_idle p)) caps idles
    where
      reported :
          (id : ℕ) (acc : D × D) (cap idle : D)
          → acc.0 ≡ cap
          → acc.1 ≡ idle
          → report_cluster id acc ≡ report_cluster id (cap, idle)
      reported id acc cap idle h k = ap₂ (λ a b. report_cluster id (a, b)) h k

  energy_from_lem :
      (total : D) (ps : List (CpuPhysical D)) (r : List (ClusterEnergy D) × D)
      → energy_from table cstates pstates total ps ≡ some r
      → (r.0 ≡ expected_all ps) × (r.1 ≡ sum_from total (energies r.0))
  unfolding energy_from
  energy_from_lem total [] r e = rw (sym (some-injective _ _ e)) (refl, refl)
  energy_from_lem total (p ∷ ps) r e =
      let (c, q, e1) = >>=-eq-some (cluster_energy table cstates pstates p) _ e in
      let (rest, q2, e2) =
        map?-eq-some _ (energy_from table cstates pstates (d.add total c.energy) ps) e1 in
      let (same, sums) = energy_from_lem (d.add total c.energy) ps rest q2 in
      rw (sym e2) (ap₂ (λ a b. a ∷ b) (cluster_energy_lem p c q) same, sums)

  -- Where `calculate_energy_consumption` has no fault, it prints for each cluster, in order, the sum in
  -- seconds of the P-state terms and that of the C-state terms of the cluster and of its CPUs, and
  -- both together; the total is the sum of the clusters' energies. A term is the duration of a state
  -- times the power in the first entry that the model has for its name or, of a P-state, for its frequency
  -- in MHz; a state without hits or without an entry has none.
  pub calculate_energy_consumption_lem :
      (topo : CpuTopology D) (r : List (ClusterEnergy D) × D)
      → calculate_energy_consumption table cstates pstates topo ≡ some r
      → (r.0 ≡ expected_all topo.physicals) × (r.1 ≡ sum_from (d.of_int (pos 0)) (energies r.0))
  unfolding calculate_energy_consumption
  calculate_energy_consumption_lem topo r e = energy_from_lem (d.of_int (pos 0)) topo.physicals r e
