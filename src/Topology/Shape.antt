-- ===== src/Topology/Shape.antt =====
-- The searches of topology.c after a change to the statistics of a core or of a cluster.
use idlestat.Base.{
  ℕ, zero, suc, ◌≡◌, refl, Bool, some, List, [], ◌∷◌, get_elem?, set, arith, ap, ◌∙◌,
}
use idlestat.Topology.{CpuCpu, CpuCore, CpuPhysical, CpuTopology}
use idlestat.Topology.Ids.{check_exist_from_head}
use idlestat.Topology.Lookup.{find_index, enum_has_cpu, core_in, cpu_to_core, cpu_to_cluster}

pub find_index-set :
    {A : Type 0} (f : A → Bool) (xs : List A) (i : ℕ) (x y : A)
    → get_elem? xs i ≡ some x
    → f y ≡ f x
    → find_index f (set xs i y) ≡ find_index f xs
unfolding find_index
find_index-set f [] i x y e h = refl
find_index-set f (z ∷ zs) zero x y e h = ground arith
find_index-set f (z ∷ zs) (suc i) x y e h = ground (arith, find_index-set f zs i x y e h)

module _ {D : Type 0} where
  -- Two clusters in which every search has the same result.
  pub record SameCluster (p q : CpuPhysical D) : Type 0 where
    pub enum : q.cpu_enum ≡ p.cpu_enum
    pub cores :
        (cpu : ℕ)
        → find_index
            (λ (core : CpuCore D). check_exist_from_head (λ (c : CpuCpu). c.cpu_id) core.cpus cpu)
            q.cores
          ≡ find_index
              (λ (core : CpuCore D). check_exist_from_head (λ (c : CpuCpu). c.cpu_id) core.cpus cpu)
              p.cores

  pub record SameShape (s t : CpuTopology D) : Type 0 where
    pub cores : (cpu : ℕ) → cpu_to_core cpu t ≡ cpu_to_core cpu s
    pub clusters : (cpu : ℕ) → cpu_to_cluster cpu t ≡ cpu_to_cluster cpu s

  pub same_shape : (s : CpuTopology D) → SameShape s s
  same_shape s = record { cores = λ cpu. refl; clusters = λ cpu. refl }

  pub trans_shape : (s t u : CpuTopology D) → SameShape s t → SameShape t u → SameShape s u
  trans_shape s t u h k = record {
    cores = λ cpu. k.cores cpu ∙ h.cores cpu;
    clusters = λ cpu. k.clusters cpu ∙ h.clusters cpu;
  }

  core_in-set :
      (cpu : ℕ) (ps : List (CpuPhysical D)) (k : ℕ) (p q : CpuPhysical D)
      → get_elem? ps k ≡ some p
      → SameCluster p q
      → core_in cpu (set ps k q) ≡ core_in cpu ps
  unfolding core_in
  core_in-set cpu [] k p q e h = refl
  core_in-set cpu (x ∷ xs) zero p q e h = ground (arith, h.cores cpu)
  core_in-set cpu (x ∷ xs) (suc k) p q e h = ground (arith, core_in-set cpu xs k p q e h)

  pub set-SameShape :
      (topo : CpuTopology D) (k : ℕ) (p q : CpuPhysical D)
      → get_elem? topo.physicals k ≡ some p
      → SameCluster p q
      → SameShape topo (record topo { physicals = set topo.physicals k q })
  unfolding cpu_to_core cpu_to_cluster
  set-SameShape topo k p q e h = record {
    cores = λ cpu. core_in-set cpu topo.physicals k p q e h;
    clusters = λ cpu.
        find_index-set (λ (phy : CpuPhysical D). enum_has_cpu phy.cpu_enum cpu) topo.physicals k p q
          e (ap (λ l. enum_has_cpu l cpu) h.enum);
  }

  -- A core of the cluster is replaced by one with the same CPUs.
  pub core-SameCluster :
      (p : CpuPhysical D) (j : ℕ) (c c' : CpuCore D)
      → get_elem? p.cores j ≡ some c
      → c'.cpus ≡ c.cpus
      → SameCluster p (record p { cores = set p.cores j c' })
  core-SameCluster p j c c' e h = record {
    enum = refl;
    cores = λ cpu.
        find_index-set
          (λ (core : CpuCore D). check_exist_from_head (λ (c : CpuCpu). c.cpu_id) core.cpus cpu)
          p.cores j c c' e (ap (λ l. check_exist_from_head (λ (c : CpuCpu). c.cpu_id) l cpu) h);
  }
