-- ===== src/Topology/Lookup.antt =====
-- The searches for a CPU, its core and its cluster (topology.c). A core is named by the indices of
-- its cluster and of itself, a cluster by its index.
use idlestat.Base.{
  ℕ, suc, ◌≡◌, refl, Bool, false, Option, none, some, List, [], ◌∷◌, if◌then◌else◌, map?, get_elem?,
  ◌||◌, ◌==◌, ◌>>=◌, arith,
}
use idlestat.Topology.{CpuCpu, CpuCore, CpuPhysical, CpuTopology}
use idlestat.Topology.Ids.{find_id, check_exist_from_head}

module _ {A : Type 0} {B : Type 0} where
  unfoldable pub find_map : (A → Option B) → List A → Option B
  find_map f [] = none
  find_map f (x ∷ xs) = elim (f x) [ some b ↦ some b | none ↦ find_map f xs ]

  -- A change to the first object in which `f` finds something.
  unfoldable pub update_first : (A → Option B) → (A → A) → List A → List A
  update_first f g [] = []
  update_first f g (x ∷ xs) = elim (f x) [ some b ↦ g x ∷ xs | none ↦ x ∷ update_first f g xs ]

unfoldable pub find_index : {A : Type 0} → (A → Bool) → List A → Option ℕ
find_index f [] = none
find_index f (x ∷ xs) = if f x then some 0 else map? (λ i. suc i) (find_index f xs)

unfoldable pub enum_has_cpu : List (ℕ × ℕ) → ℕ → Bool
enum_has_cpu [] cpuid = false
enum_has_cpu (e ∷ es) cpuid = e.1 == cpuid || enum_has_cpu es cpuid

module _ {D : Type 0} where
  abbrev pub core_cpu : ℕ → CpuCore D → Option CpuCpu
  core_cpu cpuid core = find_id (λ (c : CpuCpu). c.cpu_id) cpuid core.cpus

  unfoldable pub cluster_cpu : ℕ → CpuPhysical D → Option CpuCpu
  cluster_cpu cpuid phy = find_map (core_cpu cpuid) phy.cores

  unfoldable pub find_cpu_point : CpuTopology D → ℕ → Option CpuCpu
  unfolding cluster_cpu
  find_cpu_point topo cpuid = find_map (cluster_cpu cpuid) topo.physicals

  -- The search goes over the CPUs that the cluster enumerates.
  unfoldable pub cpu_to_cluster : ℕ → CpuTopology D → Option ℕ
  cpu_to_cluster cpuid topo =
      find_index (λ (phy : CpuPhysical D). enum_has_cpu phy.cpu_enum cpuid) topo.physicals

  -- The search goes over the cores, and over the CPUs of each.
  unfoldable pub core_in : ℕ → List (CpuPhysical D) → Option (ℕ × ℕ)
  core_in cpuid [] = none
  core_in cpuid (phy ∷ ps) =
      elim (find_index
        (λ (core : CpuCore D). check_exist_from_head (λ (c : CpuCpu). c.cpu_id) core.cpus cpuid)
        phy.cores) [
          | some j ↦ some (0, j)
          | none ↦ map? (λ (r : ℕ × ℕ). (suc r.0, r.1)) (core_in cpuid ps)
        ]

  unfoldable pub cpu_to_core : ℕ → CpuTopology D → Option (ℕ × ℕ)
  unfolding core_in
  cpu_to_core cpuid topo = core_in cpuid topo.physicals

  abbrev pub core_at : CpuTopology D → ℕ × ℕ → Option (CpuCore D)
  core_at topo at = get_elem? topo.physicals at.0 >>= λ phy. get_elem? phy.cores at.1

  -- The object that an entry of `cpu_enum` stands for.
  abbrev pub enum_cpu : CpuPhysical D → ℕ × ℕ → Option CpuCpu
  enum_cpu phy e =
      find_id (λ (c : CpuCore D). c.core_id) e.0 phy.cores >>= λ core. core_cpu e.1 core

  unfoldable pub enum_cpus : CpuPhysical D → List (ℕ × ℕ) → Option (List CpuCpu)
  enum_cpus phy [] = some []
  enum_cpus phy (e ∷ es) = enum_cpu phy e >>= λ c. map? (λ cs. c ∷ cs) (enum_cpus phy es)

  unfoldable pub cluster_cpus : CpuPhysical D → Option (List CpuCpu)
  cluster_cpus phy = enum_cpus phy phy.cpu_enum

module _ {A : Type 0} {B : Type 0} where
  pub find_map-update_first :
      (f : A → Option B) (g : A → A) (h : B → B) (xs : List A)
      → ((x : A) → f (g x) ≡ map? h (f x))
      → find_map f (update_first f g xs) ≡ map? h (find_map f xs)
  unfolding find_map update_first
  find_map-update_first f g h [] k = refl
  find_map-update_first f g h (x ∷ xs) k = ground (arith, k x, find_map-update_first f g h xs k)

  pub find_map-update_first_same :
      {C : Type 0} (f : A → Option B) (f' : A → Option C) (g : A → A) (xs : List A)
      → ((x : A) → f' (g x) ≡ f' x)
      → find_map f' (update_first f g xs) ≡ find_map f' xs
  unfolding find_map update_first
  find_map-update_first_same f f' g [] k = refl
  find_map-update_first_same f f' g (x ∷ xs) k =
      ground (arith, k x, find_map-update_first_same f f' g xs k)
