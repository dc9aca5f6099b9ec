-- ===== src/Topology/Baseline/Same.antt =====
-- `assign_baseline_in_topo` (topology.c) on two traces of the same machine.
use idlestat.Base.{ℕ, ◌≡◌, refl, Option, none, some, List, [], ◌∷◌, map?, arith}
use idlestat.Topology.{CpuCpu, CpuCore, CpuPhysical, CpuTopology}
use idlestat.Topology.Ids.{find_id}
use idlestat.Topology.Lookup.{find_map, core_cpu, cluster_cpu, find_cpu_point}
use idlestat.Topology.Baseline.{assign_cpus, assign_cores, assign_clusters, assign_baseline_in_topo}

-- The same CPUs, in the same cores and clusters.
abbrev pub SameCpus : List CpuCpu → List CpuCpu → Type 0
SameCpus [] [] = Unit
SameCpus (c ∷ cs) (b ∷ bs) = (c.cpu_id ≡ b.cpu_id) × SameCpus cs bs
SameCpus [] (b ∷ bs) = ⊥
SameCpus (c ∷ cs) [] = ⊥

abbrev pub own : CpuCpu → Option ℕ × Option ℕ
own c = (c.cstates, c.pstates)

abbrev pub based : CpuCpu → Option ℕ × Option ℕ
based c = (c.base_cstates, c.base_pstates)

-- A CPU with what it takes from the baseline, found by number.
abbrev IsBased : Option CpuCpu → Option CpuCpu → Option CpuCpu → Type 0
IsBased before after base = (map? based after ≡ map? own base) × (map? own after ≡ map? own before)

assign_cpus_lem :
    (cs bs : List CpuCpu)
    → SameCpus cs bs
    → (r : List CpuCpu) × (assign_cpus cs bs ≡ some r)
      × ((v : ℕ)
          → IsBased
              (find_id (λ (c : CpuCpu). c.cpu_id) v cs)
              (find_id (λ (c : CpuCpu). c.cpu_id) v r)
              (find_id (λ (c : CpuCpu). c.cpu_id) v bs))
unfolding assign_cpus find_id
assign_cpus_lem [] [] h = ([], refl, λ v. (refl, refl))
assign_cpus_lem [] (b ∷ bs) h = absurd h
assign_cpus_lem (c ∷ cs) [] h = absurd h
assign_cpus_lem (c ∷ cs) (b ∷ bs) h =
    let (r, e, k) = assign_cpus_lem cs bs h.1 in
    (
      record c { base_cstates = b.cstates; base_pstates = b.pstates } ∷ r,
      rw e refl,
      λ v. ground (arith, h.0, k v),
    )

-- The first of two places that has something.
abbrev first_of : Option CpuCpu → Option CpuCpu → Option CpuCpu
first_of none rest = rest
first_of (some c) rest = some c

IsBased-first_of :
    (a b c a' b' c' : Option CpuCpu)
    → IsBased a b c
    → IsBased a' b' c'
    → IsBased (first_of a a') (first_of b b') (first_of c c')
IsBased-first_of none none none a' b' c' h k = k
IsBased-first_of (some a) (some b) (some c) a' b' c' h k = h
IsBased-first_of none none (some c) a' b' c' h k = absurd (ground (arith, h.0))
IsBased-first_of none (some b) c a' b' c' h k = absurd (ground (arith, h.1))
IsBased-first_of (some a) none c a' b' c' h k = absurd (ground (arith, h.1))
IsBased-first_of (some a) (some b) none a' b' c' h k = absurd (ground (arith, h.0))

find_map-cons :
    {A : Type 0} (f : A → Option CpuCpu) (x : A) (xs : List A)
    → find_map f (x ∷ xs) ≡ first_of (f x) (find_map f xs)
unfolding find_map
find_map-cons f x xs = go (f x)
  where
    go :
        (o : Option CpuCpu)
        → (elim o [ some b ↦ some b | none ↦ find_map f xs ]) ≡ first_of o (find_map f xs)
    go none = refl
    go (some b) = refl

-- One more object in each of the three lists.
IsBased-cons :
    {A : Type 0} (f : A → Option CpuCpu) (x y z : A) (xs ys zs : List A)
    → IsBased (f x) (f y) (f z)
    → IsBased (find_map f xs) (find_map f ys) (find_map f zs)
    → IsBased (find_map f (x ∷ xs)) (find_map f (y ∷ ys)) (find_map f (z ∷ zs))
IsBased-cons f x y z xs ys zs h k =
    rw (find_map-cons f x xs, find_map-cons f y ys, find_map-cons f z zs)
      (IsBased-first_of (f x) (f y) (f z) (find_map f xs) (find_map f ys) (find_map f zs) h k)

IsBased-nil :
    {A : Type 0} (f : A → Option CpuCpu) → IsBased (find_map f []) (find_map f []) (find_map f [])
unfolding find_map
IsBased-nil f = (refl, refl)

module _ {D : Type 0} where
  abbrev pub SameCores : List (CpuCore D) → List (CpuCore D) → Type 0
  SameCores [] [] = Unit
  SameCores (c ∷ cs) (b ∷ bs) = SameCpus c.cpus b.cpus × SameCores cs bs
  SameCores [] (b ∷ bs) = ⊥
  SameCores (c ∷ cs) [] = ⊥

  abbrev pub SameClusters : List (CpuPhysical D) → List (CpuPhysical D) → Type 0
  SameClusters [] [] = Unit
  SameClusters (p ∷ ps) (b ∷ bs) = SameCores p.cores b.cores × SameClusters ps bs
  SameClusters [] (b ∷ bs) = ⊥
  SameClusters (p ∷ ps) [] = ⊥

  assign_cores_lem :
      (cs bs : List (CpuCore D))
      → SameCores cs bs
      → (r : List (CpuCore D)) × (assign_cores cs bs ≡ some r)
        × ((v : ℕ)
            → IsBased
                (find_map (core_cpu v) cs)
                (find_map (core_cpu v) r)
                (find_map (core_cpu v) bs))
  unfolding assign_cores
  assign_cores_lem [] [] h = ([], refl, λ v. IsBased-nil (core_cpu v))
  assign_cores_lem [] (b ∷ bs) h = absurd h
  assign_cores_lem (c ∷ cs) [] h = absurd h
  assign_cores_lem (c ∷ cs) (b ∷ bs) h =
      let (cpus, e, k) = assign_cpus_lem c.cpus b.cpus h.0 in
      let (r, e', k') = assign_cores_lem cs bs h.1 in
      let c' : CpuCore D = record c {
        cpus = cpus;
        base_cstates = b.cstates;
        base_pstates = some b.pstates;
      } in
      (c' ∷ r, rw (e, e') refl, λ v. IsBased-cons (core_cpu v) c c' b cs r bs (k v) (k' v))

  assign_clusters_lem :
      (ps bs : List (CpuPhysical D))
      → SameClusters ps bs
      → (r : List (CpuPhysical D)) × (assign_clusters ps bs ≡ some r)
        × ((v : ℕ)
            → IsBased
                (find_map (cluster_cpu v) ps)
                (find_map (cluster_cpu v) r)
                (find_map (cluster_cpu v) bs))
  unfolding assign_clusters cluster_cpu
  assign_clusters_lem [] [] h = ([], refl, λ v. IsBased-nil (cluster_cpu v))
  assign_clusters_lem [] (b ∷ bs) h = absurd h
  assign_clusters_lem (p ∷ ps) [] h = absurd h
  assign_clusters_lem (p ∷ ps) (b ∷ bs) h =
      let (cores, e, k) = assign_cores_lem p.cores b.cores h.0 in
      let (r, e', k') = assign_clusters_lem ps bs h.1 in
      let p' : CpuPhysical D = record p {
        cores = cores;
        base_cstates = b.cstates;
        base_pstates = some b.pstates;
      } in
      (p' ∷ r, rw (e, e') refl, λ v. IsBased-cons (cluster_cpu v) p p' b ps r bs (k v) (k' v))

  -- On two traces that have the same CPUs in the same cores and clusters, `assign_baseline_in_topo`
  -- returns; the object of each CPU gets the states of the baseline's object with its number, and
  -- keeps its own.
  pub assign_baseline_in_topo_lem :
      (topo base : CpuTopology D)
      → SameClusters topo.physicals base.physicals
      → (t : CpuTopology D) × (assign_baseline_in_topo topo (some base) ≡ some t)
        × ((v : ℕ)
            → (map? based (find_cpu_point t v) ≡ map? own (find_cpu_point base v))
              × (map? own (find_cpu_point t v) ≡ map? own (find_cpu_point topo v)))
  unfolding assign_baseline_in_topo find_cpu_point
  assign_baseline_in_topo_lem topo base h =
      let (r, e, k) = assign_clusters_lem topo.physicals base.physicals h in
      (record topo { physicals = r }, rw e refl, k)
