-- ===== src/Topology/Read/Same.antt =====
-- `read_cpu_topo_info` after `outfile_topo_info` (topology.c): the clusters, cores and CPUs.
use idlestat.Base.{
  ℕ, suc, ◌≡◌, refl, Bool, false, none, some, List, [], ◌∷◌, ◌++◌, ◌&&◌, ◌||◌, ◌==◌, ◌<◌, arith,
  All, sym,
}
use idlestat.Base.Double.{Double}
use idlestat.Base.Ptr.{ptr}
use idlestat.Base.Scan.{Strtod}
use idlestat.Topology.{CpuCpu, CpuCore, CpuPhysical, CpuTopology}
use idlestat.Topology.Ids.{check_exist_from_head, find_id, Ascends}
use idlestat.Topology.Build.{
  add_cpu, alloc_cpu_topo_info, topo_has_cpu, has_in_core, has_in_physical, physical_has_cpu,
  core_has_cpu, cpu_is_online, online_at, core_number, physical_number,
}
use idlestat.Topology.Members.{topo_has_cpu-add}
use idlestat.Topology.Order.{
  IsTopology, IsCluster, add_cpu-IsTopology, cpu_is_online-add, alloc_cpu_topo_info-IsTopology,
}
use idlestat.Topology.Read.{start_input, read_topo, outfile_topo_info}
use idlestat.Topology.Read.Written.{
  IsIntCluster, EndsTopology, Entry, cpu_entries, core_entries, cluster_entries, add_entries,
  read_topo-written,
}

abbrev in_entries : List Entry → ℕ → ℕ → ℕ → Bool
in_entries [] p c u = false
in_entries ((p', c', u') ∷ es) p c u = (p == p' && c == c' && u == u') || in_entries es p c u

abbrev pub on_entries : List Entry → ℕ → Bool
on_entries [] u = false
on_entries ((p', c', u') ∷ es) u = u == u' || on_entries es u

in_entries-append :
    (xs ys : List Entry) (p c u : ℕ)
    → in_entries (xs ++ ys) p c u ≡ (in_entries xs p c u || in_entries ys p c u)
in_entries-append [] ys p c u = refl
in_entries-append ((p', c', u') ∷ xs) ys p c u = ground (arith, in_entries-append xs ys p c u)

in_entries-cpu_entries :
    (a b : ℕ) (us : List CpuCpu) (p c u : ℕ)
    → in_entries (cpu_entries a b us) p c u
      ≡ (p == a && c == b && check_exist_from_head (λ (x : CpuCpu). x.cpu_id) us u)
unfolding check_exist_from_head
in_entries-cpu_entries a b [] p c u = ground arith
in_entries-cpu_entries a b (x ∷ xs) p c u = ground (arith, in_entries-cpu_entries a b xs p c u)

find_id-below :
    {A : Type 0} (id : A → ℕ) (i lo : ℕ) (xs : List A)
    → Ascends id lo xs
    → i < lo
    → find_id id i xs ≡ none
unfolding find_id
find_id-below id i lo [] h l = refl
find_id-below id i lo (x ∷ xs) h l = ground (arith, find_id-below id i (suc (id x)) xs)

nothing-has_cpu :
    (D : Type 0) ⦃d : Double D⦄ (p c u : ℕ)
    → topo_has_cpu (alloc_cpu_topo_info {D = D}) p c u ≡ false
unfolding topo_has_cpu alloc_cpu_topo_info find_id
nothing-has_cpu D p c u = refl

nothing-online :
    (D : Type 0) ⦃d : Double D⦄ (v : ℕ) → cpu_is_online (alloc_cpu_topo_info {D = D}) v ≡ false
unfolding cpu_is_online alloc_cpu_topo_info online_at
nothing-online D v = refl

module _ {D : Type 0} ⦃d : Double D⦄ where
  in_entries-core_entries :
      (a lo : ℕ) (cs : List (CpuCore D)) (p c u : ℕ)
      → Ascends core_number lo cs
      → in_entries (core_entries a cs) p c u ≡ (p == a && has_in_core (find_id core_number c cs) u)
  unfolding find_id core_has_cpu
  in_entries-core_entries a lo [] p c u h = ground arith
  in_entries-core_entries a lo (x ∷ xs) p c u h = ground (
    arith,
    in_entries-append (cpu_entries a x.core_id x.cpus) (core_entries a xs) p c u,
    in_entries-cpu_entries a x.core_id x.cpus p c u,
    in_entries-core_entries a (suc x.core_id) xs p c u,
    find_id-below core_number c (suc x.core_id) xs,
  )

  in_entries-cluster_entries :
      (lo : ℕ) (ps : List (CpuPhysical D)) (p c u : ℕ)
      → Ascends physical_number lo ps
      → All IsCluster ps
      → in_entries (cluster_entries ps) p c u ≡ has_in_physical (find_id physical_number p ps) c u
  unfolding find_id physical_has_cpu
  in_entries-cluster_entries lo [] p c u h k = refl
  in_entries-cluster_entries lo (x ∷ xs) p c u h k = ground (
    arith,
    in_entries-append (core_entries x.physical_id x.cores) (cluster_entries xs) p c u,
    in_entries-core_entries x.physical_id 0 x.cores p c u k.0.ascends,
    in_entries-cluster_entries (suc x.physical_id) xs p c u,
    find_id-below physical_number p (suc x.physical_id) xs,
  )

  topo_has_cpu-add_entries :
      (topo : CpuTopology D) (es : List Entry) (p c u : ℕ)
      → topo_has_cpu (add_entries topo es) p c u ≡ (in_entries es p c u || topo_has_cpu topo p c u)
  topo_has_cpu-add_entries topo [] p c u = refl
  topo_has_cpu-add_entries topo ((p', c', u') ∷ es) p c u = ground (
    arith,
    topo_has_cpu-add_entries (add_cpu topo p' c' u') es p c u,
    topo_has_cpu-add topo p' c' u' p c u,
  )

  add_entries-IsTopology :
      (topo : CpuTopology D) (es : List Entry) → IsTopology topo → IsTopology (add_entries topo es)
  add_entries-IsTopology topo [] h = h
  add_entries-IsTopology topo ((p, c, u) ∷ es) h =
      add_entries-IsTopology (add_cpu topo p c u) es (add_cpu-IsTopology topo p c u h)

  topo_has_cpu-entries :
      (topo : CpuTopology D) (p c u : ℕ)
      → IsTopology topo
      → topo_has_cpu topo p c u ≡ in_entries (cluster_entries topo.physicals) p c u
  unfolding topo_has_cpu
  topo_has_cpu-entries topo p c u h =
      sym (in_entries-cluster_entries 0 topo.physicals p c u h.ascends h.each)

  cpu_is_online-add_entries :
      (topo : CpuTopology D) (es : List Entry) (v : ℕ)
      → IsTopology topo
      → cpu_is_online (add_entries topo es) v ≡ (on_entries es v || cpu_is_online topo v)
  cpu_is_online-add_entries topo [] v h = refl
  cpu_is_online-add_entries topo ((p, c, u) ∷ es) v h = ground (
    arith,
    cpu_is_online-add_entries (add_cpu topo p c u) es v (add_cpu-IsTopology topo p c u h),
    cpu_is_online-add topo p c u v h,
  )

  -- The CPUs that are online are the ones in the clusters.
  abbrev pub IsListed : CpuTopology D → Type 0
  IsListed topo = (v : ℕ) → cpu_is_online topo v ≡ on_entries (cluster_entries topo.physicals) v

  -- The topology that was read, and the one that was written.
  pub record IsSameTopology (topo e : CpuTopology D) : Type 0 where
    pub formed : IsTopology e
    pub has_cpu : (p c u : ℕ) → topo_has_cpu e p c u ≡ topo_has_cpu topo p c u
    pub online : IsListed topo → (v : ℕ) → cpu_is_online e v ≡ cpu_is_online topo v

  entries-IsSameTopology :
      (topo : CpuTopology D)
      → IsTopology topo
      → IsSameTopology topo (add_entries alloc_cpu_topo_info (cluster_entries topo.physicals))
  entries-IsSameTopology topo h =
      let es = cluster_entries topo.physicals in
      record {
        formed = add_entries-IsTopology alloc_cpu_topo_info es (alloc_cpu_topo_info-IsTopology D);
        has_cpu = λ p c u. ground (
          arith,
          topo_has_cpu-add_entries alloc_cpu_topo_info es p c u,
          nothing-has_cpu D p c u,
          topo_has_cpu-entries topo p c u h,
        );
        online = λ k v. ground (
          arith,
          cpu_is_online-add_entries alloc_cpu_topo_info es v (alloc_cpu_topo_info-IsTopology D),
          nothing-online D v,
          k v,
        );
      }

  -- The lines that are written for a well-formed topology are read, up to the line that follows, as a
  -- well-formed topology that has a CPU in a core of a cluster exactly where the written one has it,
  -- and the same CPUs online if those of the written one are the CPUs of its clusters. This holds where the clusters have letters, the numbers of cores and CPUs are in the range of
  -- `int`, and the line that follows ends a topology.
  pub read-outfile :
      ⦃t : Strtod D⦄ (topo : CpuTopology D) (next : List ℕ) (rest : List (List ℕ))
      → IsTopology topo
      → All IsIntCluster topo.physicals
      → EndsTopology D next
      → (e : CpuTopology D) × (read_topo
            (start_input {D = D})
            (outfile_topo_info topo ++ next ∷ rest)
          ≡ some (ptr (e, next, rest)))
        × IsSameTopology topo e
  read-outfile topo next rest h k ends = (
    add_entries alloc_cpu_topo_info (cluster_entries topo.physicals),
    read_topo-written topo next rest k ends,
    entries-IsSameTopology topo h,
  )
