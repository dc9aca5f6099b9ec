-- ===== src/Topology/Order.antt =====
-- What `add_topo_info` (topology.c) keeps of a topology: the order of the lists, the counts, and the
-- online CPUs.
use idlestat.Base.{
  ℕ, ◌≡◌, refl, true, false, some, length, ltb, ◌==◌, ◌&&◌, ◌||◌, arith, All, inl, inr, Bool-cases,
  ◌∙◌, sym,
}
use idlestat.Base.Int.{pos}
use idlestat.Base.Double.{Double}
use idlestat.Topology.{CpuCpu, CpuCore, CpuPhysical, CpuTopology, new_cpu, new_core, new_physical}
use idlestat.Topology.Ids.{
  Ascends, check_exist_from_head, find_id, ensure-Ascends, ensure-All,
  insert_before_greater-Ascends, update_found-Ascends, length-insert_before_greater,
  update_found-All, length-update_found,
}
use idlestat.Topology.Build.{
  core_number, physical_number, core_has_cpu, add_cpu_to_core, ensure_core, add_cpu_to_physical,
  topo_has_cpu, add_cpu, add_topo_info, online_at, cpu_is_online, alloc_cpu_topo_info,
}
use idlestat.Topology.Members.{
  core_number-add, cores-ensure_core, physical_number-add, topo_has_cpu-add,
}
use idlestat.Topology.Online.{online_at-set_online}

module _ {D : Type 0} ⦃d : Double D⦄ where
  -- The lists of a core, of a cluster and of the topology are in order and counted.
  pub record IsCore (core : CpuCore D) : Type 0 where
    pub ascends : Ascends (λ (c : CpuCpu). c.cpu_id) 0 core.cpus
    pub counted : core.cpu_num ≡ length core.cpus
    pub threads : core.is_ht ≡ ltb 1 core.cpu_num

  pub record IsCluster (p : CpuPhysical D) : Type 0 where
    pub ascends : Ascends core_number 0 p.cores
    pub counted : p.core_num ≡ length p.cores
    pub each : All IsCore p.cores

  pub record IsTopology (topo : CpuTopology D) : Type 0 where
    pub ascends : Ascends physical_number 0 topo.physicals
    pub each : All IsCluster topo.physicals
    pub online : (p c u : ℕ) → topo_has_cpu topo p c u ≡ true → cpu_is_online topo u ≡ true

  core_has_cpu-exist :
      (core : CpuCore D) (u : ℕ)
      → core_has_cpu core u ≡ false
      → check_exist_from_head (λ (c : CpuCpu). c.cpu_id) core.cpus (new_cpu u).cpu_id ≡ false
  unfolding core_has_cpu new_cpu
  core_has_cpu-exist core u e = e

  add_cpu_to_core-IsCore :
      (u : ℕ) (core : CpuCore D) → IsCore core → IsCore (add_cpu_to_core u core)
  unfolding add_cpu_to_core
  add_cpu_to_core-IsCore u core h = elim (Bool-cases (core_has_cpu core u)) [
    | inl e ↦ rw e h
    | inr e ↦ rw e (record {
      ascends =
          insert_before_greater-Ascends (λ (c : CpuCpu). c.cpu_id) (new_cpu u) 0 core.cpus
            (omega arith) (core_has_cpu-exist core u e) h.ascends;
      counted = omega (
        arith,
        h.counted,
        length-insert_before_greater (λ (c : CpuCpu). c.cpu_id) (new_cpu u) core.cpus,
      );
      threads = ground (arith, h.threads);
    })
  ]

  new_core-IsCore : (c : ℕ) → IsCore (new_core {D = D} c)
  unfolding new_core
  new_core-IsCore c = record { ascends = tt; counted = refl; threads = refl }

  ensure_core-counted :
      (c : ℕ) (p : CpuPhysical D)
      → p.core_num ≡ length p.cores
      → (ensure_core c p).core_num ≡ length (ensure_core c p).cores
  unfolding ensure_core
  ensure_core-counted c p h =
      ground (arith, length-insert_before_greater core_number (new_core c) p.cores)

  new_physical-IsCluster : (p : ℕ) → IsCluster (new_physical {D = D} p)
  unfolding new_physical
  new_physical-IsCluster p = record { ascends = tt; counted = refl; each = tt }

  add_cpu_to_physical-IsCluster :
      (c u : ℕ) (p : CpuPhysical D) → IsCluster p → IsCluster (add_cpu_to_physical c u p)
  unfolding add_cpu_to_physical
  add_cpu_to_physical-IsCluster c u p h = record {
    ascends = rw (cores-ensure_core c p) (
        update_found-Ascends core_number c (add_cpu_to_core u) 0 _ (core_number-add u)
          (ensure-Ascends core_number (new_core c) p.cores h.ascends));
    counted =
        ensure_core-counted c p h.counted
        ∙ sym (length-update_found core_number c (add_cpu_to_core u) _);
    each = rw (cores-ensure_core c p) (
        update_found-All core_number IsCore c (add_cpu_to_core u) _ (add_cpu_to_core-IsCore u)
          (ensure-All core_number IsCore (new_core c) p.cores (new_core-IsCore c) h.each));
  }

  -- A CPU is online after `add_topo_info` if it was online or is the one that is added.
  pub cpu_is_online-add :
      (topo : CpuTopology D) (p c u v : ℕ)
      → IsTopology topo
      → cpu_is_online (add_cpu topo p c u) v ≡ (v == u || cpu_is_online topo v)
  unfolding add_cpu cpu_is_online
  cpu_is_online-add topo p c u v h = elim (Bool-cases (topo_has_cpu topo p c u)) [
    | inl e ↦ rw e (known (h.online p c u e))
    | inr e ↦ rw e (online_at-set_online topo.online_cpus u v)
  ]
    where
      known :
          cpu_is_online topo u ≡ true
          → online_at topo.online_cpus v ≡ (v == u || online_at topo.online_cpus v)
      known k =
          unfold cpu_is_online in
          elim (Bool-cases (v == u)) [
            | inl e ↦ let e' : v ≡ u = ground arith in rw e' (ground arith)
            | inr e ↦ ground arith
          ]

  -- Adding a CPU keeps the topology in order and counted.
  pub add_cpu-IsTopology :
      (topo : CpuTopology D) (p c u : ℕ) → IsTopology topo → IsTopology (add_cpu topo p c u)
  add_cpu-IsTopology topo p c u h = record {
    ascends =
        unfold add_cpu in
        update_found-Ascends physical_number p (add_cpu_to_physical c u) 0 _
          (physical_number-add c u)
          (ensure-Ascends physical_number (new_physical p) topo.physicals h.ascends);
    each =
        unfold add_cpu in
        update_found-All physical_number IsCluster p (add_cpu_to_physical c u) _
          (add_cpu_to_physical-IsCluster c u)
          (ensure-All physical_number IsCluster (new_physical p) topo.physicals
            (new_physical-IsCluster p) h.each);
    online = λ p' c' u' k.
        cpu_is_online-add topo p c u u' h
        ∙ ground (arith, topo_has_cpu-add topo p c u p' c' u', h.online p' c' u');
  }

  -- `add_topo_info` with numbers that are not negative: it succeeds, the lists of the result are in
  -- order and counted, and its CPUs and its online CPUs are those of before and the one that is added.
  pub add_topo_info_lem :
      (topo : CpuTopology D) (p c u : ℕ)
      → IsTopology topo
      → (t : CpuTopology D) × (add_topo_info topo
            (record { physical_id = pos p; core_id = pos c; cpu_id = pos u })
          ≡ some t)
        × IsTopology t
        × ((p' c' u' : ℕ)
            → topo_has_cpu t p' c' u'
              ≡ ((p' == p && c' == c && u' == u) || topo_has_cpu topo p' c' u'))
        × ((v : ℕ) → cpu_is_online t v ≡ (v == u || cpu_is_online topo v))
  unfolding add_topo_info
  add_topo_info_lem topo p c u h = (
    add_cpu topo p c u,
    refl,
    add_cpu-IsTopology topo p c u h,
    topo_has_cpu-add topo p c u,
    λ v. cpu_is_online-add topo p c u v h,
  )

module _ (D : Type 0) ⦃d : Double D⦄ where
  pub alloc_cpu_topo_info-IsTopology : IsTopology (alloc_cpu_topo_info {D = D})
  unfolding alloc_cpu_topo_info topo_has_cpu find_id
  alloc_cpu_topo_info-IsTopology = record {
    ascends = tt;
    each = tt;
    online = λ p c u e. absurd (ground arith);
  }
