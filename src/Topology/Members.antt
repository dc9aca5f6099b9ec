-- ===== src/Topology/Members.antt =====
-- Which CPUs a topology holds after `add_topo_info` (topology.c).
use idlestat.Base.{
  ℕ, ◌+◌, ◌≡◌, refl, true, false, none, some, if◌then◌else◌, ltb, ◌==◌, ◌&&◌, ◌||◌, arith, inl, inr,
  Bool-cases, Option-cases, ap, ◌∙◌,
}
use idlestat.Base.Double.{Double}
use idlestat.Topology.{CpuCpu, CpuCore, CpuPhysical, CpuTopology, new_cpu, new_core, new_physical}
use idlestat.Topology.Ids.{
  check_exist_from_head, insert_before_greater, ensure, update_found, find_id,
  find_id-update_ensure, check_exist-find_id, find_id-insert_before_greater,
}
use idlestat.Topology.Build.{
  core_number, physical_number, core_has_cpu, add_cpu_to_core, has_in_core, has_in_physical,
  physical_has_cpu, ensure_core, add_cpu_to_physical, topo_has_cpu, add_cpu,
}

module _ (D : Type 0) ⦃d : Double D⦄ where
  pub core_has_cpu-new : (c u : ℕ) → core_has_cpu (new_core {D = D} c) u ≡ false
  unfolding core_has_cpu new_core check_exist_from_head
  core_has_cpu-new c u = refl

  pub physical_has_cpu-new : (p c u : ℕ) → physical_has_cpu (new_physical {D = D} p) c u ≡ false
  unfolding physical_has_cpu new_physical find_id
  physical_has_cpu-new p c u = refl

module _ {D : Type 0} ⦃d : Double D⦄ where
  pub core_has_cpu-add :
      (cpu u : ℕ) (core : CpuCore D)
      → core_has_cpu (add_cpu_to_core cpu core) u ≡ (u == cpu || core_has_cpu core u)
  unfolding add_cpu_to_core
  core_has_cpu-add cpu u core = elim (Bool-cases (core_has_cpu core cpu)) [
    | inl e ↦ rw e (ground (arith, ap (core_has_cpu core) {x = u} {y = cpu}))
    | inr e ↦ rw e (added e)
  ]
    where
      id : CpuCpu → ℕ
      id c = c.cpu_id

      added :
          core_has_cpu core cpu ≡ false
          → core_has_cpu
              (record core {
                cpus = insert_before_greater (λ c. c.cpu_id) (new_cpu cpu) core.cpus;
                cpu_num = core.cpu_num + 1;
                is_ht = if ltb 1 (core.cpu_num + 1) then true else core.is_ht;
              })
              u
            ≡ (u == cpu || core_has_cpu core u)
      added e =
          unfold core_has_cpu new_cpu in
          ground (
            arith,
            check_exist-find_id (λ (c : CpuCpu). c.cpu_id) u core.cpus,
            check_exist-find_id (λ (c : CpuCpu). c.cpu_id) u
                (insert_before_greater (λ c. c.cpu_id) (new_cpu cpu) core.cpus),
            find_id-insert_before_greater (λ (c : CpuCpu). c.cpu_id) u (new_cpu cpu) core.cpus e,
          )

  pub core_number-add :
      (cpu : ℕ) (core : CpuCore D) → core_number (add_cpu_to_core cpu core) ≡ core_number core
  unfolding add_cpu_to_core
  core_number-add cpu core = ground arith

  pub cores-ensure_core :
      (c : ℕ) (phy : CpuPhysical D)
      → (ensure_core c phy).cores ≡ ensure core_number (new_core c) phy.cores
  unfolding ensure_core ensure new_core
  cores-ensure_core c phy = ground arith

  find_id-core-add :
      (c u c' : ℕ) (phy : CpuPhysical D)
      → find_id core_number c' (add_cpu_to_physical c u phy).cores ≡ (
          if c' == c
          then some (
              add_cpu_to_core u
                (elim (find_id core_number c phy.cores) [ none ↦ new_core c | some x ↦ x ]))
          else find_id core_number c' phy.cores)
  unfolding add_cpu_to_physical
  find_id-core-add c u c' phy =
      ap (λ l. find_id core_number c' (update_found core_number c (add_cpu_to_core u) l))
        (cores-ensure_core c phy)
      ∙ find_id-update_ensure core_number c' c (add_cpu_to_core u) (new_core c) phy.cores
          (unfold new_core in refl) (core_number-add u)

  physical_has_cpu-add :
      (c u c' u' : ℕ) (phy : CpuPhysical D)
      → physical_has_cpu (add_cpu_to_physical c u phy) c' u'
        ≡ ((c' == c && u' == u) || physical_has_cpu phy c' u')
  unfolding physical_has_cpu
  physical_has_cpu-add c u c' u' phy =
      ap (λ o. has_in_core o u') (find_id-core-add c u c' phy) ∙ elim (Bool-cases (c' == c)) [
        | inl e ↦
            let e' : c' ≡ c = ground arith in
            rw e' (elim (Option-cases (find_id core_number c phy.cores)) [
              | inl n ↦ ground (arith, core_has_cpu-add u u' (new_core c), core_has_cpu-new D c u')
              | inr (x, m) ↦ ground (arith, core_has_cpu-add u u' x)
            ])
        | inr e ↦ ground arith
      ]

  pub physical_number-add :
      (c u : ℕ) (p : CpuPhysical D)
      → physical_number (add_cpu_to_physical c u p) ≡ physical_number p
  unfolding add_cpu_to_physical ensure_core
  physical_number-add c u p = ground arith

  pub topo_has_cpu-add :
      (topo : CpuTopology D) (p c u p' c' u' : ℕ)
      → topo_has_cpu (add_cpu topo p c u) p' c' u'
        ≡ ((p' == p && c' == c && u' == u) || topo_has_cpu topo p' c' u')
  unfolding topo_has_cpu add_cpu
  topo_has_cpu-add topo p c u p' c' u' =
      ap (λ o. has_in_physical o c' u')
        (find_id-update_ensure physical_number p' p (add_cpu_to_physical c u) (new_physical p)
          topo.physicals (unfold new_physical in refl) (physical_number-add c u))
      ∙ elim (Bool-cases (p' == p)) [
        | inl e ↦
            let e' : p' ≡ p = ground arith in
            rw e' (elim (Option-cases (find_id physical_number p topo.physicals)) [
              | inl n ↦ ground (
                arith,
                physical_has_cpu-add c u c' u' (new_physical p),
                physical_has_cpu-new D p c' u',
              )
              | inr (x, m) ↦ ground (arith, physical_has_cpu-add c u c' u' x)
            ])
        | inr e ↦ ground arith
      ]
