-- ===== src/Datas/Put.antt =====
-- The writes through `aff_core` and `aff_cluster` (idlestat.c), and the state that an event leaves.
use idlestat.Base.{
  ℕ, zero, suc, ◌≡◌, refl, some, List, [], ◌∷◌, get_elem?, set, ◌>>=◌, inl, inr, arith,
  Option-cases, ap, ◌∙◌, sym, get_elem?-set_self, lt-of_get_elem?,
}
use idlestat.Base.Int.{ℤ, minus_one, eq_ℤ-eq}
use idlestat.Base.Double.{Double}
use idlestat.Cstates.{
  CpuidleData, CpuidleCstate, CpuidleCstates, elem_at, cstate_begin, finish_stay, end_stay,
  cstate_end, record_cstate_event,
}
use idlestat.Topology.{CpuCpu, CpuCore, CpuPhysical}
use idlestat.Topology.Ids.{check_exist_from_head}
use idlestat.Topology.Shape.{SameShape, set-SameShape, core-SameCluster}
use idlestat.Topology.Lookup.{core_at, find_index}
use idlestat.Datas.{CpuidleDatas, put_core, put_core_in, put_cluster}

module _ {D : Type 0} ⦃d : Double D⦄ where
  pub end_stay-current :
      (time : D) (s : CpuidleCstates D) (c : CpuidleCstate D) (x : CpuidleData D)
      (t : CpuidleCstates D)
      → end_stay time s c x ≡ some t
      → t.current_cstate ≡ minus_one
  unfolding end_stay finish_stay
  end_stay-current time s c x t e = ground arith

  pub cstate_end-current :
      (time : D) (s t : CpuidleCstates D)
      → cstate_end time s ≡ some t
      → t.current_cstate ≡ minus_one
  unfolding cstate_end
  cstate_end-current time s t e = elim (Option-cases (elem_at s.cstate s.current_cstate)) [
    | inl n ↦ absurd (ground arith)
    | inr (c, q) ↦ elim (Option-cases (get_elem? c.stays c.nrdata)) [
      | inl n ↦ absurd (ground arith)
      | inr (x, r) ↦ end_stay-current time s c x t (ground arith)
    ]
  ]

  pub cstate_begin-current :
      (time : D) (state : ℤ) (s t : CpuidleCstates D)
      → cstate_begin time state s ≡ some t
      → t.current_cstate ≡ state
  unfolding cstate_begin
  cstate_begin-current time state s t e = ground arith

  -- An event takes the statistics to its state.
  pub record_cstate_event-current :
      (s t : CpuidleCstates D) (time : D) (state : ℤ)
      → record_cstate_event s time state ≡ some t
      → t.current_cstate ≡ state
  unfolding record_cstate_event
  record_cstate_event-current s t time state e = elim (Option-cases (cstate_end time s)) [
    | inl n ↦ ground (
      arith,
      eq_ℤ-eq state s.current_cstate,
      eq_ℤ-eq state minus_one,
      eq_ℤ-eq s.current_cstate minus_one,
      cstate_begin-current time state s t,
    )
    | inr (u, q) ↦ ground (
      arith,
      eq_ℤ-eq state s.current_cstate,
      eq_ℤ-eq state minus_one,
      eq_ℤ-eq s.current_cstate minus_one,
      cstate_end-current time s u q,
      cstate_begin-current time state s t,
      cstate_begin-current time state u t,
    )
  ]

module _ {D : Type 0} where
  -- What is written at the place of a core that is there.
  pub record IsCorePut (datas e : CpuidleDatas D) (at : ℕ × ℕ) (core : CpuCore D) : Type 0 where
    pub there : core_at e.topo at ≡ some core
    pub shape : SameShape datas.topo e.topo
    pub cstates : e.cstates ≡ datas.cstates
    pub pstates : e.pstates ≡ datas.pstates

  pub put_core_lem :
      (datas : CpuidleDatas D) (at : ℕ × ℕ) (old core : CpuCore D)
      → core_at datas.topo at ≡ some old
      → core.cpus ≡ old.cpus
      → IsCorePut datas (put_core datas at core) at core
  unfolding put_core put_core_in put_cluster
  put_core_lem datas at old core e h = elim (Option-cases (get_elem? datas.topo.physicals at.0)) [
    | inl n ↦ absurd (ground arith)
    | inr (p, q) ↦
        let at_p : get_elem? p.cores at.1 ≡ some old =
          ap (λ o. o >>= λ phy. get_elem? phy.cores at.1) (sym q) ∙ e in
        rw q (record {
          there =
              ap (λ o. o >>= λ phy. get_elem? phy.cores at.1)
                (get_elem?-set_self datas.topo.physicals at.0
                  (record p { cores = set p.cores at.1 core })
                  (lt-of_get_elem? datas.topo.physicals at.0 q))
              ∙ get_elem?-set_self p.cores at.1 core (lt-of_get_elem? p.cores at.1 at_p);
          shape =
              set-SameShape datas.topo at.0 p (record p { cores = set p.cores at.1 core }) q
                (core-SameCluster p at.1 old core at_p h);
          cstates = refl;
          pstates = refl;
        })
  ]

  pub record IsClusterPut (datas e : CpuidleDatas D) (k : ℕ) (phy : CpuPhysical D) : Type 0 where
    pub there : get_elem? e.topo.physicals k ≡ some phy
    pub cores : (at : ℕ × ℕ) → core_at e.topo at ≡ core_at datas.topo at
    pub shape : SameShape datas.topo e.topo
    pub cstates : e.cstates ≡ datas.cstates
    pub pstates : e.pstates ≡ datas.pstates

  pub put_cluster_lem :
      (datas : CpuidleDatas D) (k : ℕ) (old phy : CpuPhysical D)
      → get_elem? datas.topo.physicals k ≡ some old
      → phy.cores ≡ old.cores
      → phy.cpu_enum ≡ old.cpu_enum
      → IsClusterPut datas (put_cluster datas k phy) k phy
  unfolding put_cluster
  put_cluster_lem datas k old phy e h g = record {
    there =
        get_elem?-set_self datas.topo.physicals k phy (lt-of_get_elem? datas.topo.physicals k e);
    cores = λ at. get_core-set datas.topo.physicals k at e h;
    shape = set-SameShape datas.topo k old phy e (record {
      enum = g;
      cores = λ cpu.
          ap
            (λ l.
              find_index
                (λ (core : CpuCore D).
                  check_exist_from_head (λ (c : CpuCpu). c.cpu_id) core.cpus cpu)
                l)
            h;
    });
    cstates = refl;
    pstates = refl;
  }
    where
      get_core-set :
          (ps : List (CpuPhysical D)) (k : ℕ) (at : ℕ × ℕ)
          → get_elem? ps k ≡ some old
          → phy.cores ≡ old.cores
          → (get_elem? (set ps k phy) at.0 >>= λ p. get_elem? p.cores at.1)
            ≡ (get_elem? ps at.0 >>= λ p. get_elem? p.cores at.1)
      get_core-set [] k at e h = refl
      get_core-set (x ∷ xs) zero (zero, j) e h = ground arith
      get_core-set (x ∷ xs) zero (suc i, j) e h = refl
      get_core-set (x ∷ xs) (suc k) (zero, j) e h = refl
      get_core-set (x ∷ xs) (suc k) (suc i, j) e h = get_core-set xs k (i, j) e h
