-- ===== src/Topology/Least.antt =====
-- What the minimum and maximum loops of topology.c compute, against a description without a loop.
use idlestat.Base.{
  ◌&&◌, >>=-eq-some, some-injective, ℕ, ◌≡◌, refl, Bool, true, false, some, List, [], ◌∷◌,
  if◌then◌else◌, ◌>>=◌, ltb, ◌≤◌, ◌⊎◌, inl, inr, All, arith, Bool-cases, Option-cases, ap, ◌∙◌, sym,
}
use idlestat.Base.Int.{ℤ, pos, ltb_ℤ, leb_ℤ, ◌≤ℤ◌}
use idlestat.Pstates.{CpufreqPstate, CpufreqPstates}
use idlestat.Cstates.{CpuidleCstates, maxcstate, elem_at}
use idlestat.Topology.{CpuCpu, CpuCore, CpuPhysical}
use idlestat.Topology.Lookup.{cluster_cpus}
use idlestat.Topology.Groups.{
  cpu_cstates, cpu_pstates, least_from, cluster_get_least_cstate, core_get_least_cstate,
  counted_freq, highest_from, cluster_get_highest_freq, core_get_highest_freq,
}

-- An element of the list satisfies the predicate.
abbrev pub Any : {A : Type 0} → (A → Type 0) → List A → Type 0
Any P [] = ⊥
Any P (x ∷ xs) = P x ⊎ Any P xs

module _ {D : Type 0} where
  -- `m` is no more than the state of any CPU and than the bound, and is one of them.
  abbrev IsAtLeast : List (CpuidleCstates D) → ℤ → CpuCpu → Type 0
  IsAtLeast states m c =
      (s : CpuidleCstates D) × (cpu_cstates states c ≡ some s) × (m ≤ℤ s.current_cstate)

  abbrev IsStateOf : List (CpuidleCstates D) → ℤ → CpuCpu → Type 0
  IsStateOf states m c =
      (s : CpuidleCstates D) × (cpu_cstates states c ≡ some s) × (s.current_cstate ≡ m)

  pub record IsLeast (states : List (CpuidleCstates D)) (bound m : ℤ) (cs : List CpuCpu)
      : Type 0 where
    pub below : m ≤ℤ bound
    pub lower : All (IsAtLeast states m) cs
    pub attained : (m ≡ bound) ⊎ Any (IsStateOf states m) cs

  least_from-IsLeast :
      (states : List (CpuidleCstates D)) (bound m : ℤ) (cs : List CpuCpu)
      → least_from states bound cs ≡ some m
      → IsLeast states bound m cs
  unfolding least_from
  least_from-IsLeast states bound m [] e = record {
    below = ground arith;
    lower = tt;
    attained = inl (ground arith);
  }
  least_from-IsLeast states bound m (c ∷ cs) e = elim (Option-cases (cpu_cstates states c)) [
    | inl n ↦ absurd (ground arith)
    | inr (s, q) ↦
        let next = if ltb_ℤ s.current_cstate bound then s.current_cstate else bound in
        let rest : IsLeast states next m cs = least_from-IsLeast states next m cs (
          ap
            (λ o. o >>= λ s.
              least_from states (if ltb_ℤ s.current_cstate bound then s.current_cstate else bound)
                cs)
            (sym q)
          ∙ e) in
        let low : m ≤ℤ next = rest.below in
        record {
          below = ground arith;
          lower = ((s, q, ground arith), rest.lower);
          attained = elim (rest.attained) [
            | inl k ↦ attained_by bound m s.current_cstate (s, q, refl) k
            | inr k ↦ inr (inr k)
          ];
        }
  ]
    where
      attained_by :
          (bound m cur : ℤ)
          → IsStateOf states cur c
          → m ≡ (if ltb_ℤ cur bound then cur else bound)
          → (m ≡ bound) ⊎ (IsStateOf states m c ⊎ Any (IsStateOf states m) cs)
      attained_by bound m cur h k = elim (Bool-cases (ltb_ℤ cur bound)) [
        | inl e ↦ inr (inl (of_eq (k ∙ ap (λ b. if b then cur else bound) e) h))
        | inr e ↦ inl (k ∙ ap (λ b. if b then cur else bound) e)
      ]
        where
          of_eq : m ≡ cur → IsStateOf states cur c → IsStateOf states m c
          of_eq q (s, at, r) = (s, at, r ∙ sym q)

  pub core_get_least_cstate_lem :
      (states : List (CpuidleCstates D)) (core : CpuCore D) (m : ℤ)
      → core_get_least_cstate states core ≡ some m
      → IsLeast states (pos maxcstate) m core.cpus
  unfolding core_get_least_cstate
  core_get_least_cstate_lem states core m e =
      least_from-IsLeast states (pos maxcstate) m core.cpus e

  -- Where `cluster_get_least_cstate` has no fault, its result is 16 or the current state of a CPU of
  -- the cluster, and it is above neither 16 nor the current state of any CPU of the cluster.
  pub cluster_get_least_cstate_lem :
      (states : List (CpuidleCstates D)) (clust : CpuPhysical D) (m : ℤ)
      → cluster_get_least_cstate states clust ≡ some m
      → (cs : List CpuCpu) × (cluster_cpus clust ≡ some cs) × IsLeast states (pos maxcstate) m cs
  unfolding cluster_get_least_cstate
  cluster_get_least_cstate_lem states clust m e = elim (Option-cases (cluster_cpus clust)) [
    | inl n ↦ absurd (ground arith)
    | inr (cs, q) ↦ (
      cs,
      q,
      least_from-IsLeast states (pos maxcstate) m cs
          (ap (λ o. o >>= λ cs. least_from states (pos maxcstate) cs) (sym q) ∙ e),
    )
  ]

  -- The CPU has a current frequency, and is not idle where idle ones are left out.
  abbrev pub IsCounted : Bool → CpufreqPstates D → Type 0
  IsCounted skip_idle s = (pos 0 ≤ℤ s.current) × (skip_idle ≡ true → s.idle ≤ℤ pos 0)

  -- `m` is no less than the current frequency of the CPU, if it is counted.
  abbrev pub IsAtMost : Bool → List (CpufreqPstates D) → ℕ → CpuCpu → Type 0
  IsAtMost skip_idle states m c =
      (s : CpufreqPstates D) × (cpu_pstates states c ≡ some s)
      × (IsCounted skip_idle s
          → (p : CpufreqPstate D) × (elem_at s.pstate s.current ≡ some p) × (p.freq ≤ m))

  -- The CPU is counted, and `m` is its current frequency.
  abbrev pub IsFreqOf : Bool → List (CpufreqPstates D) → ℕ → CpuCpu → Type 0
  IsFreqOf skip_idle states m c =
      (s : CpufreqPstates D) × (cpu_pstates states c ≡ some s)
      × IsCounted skip_idle s
      × ((p : CpufreqPstate D) × (elem_at s.pstate s.current ≡ some p) × (p.freq ≡ m))

  pub record IsHighest (skip_idle : Bool) (states : List (CpufreqPstates D)) (bound m : ℕ)
      (cs : List CpuCpu) : Type 0 where
    pub above : bound ≤ m
    pub upper : All (IsAtMost skip_idle states m) cs
    pub attained : (m ≡ bound) ⊎ Any (IsFreqOf skip_idle states m) cs

  -- What a CPU counts with: its current frequency, or 0 where it is not counted.
  counted_freq-cases :
      (skip_idle : Bool) (s : CpufreqPstates D) (f : ℕ)
      → counted_freq skip_idle s ≡ some f
      → (IsCounted skip_idle s
          × ((p : CpufreqPstate D) × (elem_at s.pstate s.current ≡ some p) × (p.freq ≡ f)))
        ⊎ ((IsCounted skip_idle s → ⊥) × (f ≡ 0))
  unfolding counted_freq
  counted_freq-cases skip_idle s f e = elim (Bool-cases (leb_ℤ (pos 0) s.current)) [
    | inr k ↦ inr ((λ h. absurd (ground (arith, k, h.0))), ground (arith, k, e))
    | inl k ↦ elim (Bool-cases (skip_idle && ltb_ℤ (pos 0) s.idle)) [
      | inl l ↦ inr (
        (λ h. absurd (let i : skip_idle ≡ true = ground (arith, l) in ground (arith, l, h.1 i))),
        ground (arith, k, l, e),
      )
      | inr l ↦
          let h : IsCounted skip_idle s = (ground (arith, k), λ i. ground (arith, l, i)) in
          let (p, at, is) =
            >>=-eq-some (elem_at s.pstate s.current) (λ p. some p.freq) (ground (arith, k, l, e)) in
          inl (h, (p, at, some-injective _ _ is))
    ]
  ]

  highest_from-IsHighest :
      (skip_idle : Bool) (states : List (CpufreqPstates D)) (bound m : ℕ) (cs : List CpuCpu)
      → highest_from skip_idle states bound cs ≡ some m
      → IsHighest skip_idle states bound m cs
  unfolding highest_from
  highest_from-IsHighest k states bound m [] e = record {
    above = ground arith;
    upper = tt;
    attained = inl (ground arith);
  }
  highest_from-IsHighest k states bound m (c ∷ cs) e = elim (Option-cases (cpu_pstates states c)) [
    | inl n ↦ absurd (ground arith)
    | inr (s, q) ↦ elim (Option-cases (counted_freq k s)) [
      | inl n ↦ absurd (ground arith)
      | inr (f, r) ↦
          let next = if ltb bound f then f else bound in
          let rest : IsHighest k states next m cs =
            highest_from-IsHighest k states next m cs (step s f q r) in
          let high : next ≤ m = rest.above in
          record {
            above = ground arith;
            upper = ((s, q, counted_upper s f r (ground arith)), rest.upper);
            attained = elim (rest.attained) [ inl j ↦ attained_by s f q r j | inr j ↦ inr (inr j) ];
          }
    ]
  ]
    where
      step :
          (s : CpufreqPstates D) (f : ℕ)
          → cpu_pstates states c ≡ some s
          → counted_freq k s ≡ some f
          → highest_from k states (if ltb bound f then f else bound) cs ≡ some m
      step s f q r =
          ap (λ o. o >>= λ f. highest_from k states (if ltb bound f then f else bound) cs) (sym r)
          ∙ ap
              (λ o. o >>= λ s. counted_freq k s >>= λ f.
                highest_from k states (if ltb bound f then f else bound) cs)
              (sym q)
          ∙ e

      counted_upper :
          (s : CpufreqPstates D) (f : ℕ)
          → counted_freq k s ≡ some f
          → f ≤ m
          → IsCounted k s
          → (p : CpufreqPstate D) × (elem_at s.pstate s.current ≡ some p) × (p.freq ≤ m)
      counted_upper s f r l h = elim (counted_freq-cases k s f r) [
        | inl (_, (p, at, is)) ↦ (p, at, omega (arith, is, l))
        | inr (k, _) ↦ absurd (k h)
      ]

      attained_by :
          (s : CpufreqPstates D) (f : ℕ)
          → cpu_pstates states c ≡ some s
          → counted_freq k s ≡ some f
          → m ≡ (if ltb bound f then f else bound)
          → (m ≡ bound) ⊎ (IsFreqOf k states m c ⊎ Any (IsFreqOf k states m) cs)
      attained_by s f q r j = elim (Bool-cases (ltb bound f)) [
        | inl e ↦ elim (counted_freq-cases k s f r) [
          | inl (h, (p, at, is)) ↦
              inr (inl (s, q, h, (p, at, is ∙ sym (j ∙ ap (λ b. if b then f else bound) e))))
          | inr (_, z) ↦ absurd (ground (arith, e, z))
        ]
        | inr e ↦ inl (j ∙ ap (λ b. if b then f else bound) e)
      ]

  -- Where `cluster_get_highest_freq` has no fault, its result is 0 or the current frequency of a CPU of
  -- the cluster that has one and is not idle, and no CPU of the cluster that has one and is not idle
  -- runs at a greater frequency.
  pub cluster_get_highest_freq_lem :
      (states : List (CpufreqPstates D)) (clust : CpuPhysical D) (m : ℕ)
      → cluster_get_highest_freq states clust ≡ some m
      → (cs : List CpuCpu) × (cluster_cpus clust ≡ some cs) × IsHighest true states 0 m cs
  unfolding cluster_get_highest_freq
  cluster_get_highest_freq_lem states clust m e = elim (Option-cases (cluster_cpus clust)) [
    | inl n ↦ absurd (ground arith)
    | inr (cs, q) ↦ (
      cs,
      q,
      highest_from-IsHighest true states 0 m cs
          (ap (λ o. o >>= λ cs. highest_from true states 0 cs) (sym q) ∙ e),
    )
  ]

  pub core_get_highest_freq_lem :
      (states : List (CpufreqPstates D)) (core : CpuCore D) (m : ℕ)
      → core_get_highest_freq states core ≡ some m
      → IsHighest false states 0 m core.cpus
  unfolding core_get_highest_freq
  core_get_highest_freq_lem states core m e = highest_from-IsHighest false states 0 m core.cpus e
