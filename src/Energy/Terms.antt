-- ===== src/Energy/Terms.antt =====
-- The energy of a trace as sums over lists of terms (energy_model.c: `calculate_energy_consumption`).
use idlestat.Base.{
  Option, none, ◌>>=◌, eq_bytes, head?, Option-cases, Bool-cases, inl, inr, ℕ, zero, suc, ◌+◌, ◌/◌,
  ◌≡◌, refl, some, List, [], ◌∷◌, ◌++◌, if◌then◌else◌, get_elem?, foldl, ◌==◌, ◌||◌, take, ap, ◌∙◌,
  sym, arith, >>=-eq-some, some-injective,
}
use idlestat.Base.Int.{pos, add_ℤ}
use idlestat.Base.Double.{Double}
use idlestat.Pstates.{CpufreqPstate}
use idlestat.Cstates.{CpuidleCstate, CpuidleCstates}
use idlestat.Energy.{
  PstateEnergyInfo, CstateEnergyInfo, ClusterEnergyInfo, find_cstate_energy_info, find_c, find_p,
  find_pstate_energy_info, rounds, add_idle, add_idles, add_cap, add_pstates,
}

-- The entries that the energy model has for a name or for a speed. The first of them is used.
abbrev pub named : Option (List ℕ) → List CstateEnergyInfo → List CstateEnergyInfo
named none xs = []
named (some name) [] = []
named (some name) (x ∷ xs) =
    if eq_bytes x.cstate_name name then x ∷ named (some name) xs else named (some name) xs

abbrev pub at_speed : ℕ → List PstateEnergyInfo → List PstateEnergyInfo
at_speed speed [] = []
at_speed speed (x ∷ xs) = if x.speed == speed then x ∷ at_speed speed xs else at_speed speed xs

abbrev pub entry_named : List ClusterEnergyInfo → ℕ → Option (List ℕ) → Option CstateEnergyInfo
entry_named table cluster name =
    get_elem? table cluster >>= λ (t : ClusterEnergyInfo). head? (named name t.c_energy)

abbrev pub entry_at : List ClusterEnergyInfo → ℕ → ℕ → Option PstateEnergyInfo
entry_at table cluster speed =
    get_elem? table cluster >>= λ (t : ClusterEnergyInfo). head? (at_speed speed t.p_energy)

find_c_lem :
    (name : Option (List ℕ)) (xs : List CstateEnergyInfo) (o : Option CstateEnergyInfo)
    → find_c name xs ≡ some o
    → head? (named name xs) ≡ o
unfolding find_c
find_c_lem none [] o e = ground arith
find_c_lem (some name) [] o e = ground arith
find_c_lem none (x ∷ xs) o e = absurd (ground arith)
find_c_lem (some name) (x ∷ xs) o e = elim (Bool-cases (eq_bytes x.cstate_name name)) [
  | inl k ↦ ground (arith, k, e)
  | inr k ↦ rw k (find_c_lem (some name) xs o (ground (arith, k, e)))
]

find_p_lem : (speed : ℕ) (xs : List PstateEnergyInfo) → head? (at_speed speed xs) ≡ find_p speed xs
unfolding find_p
find_p_lem speed [] = refl
find_p_lem speed (x ∷ xs) = let rest = find_p_lem speed xs in ground (arith, rest)

find_cstate_energy_info_lem :
    (table : List ClusterEnergyInfo) (cluster : ℕ) (name : Option (List ℕ))
    (o : Option CstateEnergyInfo)
    → find_cstate_energy_info table cluster name ≡ some o
    → entry_named table cluster name ≡ o
unfolding find_cstate_energy_info
find_cstate_energy_info_lem table cluster name o e =
    let (t, q, e1) = >>=-eq-some (get_elem? table cluster) _ e in
    rw q (find_c_lem name t.c_energy o e1)

find_pstate_energy_info_lem :
    (table : List ClusterEnergyInfo) (cluster speed : ℕ) (o : Option PstateEnergyInfo)
    → find_pstate_energy_info table cluster speed ≡ some o
    → entry_at table cluster speed ≡ o
unfolding find_pstate_energy_info
find_pstate_energy_info_lem table cluster speed o e =
    let (t, q, e1) = >>=-eq-some (get_elem? table cluster) _ e in
    rw q (find_p_lem speed t.p_energy ∙ some-injective _ _ e1)

module _ {D : Type 0} ⦃d : Double D⦄ where
  -- A sum from left to right.
  abbrev pub sum_from : D → List D → D
  sum_from acc l = foldl d.add acc l

  pub sum_from-append :
      (acc : D) (xs ys : List D) → sum_from acc (xs ++ ys) ≡ sum_from (sum_from acc xs) ys
  sum_from-append acc [] ys = refl
  sum_from-append acc (x ∷ xs) ys = sum_from-append (d.add acc x) xs ys

  -- The term of a C-state: none if it has no hits or the model has no entry for it, and else its
  -- duration times the power of the entry.
  abbrev pub idle_term :
      List ClusterEnergyInfo → ℕ → (CstateEnergyInfo → ℕ) → CpuidleCstate D → List D
  idle_term table cluster power c =
      if c.nrdata == 0 then [] else elim (entry_named table cluster c.name) [
        | some x ↦ d.mul c.duration (d.of_int (pos (power x))) ∷ []
        | none ↦ []
      ]

  abbrev pub idle_terms :
      List ClusterEnergyInfo → ℕ → (CstateEnergyInfo → ℕ) → List (CpuidleCstate D) → List D
  idle_terms table cluster power [] = []
  idle_terms table cluster power (c ∷ cs) =
      idle_term table cluster power c ++ idle_terms table cluster power cs

  -- The states up to the deepest that was entered.
  abbrev pub cstates_terms :
      List ClusterEnergyInfo → ℕ → (CstateEnergyInfo → ℕ) → CpuidleCstates D → List D
  cstates_terms table cluster power s =
      idle_terms table cluster power (take (rounds (add_ℤ s.cstate_max (pos 1))) s.cstate)

  -- The term of a P-state, in the same way; its frequency is looked up in MHz.
  abbrev pub cap_term :
      List ClusterEnergyInfo → ℕ → (PstateEnergyInfo → ℕ) → CpufreqPstate D → List D
  cap_term table cluster power p =
      if p.freq == 0 || p.count == 0 then [] else elim (entry_at table cluster (p.freq / 1000)) [
        | some x ↦ d.mul p.duration (d.of_int (pos (power x))) ∷ []
        | none ↦ []
      ]

  abbrev pub cap_terms :
      List ClusterEnergyInfo → ℕ → (PstateEnergyInfo → ℕ) → List (CpufreqPstate D) → List D
  cap_terms table cluster power [] = []
  cap_terms table cluster power (p ∷ ps) =
      cap_term table cluster power p ++ cap_terms table cluster power ps

  add_idle_lem :
      (table : List ClusterEnergyInfo) (cluster : ℕ) (power : CstateEnergyInfo → ℕ) (acc r : D)
      (c : CpuidleCstate D)
      → add_idle table cluster power acc c ≡ some r
      → r ≡ sum_from acc (idle_term table cluster power c)
  unfolding add_idle
  add_idle_lem table cluster power acc r c e = elim (Bool-cases (c.nrdata == 0)) [
    | inl k ↦ ground (arith, k, e)
    | inr k ↦ elim (Option-cases (find_cstate_energy_info table cluster c.name)) [
      | inl q ↦ absurd (ground (arith, k, q, e))
      | inr (cp, q) ↦ ground (arith, k, q, e, find_cstate_energy_info_lem table cluster c.name cp q)
    ]
  ]

  add_cap_lem :
      (table : List ClusterEnergyInfo) (cluster : ℕ) (power : PstateEnergyInfo → ℕ) (acc r : D)
      (p : CpufreqPstate D)
      → add_cap table cluster power acc p ≡ some r
      → r ≡ sum_from acc (cap_term table cluster power p)
  unfolding add_cap
  add_cap_lem table cluster power acc r p e = elim (Bool-cases (p.freq == 0 || p.count == 0)) [
    | inl k ↦ ground (arith, k, e)
    | inr k ↦ elim (Option-cases (find_pstate_energy_info table cluster (p.freq / 1000))) [
      | inl q ↦ absurd (ground (arith, k, q, e))
      | inr (pp, q) ↦
          ground (arith, k, q, e, find_pstate_energy_info_lem table cluster (p.freq / 1000) pp q)
    ]
  ]

  pub add_pstates_lem :
      (table : List ClusterEnergyInfo) (cluster : ℕ) (power : PstateEnergyInfo → ℕ) (acc r : D)
      (ps : List (CpufreqPstate D))
      → add_pstates table cluster power acc ps ≡ some r
      → r ≡ sum_from acc (cap_terms table cluster power ps)
  unfolding add_pstates
  add_pstates_lem table cluster power acc r [] e = some-injective _ _ (sym e)
  add_pstates_lem table cluster power acc r (p ∷ ps) e =
      let (a, e1, e2) = >>=-eq-some (add_cap table cluster power acc p) _ e in
      add_pstates_lem table cluster power a r ps e2
      ∙ ap (λ x. sum_from x (cap_terms table cluster power ps))
          (add_cap_lem table cluster power acc a p e1)
      ∙ sym
          (sum_from-append acc (cap_term table cluster power p) (cap_terms table cluster power ps))

  -- The loop reads the states `j` to `j + n - 1` of the array.
  pub add_idles_lem :
      (table : List ClusterEnergyInfo) (cluster : ℕ) (power : CstateEnergyInfo → ℕ)
      (states rest : List (CpuidleCstate D)) (j n : ℕ) (acc r : D)
      → ((k : ℕ) → get_elem? states (k + j) ≡ get_elem? rest k)
      → add_idles table cluster power states j n acc ≡ some r
      → r ≡ sum_from acc (idle_terms table cluster power (take n rest))
  unfolding add_idles
  add_idles_lem table cluster power states rest j zero acc r h e = some-injective _ _ (sym e)
  add_idles_lem table cluster power states [] j (suc n) acc r h e =
      let (c, e1, _) = >>=-eq-some (get_elem? states j) _ e in absurd (ground (arith, h 0))
  add_idles_lem table cluster power states (x ∷ rest) j (suc n) acc r h e =
      let (c, e1, f1) = >>=-eq-some (get_elem? states j) _ e in
      let (a, e2, f2) = >>=-eq-some (add_idle table cluster power acc c) _ f1 in
      let same : c ≡ x = some-injective _ _ (sym e1 ∙ at_0 (h 0)) in
      add_idles_lem table cluster power states rest (suc j) n a r (λ k. at_suc k (h (suc k))) f2
      ∙ ap (λ x. sum_from x (idle_terms table cluster power (take n rest)))
          (add_idle_lem table cluster power acc a c e2)
      ∙ sym (
          sum_from-append acc (idle_term table cluster power c)
            (idle_terms table cluster power (take n rest)))
      ∙ ap
          (λ c.
            sum_from acc
              (idle_term table cluster power c ++ idle_terms table cluster power (take n rest)))
          same
    where
      at_0 : get_elem? states (0 + j) ≡ some x → get_elem? states j ≡ some x
      at_0 q = let z : j ≡ 0 + j = omega arith in ap (get_elem? states) z ∙ q

      at_suc :
          (k : ℕ)
          → get_elem? states (suc k + j) ≡ get_elem? rest k
          → get_elem? states (k + suc j) ≡ get_elem? rest k
      at_suc k q = let z : k + suc j ≡ suc k + j = omega arith in ap (get_elem? states) z ∙ q
