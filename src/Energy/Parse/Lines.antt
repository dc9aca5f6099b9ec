-- ===== src/Energy/Parse/Lines.antt =====
-- The lines of an energy model by their kind (parse_energy_model, energy_model.c): each one that is accepted
-- keeps the current cluster.
use idlestat.Base.{
  ℕ, ◌≡◌, refl, false, not, none, some, List, [], ◌∷◌, ◌==◌, leb, length, get_elem?, replicate,
  length-replicate, lt-of_get_elem?, arith, ap, ◌∙◌, sym,
}
use idlestat.Base.Int.{ℤ, pos, negsuc, minus_one, eq_ℤ, leb_ℤ}
use idlestat.Base.Scan.{
  Value, Scan, scan_eof, scanned, int_value, uint_value, char_value, double_value, word_value,
}
use idlestat.Topology.Read.{cluster_number}
use idlestat.Energy.Parse.{
  parsing_cap_states, parsing_c_states, ParsedCluster, EnergyParser, refuse, is_uninitialized,
  put_entry, set_clusters, clusters_line, start_cluster, set_c_states, set_cap_states, set_numbers,
  cluster_info_line, start_pstates, start_cstates, two_numbers, wakeup_line, cap_state_line,
  c_state_line,
}
use idlestat.Energy.Parse.Current.{
  IsParsing, nowhere, somewhere, Keeps, Keeps-accept, Keeps-refuse, Keeps-none, Keeps-if,
  Keeps-bind, put-IsParsing, Keeps-with_cluster,
}

pub start_pstates-Keeps : (p : EnergyParser) → IsParsing p → Keeps (start_pstates p)
unfolding start_pstates put_entry
start_pstates-Keeps p h =
    Keeps-if (eq_ℤ p.current_cluster minus_one) _ _ (λ _. Keeps-refuse)
      (λ _. Keeps-with_cluster p _ h (λ k c i j t u.
        Keeps-if (is_uninitialized c.state) _ _ (λ _. Keeps-refuse)
          (λ _. Keeps-accept _ (
            put-IsParsing p _ k c (record c { state = parsing_cap_states }) h.sized t refl refl refl
              i j))))

pub start_cstates-Keeps : (p : EnergyParser) → IsParsing p → Keeps (start_cstates p)
unfolding start_cstates put_entry
start_cstates-Keeps p h =
    Keeps-if (eq_ℤ p.current_cluster minus_one) _ _ (λ _. Keeps-refuse)
      (λ _. Keeps-with_cluster p _ h (λ k c i j t u.
        Keeps-if (is_uninitialized c.state) _ _ (λ _. Keeps-refuse)
          (λ _. Keeps-accept _ (
            put-IsParsing p _ k c (record c { state = parsing_c_states }) h.sized t refl refl refl i
              j))))

pub start_cluster-Keeps : (p : EnergyParser) (n : ℤ) → IsParsing p → Keeps (start_cluster p n)
unfolding start_cluster put_entry
start_cluster-Keeps p (negsuc n) h = Keeps-none
start_cluster-Keeps p (pos k) h = Keeps-bind (get_elem? p.table k) _ (λ c t.
    Keeps-if (not (length c.info.p_energy == 0)) _ _ (λ _. Keeps-refuse)
      (λ _. Keeps-bind p.number_cap_states _ (λ caps _.
        Keeps-bind p.number_c_states _ (λ states _.
          Keeps-accept _ (put-IsParsing p _ k c _ h.sized t refl refl refl refl refl)))))

-- While no cluster is announced the table is empty, so none is current.
pub empty-nowhere :
    (p : EnergyParser)
    → IsParsing p
    → p.clusters ≡ 0
    → (p.current_cluster ≡ minus_one) × (p.clustp ≡ none)
empty-nowhere p h e = elim (h.current) [
  | nowhere i j ↦ (i, j)
  | somewhere k c i j t u ↦ absurd (ground (arith, lt-of_get_elem? p.table k t, h.sized, e))
]

pub replicated-IsParsing :
    (fresh : ParsedCluster) (p : EnergyParser) (n : ℕ)
    → (p.current_cluster ≡ minus_one) × (p.clustp ≡ none)
    → IsParsing (record p { clusters = n; table = replicate n fresh })
replicated-IsParsing fresh p n h = record {
  sized = length-replicate n fresh;
  current = nowhere h.0 h.1;
}

module _ (fresh : ParsedCluster) {D : Type 0} where
  pub set_clusters-IsParsing :
      (p : EnergyParser) (s : Scan D)
      → (p.current_cluster ≡ minus_one) × (p.clustp ≡ none)
      → IsParsing (set_clusters fresh p s)
  set_clusters-IsParsing p scan_eof h = replicated-IsParsing fresh p p.clusters h
  set_clusters-IsParsing p (scanned []) h = replicated-IsParsing fresh p p.clusters h
  set_clusters-IsParsing p (scanned (uint_value n ∷ vs)) h = replicated-IsParsing fresh p n h
  set_clusters-IsParsing p (scanned (int_value n ∷ vs)) h =
      replicated-IsParsing fresh p p.clusters h
  set_clusters-IsParsing p (scanned (char_value n ∷ vs)) h =
      replicated-IsParsing fresh p p.clusters h
  set_clusters-IsParsing p (scanned (double_value n ∷ vs)) h =
      replicated-IsParsing fresh p p.clusters h
  set_clusters-IsParsing p (scanned (word_value n ∷ vs)) h =
      replicated-IsParsing fresh p p.clusters h

  pub clusters_line-Keeps :
      (p : EnergyParser) (s : Scan D) → IsParsing p → Keeps (clusters_line fresh p s)
  unfolding clusters_line
  clusters_line-Keeps p s h =
      Keeps-if (p.clusters == 0) _ _
        (λ e. Keeps-accept _ (set_clusters-IsParsing p s (empty-nowhere p h (ground (arith, e)))))
        (λ _. Keeps-refuse)

pub same-IsParsing :
    (p q : EnergyParser)
    → q.table ≡ p.table
    → q.clusters ≡ p.clusters
    → q.current_cluster ≡ p.current_cluster
    → q.clustp ≡ p.clustp
    → IsParsing p
    → IsParsing q
same-IsParsing p q t m i j h = record {
  sized = ap length t ∙ h.sized ∙ sym m;
  current = elim (h.current) [
    | nowhere a b ↦ nowhere (i ∙ a) (j ∙ b)
    | somewhere k c a b e u ↦ somewhere k c (i ∙ a) (j ∙ b) (ap (λ l. get_elem? l k) t ∙ e) u
  ];
}

-- Only the numbers that were announced change.
abbrev pub Unmoved : EnergyParser → EnergyParser → Type 0
Unmoved p q =
    (q.table ≡ p.table)
    × (q.clusters ≡ p.clusters)
    × (q.current_cluster ≡ p.current_cluster)
    × (q.clustp ≡ p.clustp)

pub unmoved : (p : EnergyParser) → Unmoved p p
unmoved p = (refl, refl, refl, refl)

module _ {D : Type 0} where
  pub set_c_states-Unmoved :
      (p : EnergyParser) (vs : List (Value D)) → Unmoved p (set_c_states p vs)
  set_c_states-Unmoved p [] = unmoved p
  set_c_states-Unmoved p (uint_value b ∷ vs) = unmoved p
  set_c_states-Unmoved p (int_value b ∷ vs) = unmoved p
  set_c_states-Unmoved p (char_value b ∷ vs) = unmoved p
  set_c_states-Unmoved p (double_value b ∷ vs) = unmoved p
  set_c_states-Unmoved p (word_value b ∷ vs) = unmoved p

  pub set_cap_states-Unmoved :
      (p : EnergyParser) (vs : List (Value D)) → Unmoved p (set_cap_states p vs)
  set_cap_states-Unmoved p [] = unmoved p
  set_cap_states-Unmoved p (uint_value a ∷ vs) =
      set_c_states-Unmoved (record p { number_cap_states = some a }) vs
  set_cap_states-Unmoved p (int_value b ∷ vs) = unmoved p
  set_cap_states-Unmoved p (char_value b ∷ vs) = unmoved p
  set_cap_states-Unmoved p (double_value b ∷ vs) = unmoved p
  set_cap_states-Unmoved p (word_value b ∷ vs) = unmoved p

  pub set_numbers-Unmoved : (p : EnergyParser) (s : Scan D) → Unmoved p (set_numbers p s)
  set_numbers-Unmoved p scan_eof = unmoved p
  set_numbers-Unmoved p (scanned []) = unmoved p
  set_numbers-Unmoved p (scanned (char_value c ∷ vs)) =
      set_cap_states-Unmoved (record p { tmp = some c }) vs
  set_numbers-Unmoved p (scanned (uint_value b ∷ vs)) = unmoved p
  set_numbers-Unmoved p (scanned (int_value b ∷ vs)) = unmoved p
  set_numbers-Unmoved p (scanned (double_value b ∷ vs)) = unmoved p
  set_numbers-Unmoved p (scanned (word_value b ∷ vs)) = unmoved p

  pub cluster_info_line-Keeps :
      (p : EnergyParser) (s : Scan D) → IsParsing p → Keeps (cluster_info_line p s)
  unfolding cluster_info_line
  cluster_info_line-Keeps p s h =
      let q = set_numbers p s in
      let (t, m, i, j) = set_numbers-Unmoved p s in
      Keeps-bind q.tmp _ (λ c _.
        Keeps-if (leb_ℤ (pos q.clusters) (cluster_number c)) _ _ (λ _. Keeps-refuse)
          (λ _. start_cluster-Keeps q (cluster_number c) (same-IsParsing p q t m i j h)))

  pub wakeup_line-Keeps : (p : EnergyParser) (s : Scan D) → IsParsing p → Keeps (wakeup_line p s)
  unfolding wakeup_line put_entry
  wakeup_line-Keeps p s h =
      Keeps-if (eq_ℤ p.current_cluster minus_one) _ _ (λ _. Keeps-refuse)
        (λ _. Keeps-bind (two_numbers s) _ (λ w _.
          Keeps-with_cluster p _ h
            (λ k c i j t u. Keeps-accept _ (put-IsParsing p _ k c _ h.sized t u refl refl i j))))

  pub cap_state_line-Keeps :
      (p : EnergyParser) (k : ℕ) (c : ParsedCluster) (s : Scan D)
      → IsParsing p
      → p.current_cluster ≡ pos k
      → p.clustp ≡ some k
      → get_elem? p.table k ≡ some c
      → is_uninitialized c.state ≡ false
      → Keeps (cap_state_line p k c s)
  unfolding cap_state_line put_entry
  cap_state_line-Keeps p k c (scanned (uint_value x ∷ uint_value y ∷ uint_value z ∷ vs)) h i j t u =
      Keeps-if (leb (length c.info.p_energy) p.current_pstate) _ _ (λ _. Keeps-refuse)
        (λ _. Keeps-accept _ (put-IsParsing p _ k c _ h.sized t u refl refl i j))
  cap_state_line-Keeps p k c s h i j t u = Keeps-refuse

  pub c_state_line-Keeps :
      (p : EnergyParser) (k : ℕ) (c : ParsedCluster) (s : Scan D)
      → IsParsing p
      → p.current_cluster ≡ pos k
      → p.clustp ≡ some k
      → get_elem? p.table k ≡ some c
      → is_uninitialized c.state ≡ false
      → Keeps (c_state_line p k c s)
  unfolding c_state_line put_entry
  c_state_line-Keeps p k c (scanned (word_value name ∷ uint_value y ∷ uint_value z ∷ vs)) h i j t
        u =
      Keeps-if (leb 16 (length name)) _ _ (λ _. Keeps-none)
        (λ _.
          Keeps-if (leb (length c.info.c_energy) p.current_cstate) _ _ (λ _. Keeps-refuse)
            (λ _. Keeps-accept _ (put-IsParsing p _ k c _ h.sized t u refl refl i j)))
  c_state_line-Keeps p k c (scanned (word_value name ∷ vs)) h i j t u =
      Keeps-if (leb 16 (length name)) none refuse (λ _. Keeps-none) (λ _. Keeps-refuse)
  c_state_line-Keeps p k c s h i j t u = Keeps-refuse
