-- ===== src/Energy/Parse/Filled.antt =====
-- The lines of an energy model one by one: `parse_energy_model` (energy_model.c) never loses its cluster.
use idlestat.Base.{
  ℕ, ◌≡◌, refl, false, not, Option, none, some, List, [], ◌∷◌, if◌then◌else◌, ◌>>=◌, get_elem?,
  arith, ap, ◌∙◌, sym, some-injective, strstr, bytes, ◌&&◌,
}
use idlestat.Base.Int.{pos, minus_one, eq_ℤ}
use idlestat.Base.Ptr.{Ptr, err_ptr, ptr, with_ptr}
use idlestat.Base.Scan.{Strtod, sscanf}
use idlestat.Energy.Parse.{
  ParseState, uninitialized, parsed_cluster_info, parsing_cap_states, parsing_c_states,
  ParsedCluster, EnergyParser, Parsing, refuse, accept, is_uninitialized, with_cluster,
  start_pstates, start_cstates, entry_line, energy_lines, start_parser, data_line, data_at,
  is_ignored, energy_line, cluster_info_format, wakeup_format, pstate_format, cstate_format,
}
use idlestat.Energy.Parse.Current.{
  IsParsing, nowhere, somewhere, Keeps, Keeps-accept, Keeps-refuse, Keeps-if, Keeps-bind,
  current-at,
}
use idlestat.Energy.Parse.Lines.{
  start_pstates-Keeps, start_cstates-Keeps, clusters_line-Keeps, cluster_info_line-Keeps,
  wakeup_line-Keeps, cap_state_line-Keeps, c_state_line-Keeps,
}

Keeps-with_ptr :
    (r : Ptr EnergyParser) (f : EnergyParser → Parsing)
    → ((m : EnergyParser) → r ≡ ptr m → Keeps (f m))
    → Keeps (with_ptr r f)
Keeps-with_ptr err_ptr f k = Keeps-refuse
Keeps-with_ptr (ptr m) f k = k m refl

module _ (D : Type 0) ⦃t : Strtod D⦄ (fresh : ParsedCluster) where
  entry_line-Keeps :
      (state : ParseState) (p : EnergyParser) (k : ℕ) (c : ParsedCluster) (buffer : List ℕ)
      → IsParsing p
      → p.current_cluster ≡ pos k
      → p.clustp ≡ some k
      → get_elem? p.table k ≡ some c
      → is_uninitialized c.state ≡ false
      → Keeps (entry_line D fresh state p k c buffer)
  unfolding entry_line
  entry_line-Keeps parsing_cap_states p k c buffer h i j e u =
      cap_state_line-Keeps p k c (sscanf {D = D} buffer pstate_format) h i j e u
  entry_line-Keeps parsing_c_states p k c buffer h i j e u =
      c_state_line-Keeps p k c (sscanf {D = D} buffer cstate_format) h i j e u
  entry_line-Keeps uninitialized p k c buffer h i j e u = Keeps-accept p h
  entry_line-Keeps parsed_cluster_info p k c buffer h i j e u = Keeps-accept p h

  data_at-Keeps :
      (p : EnergyParser) (buffer : List ℕ) (o : Option ℕ)
      → IsParsing p
      → p.clustp ≡ o
      → Keeps (data_at D fresh p buffer o)
  data_at-Keeps p buffer none h e = Keeps-refuse
  data_at-Keeps p buffer (some k) h e =
      let (c, i, x, u) = current-at p k h e in
      Keeps-bind (get_elem? p.table k) _ (λ c' x'.
        entry_line-Keeps c'.state p k c' buffer h i e x' (
          ap (λ (z : ParsedCluster). is_uninitialized z.state) (some-injective c' c (sym x' ∙ x))
          ∙ u))

  data_line-Keeps :
      (p : EnergyParser) (buffer : List ℕ) → IsParsing p → Keeps (data_line D fresh p buffer)
  unfolding data_line
  data_line-Keeps p buffer h = data_at-Keeps p buffer p.clustp h refl

  energy_line-Keeps :
      (p : EnergyParser) (buffer : List ℕ) → IsParsing p → Keeps (energy_line D fresh p buffer)
  unfolding energy_line
  energy_line-Keeps p buffer h =
      Keeps-if (is_ignored D fresh buffer) _ _ (λ _. Keeps-accept p h)
        (λ _.
          Keeps-if (strstr buffer (bytes "clusters")) _ _ (λ _. clusters_line-Keeps fresh p _ h)
            (λ _.
              Keeps-if (strstr buffer (bytes "cluster") && not (strstr buffer (bytes "cluster-"))) _
                _ (λ _. cluster_info_line-Keeps p (sscanf {D = D} buffer cluster_info_format) h)
                (λ _.
                  Keeps-if (strstr buffer (bytes "P-states")) _ _ (λ _. start_pstates-Keeps p h)
                    (λ _.
                      Keeps-if (strstr buffer (bytes "C-states")) _ _ (λ _. start_cstates-Keeps p h)
                        (λ _.
                          Keeps-if (strstr buffer (bytes "wakeup")) _ _
                            (λ _. wakeup_line-Keeps p (sscanf {D = D} buffer wakeup_format) h)
                            (λ _. data_line-Keeps p buffer h))))))

  energy_lines-Keeps :
      (p : EnergyParser) (lines : List (List ℕ))
      → IsParsing p
      → Keeps (energy_lines D fresh p lines)
  unfolding energy_lines
  energy_lines-Keeps p [] h = Keeps-accept p h
  energy_lines-Keeps p (buffer ∷ lines) h = Keeps-bind (energy_line D fresh p buffer) _ (λ r e.
      Keeps-with_ptr r (λ q. energy_lines D fresh q lines)
        (λ m e'. energy_lines-Keeps m lines (energy_line-Keeps p buffer h m (e ∙ ap some e'))))

bound : {A B : Type 0} (m : Option A) (f : A → Option B) (a : A) → m ≡ some a → (m >>= f) ≡ f a
bound m f a e = rw e refl

-- A line that opens a section follows no null pointer.
opens :
    (p : EnergyParser) (f : ℕ → ParsedCluster → EnergyParser)
    → IsParsing p
    → (if eq_ℤ p.current_cluster minus_one
        then refuse
        else with_cluster p (λ k c. if is_uninitialized c.state then refuse else accept (f k c)))
      ≡ none
    → ⊥
opens p f h e = elim (h.current) [
  | nowhere i j ↦ ground (arith, e, ap (λ z. eq_ℤ z minus_one) i)
  | somewhere k c i j t u ↦
      let g : ℕ → ParsedCluster → Parsing =
        λ k c. if is_uninitialized c.state then refuse else accept (f k c) in
      let opened : with_cluster p g ≡ accept (f k c) =
        bound p.clustp (λ k. get_elem? p.table k >>= λ c. g k c) k j
        ∙ bound (get_elem? p.table k) (g k) c t
        ∙ ap (λ z. if z then refuse else accept (f k c)) u in
      ground (arith, e, opened, ap (λ z. eq_ℤ z minus_one) i)
]

start_parser-IsParsing :
    (D : Type 0) ⦃t : Strtod D⦄ (fresh : ParsedCluster) → IsParsing (start_parser D fresh)
start_parser-IsParsing D fresh = record { sized = refl; current = nowhere refl refl }

-- After any lines that are accepted the parser's pointer is null or points to the entry of the current
-- cluster, which is in the table and was started, and the table has as many entries as were announced:
-- so a line that opens a section of P-states or C-states follows no null pointer.
pub energy_lines_lem :
    (D : Type 0) ⦃t : Strtod D⦄ (fresh : ParsedCluster) (lines : List (List ℕ)) (p : EnergyParser)
    → energy_lines D fresh (start_parser D fresh) lines ≡ some (ptr p)
    → IsParsing p × ¬ (start_pstates p ≡ none) × ¬ (start_cstates p ≡ none)
unfolding start_pstates start_cstates
energy_lines_lem D fresh lines p e =
    let h =
      energy_lines-Keeps D fresh (start_parser D fresh) lines (start_parser-IsParsing D fresh) p
        e in
    (h, opens p _ h, opens p _ h)
