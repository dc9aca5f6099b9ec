-- ===== src/Energy/Parse/Template.antt =====
-- `make_energy_model_template` (energy_model.c), and what `parse_energy_model` does with its file.
use idlestat.Base.{
  ℕ, suc, ◌+◌, ◌/◌, ◌%◌, ◌<◌, ◌≡◌, refl, Option, none, some, List, [], ◌∷◌, ◌++◌, if◌then◌else◌,
  map?, ◌>>=◌, ◌==◌, length, take, bytes, strstr, starts_with, arith, ap, ◌∙◌, sym, >>=-eq-some,
  map?-eq-some,
}
use idlestat.Base.Int.{pos, minus_one, add_ℤ}
use idlestat.Base.Ptr.{err_ptr, ptr, with_ptr}
use idlestat.Base.Scan.{
  Strtod, sscanf, scan_from, skip_blanks, convert, span_word, Scan, scan_eof, scanned, int_value,
  uint_value, char_value, double_value, word_value,
}
use idlestat.Base.Scan.Decimal.{print_uint}
use idlestat.Pstates.{CpufreqPstate, CpufreqPstates}
use idlestat.Cstates.{CpuidleCstate, CpuidleCstates}
use idlestat.Topology.{CpuPhysical, CpuTopology}
use idlestat.Topology.Groups.{cpu_cstates, cpu_pstates}
use idlestat.TraceFile.States.{print_name}
use idlestat.Energy.{rounds}
use idlestat.Energy.Parse.{
  ParsedCluster, EnergyParser, energy_line, energy_lines, parse_energy_model, start_parser,
  clusters_line, start_cstates, set_clusters, clusters_format,
}

abbrev last_entry : {A : Type 0} → List A → Option A
last_entry [] = none
last_entry (x ∷ []) = some x
last_entry (x ∷ y ∷ ys) = last_entry (y ∷ ys)

-- The lines of the frequencies above 0, in MHz, and of the states.
unfoldable pub pstate_lines : {D : Type 0} → List (CpufreqPstate D) → List (List ℕ)
unfolding print_uint
pstate_lines [] = []
pstate_lines (p ∷ ps) =
    if p.freq == 0
    then pstate_lines ps
    else (print_uint (p.freq / 1000) ++ bytes "\t\t?\t?\n") ∷ pstate_lines ps

unfoldable pub cstate_lines : {D : Type 0} → List (CpuidleCstate D) → List (List ℕ)
unfolding print_name
cstate_lines [] = []
cstate_lines (c ∷ cs) = (print_name c.name ++ bytes "\t\t?\t?\n") ∷ cstate_lines cs

-- The section of a cluster: the states and frequencies of its last CPU.
module _ {D : Type 0} where
  unfoldable pub cluster_template : ℕ → CpuidleCstates D → CpufreqPstates D → List (List ℕ)
  unfolding pstate_lines cstate_lines print_uint
  cluster_template number s ps =
      let states = take (rounds (add_ℤ s.cstate_max (pos 1))) s.cstate in
      bytes "\n"
      ∷ bytes "C-states:\n"
      ∷ (bytes "cluster"
          ++ ((number + 65) % 256 ∷ bytes ": ")
          ++ print_uint (length (pstate_lines ps.pstate))
          ++ bytes " cap states "
          ++ print_uint (rounds (add_ℤ s.cstate_max (pos 1)))
          ++ bytes " C states\n")
      ∷ bytes "\n"
      ∷ bytes "P-states:\n"
      ∷ bytes "# speed, cluster power, core power\n"
      ∷ (pstate_lines ps.pstate
          ++ (bytes "\n" ∷ bytes "C-states:\n" ∷ bytes "# name, cluster power, core power\n" ∷ [])
          ++ cstate_lines states
          ++ (bytes "\n" ∷ []))

  -- `list_entry` of the last core and CPU: the head of an empty list is no object.
  unfoldable pub cluster_templates :
      List (CpuidleCstates D)
      → List (CpufreqPstates D)
      → ℕ
      → List (CpuPhysical D)
      → Option (List (List ℕ))
  unfolding cluster_template
  cluster_templates states freqs number [] = some []
  cluster_templates states freqs number (phy ∷ rest) = last_entry phy.cores >>= λ s_core.
      last_entry s_core.cpus >>= λ s_cpu. cpu_cstates states s_cpu >>= λ s.
      cpu_pstates freqs s_cpu >>= λ ps.
      map? (λ l. cluster_template number s ps ++ l)
        (cluster_templates states freqs (suc number) rest)

  unfoldable pub make_energy_model_template :
      List (CpuidleCstates D) → List (CpufreqPstates D) → CpuTopology D → Option (List (List ℕ))
  unfolding cluster_templates print_uint
  make_energy_model_template states freqs topo =
      map?
        (λ l.
          bytes "# This is a energy model template generated by idlestat\n"
          ∷ bytes "# Lines starting with # or which are blank are ignored\n"
          ∷ bytes "# Replace ? with correct values\n"
          ∷ (bytes "clusters " ++ print_uint (length topo.physicals) ++ 10 ∷ [])
          ∷ l)
        (cluster_templates states freqs 0 topo.physicals)

set_clusters-current :
    (fresh : ParsedCluster) {D : Type 0} (p : EnergyParser) (s : Scan D)
    → (set_clusters fresh p s).current_cluster ≡ p.current_cluster
set_clusters-current fresh p scan_eof = refl
set_clusters-current fresh p (scanned []) = refl
set_clusters-current fresh p (scanned (uint_value n ∷ vs)) = refl
set_clusters-current fresh p (scanned (int_value n ∷ vs)) = refl
set_clusters-current fresh p (scanned (char_value n ∷ vs)) = refl
set_clusters-current fresh p (scanned (double_value x ∷ vs)) = refl
set_clusters-current fresh p (scanned (word_value w ∷ vs)) = refl

first-template :
    {D : Type 0} (states : List (CpuidleCstates D)) (freqs : List (CpufreqPstates D))
    (ps : List (CpuPhysical D)) (lines : List (List ℕ))
    → 0 < length ps
    → cluster_templates states freqs 0 ps ≡ some lines
    → (l : List (List ℕ)) × (lines ≡ bytes "\n" ∷ bytes "C-states:\n" ∷ l)
unfolding cluster_templates cluster_template
first-template states freqs [] lines h e = absurd (omega arith)
first-template states freqs (phy ∷ rest) lines h e =
    let (core, _, e1) = >>=-eq-some (last_entry phy.cores) _ e in
    let (cpu, _, e2) = >>=-eq-some (last_entry core.cpus) _ e1 in
    let (s, _, e3) = >>=-eq-some (cpu_cstates states cpu) _ e2 in
    let (ps, _, e4) = >>=-eq-some (cpu_pstates freqs cpu) _ e3 in
    let (l, _, e5) = map?-eq-some _ (cluster_templates states freqs 1 rest) e4 in (_, sym e5)

module _ (D : Type 0) ⦃t : Strtod D⦄ (fresh : ParsedCluster) where
  -- What a first line that is accepted leaves to the others.
  energy_lines-accept :
      (p q : EnergyParser) (l : List ℕ) (ls : List (List ℕ))
      → energy_line D fresh p l ≡ some (ptr q)
      → energy_lines D fresh p (l ∷ ls) ≡ energy_lines D fresh q ls
  unfolding energy_lines
  energy_lines-accept p q l ls e = ap (λ o. o >>= λ r. with_ptr r λ q. energy_lines D fresh q ls) e

  energy_lines-refuse :
      (p : EnergyParser) (l : List ℕ) (ls : List (List ℕ))
      → energy_line D fresh p l ≡ some err_ptr
      → energy_lines D fresh p (l ∷ ls) ≡ some err_ptr
  unfolding energy_lines
  energy_lines-refuse p l ls e = ap (λ o. o >>= λ r. with_ptr r λ q. energy_lines D fresh q ls) e

  comment-line :
      (p : EnergyParser) (l : List ℕ) → energy_line D fresh p (35 ∷ 32 ∷ l) ≡ some (ptr p)
  unfolding energy_line
  comment-line p l = refl

  -- The number of clusters leaves the current cluster unknown.
  clusters-line :
      (n : ℕ)
      → (q : EnergyParser) × (energy_line D fresh
            (start_parser D fresh)
            (bytes "clusters " ++ print_uint n ++ 10 ∷ [])
          ≡ some (ptr q))
        × (q.current_cluster ≡ minus_one)
  unfolding energy_line clusters_line strstr starts_with sscanf clusters_format scan_from
      skip_blanks convert span_word
  clusters-line n = (
    _,
    refl,
    set_clusters-current fresh (start_parser D fresh)
        (sscanf {D = D} (bytes "clusters " ++ print_uint n ++ 10 ∷ []) clusters_format),
  )

  cstates-line :
      (q : EnergyParser)
      → q.current_cluster ≡ minus_one
      → energy_line D fresh q (bytes "C-states:\n") ≡ some err_ptr
  unfolding energy_line start_cstates strstr starts_with
  cstates-line q e = rw e refl

  newline-line : (p : EnergyParser) → energy_line D fresh p (bytes "\n") ≡ some (ptr p)
  unfolding energy_line
  newline-line p = refl

  ignored-line :
      (p : EnergyParser) (ls : List (List ℕ))
      → energy_lines D fresh p (bytes "\n" ∷ ls) ≡ energy_lines D fresh p ls
  ignored-line p ls = energy_lines-accept p p (bytes "\n") ls (newline-line p)

  -- The head of every template that has a cluster.
  head-refused :
      (n : ℕ) (rest : List (List ℕ))
      → energy_lines D fresh (start_parser D fresh) (
          bytes "# This is a energy model template generated by idlestat\n"
          ∷ bytes "# Lines starting with # or which are blank are ignored\n"
          ∷ bytes "# Replace ? with correct values\n"
          ∷ (bytes "clusters " ++ print_uint n ++ 10 ∷ [])
          ∷ bytes "\n"
          ∷ bytes "C-states:\n"
          ∷ rest)
        ≡ some err_ptr
  head-refused n rest =
      let (q, e, c) = clusters-line n in
      let start = start_parser D fresh in
      energy_lines-accept start start _ _ (comment-line start _)
      ∙ energy_lines-accept start start _ _ (comment-line start _)
      ∙ energy_lines-accept start start _ _ (comment-line start _)
      ∙ energy_lines-accept start q _ _ e
      ∙ ignored-line q _
      ∙ energy_lines-refuse q (bytes "C-states:\n") rest (cstates-line q c)

  -- A template that was generated for a machine with a cluster is refused by the parser, whatever is
  -- filled in below its sixth line: that line opens the C-states of a cluster that is not named yet.
  pub template_refused :
      (states : List (CpuidleCstates D)) (freqs : List (CpufreqPstates D)) (topo : CpuTopology D)
      (lines rest : List (List ℕ))
      → make_energy_model_template states freqs topo ≡ some lines
      → 0 < length topo.physicals
      → parse_energy_model D fresh (take 6 lines ++ rest) ≡ some err_ptr
  unfolding make_energy_model_template cluster_templates cluster_template parse_energy_model
  template_refused states freqs topo lines rest e h =
      let (l, e1, e2) = map?-eq-some _ (cluster_templates states freqs 0 topo.physicals) e in
      let (l', e3) = first-template states freqs topo.physicals l h e1 in
      rw (sym e2) (
        rw e3 (
          ap (λ o. o >>= λ r. with_ptr r λ p. some (ptr p.table))
            (head-refused (length topo.physicals) rest)))
