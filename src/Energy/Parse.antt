-- ===== src/Energy/Parse.antt =====
-- `parse_energy_model` (energy_model.c) on the lines of a file, and `make_energy_model_template`, which
-- writes one to be filled in. The table's memory comes from `realloc`, which does not clear it: what an
-- entry holds then is a parameter. A variable that `sscanf` did not set and a name that does not fit its
-- array are faults.
use idlestat.Base.{
  ℕ, zero, suc, ◌+◌, ◌-◌, ◌/◌, ◌%◌, ◌≡◌, Bool, true, false, not, Option, none, some, List, [], ◌∷◌,
  ◌++◌, if◌then◌else◌, map?, ◌>>=◌, ltb, leb, ◌==◌, ◌&&◌, ◌||◌, length, get_elem?, set, replicate,
  bytes, strstr,
}
use idlestat.Base.Int.{ℤ, pos, negsuc, minus_one, leb_ℤ, ltb_ℤ, eq_ℤ, sub_ℤ}
use idlestat.Base.Ptr.{Ptr, err_ptr, ptr, with_ptr}
use idlestat.Base.Scan.{
  Strtod, Directive, lit, blank, skip_word, read_word, read_uint, read_char, Value, uint_value,
  char_value, word_value, Scan, scanned, sscanf,
}
use idlestat.Topology.Read.{cluster_number}
use idlestat.Energy.{ClusterEnergyInfo, PstateEnergyInfo, CstateEnergyInfo}
pub mod Template
pub mod Current
pub mod Lines
pub mod Filled

-- `clustp->state`, from 0 on.
pub data ParseState : Type 0 where
  uninitialized parsed_cluster_info parsing_cap_states parsing_c_states : ParseState

pub record ParsedCluster : Type 0 where
  pub info : ClusterEnergyInfo
  pub state : ParseState

-- The variables of the function and the globals; `clustp` is an index or null.
pub record EnergyParser : Type 0 where
  pub table : List ParsedCluster
  pub clusters : ℕ
  pub tmp : Option ℕ
  pub number_cap_states : Option ℕ
  pub number_c_states : Option ℕ
  pub current_cluster : ℤ
  pub clustp : Option ℕ
  pub current_pstate : ℕ
  pub current_cstate : ℕ

-- `"%*s %u"`, `"cluster%c: %u cap states %u C states"`, `"%*s %u %u"`, `"%u %u %u"` and `"%s %u %u"`.
unfoldable pub clusters_format : List Directive
clusters_format = skip_word ∷ blank ∷ read_uint ∷ []

abbrev lits : List ℕ → List Directive → List Directive
lits [] fs = fs
lits (c ∷ cs) fs = (if c == 32 then blank else lit c) ∷ lits cs fs

unfoldable pub cluster_info_format : List Directive
cluster_info_format = lits (bytes "cluster") (
    read_char
    ∷ lits (bytes ": ")
        (read_uint ∷ lits (bytes " cap states ") (read_uint ∷ lits (bytes " C states") [])))

unfoldable pub wakeup_format : List Directive
wakeup_format = skip_word ∷ blank ∷ read_uint ∷ blank ∷ read_uint ∷ []

unfoldable pub pstate_format : List Directive
pstate_format = read_uint ∷ blank ∷ read_uint ∷ blank ∷ read_uint ∷ []

unfoldable pub cstate_format : List Directive
cstate_format = read_word 256 ∷ blank ∷ read_uint ∷ blank ∷ read_uint ∷ []

-- `-1`, or the variables after the line.
abbrev pub Parsing : Type 0
Parsing = Option (Ptr EnergyParser)

abbrev pub refuse : Parsing
refuse = some err_ptr

abbrev pub accept : EnergyParser → Parsing
accept p = some (ptr p)

abbrev pub is_uninitialized : ParseState → Bool
is_uninitialized uninitialized = true
is_uninitialized _ = false

abbrev pub blank_pstate : PstateEnergyInfo
blank_pstate = record { speed = 0; cluster_power = 0; core_power = 0 }

abbrev pub blank_cstate : CstateEnergyInfo
blank_cstate = record { cstate_name = []; cluster_idle_power = 0; core_idle_power = 0 }

-- A change to the entry that `clustp` points to, or to the one of an index.
unfoldable pub put_entry : EnergyParser → ℕ → ParsedCluster → EnergyParser
put_entry p k c = record p { table = set p.table k c }

-- The function continues with the entry of `clustp`; to follow a null pointer is a fault.
abbrev pub with_cluster : EnergyParser → (ℕ → ParsedCluster → Parsing) → Parsing
with_cluster p f = p.clustp >>= λ k. get_elem? p.table k >>= λ c. f k c

module _ (fresh : ParsedCluster) {D : Type 0} where
  abbrev pub set_clusters : EnergyParser → Scan D → EnergyParser
  set_clusters p (scanned (uint_value n ∷ vs)) = record p {
    clusters = n;
    table = replicate n fresh;
  }
  set_clusters p _ = record p { table = replicate p.clusters fresh }

  unfoldable pub clusters_line : EnergyParser → Scan D → Parsing
  clusters_line p s = if p.clusters == 0 then accept (set_clusters p s) else refuse

-- A cluster below `A` is out of bounds. An entry that has cap states is refused.
unfoldable pub start_cluster : EnergyParser → ℤ → Parsing
unfolding put_entry
start_cluster p (negsuc n) = none
start_cluster p (pos k) = get_elem? p.table k >>= λ c.
    if not (length c.info.p_energy == 0)
    then refuse
    else (p.number_cap_states >>= λ caps. p.number_c_states >>= λ states.
        accept
          (record (put_entry p k (record {
            info = record c.info {
              p_energy = replicate caps blank_pstate;
              c_energy = replicate states blank_cstate;
            };
            state = parsed_cluster_info;
          })) { current_cluster = pos k; clustp = some k }))

module _ {D : Type 0} where
  -- What `sscanf` sets of `tmp`, `number_cap_states` and `number_c_states`.
  abbrev pub set_c_states : EnergyParser → List (Value D) → EnergyParser
  set_c_states p (uint_value b ∷ vs) = record p { number_c_states = some b }
  set_c_states p _ = p

  abbrev pub set_cap_states : EnergyParser → List (Value D) → EnergyParser
  set_cap_states p (uint_value a ∷ vs) = set_c_states (record p { number_cap_states = some a }) vs
  set_cap_states p _ = p

  abbrev pub set_numbers : EnergyParser → Scan D → EnergyParser
  set_numbers p (scanned (char_value c ∷ vs)) = set_cap_states (record p { tmp = some c }) vs
  set_numbers p _ = p

  unfoldable pub cluster_info_line : EnergyParser → Scan D → Parsing
  unfolding start_cluster cluster_number
  cluster_info_line p s =
      let q = set_numbers p s in
      q.tmp >>= λ c.
      let k = cluster_number c in if leb_ℤ (pos q.clusters) k then refuse else start_cluster q k

-- `P-states` and `C-states`: the section begins, from the first entry on.
unfoldable pub start_pstates : EnergyParser → Parsing
unfolding put_entry
start_pstates p =
    if eq_ℤ p.current_cluster minus_one
    then refuse
    else with_cluster p λ k c.
      if is_uninitialized c.state
      then refuse
      else accept
          (record (put_entry p k (record c { state = parsing_cap_states })) { current_pstate = 0 })

unfoldable pub start_cstates : EnergyParser → Parsing
unfolding put_entry
start_cstates p =
    if eq_ℤ p.current_cluster minus_one
    then refuse
    else with_cluster p λ k c.
      if is_uninitialized c.state
      then refuse
      else accept
          (record (put_entry p k (record c { state = parsing_c_states })) { current_cstate = 0 })

module _ {D : Type 0} where
  abbrev pub two_numbers : Scan D → Option (ℕ × ℕ)
  two_numbers (scanned (uint_value a ∷ uint_value b ∷ vs)) = some (a, b)
  two_numbers _ = none

  unfoldable pub wakeup_line : EnergyParser → Scan D → Parsing
  unfolding put_entry
  wakeup_line p s =
      if eq_ℤ p.current_cluster minus_one
      then refuse
      else (two_numbers s >>= λ w. with_cluster p λ k c. accept (
          put_entry p k (record c {
            info = record c.info { cluster_wakeup_energy = w.0; core_wakeup_energy = w.1 };
          })))

  -- A line of a section; it is refused beyond the entries that were announced.
  unfoldable pub cap_state_line : EnergyParser → ℕ → ParsedCluster → Scan D → Parsing
  unfolding put_entry
  cap_state_line p k c (scanned (uint_value speed ∷ uint_value clust_p ∷ uint_value core_p ∷ vs)) =
      if leb (length c.info.p_energy) p.current_pstate
      then refuse
      else accept
          (record (put_entry p k (record c {
            info = record c.info {
              p_energy =
                  set c.info.p_energy p.current_pstate
                    (record { speed = speed; cluster_power = clust_p; core_power = core_p });
            };
          })) { current_pstate = p.current_pstate + 1 })
  cap_state_line p k c _ = refuse

  unfoldable pub c_state_line : EnergyParser → ℕ → ParsedCluster → Scan D → Parsing
  unfolding put_entry
  c_state_line p k c (scanned (word_value name ∷ uint_value clust_p ∷ uint_value core_p ∷ vs)) =
      if leb 16 (length name)
      then none
      else if leb (length c.info.c_energy) p.current_cstate
      then refuse
      else accept
          (record (put_entry p k (record c {
            info = record c.info {
              c_energy = set c.info.c_energy p.current_cstate (record {
                cstate_name = name;
                cluster_idle_power = clust_p;
                core_idle_power = core_p;
              });
            };
          })) { current_cstate = p.current_cstate + 1 })
  c_state_line p k c (scanned (word_value name ∷ vs)) =
      if leb 16 (length name) then none else refuse
  c_state_line p k c _ = refuse

module _ (D : Type 0) ⦃t : Strtod D⦄ (fresh : ParsedCluster) where
  -- A line that is none of the others, by the state of the current cluster.
  unfoldable pub entry_line : ParseState → EnergyParser → ℕ → ParsedCluster → List ℕ → Parsing
  unfolding cap_state_line c_state_line pstate_format cstate_format sscanf
  entry_line parsing_cap_states p k c buffer =
      cap_state_line p k c (sscanf {D = D} buffer pstate_format)
  entry_line parsing_c_states p k c buffer =
      c_state_line p k c (sscanf {D = D} buffer cstate_format)
  entry_line uninitialized p k c buffer = accept p
  entry_line parsed_cluster_info p k c buffer = accept p

  abbrev pub data_at : EnergyParser → List ℕ → Option ℕ → Parsing
  data_at p buffer none = refuse
  data_at p buffer (some k) = get_elem? p.table k >>= λ c. entry_line c.state p k c buffer

  unfoldable pub data_line : EnergyParser → List ℕ → Parsing
  unfolding entry_line
  data_line p buffer = data_at p buffer p.clustp

  abbrev pub is_ignored : List ℕ → Bool
  is_ignored [] = false
  is_ignored (c ∷ []) = true
  is_ignored (c ∷ e ∷ s) = c == 35

  unfoldable pub energy_line : EnergyParser → List ℕ → Parsing
  unfolding clusters_line cluster_info_line start_pstates start_cstates wakeup_line data_line sscanf
      clusters_format cluster_info_format wakeup_format
  energy_line p buffer =
      if is_ignored buffer
      then accept p
      else if strstr buffer (bytes "clusters")
      then clusters_line fresh p (sscanf {D = D} buffer clusters_format)
      else if strstr buffer (bytes "cluster") && not (strstr buffer (bytes "cluster-"))
      then cluster_info_line p (sscanf {D = D} buffer cluster_info_format)
      else if strstr buffer (bytes "P-states")
      then start_pstates p
      else if strstr buffer (bytes "C-states")
      then start_cstates p
      else if strstr buffer (bytes "wakeup")
      then wakeup_line p (sscanf {D = D} buffer wakeup_format)
      else data_line p buffer

  unfoldable pub energy_lines : EnergyParser → List (List ℕ) → Parsing
  unfolding energy_line
  energy_lines p [] = accept p
  energy_lines p (buffer ∷ lines) =
      energy_line p buffer >>= λ r. with_ptr r λ q. energy_lines q lines

  abbrev pub start_parser : EnergyParser
  start_parser = record {
    table = [];
    clusters = 0;
    tmp = none;
    number_cap_states = none;
    number_c_states = none;
    current_cluster = minus_one;
    clustp = none;
    current_pstate = 0;
    current_cstate = 0;
  }

  -- The table of a file that can be opened.
  unfoldable pub parse_energy_model : List (List ℕ) → Option (Ptr (List ParsedCluster))
  unfolding energy_lines
  parse_energy_model lines =
      energy_lines start_parser lines >>= λ r. with_ptr r λ p. some (ptr p.table)
