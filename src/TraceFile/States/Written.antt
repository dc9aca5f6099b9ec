-- ===== src/TraceFile/States/Written.antt =====
-- `load_and_build_cstate_info` (tracefile_idlestat.c) on the lines of `output_cstate_info` (idlestat.c).
use idlestat.Base.{
  ℕ, zero, suc, ◌+◌, ◌^◌, ◌≤◌, ◌<◌, ◌≡◌, ◌≢◌, refl, true, false, Option, none, some, List, [], ◌∷◌,
  ◌++◌, append_assoc, if◌then◌else◌, map?, length, eq_bytes, bytes, arith, All, ap, ◌∙◌, Bool-cases,
  inl, inr,
}
use idlestat.Base.Int.{ℤ, pos}
use idlestat.Base.Double.{Double}
use idlestat.Base.Ptr.{ptr, fgets}
use idlestat.Base.Scan.{
  Strtod, int_value, word_value, scanned, sscanf, scan_from, skip_blanks, convert, span_word,
  is_blank, read_int, blank, lit,
}
use idlestat.Base.Scan.Decimal.{print_int, scan_from-print_int, skip_blanks-print_int, IsInt}
use idlestat.Cstates.{
  CpuidleCstate, CpuidleCstates, maxcstate, fresh_states, idle_cstates, build_from,
}
use idlestat.Topology.{CpuTopology}
use idlestat.Topology.Build.{cpu_is_online}
use idlestat.TraceFile.States.{
  name_format, residency_format, cpuid_format, as_name, stored_name, print_name, write_cstate_info,
  write_states, cpuid_line, output_cstates, load_states, load_cpus, load_cpu, cons_cpu,
  zero_cstates, is_cpuid,
}

-- No white space.
abbrev pub IsWord : List ℕ → Type 0
IsWord = All (λ c. is_blank c ≡ false)

-- A name that a file can hold: a word of less than 128 bytes, which is not `(null)`, or no name.
abbrev pub IsName : Option (List ℕ) → Type 0
IsName none = Unit
IsName (some w) = (w ≢ []) × IsWord w × (length w < 128) × (eq_bytes w (bytes "(null)") ≡ false)

span_word-append :
    (n : ℕ) (w : List ℕ) → IsWord w → length w < n → span_word n (w ++ 10 ∷ []) ≡ (w, 10 ∷ [])
unfolding span_word
span_word-append zero w h l = elim l [ ]
span_word-append (suc n) [] h l = refl
span_word-append (suc n) (c ∷ w) h l = ground (arith, span_word-append n w h.1)

skip_blanks-solid : (c : ℕ) (s : List ℕ) → is_blank c ≡ false → skip_blanks (c ∷ s) ≡ c ∷ s
unfolding skip_blanks
skip_blanks-solid c s h = ground arith

module _ {D : Type 0} ⦃t : Strtod D⦄ where
  sscanf-name :
      (w : List ℕ)
      → w ≢ []
      → IsWord w
      → length w < 128
      → sscanf {D = D} (9 ∷ (w ++ 10 ∷ [])) name_format ≡ scanned (word_value w ∷ [])
  unfolding sscanf scan_from skip_blanks convert name_format
  sscanf-name [] n h l = absurd (n refl)
  sscanf-name (c ∷ w) n h l =
      rw (scan_from, skip_blanks-solid c (w ++ 10 ∷ []) h.0, skip_blanks-solid c (w ++ 10 ∷ []) h.0)
        (rw (span_word-append 256 (c ∷ w) h (omega arith)) refl)

  sscanf-residency :
      (i : ℤ)
      → IsInt i
      → sscanf {D = D} (9 ∷ (print_int i ++ 10 ∷ [])) residency_format ≡ scanned (int_value i ∷ [])
  unfolding sscanf scan_from skip_blanks residency_format
  sscanf-residency i h =
      ap (λ s. scan_from {D = D} (read_int ∷ blank ∷ []) s []) (skip_blanks-print_int i (10 ∷ []))
      ∙ scan_from-print_int i (10 ∷ []) (blank ∷ []) [] h refl

  sscanf-cpuid :
      (cpu : ℕ)
      → cpu < 2 ^ 31
      → sscanf {D = D} (cpuid_line cpu) cpuid_format ≡ scanned (int_value (pos cpu) ∷ [])
  unfolding sscanf scan_from skip_blanks convert cpuid_format cpuid_line print_int
  sscanf-cpuid cpu h =
      ap (λ s. scan_from {D = D} (read_int ∷ lit 58 ∷ blank ∷ []) s [])
        (skip_blanks-print_int (pos cpu) (58 ∷ 10 ∷ []))
      ∙ scan_from-print_int (pos cpu) (58 ∷ 10 ∷ []) (lit 58 ∷ blank ∷ []) [] h refl

sscanf-null :
    (D : Type 0) ⦃t : Strtod D⦄
    → sscanf {D = D} (9 ∷ (bytes "(null)" ++ 10 ∷ [])) name_format
      ≡ scanned (word_value (bytes "(null)") ∷ [])
unfolding sscanf scan_from skip_blanks convert name_format span_word
sscanf-null D = refl

-- The name that a written name is stored as.
as_name-print :
    (D : Type 0) ⦃t : Strtod D⦄ (o : Option (List ℕ))
    → IsName o
    → (w : List ℕ) × (as_name (sscanf {D = D} (9 ∷ (print_name o ++ 10 ∷ [])) name_format) ≡ some w)
      × (stored_name w ≡ o)
unfolding print_name stored_name eq_bytes
as_name-print D none h = (bytes "(null)", ap as_name (sscanf-null D), refl)
as_name-print D (some w) (n, h, l, q) =
    (w, ap as_name (sscanf-name w n h l) ∙ ground arith, ground arith)

-- What can be stored of the states of a CPU, or of all CPUs.
abbrev pub IsStorable : (ℕ → Option (List ℕ)) → (ℕ → ℤ) → Type 0
IsStorable name residency = (j : ℕ) → IsName (name j) × IsInt (residency j)

module _ {D : Type 0} ⦃d : Double D⦄ ⦃t : Strtod D⦄ where
  load_states-written :
      (name : ℕ → Option (List ℕ)) (residency : ℕ → ℤ) (i n : ℕ) (buffer : List ℕ)
      (rest : List (List ℕ))
      → IsStorable name residency
      → (b : List ℕ) × (load_states {D = D} n buffer
            (write_states {D = D} (fresh_states name residency i n) ++ rest)
          ≡ some (fresh_states name residency i n, b, rest))
  unfolding load_states write_states write_cstate_info fresh_states
  load_states-written name residency i zero buffer rest h = (buffer, refl)
  load_states-written name residency i (suc n) buffer rest h =
      let (w, e, g) = as_name-print D (name i) (h i).0 in
      let (b, q) =
        load_states-written name residency (suc i) n (9 ∷ (print_int (residency i) ++ 10 ∷ [])) rest
          h in
      (b, rw (e, sscanf-residency (residency i) (h i).1, q, g) refl)

is_cpuid_self : (cpu : ℕ) → is_cpuid cpu (some (pos cpu)) ≡ true
unfolding is_cpuid
is_cpuid_self cpu = ground arith

-- A function of the first line and the others.
abbrev pub with_first :
    {A : Type 0} → (List ℕ → List (List ℕ) → Option A) → List (List ℕ) → Option A
with_first f [] = none
with_first f (b ∷ l) = f b l

with_first-map :
    {A B : Type 0} (g : A → B) (f : List ℕ → List (List ℕ) → Option A)
    (h : List ℕ → List (List ℕ) → Option B) (ls : List (List ℕ))
    → ((b : List ℕ) (l : List (List ℕ)) → h b l ≡ map? g (f b l))
    → with_first h ls ≡ map? g (with_first f ls)
with_first-map g f h [] e = refl
with_first-map g f h (b ∷ l) e = e b l

with_first-fgets :
    {A : Type 0} (f : List ℕ → List (List ℕ) → Option A) (b : List ℕ) (xs : List (List ℕ))
    (next : List ℕ) (rest : List (List ℕ))
    → (let (b', l') = fgets b (xs ++ next ∷ rest) in f b' l') ≡ with_first f (xs ++ next ∷ rest)
with_first-fgets f b [] next rest = refl
with_first-fgets f b (x ∷ xs) next rest = refl

module _ {D : Type 0} ⦃d : Double D⦄ where
  -- The states that a file keeps: those of the CPUs that are online.
  abbrev pub stored_cpus :
      CpuTopology D → (ℕ → ℕ → Option (List ℕ)) → (ℕ → ℕ → ℤ) → ℕ → ℕ → List (CpuidleCstates D)
  stored_cpus topo name residency cpu zero = []
  stored_cpus topo name residency cpu (suc n) =
      (if cpu_is_online topo cpu
        then idle_cstates (fresh_states (name cpu) (residency cpu) 0 maxcstate)
        else zero_cstates)
      ∷ stored_cpus topo name residency (suc cpu) n

  output_cstates-cons :
      (topo : CpuTopology D) (cpu : ℕ) (s : CpuidleCstates D) (rest : List (CpuidleCstates D))
      → output_cstates topo cpu (s ∷ rest) ≡ (
          if cpu_is_online topo cpu
          then cpuid_line cpu ∷ (write_states s.cstate ++ output_cstates topo (suc cpu) rest)
          else output_cstates topo (suc cpu) rest)
  unfolding output_cstates
  output_cstates-cons topo cpu s rest = refl

  build_from-suc :
      (name : ℕ → ℕ → Option (List ℕ)) (residency : ℕ → ℕ → ℤ) (cpu n : ℕ)
      → build_from {D = D} name residency cpu (suc n)
        ≡ idle_cstates (fresh_states (name cpu) (residency cpu) 0 maxcstate)
          ∷ build_from name residency (suc cpu) n
  unfolding build_from
  build_from-suc name residency cpu n = refl

module _ {D : Type 0} ⦃d : Double D⦄ ⦃t : Strtod D⦄ where
  load_cpu-offline :
      (topo : CpuTopology D) (cpu : ℕ) (b : List ℕ) (l : List (List ℕ))
      → cpu_is_online topo cpu ≡ false
      → load_cpu topo cpu b l ≡ some (ptr (zero_cstates, b, l))
  unfolding load_cpu
  load_cpu-offline topo cpu b l e = rw e refl

  load_cpu-online :
      (topo : CpuTopology D) (cpu : ℕ) (l : List (List ℕ)) (states : List (CpuidleCstate D))
      (b1 : List ℕ) (l1 : List (List ℕ))
      → cpu_is_online topo cpu ≡ true
      → cpu < 2 ^ 31
      → load_states maxcstate (cpuid_line cpu) l ≡ some (states, b1, l1)
      → load_cpu topo cpu (cpuid_line cpu) l
        ≡ (let (b', l') = fgets b1 l1 in some (ptr (idle_cstates states, b', l')))
  unfolding load_cpu
  load_cpu-online topo cpu l states b1 l1 e h q =
      rw (e, sscanf-cpuid {D = D} cpu h, q) (rw (is_cpuid_self cpu) refl)

  load_cpus-suc :
      (topo : CpuTopology D) (cpu n : ℕ) (b : List ℕ) (l : List (List ℕ)) (s : CpuidleCstates D)
      (b' : List ℕ) (l' : List (List ℕ))
      → load_cpu topo cpu b l ≡ some (ptr (s, b', l'))
      → load_cpus topo cpu (suc n) b l ≡ map? (cons_cpu s) (load_cpus topo (suc cpu) n b' l')
  unfolding load_cpus
  load_cpus-suc topo cpu n b l s b' l' e = rw (load_cpus, e) refl

module _ {D : Type 0} ⦃d : Double D⦄ ⦃t : Strtod D⦄ (topo read : CpuTopology D)
    (same : (cpu : ℕ) → cpu_is_online read cpu ≡ cpu_is_online topo cpu)
    (name : ℕ → ℕ → Option (List ℕ)) (residency : ℕ → ℕ → ℤ) (next : List ℕ) (rest : List (List ℕ))
    (storable : (cpu : ℕ) → IsStorable (name cpu) (residency cpu)) where
  -- The lines of the CPUs from one on, and the line after them.
  abbrev pub written : ℕ → ℕ → List (List ℕ)
  written cpu n = output_cstates topo cpu (build_from name residency cpu n) ++ next ∷ rest

  abbrev pub IsLoaded : ℕ → ℕ → Type 0
  IsLoaded cpu n =
      with_first (load_cpus read cpu n) (written cpu n)
      ≡ some (ptr (stored_cpus topo name residency cpu n, next, rest))

  load_cpus-offline :
      (cpu n : ℕ) → cpu_is_online topo cpu ≡ false → IsLoaded (suc cpu) n → IsLoaded cpu (suc n)
  load_cpus-offline cpu n e ih =
      let states = fresh_states (name cpu) (residency cpu) 0 maxcstate in
      let lines : written cpu (suc n) ≡ written (suc cpu) n =
        ap (λ l. l ++ next ∷ rest)
          (ap (output_cstates topo cpu) (build_from-suc name residency cpu n)
            ∙ output_cstates-cons topo cpu (idle_cstates states)
                (build_from name residency (suc cpu) n)
            ∙ rw e refl) in
      ap (with_first (load_cpus read cpu (suc n))) lines
      ∙ with_first-map (cons_cpu zero_cstates) (load_cpus read (suc cpu) n)
          (load_cpus read cpu (suc n)) (written (suc cpu) n)
          (λ b l.
            load_cpus-suc read cpu n b l zero_cstates b l
              (load_cpu-offline read cpu b l (same cpu ∙ e)))
      ∙ ap (map? (cons_cpu zero_cstates)) ih
      ∙ rw e refl

  load_cpus-online :
      (cpu n : ℕ)
      → cpu < 2 ^ 31
      → cpu_is_online topo cpu ≡ true
      → IsLoaded (suc cpu) n
      → IsLoaded cpu (suc n)
  load_cpus-online cpu n h e ih =
      let states = fresh_states (name cpu) (residency cpu) 0 maxcstate in
      let tail = output_cstates topo (suc cpu) (build_from name residency (suc cpu) n) in
      let lines : output_cstates topo cpu (build_from name residency cpu (suc n))
          ≡ cpuid_line cpu ∷ (write_states states ++ tail) =
        ap (output_cstates topo cpu) (build_from-suc name residency cpu n)
        ∙ output_cstates-cons topo cpu (idle_cstates states) (build_from name residency (suc cpu) n)
        ∙ rw e refl in
      let (b, q) =
        load_states-written {D = D} (name cpu) (residency cpu) 0 maxcstate (cpuid_line cpu)
          (tail ++ next ∷ rest) (storable cpu) in
      ap (λ l. with_first (load_cpus read cpu (suc n)) (l ++ next ∷ rest)) lines
      ∙ ap (load_cpus read cpu (suc n) (cpuid_line cpu))
          (append_assoc (write_states states) tail (next ∷ rest))
      ∙ load_cpus-suc read cpu n (cpuid_line cpu) (write_states states ++ (tail ++ next ∷ rest))
          (idle_cstates states) (fgets b (tail ++ next ∷ rest)).0 (fgets b (tail ++ next ∷ rest)).1
          (load_cpu-online read cpu (write_states states ++ (tail ++ next ∷ rest)) states b
            (tail ++ next ∷ rest) (same cpu ∙ e) h q)
      ∙ ap (map? (cons_cpu (idle_cstates states)))
          (with_first-fgets (load_cpus read (suc cpu) n) b tail next rest ∙ ih)
      ∙ rw e refl

  pub load_cpus-written : (cpu n : ℕ) → cpu + n ≤ 2 ^ 31 → IsLoaded cpu n
  unfolding load_cpus output_cstates build_from
  load_cpus-written cpu zero h = refl
  load_cpus-written cpu (suc n) h = elim (Bool-cases (cpu_is_online topo cpu)) [
    | inl e ↦ load_cpus-online cpu n (omega arith) e (load_cpus-written (suc cpu) n (omega arith))
    | inr e ↦ load_cpus-offline cpu n e (load_cpus-written (suc cpu) n (omega arith))
  ]
