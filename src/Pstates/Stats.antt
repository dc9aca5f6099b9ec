-- ===== src/Pstates/Stats.antt =====
-- The statistics of a core or a cluster against an abstract machine, which keeps the frequency in
-- use, when it was entered, and the list of all completed stays.
use mathlib.Core.Logic.{◌⊎◌}
use mathlib.Core.Option.{some-injective}
use mathlib.Core.Path.{subst}
use idlestat.Base.{
  ℕ, zero, suc, ◌+◌, ◌≡◌, refl, Bool, true, false, Option, none, some, List, [], ◌∷◌, ◌++◌, ltb,
  leb, ◌==◌, if◌then◌else◌, map?, length, ◌<◌, ◌≤◌, map, arith, ap, ◌∙◌, ◌↔◌, sym, inl, inr, All,
  get_elem?, set, get_elem?_total, Bool-cases, ◌≢◌, Option-cases, lt→ltb,
}
use idlestat.Base.Int.{ℤ, pos, negsuc, minus_one, leb_ℤ, eq_ℤ, eq_ℤ-eq}
use idlestat.Base.Double.{Double, usec_per_sec}
use idlestat.Summary.{IsSummary, IsSummary-nil, IsSummary-snoc, snoc}
use idlestat.Pstates.{
  CpufreqPstate, CpufreqPstates, Slot, found, vacant, find_slot, next_slot, alloc_pstate,
  add_sample, fresh_pstate, elapsed_since, switch_group, record_group_freq, empty_pstates, renumber,
  open_next_pstate, open_current_pstate,
}
use idlestat.Pstates.Table.{
  Ascends, IsIndex, IsTable, freqs, freq_at, insert_freq, current_entry, slot_index, placed,
  moved_ℤ,
}
use idlestat.Pstates.Alloc.{
  alloc_pstate_lem, alloc_pstate-index, alloc_pstate-time_enter, pstate-alloc_pstate, empty-IsTable,
  current-alloc_pstate,
}
use idlestat.Pstates.Merge.{Has, Has-insert}
use idlestat.Pstates.Group.{
  current_freq, IsJustBelow, closed, closed-IsTable, freqs-closed, reopened, switch_group-same,
  switch_group-open, switch_group-move, record_group_freq-pos, current_freq-pos,
  find_slot-IsJustBelow, freq_at-freqs, set-IsIndex,
}
-- The abstract machine.
pub mod Move
pub mod Step
pub mod Stay

pub record Group (D : Type 0) : Type 0 where
  pub current : Option ℕ
  pub entered : D
  pub log : List (ℕ × D)

-- The stays at a frequency, in order.
abbrev pub samples : {D : Type 0} → ℕ → List (ℕ × D) → List D
samples f [] = []
samples f ((g, x) ∷ l) = if g == f then x ∷ samples f l else samples f l

-- The frequency 0 stands for none.
abbrev pub known_freq : ℕ → Option ℕ
known_freq freq = if ltb 0 freq then some freq else none

pub Has-get_elem? : (fs : List ℕ) (c f : ℕ) → get_elem? fs c ≡ some f → Has f fs
Has-get_elem? [] c f e = ground arith
Has-get_elem? (g ∷ gs) zero f e = inl (some-injective _ _ e)
Has-get_elem? (g ∷ gs) (suc c) f e = inr (Has-get_elem? gs c f e)

pub next_slot-found :
    (s : Slot) (c : ℕ) → next_slot s ≡ found c → (k : ℕ) × (s ≡ found k) × (c ≡ suc k)
next_slot-found (found i) c e = (i, refl, ground arith)
next_slot-found (vacant i) c e = absurd (ground arith)

module _ {D : Type 0} ⦃d : Double D⦄ where
  -- A completed stay is logged unless its length is not above 0.
  abbrev pub log_stay : List (ℕ × D) → ℕ → D → List (ℕ × D)
  log_stay log f elapsed =
      if d.le elapsed (d.of_int (pos 0)) then log else log ++ ((f, elapsed) ∷ [])

  abbrev pub leave : Group D → D → ℕ → List (ℕ × D)
  leave g time f = log_stay g.log f (d.mul (d.sub time g.entered) (d.of_int usec_per_sec))

  abbrev pub enter : Group D → D → Option ℕ → Option ℕ → Group D
  enter g time none none = g
  enter g time none (some n) = record g { current = some n; entered = time }
  enter g time (some f) none = record g { current = none; log = leave g time f }
  enter g time (some f) (some n) =
      if f == n then g else record { current = some n; entered = time; log = leave g time f }

  pub change_freq : Group D → D → ℕ → Group D
  change_freq g time freq = enter g time g.current (known_freq freq)

  abbrev pub Summarises : List (ℕ × D) → CpufreqPstate D → Type 0
  Summarises log p =
      IsSummary p.count p.min_time p.max_time p.avg_time p.duration (samples p.freq log)

  -- The table is an account of the abstract machine.
  pub record Tracks (s : CpufreqPstates D) (g : Group D) : Type 0 where
    pub table : IsTable s
    pub current_is : current_freq s ≡ g.current
    pub entered_is : s.time_enter ≡ g.entered
    pub summaries : All (Summarises g.log) s.pstate
    pub listed : (f : ℕ) → Has f (freqs s.pstate) ⊎ (samples f g.log ≡ [])

  pub Has-above :
      (f lo : ℕ) (ps : List (CpufreqPstate D)) → Ascends lo ps → Has f (freqs ps) → lo ≤ f
  Has-above f lo [] a h = absurd h
  Has-above f lo (p ∷ ps) a (inl e) = omega arith
  Has-above f lo (p ∷ ps) a (inr h) = omega (arith, Has-above f (suc p.freq) ps a.1 h)

  placed-Has :
      (base f lo : ℕ) (ps : List (CpufreqPstate D))
      → Ascends lo ps
      → Has f (freqs ps)
      → placed base f ps ≡ ps
  placed-Has base f lo [] a h = absurd h
  placed-Has base f lo (p ∷ ps) a (inl e) = ground arith
  placed-Has base f lo (p ∷ ps) a (inr h) =
      ground
        (arith, Has-above f (suc p.freq) ps a.1 h, placed-Has (suc base) f (suc p.freq) ps a.1 h)

  renumber-Summarises :
      (log : List (ℕ × D)) (i : ℕ) (ps : List (CpufreqPstate D))
      → All (Summarises log) ps
      → All (Summarises log) (renumber i ps)
  unfolding renumber
  renumber-Summarises log i [] h = tt
  renumber-Summarises log i (p ∷ ps) h = (h.0, renumber-Summarises log (suc i) ps h.1)

  placed-Summarises :
      (log : List (ℕ × D)) (base f : ℕ) (ps : List (CpufreqPstate D))
      → samples f log ≡ []
      → All (Summarises log) ps
      → All (Summarises log) (placed base f ps)
  unfolding fresh_pstate renumber
  placed-Summarises log base f [] e h = (rw e IsSummary-nil, tt)
  placed-Summarises log base f (p ∷ ps) e h = elim (Bool-cases (ltb f p.freq)) [
    | inl k ↦ rw k (rw e IsSummary-nil, (h.0, renumber-Summarises log (suc (suc base)) ps h.1))
    | inr k ↦ elim (Bool-cases (p.freq == f)) [
      | inl m ↦ rw (k, m) h
      | inr m ↦ rw (k, m) (h.0, placed-Summarises log (suc base) f ps e h.1)
    ]
  ]

  pub alloc_pstate-Tracks :
      (s : CpufreqPstates D) (g : Group D) (f : ℕ) → Tracks s g → Tracks (alloc_pstate s f).0 g
  alloc_pstate-Tracks s g f t =
      let (table, _, same, added) = alloc_pstate_lem s f t.table in
      record {
        table = table;
        current_is = ap (map? (λ p. p.freq)) same ∙ t.current_is;
        entered_is = (alloc_pstate-time_enter s f).0 ∙ t.entered_is;
        summaries = rw (pstate-alloc_pstate s f) (elim (t.listed f) [
          | inl has ↦ rw (placed-Has 0 f 0 s.pstate t.table.ascends has) t.summaries
          | inr e ↦ placed-Summarises g.log 0 f s.pstate e t.summaries
        ]);
        listed = λ k. rw added (elim (t.listed k) [
          | inl has ↦ inl ((Has-insert k f (freqs s.pstate)).1 (inr has))
          | inr e ↦ inr e
        ]);
      }
