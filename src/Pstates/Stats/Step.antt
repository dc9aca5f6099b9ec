-- ===== src/Pstates/Stats/Step.antt =====
-- A step of `record_group_freq` (idlestat.c) against a step of the abstract machine.
use mathlib.Core.Option.{some-injective}
use idlestat.Base.{
  ℕ, zero, suc, ◌≡◌, refl, Option, none, some, List, [], ◌∷◌, ltb, ◌==◌, map?, length, ◌<◌, arith,
  ap, ◌∙◌, sym, inl, inr, get_elem?, get_elem?_total, Bool-cases, ◌≢◌, Option-cases, lt→ltb,
}
use idlestat.Base.Int.{ℤ, pos, negsuc, minus_one}
use idlestat.Base.Double.{Double}
use idlestat.Pstates.{
  CpufreqPstate, CpufreqPstates, Slot, found, vacant, find_slot, alloc_pstate, switch_group,
  record_group_freq, empty_pstates, open_next_pstate,
}
use idlestat.Pstates.Table.{IsTable, freqs, freq_at, slot_index}
use idlestat.Pstates.Alloc.{alloc_pstate_lem, alloc_pstate-index}
use idlestat.Pstates.Group.{
  current_freq, IsJustBelow, switch_group-same, switch_group-open, record_group_freq-pos,
  current_freq-pos, find_slot-IsJustBelow,
}
use idlestat.Pstates.Stats.{
  Group, known_freq, next_slot-found, enter, change_freq, Tracks, alloc_pstate-Tracks,
}
use idlestat.Pstates.Stats.Move.{
  find_slot-found, lt-of_freq_at, current_freq-at, move-Tracks, stop-Tracks,
}

module _ {D : Type 0} ⦃d : Double D⦄ where
  current_entry-at :
      (s : CpufreqPstates D) (k f : ℕ)
      → freq_at s.pstate k ≡ some f
      → (p : CpufreqPstate D) × (get_elem? s.pstate k ≡ some p) × (p.freq ≡ f)
  current_entry-at s k f e = elim (Option-cases (get_elem? s.pstate k)) [
    | inl n ↦ absurd (ground arith)
    | inr (p, h) ↦ (p, h, ground arith)
  ]

  record_group_freq-zero :
      (s : CpufreqPstates D) (time : D)
      → record_group_freq s time 0 ≡ switch_group s time s.current minus_one
  unfolding record_group_freq
  record_group_freq-zero s time = refl

  abbrev Steps : CpufreqPstates D → Group D → D → ℕ → Type 0
  Steps s g time freq =
      (t : CpufreqPstates D) × (record_group_freq s time freq ≡ some t)
      × Tracks t (change_freq g time freq)

  change_freq-eq :
      (g : Group D) (time : D) (freq : ℕ) (o : Option ℕ)
      → g.current ≡ o
      → change_freq g time freq ≡ enter g time o (known_freq freq)
  unfolding change_freq
  change_freq-eq g time freq o e = rw e

  stop-Steps :
      (s : CpufreqPstates D) (g : Group D) (time : D) (c : ℤ)
      → Tracks s g
      → s.current ≡ c
      → Steps s g time 0
  stop-Steps s g time (pos k) t e =
      let at_k : k < length s.pstate = rw e at t.table.index in
      let (p, at) = get_elem?_total s.pstate k at_k in
      let cur : g.current ≡ some p.freq =
        sym t.current_is ∙ current_freq-at s k p.freq e (ap (map? (λ q. q.freq)) at) in
      let (r, eq, tr) = stop-Tracks s g time k p.freq p t e at refl in
      (
        r,
        record_group_freq-zero s time ∙ ap (λ c. switch_group s time c minus_one) e ∙ eq,
        rw (change_freq-eq g time 0 _ cur) tr,
      )
  stop-Steps s g time (negsuc n) t e =
      let n_is : n ≡ 0 = rw e at t.table.index in
      let cur : g.current ≡ none = sym t.current_is ∙ ground arith in
      (
        s,
        record_group_freq-zero s time
            ∙ switch_group-same s time s.current minus_one (e ∙ ap negsuc n_is),
        rw (change_freq-eq g time 0 _ cur) t,
      )

  opened-Tracks :
      (s : CpufreqPstates D) (g : Group D) (time : D) (i freq : ℕ)
      → Tracks s g
      → freq_at s.pstate i ≡ some freq
      → Tracks (open_next_pstate s (pos i) time) (record g { current = some freq; entered = time })
  unfolding open_next_pstate
  opened-Tracks s g time i freq t at = record {
    table = record {
      ascends = t.table.ascends;
      numbered = t.table.numbered;
      index = lt-of_freq_at s.pstate i freq at;
    };
    current_is = current_freq-at (record s { current = pos i; time_enter = time }) i freq refl at;
    entered_is = refl;
    summaries = t.summaries;
    listed = t.listed;
  }

  freq_at-find_slot :
      (ps : List (CpufreqPstate D)) (i f : ℕ) → find_slot f ps ≡ found i → freq_at ps i ≡ some f
  unfolding find_slot
  freq_at-find_slot [] i f e = absurd (ground arith)
  freq_at-find_slot (p ∷ ps) i f e = elim (Bool-cases (ltb f p.freq)) [
    | inl k ↦ absurd (ground arith)
    | inr k ↦ elim (Bool-cases (p.freq == f)) [
      | inl m ↦ let z : i ≡ 0 = ground arith in rw z (ground arith)
      | inr m ↦
          let (j, e', c') = next_slot-found (find_slot f ps) i (ground arith) in
          rw c' (freq_at-find_slot ps j f e')
    ]
  ]

  -- The slot is the current index only if the frequency stays or comes just below.
  index-ne :
      (s : CpufreqPstates D) (c h freq : ℕ)
      → IsTable s
      → freq_at s.pstate c ≡ some h
      → h ≢ freq
      → ¬ IsJustBelow freq h (freqs s.pstate)
      → (slot : Slot) → find_slot freq s.pstate ≡ slot
      → c ≢ slot_index slot
  index-ne s c h freq t at ne seen (found i) e k =
      ne (
        some-injective _ _ (sym at ∙ ap (freq_at s.pstate) k ∙ freq_at-find_slot s.pstate i freq e))
  index-ne s c h freq t at ne seen (vacant i) e k =
      seen (find_slot-IsJustBelow s.pstate i freq h 0 e (rw (← k) at) t.ascends)

  go-Steps :
      (s : CpufreqPstates D) (g : Group D) (time : D) (freq : ℕ) (c : ℤ)
      → Tracks s g
      → 0 < freq
      → ((h : ℕ) → current_freq s ≡ some h → ¬ IsJustBelow freq h (freqs s.pstate))
      → s.current ≡ c
      → Steps s g time freq
  go-Steps s g time freq (negsuc n) t l seen e =
      let q = (alloc_pstate s freq).0 in
      let i = (alloc_pstate s freq).1 in
      let tq = alloc_pstate-Tracks s g freq t in
      let (_, at, _, _) = alloc_pstate_lem s freq t.table in
      let n_is : n ≡ 0 = rw e at t.table.index in
      let cur : g.current ≡ none = sym t.current_is ∙ ground arith in
      (
        open_next_pstate q (pos i) time,
        record_group_freq-pos s time freq l
            ∙ ap (λ m. switch_group q time m (pos i)) (e ∙ ap negsuc n_is)
            ∙ switch_group-open q time i,
        rw (change_freq-eq g time freq _ cur, lt→ltb 0 freq l)
            (opened-Tracks q g time i freq tq at),
      )
  go-Steps s g time freq (pos c) t l seen e =
      let q = (alloc_pstate s freq).0 in
      let i = (alloc_pstate s freq).1 in
      let tq = alloc_pstate-Tracks s g freq t in
      let (_, known, _, _) = alloc_pstate_lem s freq t.table in
      let (p, at) = get_elem?_total s.pstate c (rw e at t.table.index) in
      let at_c : freq_at s.pstate c ≡ some p.freq = ap (map? (λ q. q.freq)) at in
      let cur_s = current_freq-at s c p.freq e at_c in
      let cur : g.current ≡ some p.freq = sym t.current_is ∙ cur_s in
      let shape : record_group_freq s time freq ≡ switch_group q time (pos c) (pos i) =
        record_group_freq-pos s time freq l ∙ ap (λ m. switch_group q time m (pos i)) e in
      elim (Bool-cases (p.freq == freq)) [
        | inl same ↦
            let f_is : p.freq ≡ freq = ground arith in
            let index : i ≡ c =
              alloc_pstate-index s freq
              ∙ ap slot_index
                  (find_slot-found s.pstate c freq 0 (at_c ∙ ap some f_is) t.table.ascends) in
            (
              q,
              shape ∙ switch_group-same q time (pos c) (pos i) (ap pos (sym index)),
              rw (change_freq-eq g time freq _ cur, lt→ltb 0 freq l, same) tq,
            )
        | inr moves ↦
            let f_ne : p.freq ≢ freq = ground arith in
            let index : c ≢ i =
              rw (alloc_pstate-index s freq)
                (index-ne s c p.freq freq t.table at_c f_ne (seen p.freq cur_s) _ refl) in
            let (k, cur_q, at_k) = current_freq-pos q p.freq (tq.current_is ∙ cur) in
            let (r, at_r, is_f) = current_entry-at q k p.freq at_k in
            let (u, eq, tr) =
              move-Tracks q g time c k i p.freq freq r tq cur_q at_r is_f known index in
            (u, shape ∙ eq, rw (change_freq-eq g time freq _ cur, lt→ltb 0 freq l, moves) tr)
      ]

  -- `record_group_freq` refines the abstract machine. If the table accounts for the machine, and
  -- the new frequency does not come just below the current one in the table, then the call returns,
  -- and the new table accounts for the machine after the same change: it is in order, its current
  -- state is the machine's, and the count, minimum, maximum, average and total of every frequency
  -- are those of the stays logged for it.
  pub record_group_freq-Tracks :
      (s : CpufreqPstates D) (g : Group D) (time : D) (freq : ℕ)
      → Tracks s g
      → ((h : ℕ) → 0 < freq → current_freq s ≡ some h → ¬ IsJustBelow freq h (freqs s.pstate))
      → (t : CpufreqPstates D) × (record_group_freq s time freq ≡ some t)
        × Tracks t (change_freq g time freq)
  record_group_freq-Tracks s g time zero t seen = stop-Steps s g time s.current t refl
  record_group_freq-Tracks s g time (suc f) t seen =
      go-Steps s g time (suc f) s.current t (omega arith) (λ h. seen h (omega arith)) refl

  -- The table of `build_pstate_info` accounts for the machine before any event.
  pub empty-Tracks : Tracks empty_pstates (record { current = none; entered = d.nought; log = [] })
  unfolding empty_pstates
  empty-Tracks = record {
    table = record { ascends = tt; numbered = tt; index = refl };
    current_is = refl;
    entered_is = refl;
    summaries = tt;
    listed = λ f. inr refl;
  }
