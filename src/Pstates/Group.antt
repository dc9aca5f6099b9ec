-- ===== src/Pstates/Group.antt =====
-- `close_current_pstate` and `record_group_freq` (idlestat.c): which state a core or a cluster is
-- in after a change of its highest frequency.
use mathlib.Core.Logic.{◌⊎◌}
use idlestat.Base.{
  ℕ, zero, suc, ◌≡◌, refl, true, Option, some, List, [], ◌∷◌, ltb, ◌==◌, if◌then◌else◌, map?, ◌<◌,
  ◌≤◌, arith, ap, ◌∙◌, sym, inl, inr, All, get_elem?, set, length-set, Bool-cases, ◌≢◌, lt→ltb,
}
use idlestat.Base.Int.{ℤ, pos, negsuc, minus_one, leb_ℤ, eq_ℤ}
use idlestat.Base.Double.{Double}
use idlestat.Pstates.{
  CpufreqPstate, CpufreqPstates, Slot, found, vacant, find_slot, next_slot, alloc_pstate,
  add_sample, elapsed_since, close_current_pstate, switch_group, record_group_freq,
  open_next_pstate, open_current_pstate,
}
use idlestat.Pstates.Table.{
  Ascends, IsNumbered, IsIndex, IsTable, freqs, freq_at, insert_freq, current_entry, slot_index,
}
use idlestat.Pstates.Alloc.{alloc_pstate_lem, alloc_pstate-index, alloc_pstate-time_enter}

abbrev pub current_freq : {D : Type 0} → CpufreqPstates D → Option ℕ
current_freq s = map? (λ p. p.freq) (current_entry s)

-- No frequency of the list lies from `f` up to `g`, which is above `f`.
abbrev pub IsJustBelow : ℕ → ℕ → List ℕ → Type 0
IsJustBelow f g fs = (f < g) × All (λ h. (h < f) ⊎ (g ≤ h)) fs

eq_ℤ-refl : (a b : ℤ) → a ≡ b → eq_ℤ a b ≡ true
eq_ℤ-refl a b e = rw e (ground arith)

next_slot-vacant :
    (s : Slot) (c : ℕ) → next_slot s ≡ vacant c → (k : ℕ) × (s ≡ vacant k) × (c ≡ suc k)
next_slot-vacant (found i) c e = absurd (ground arith)
next_slot-vacant (vacant i) c e = (i, refl, ground arith)

module _ {D : Type 0} ⦃d : Double D⦄ where
  set-Ascends :
      (ps : List (CpufreqPstate D)) (c lo : ℕ) (p q : CpufreqPstate D)
      → get_elem? ps c ≡ some p
      → q.freq ≡ p.freq
      → Ascends lo ps
      → Ascends lo (set ps c q)
  set-Ascends [] c lo p q e f h = tt
  set-Ascends (x ∷ xs) zero lo p q e f h = ground arith
  set-Ascends (x ∷ xs) (suc c) lo p q e f h = (h.0, set-Ascends xs c (suc x.freq) p q e f h.1)

  set-IsNumbered :
      (ps : List (CpufreqPstate D)) (c i : ℕ) (p q : CpufreqPstate D)
      → get_elem? ps c ≡ some p
      → q.id ≡ p.id
      → IsNumbered i ps
      → IsNumbered i (set ps c q)
  set-IsNumbered [] c i p q e f h = tt
  set-IsNumbered (x ∷ xs) zero i p q e f h = ground arith
  set-IsNumbered (x ∷ xs) (suc c) i p q e f h = (h.0, set-IsNumbered xs c (suc i) p q e f h.1)

  freqs-set :
      (ps : List (CpufreqPstate D)) (c : ℕ) (p q : CpufreqPstate D)
      → get_elem? ps c ≡ some p
      → q.freq ≡ p.freq
      → freqs (set ps c q) ≡ freqs ps
  freqs-set [] c p q e f = refl
  freqs-set (x ∷ xs) zero p q e f = ground arith
  freqs-set (x ∷ xs) (suc c) p q e f = ap (◌∷◌ x.freq) (freqs-set xs c p q e f)

  pub freq_at-freqs : (ps : List (CpufreqPstate D)) (i : ℕ) → freq_at ps i ≡ get_elem? (freqs ps) i
  freq_at-freqs [] i = refl
  freq_at-freqs (x ∷ xs) zero = refl
  freq_at-freqs (x ∷ xs) (suc i) = freq_at-freqs xs i

  pub set-IsIndex :
      (ps : List (CpufreqPstate D)) (i : ℤ) (c : ℕ) (q : CpufreqPstate D)
      → IsIndex i ps
      → IsIndex i (set ps c q)
  set-IsIndex ps (pos n) c q h = rw (length-set ps c q) h
  set-IsIndex ps (negsuc n) c q h = h

  freq_at-ge :
      (ps : List (CpufreqPstate D)) (c g lo : ℕ) → freq_at ps c ≡ some g → Ascends lo ps → lo ≤ g
  freq_at-ge [] c g lo h a = absurd (ground arith)
  freq_at-ge (p ∷ ps) zero g lo h a = ground arith
  freq_at-ge (p ∷ ps) (suc c) g lo h a = omega (arith, freq_at-ge ps c g (suc p.freq) h a.1)

  Ascends-above :
      (ps : List (CpufreqPstate D)) (f g lo : ℕ)
      → g ≤ lo
      → Ascends lo ps
      → All (λ h. (h < f) ⊎ (g ≤ h)) (freqs ps)
  Ascends-above [] f g lo l a = tt
  Ascends-above (p ∷ ps) f g lo l a =
      (inr (omega arith), Ascends-above ps f g (suc p.freq) (omega arith) a.1)

  -- The new table when the open state is closed: a sample, or nothing where no time has passed.
  unfoldable pub closed : CpufreqPstates D → D → ℕ → CpufreqPstate D → CpufreqPstates D
  closed s time c p =
      if d.le (elapsed_since s time) (d.of_int (pos 0))
      then s
      else record s { pstate = set s.pstate c (add_sample p (elapsed_since s time)) }

  pub close_current_pstate-eq :
      (s : CpufreqPstates D) (time : D) (c : ℕ) (p : CpufreqPstate D)
      → s.current ≡ pos c
      → get_elem? s.pstate c ≡ some p
      → close_current_pstate s time ≡ some (closed s time c p)
  unfolding close_current_pstate closed
  close_current_pstate-eq s time c p e f = ground arith

  pub closed-IsTable :
      (s : CpufreqPstates D) (time : D) (c : ℕ) (p : CpufreqPstate D)
      → get_elem? s.pstate c ≡ some p
      → IsTable s
      → IsTable (closed s time c p)
  unfolding closed add_sample
  closed-IsTable s time c p f h =
      elim (Bool-cases (d.le (elapsed_since s time) (d.of_int (pos 0)))) [
        | inl e ↦ rw e h
        | inr e ↦ rw e (record {
          ascends = set-Ascends s.pstate c 0 p _ f refl h.ascends;
          numbered = set-IsNumbered s.pstate c 0 p _ f refl h.numbered;
          index = set-IsIndex s.pstate s.current c _ h.index;
        })
      ]

  pub freqs-closed :
      (s : CpufreqPstates D) (time : D) (c : ℕ) (p : CpufreqPstate D)
      → get_elem? s.pstate c ≡ some p
      → freqs (closed s time c p).pstate ≡ freqs s.pstate
  unfolding closed add_sample
  freqs-closed s time c p f = elim (Bool-cases (d.le (elapsed_since s time) (d.of_int (pos 0)))) [
    | inl e ↦ rw e
    | inr e ↦ rw e (freqs-set s.pstate c p _ f refl)
  ]

  -- The insertion index is the current one exactly where the new frequency comes just below the
  -- current one.
  pub find_slot-IsJustBelow :
      (ps : List (CpufreqPstate D)) (c f g lo : ℕ)
      → find_slot f ps ≡ vacant c
      → freq_at ps c ≡ some g
      → Ascends lo ps
      → IsJustBelow f g (freqs ps)
  unfolding find_slot
  find_slot-IsJustBelow [] c f g lo e h a = absurd (ground arith)
  find_slot-IsJustBelow (p ∷ ps) c f g lo e h a = elim (Bool-cases (ltb f p.freq)) [
    | inl k ↦
        let z : c ≡ 0 = ground arith in
        let g_is : p.freq ≡ g = ground arith in
        (ground arith, (inr (omega arith), Ascends-above ps f g (suc p.freq) (omega arith) a.1))
    | inr k ↦ elim (Bool-cases (p.freq == f)) [
      | inl m ↦ absurd (ground arith)
      | inr m ↦
          let (j, e', c') = next_slot-vacant (find_slot f ps) c (ground arith) in
          let (l, r) = find_slot-IsJustBelow ps j f g (suc p.freq) e' (ground arith) a.1 in
          (l, (inl (ground arith), r))
    ]
  ]

  IsJustBelow-find_slot :
      (ps : List (CpufreqPstate D)) (c f g lo : ℕ)
      → freq_at ps c ≡ some g
      → Ascends lo ps
      → IsJustBelow f g (freqs ps)
      → find_slot f ps ≡ vacant c
  unfolding find_slot
  IsJustBelow-find_slot [] c f g lo h a b = absurd (ground arith)
  IsJustBelow-find_slot (p ∷ ps) zero f g lo h a b = ground arith
  IsJustBelow-find_slot (p ∷ ps) (suc c) f g lo h a b =
      ground (arith, IsJustBelow-find_slot ps c f g (suc p.freq), freq_at-ge ps c g (suc p.freq))

  pub current_freq-pos :
      (s : CpufreqPstates D) (g : ℕ)
      → current_freq s ≡ some g
      → (c : ℕ) × (s.current ≡ pos c) × (freq_at s.pstate c ≡ some g)
  current_freq-pos s g e = go s.current refl
    where
      go : (i : ℤ) → s.current ≡ i → (c : ℕ) × (s.current ≡ pos c) × (freq_at s.pstate c ≡ some g)
      go (pos c) k = (c, k, ground arith)
      go (negsuc n) k = absurd (ground arith)

  pub record_group_freq-pos :
      (s : CpufreqPstates D) (time : D) (freq : ℕ)
      → 0 < freq
      → record_group_freq s time freq
        ≡ switch_group (alloc_pstate s freq).0 time s.current (pos (alloc_pstate s freq).1)
  unfolding record_group_freq
  record_group_freq-pos s time freq l = rw (lt→ltb 0 freq l)

  pub switch_group-same :
      (s : CpufreqPstates D) (time : D) (cur next : ℤ)
      → cur ≡ next
      → switch_group s time cur next ≡ some s
  unfolding switch_group
  switch_group-same s time cur next e = rw (eq_ℤ-refl cur next e)

  pub switch_group-open :
      (s : CpufreqPstates D) (time : D) (n : ℕ)
      → switch_group s time minus_one (pos n) ≡ some (open_next_pstate s (pos n) time)
  unfolding switch_group
  switch_group-open s time n = ground arith

  -- The state after the close: entered now, or none.
  unfoldable pub reopened : CpufreqPstates D → ℤ → D → CpufreqPstates D
  reopened s (pos n) time = record s { current = pos n; time_enter = time }
  reopened s (negsuc n) time = record s { current = negsuc n }

  pub switch_group-move :
      (s : CpufreqPstates D) (time : D) (c : ℕ) (next : ℤ) (k : ℕ) (p : CpufreqPstate D)
      → pos c ≢ next
      → leb_ℤ minus_one next ≡ true
      → s.current ≡ pos k
      → get_elem? s.pstate k ≡ some p
      → switch_group s time (pos c) next ≡ some (reopened (closed s time k p) next time)
  unfolding switch_group reopened open_current_pstate
  switch_group-move s time c (pos n) k p ne l cur at =
      rw (close_current_pstate-eq s time k p cur at)
        (ground (arith, ap {B = ℤ} pos {x = c} {y = n}))
  switch_group-move s time c (negsuc n) k p ne l cur at =
      rw (close_current_pstate-eq s time k p cur at) (ground arith)

  -- On a table with a current state, `record_group_freq` loses a change to a frequency above 0 that is
  -- not in the table and comes just below the current one: the entry is inserted at the index of the current state, which moves up by one, and
  -- the comparison of the old index with that of the new entry finds no change. The call returns
  -- with the old state still current and still timed from when it was entered.
  pub record_group_freq_lost :
      (s : CpufreqPstates D) (time : D) (freq g : ℕ)
      → IsTable s
      → current_freq s ≡ some g
      → 0 < freq
      → IsJustBelow freq g (freqs s.pstate)
      → (t : CpufreqPstates D) × (record_group_freq s time freq ≡ some t)
        × (current_freq t ≡ some g)
        × (g ≢ freq)
        × (t.time_enter ≡ s.time_enter)
        × (freqs t.pstate ≡ insert_freq freq (freqs s.pstate))
  record_group_freq_lost s time freq g h e l b =
      let (c, cur, at) = current_freq-pos s g e in
      let slot : find_slot freq s.pstate ≡ vacant c =
        IsJustBelow-find_slot s.pstate c freq g 0 at h.ascends b in
      let index : (alloc_pstate s freq).1 ≡ c = alloc_pstate-index s freq ∙ ap slot_index slot in
      let (_, _, same, added) = alloc_pstate_lem s freq h in
      (
        (alloc_pstate s freq).0,
        record_group_freq-pos s time freq l
            ∙ switch_group-same (alloc_pstate s freq).0 time _ _ (cur ∙ ap pos (sym index)),
        rw same e,
        omega (arith, b.0),
        (alloc_pstate-time_enter s freq).0,
        added,
      )
