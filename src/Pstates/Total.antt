-- ===== src/Pstates/Total.antt =====
-- `record_group_freq` (idlestat.c) on a table: whether it returns, and what it leaves.
use idlestat.Base.{
  ℕ, zero, suc, ◌≡◌, refl, true, false, Option, some, List, [], ◌∷◌, if◌then◌else◌, ltb, map?,
  length, get_elem?, get_elem?_total, ◌<◌, arith, ap, ◌∙◌, sym, Bool-cases, inl, inr, lt→ltb,
}
use idlestat.Base.Int.{ℤ, pos, negsuc, minus_one, eq_ℤ, eq_ℤ-eq, leb_ℤ}
use idlestat.Base.Double.{Double}
use idlestat.Pstates.{
  elapsed_since, CpufreqPstate, CpufreqPstates, alloc_pstate, open_current_pstate, open_next_pstate,
  switch_group, record_group_freq,
}
use idlestat.Pstates.Table.{
  IsTable, IsIndex, freq_at, freqs, current_entry, entry_of, unnumbered, insert_freq,
}
use idlestat.Pstates.Alloc.{alloc_pstate_lem}
use idlestat.Pstates.Group.{
  current_freq, closed, closed-IsTable, freqs-closed, set-IsIndex, current_freq-pos,
  record_group_freq-pos, switch_group-same, switch_group-open, switch_group-move, reopened,
}

-- The frequencies of the table after a change to `freq`; 0 stands for none.
abbrev pub with_freq : ℕ → List ℕ → List ℕ
with_freq freq fs = if ltb 0 freq then insert_freq freq fs else fs

module _ {D : Type 0} ⦃d : Double D⦄ where
  -- A table with other values of the members that the table does not depend on.
  moved-IsTable :
      (s : CpufreqPstates D) (next : ℤ) (time : D)
      → IsTable s
      → IsIndex next s.pstate
      → IsTable (reopened s next time) × (freqs (reopened s next time).pstate ≡ freqs s.pstate)
  unfolding reopened
  moved-IsTable s (pos n) time h i =
      (record { ascends = h.ascends; numbered = h.numbered; index = i }, refl)
  moved-IsTable s (negsuc n) time h i =
      (record { ascends = h.ascends; numbered = h.numbered; index = i }, refl)

  opened-IsTable :
      (s : CpufreqPstates D) (n : ℕ) (time : D)
      → IsTable s
      → IsIndex (pos n) s.pstate
      → IsTable (open_next_pstate s (pos n) time)
        × (freqs (open_next_pstate s (pos n) time).pstate ≡ freqs s.pstate)
  unfolding open_next_pstate open_current_pstate
  opened-IsTable s n time h i =
      (record { ascends = h.ascends; numbered = h.numbered; index = i }, refl)

  IsIndex-closed :
      (s : CpufreqPstates D) (time : D) (c : ℕ) (p : CpufreqPstate D) (next : ℤ)
      → IsIndex next s.pstate
      → IsIndex next (closed s time c p).pstate
  unfolding closed
  IsIndex-closed s time c p next h =
      elim (Bool-cases (d.le (elapsed_since s time) (d.of_int (pos 0)))) [
        | inl e ↦ rw e h
        | inr e ↦ rw e (set-IsIndex s.pstate next c _ h)
      ]

  -- What a change gives: a table of the same frequencies.
  abbrev Changes : CpufreqPstates D → Option (CpufreqPstates D) → Type 0
  Changes s r =
      (t : CpufreqPstates D) × (r ≡ some t) × IsTable t × (freqs t.pstate ≡ freqs s.pstate)

  -- The current state, where there is one, is closed and another opened, or none.
  move_lem :
      (s : CpufreqPstates D) (time : D) (c k : ℕ) (next : ℤ) (p : CpufreqPstate D)
      → IsTable s
      → IsIndex next s.pstate
      → s.current ≡ pos k
      → get_elem? s.pstate k ≡ some p
      → Changes s (switch_group s time (pos c) next)
  move_lem s time c k next p h i cur at = elim (Bool-cases (eq_ℤ (pos c) next)) [
    | inl e ↦ (s, switch_group-same s time (pos c) next (eq_ℤ-eq (pos c) next e), h, refl)
    | inr e ↦
        let (table, same) =
          moved-IsTable (closed s time k p) next time (closed-IsTable s time k p at h)
            (IsIndex-closed s time k p next i) in
        (
          reopened (closed s time k p) next time,
          switch_group-move s time c next k p (λ q. differs next e q) (known next i) cur at,
          table,
          same ∙ freqs-closed s time k p at,
        )
  ]
    where
      differs : (next : ℤ) → eq_ℤ (pos c) next ≡ false → ¬ (pos c ≡ next)
      differs (pos n) e q = ground arith
      differs (negsuc n) e q = ground arith

      known : (next : ℤ) → IsIndex next s.pstate → leb_ℤ minus_one next ≡ true
      known (pos n) i = ground arith
      known (negsuc n) i = ground arith

  -- No state is current.
  open_lem :
      (s : CpufreqPstates D) (time : D) (next : ℤ)
      → IsTable s
      → IsIndex next s.pstate
      → Changes s (switch_group s time minus_one next)
  open_lem s time (pos n) h i =
      let (table, same) = opened-IsTable s n time h i in
      (open_next_pstate s (pos n) time, switch_group-open s time n, table, same)
  open_lem s time (negsuc n) h i =
      (s, switch_group-same s time minus_one (negsuc n) (ap negsuc (sym i)), h, refl)

  lt-of-freq_at :
      (ps : List (CpufreqPstate D)) (k : ℕ) {g : ℕ} → freq_at ps k ≡ some g → k < length ps
  lt-of-freq_at [] k e = absurd (ground arith)
  lt-of-freq_at (x ∷ xs) zero e = omega arith
  lt-of-freq_at (x ∷ xs) (suc k) e = omega (arith, lt-of-freq_at xs k e)

  -- From the index that was current before an allocation which kept the current entry.
  switch_lem :
      (s t : CpufreqPstates D) (time : D) (cur next : ℤ)
      → IsTable t
      → IsIndex next t.pstate
      → s.current ≡ cur
      → IsIndex cur s.pstate
      → current_entry t ≡ current_entry s
      → Changes t (switch_group t time cur next)
  switch_lem s t time (pos c) next h i is within same =
      let (p, at) = get_elem?_total s.pstate c within in
      let (k, cur, at_k) =
        current_freq-pos t p.freq (ap (map? (λ p. p.freq)) same ∙ freq_is c p is at) in
      let (q, at_q) = get_elem?_total t.pstate k (lt-of-freq_at t.pstate k at_k) in
      move_lem t time c k next q h i cur at_q
    where
      freq_is :
          (c : ℕ) (p : CpufreqPstate D)
          → s.current ≡ pos c
          → get_elem? s.pstate c ≡ some p
          → current_freq s ≡ some p.freq
      freq_is c p is at =
          ap (λ i. map? (λ p. p.freq) (entry_of s.pstate i)) is
          ∙ ap (λ o. map? (λ p. p.freq) (map? unnumbered o)) at
  switch_lem s t time (negsuc n) next h i is within same =
      rw (ap negsuc within) (open_lem t time next h i)

  -- On a table, `record_group_freq` returns for every time and every frequency, also where it loses
  -- the change; it leaves a table, with an entry for the frequency unless that is 0, and with no other
  -- new entry.
  pub record_group_freq_total :
      (s : CpufreqPstates D) (time : D) (freq : ℕ)
      → IsTable s
      → (t : CpufreqPstates D) × (record_group_freq s time freq ≡ some t)
        × IsTable t
        × (freqs t.pstate ≡ with_freq freq (freqs s.pstate))
  record_group_freq_total s time zero h =
      let (t, e, table, same) = switch_lem s s time s.current minus_one h refl refl h.index refl in
      (t, unfold record_group_freq in e, table, same)
  record_group_freq_total s time (suc f) h =
      let (table, at, kept, added) = alloc_pstate_lem s (suc f) h in
      let (a, i) = alloc_pstate s (suc f) in
      let (t, e, ok, same) =
        switch_lem s a time s.current (pos i) table (lt-of-freq_at a.pstate i at) refl h.index
          kept in
      (t, record_group_freq-pos s time (suc f) (omega arith) ∙ e, ok, same ∙ added ∙ known f)
    where
      known : (f : ℕ) → insert_freq (suc f) (freqs s.pstate) ≡ with_freq (suc f) (freqs s.pstate)
      known f = rw (lt→ltb 0 (suc f) (omega arith))
