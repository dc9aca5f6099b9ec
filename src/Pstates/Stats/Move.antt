-- ===== src/Pstates/Stats/Move.antt =====
-- A group that is running changes to another frequency or stops (idlestat.c: `record_group_freq`).
use idlestat.Base.{
  ℕ, zero, suc, ◌≡◌, refl, Option, none, some, List, [], ◌∷◌, length, ◌<◌, arith, ap, ◌∙◌, sym,
  get_elem?, ◌≢◌,
}
use idlestat.Base.Int.{ℤ, pos, negsuc, minus_one}
use idlestat.Base.Double.{Double}
use idlestat.Pstates.{CpufreqPstate, CpufreqPstates, found, find_slot, switch_group}
use idlestat.Pstates.Table.{Ascends, IsIndex, freqs, freq_at}
use idlestat.Pstates.Group.{
  current_freq, closed, freqs-closed, reopened, switch_group-move, freq_at-freqs,
}
use idlestat.Pstates.Stats.Stay.{IsLeft, closed-IsLeft}
use idlestat.Pstates.Stats.{Group, Has-get_elem?, leave, Tracks, Has-above}

module _ {D : Type 0} ⦃d : Double D⦄ where
  -- What the call leaves open: the machine's state is the frequency `opt`, entered at `from`.
  pub reopened-Tracks :
      (s : CpufreqPstates D) (log : List (ℕ × D)) (next : ℤ) (time from : D) (opt : Option ℕ)
      → IsLeft s log
      → IsIndex next s.pstate
      → current_freq (reopened s next time) ≡ opt
      → (reopened s next time).time_enter ≡ from
      → Tracks (reopened s next time) (record { current = opt; entered = from; log = log })
  unfolding reopened
  reopened-Tracks s log (pos n) time from opt l i e f = record {
    table = record { ascends = l.table.ascends; numbered = l.table.numbered; index = i };
    current_is = e;
    entered_is = f;
    summaries = l.summaries;
    listed = l.listed;
  }
  reopened-Tracks s log (negsuc n) time from opt l i e f = record {
    table = record { ascends = l.table.ascends; numbered = l.table.numbered; index = i };
    current_is = e;
    entered_is = f;
    summaries = l.summaries;
    listed = l.listed;
  }

  pub find_slot-found :
      (ps : List (CpufreqPstate D)) (c f lo : ℕ)
      → freq_at ps c ≡ some f
      → Ascends lo ps
      → find_slot f ps ≡ found c
  unfolding find_slot
  find_slot-found [] c f lo e a = absurd (ground arith)
  find_slot-found (p ∷ ps) zero f lo e a = ground arith
  find_slot-found (p ∷ ps) (suc c) f lo e a = ground (
    arith,
    find_slot-found ps c f (suc p.freq) e a.1,
    Has-above f (suc p.freq) ps a.1 (Has-get_elem? (freqs ps) c f (sym (freq_at-freqs ps c) ∙ e)),
  )

  pub lt-of_freq_at :
      (ps : List (CpufreqPstate D)) (i f : ℕ) → freq_at ps i ≡ some f → i < length ps
  lt-of_freq_at [] i f e = absurd (ground arith)
  lt-of_freq_at (p ∷ ps) zero f e = omega arith
  lt-of_freq_at (p ∷ ps) (suc i) f e = omega (arith, lt-of_freq_at ps i f e)

  pub current_freq-at :
      (s : CpufreqPstates D) (i f : ℕ)
      → s.current ≡ pos i
      → freq_at s.pstate i ≡ some f
      → current_freq s ≡ some f
  current_freq-at s i f e h = ground arith

  pub freq_at-closed :
      (s : CpufreqPstates D) (time : D) (k : ℕ) (p : CpufreqPstate D) (i : ℕ)
      → get_elem? s.pstate k ≡ some p
      → freq_at (closed s time k p).pstate i ≡ freq_at s.pstate i
  freq_at-closed s time k p i at =
      freq_at-freqs (closed s time k p).pstate i
      ∙ ap (λ fs. get_elem? fs i) (freqs-closed s time k p at)
      ∙ sym (freq_at-freqs s.pstate i)

  -- The group leaves `f` for the known frequency at index `i`, or for none.
  pub move-Tracks :
      (s : CpufreqPstates D) (g : Group D) (time : D) (c k i f freq : ℕ) (p : CpufreqPstate D)
      → Tracks s g
      → s.current ≡ pos k
      → get_elem? s.pstate k ≡ some p
      → p.freq ≡ f
      → freq_at s.pstate i ≡ some freq
      → c ≢ i
      → (t : CpufreqPstates D) × (switch_group s time (pos c) (pos i) ≡ some t)
        × Tracks t (record { current = some freq; entered = time; log = leave g time f })
  unfolding reopened
  move-Tracks s g time c k i f freq p t cur at is_f known ne =
      let known' : freq_at (closed s time k p).pstate i ≡ some freq =
        freq_at-closed s time k p i at ∙ known in
      (
        reopened (closed s time k p) (pos i) time,
        switch_group-move s time c (pos i) k p (λ e. ne (ground arith)) (ground arith) cur at,
        reopened-Tracks (closed s time k p) (leave g time f) (pos i) time time (some freq)
            (rw (← is_f) (closed-IsLeft s g time k p t at))
            (lt-of_freq_at (closed s time k p).pstate i freq known')
            (current_freq-at (reopened (closed s time k p) (pos i) time) i freq refl known') refl,
      )

  pub stop-Tracks :
      (s : CpufreqPstates D) (g : Group D) (time : D) (k f : ℕ) (p : CpufreqPstate D)
      → Tracks s g
      → s.current ≡ pos k
      → get_elem? s.pstate k ≡ some p
      → p.freq ≡ f
      → (t : CpufreqPstates D) × (switch_group s time (pos k) minus_one ≡ some t)
        × Tracks t (record g { current = none; log = leave g time f })
  unfolding reopened closed
  stop-Tracks s g time k f p t cur at is_f = (
    reopened (closed s time k p) minus_one time,
    switch_group-move s time k minus_one k p (λ e. ground arith) refl cur at,
    reopened-Tracks (closed s time k p) (leave g time f) minus_one time g.entered none
        (rw (← is_f) (closed-IsLeft s g time k p t at)) refl refl (ground (arith, t.entered_is)),
  )
