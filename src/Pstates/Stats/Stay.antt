-- ===== src/Pstates/Stats/Stay.antt =====
-- A completed stay: `close_current_pstate` (idlestat.c) adds it to the statistics of its frequency.
use mathlib.Core.Logic.{◌⊎◌}
use mathlib.Core.Option.{some-injective}
use mathlib.Core.Path.{subst}
use idlestat.Base.{
  ℕ, zero, suc, ◌≡◌, refl, some, List, [], ◌∷◌, ◌++◌, ◌==◌, if◌then◌else◌, map?, ◌<◌, ◌≤◌, arith,
  ap, ◌∙◌, sym, inl, inr, All, get_elem?, set, Bool-cases, ◌≢◌,
}
use idlestat.Base.Int.{pos}
use idlestat.Base.Double.{Double}
use idlestat.Summary.{IsSummary-snoc, snoc}
use idlestat.Pstates.{CpufreqPstate, CpufreqPstates, add_sample, elapsed_since}
use idlestat.Pstates.Table.{Ascends, IsTable, freqs}
use idlestat.Pstates.Merge.{Has}
use idlestat.Pstates.Group.{closed, closed-IsTable, freqs-closed, freq_at-freqs}
use idlestat.Pstates.Stats.{Group, samples, Has-get_elem?, leave, Summarises, Tracks}

module _ {D : Type 0} ⦃d : Double D⦄ where
  samples-snoc :
      (k f : ℕ) (x : D) (log : List (ℕ × D))
      → samples k (log ++ ((f, x) ∷ []))
        ≡ (if f == k then snoc (samples k log) x else samples k log)
  samples-snoc k f x [] = refl
  samples-snoc k f x ((g, y) ∷ l) = ground (arith, samples-snoc k f x l)

  samples-snoc_ne :
      (k f : ℕ) (x : D) (log : List (ℕ × D))
      → f ≢ k
      → samples k (log ++ ((f, x) ∷ [])) ≡ samples k log
  samples-snoc_ne k f x log ne = ground (arith, samples-snoc k f x log)

  samples-snoc_self :
      (k f : ℕ) (x : D) (log : List (ℕ × D))
      → f ≡ k
      → samples k (log ++ ((f, x) ∷ [])) ≡ snoc (samples k log) x
  samples-snoc_self k f x log e = ground (arith, samples-snoc k f x log)

  above-Summarises :
      (log : List (ℕ × D)) (f lo : ℕ) (x : D) (ps : List (CpufreqPstate D))
      → f < lo
      → Ascends lo ps
      → All (Summarises log) ps
      → All (Summarises (log ++ ((f, x) ∷ []))) ps
  above-Summarises log f lo x [] l a h = tt
  above-Summarises log f lo x (p ∷ ps) l a h = (
    rw (samples-snoc_ne p.freq f x log (omega arith)) h.0,
    above-Summarises log f (suc p.freq) x ps (omega arith) a.1 h.1,
  )

  freq-ge :
      (ps : List (CpufreqPstate D)) (c lo : ℕ) (p : CpufreqPstate D)
      → get_elem? ps c ≡ some p
      → Ascends lo ps
      → lo ≤ p.freq
  freq-ge [] c lo p e a = absurd (ground arith)
  freq-ge (q ∷ qs) zero lo p e a = ground arith
  freq-ge (q ∷ qs) (suc c) lo p e a = omega (arith, freq-ge qs c (suc q.freq) p e a.1)

  add_sample-Summarises :
      (log : List (ℕ × D)) (x : D) (p : CpufreqPstate D)
      → Summarises log p
      → Summarises (log ++ ((p.freq, x) ∷ [])) (add_sample p x)
  unfolding add_sample
  add_sample-Summarises log x p h =
      rw (samples-snoc_self p.freq p.freq x log refl) (
        IsSummary-snoc p.count p.min_time p.max_time p.avg_time p.duration (samples p.freq log) x h)

  set-Summarises :
      (log : List (ℕ × D)) (x : D) (ps : List (CpufreqPstate D)) (c lo : ℕ) (p : CpufreqPstate D)
      → get_elem? ps c ≡ some p
      → Ascends lo ps
      → All (Summarises log) ps
      → All (Summarises (log ++ ((p.freq, x) ∷ []))) (set ps c (add_sample p x))
  set-Summarises log x [] c lo p e a h = tt
  set-Summarises log x (q ∷ qs) zero lo p e a h =
      let e' : q ≡ p = some-injective _ _ e in
      subst (λ r. All (Summarises (log ++ ((r.freq, x) ∷ []))) (add_sample r x ∷ qs)) e'
        (
          add_sample-Summarises log x q h.0,
          above-Summarises log q.freq (suc q.freq) x qs (omega arith) a.1 h.1,
        )
  set-Summarises log x (q ∷ qs) (suc c) lo p e a h = (
    rw (samples-snoc_ne q.freq p.freq x log (omega (arith, freq-ge qs c (suc q.freq) p e a.1))) h.0,
    set-Summarises log x qs c (suc q.freq) p e a.1 h.1,
  )

  -- The state once its current entry has been closed, whatever is opened next.
  pub record IsLeft (s : CpufreqPstates D) (log : List (ℕ × D)) : Type 0 where
    pub table : IsTable s
    pub summaries : All (Summarises log) s.pstate
    pub listed : (f : ℕ) → Has f (freqs s.pstate) ⊎ (samples f log ≡ [])

  listed-snoc :
      (fs : List ℕ) (log : List (ℕ × D)) (g : ℕ) (x : D)
      → Has g fs
      → ((f : ℕ) → Has f fs ⊎ (samples f log ≡ []))
      → (f : ℕ) → Has f fs ⊎ (samples f (log ++ ((g, x) ∷ [])) ≡ [])
  listed-snoc fs log g x has h f = elim (h f) [
    | inl y ↦ inl y
    | inr e ↦ elim (Bool-cases (g == f)) [
      | inl k ↦ let e' : g ≡ f = ground arith in inl (rw (← e') has)
      | inr k ↦ inr (samples-snoc_ne f g x log (ground arith) ∙ e)
    ]
  ]

  pub closed-IsLeft :
      (s : CpufreqPstates D) (g : Group D) (time : D) (c : ℕ) (p : CpufreqPstate D)
      → Tracks s g
      → get_elem? s.pstate c ≡ some p
      → IsLeft (closed s time c p) (leave g time p.freq)
  unfolding closed
  closed-IsLeft s g time c p t at =
      let table = closed-IsTable s time c p at t.table in
      let same = freqs-closed s time c p at in
      let x = elapsed_since s time in
      let has : Has p.freq (freqs s.pstate) =
        Has-get_elem? (freqs s.pstate) c p.freq
          (sym (freq_at-freqs s.pstate c) ∙ ap (map? (λ (q : CpufreqPstate D). q.freq)) at) in
      rw (← t.entered_is) (elim (Bool-cases (d.le (elapsed_since s time) (d.of_int (pos 0)))) [
        | inl e ↦ rw e (record { table = t.table; summaries = t.summaries; listed = t.listed })
        | inr e ↦ rw e (record {
          table = rw e at table;
          summaries = set-Summarises g.log x s.pstate c 0 p at t.table.ascends t.summaries;
          listed = rw (rw e at same) (listed-snoc (freqs s.pstate) g.log p.freq x has t.listed);
        })
      ])
