-- ===== src/Pstates/Merge.antt =====
-- `merge_pstates` (idlestat.c): the frequencies that the trace and the baseline list afterwards.
use mathlib.Core.Logic.{◌⊎◌}
use idlestat.Base.{
  ℕ, suc, ◌≡◌, refl, none, some, List, [], ◌∷◌, length, ◌<◌, ◌≤◌, arith, ◌∙◌, ◌↔◌, sym, inl, inr,
  All,
}
use idlestat.Base.Double.{Double}
use idlestat.Pstates.{
  CpufreqPstate, CpufreqPstates, alloc_pstate, alloc_all, merge_cpu, merge_pstates,
}
use idlestat.Pstates.Table.{Ascends, IsTable, freqs, insert_freq, current_entry}
use idlestat.Pstates.Alloc.{alloc_pstate_lem}

abbrev pub Has : ℕ → List ℕ → Type 0
Has f [] = ⊥
Has f (g ∷ gs) = (g ≡ f) ⊎ Has f gs

abbrev Rises : ℕ → List ℕ → Type 0
Rises lo [] = Unit
Rises lo (f ∷ fs) = (lo ≤ f) × Rises (suc f) fs

Has-ge : (lo f : ℕ) (fs : List ℕ) → Rises lo fs → Has f fs → lo ≤ f
Has-ge lo f [] r h = absurd h
Has-ge lo f (g ∷ gs) r (inl e) = omega arith
Has-ge lo f (g ∷ gs) r (inr h) = omega (arith, Has-ge (suc g) f gs r.1 h)

pub Has-insert : (f g : ℕ) (gs : List ℕ) → Has f (insert_freq g gs) ↔ ((g ≡ f) ⊎ Has f gs)
Has-insert f g [] = (λ h. h, λ h. h)
Has-insert f g (k ∷ ks) = ground (arith, Has-insert f g ks)

Has-tail :
    (f g x : ℕ) (fs gs : List ℕ) → f ≡ g → Rises (suc f) fs → Has x fs → Has x (g ∷ gs) → Has x gs
Has-tail f g x fs gs e r h (inl k) = absurd (omega (arith, Has-ge (suc f) x fs r h))
Has-tail f g x fs gs e r h (inr k) = k

-- Two increasing lists with the same members are the same list.
Rises-eq :
    (lo : ℕ) (fs gs : List ℕ)
    → Rises lo fs
    → Rises lo gs
    → ((f : ℕ) → Has f fs → Has f gs)
    → ((f : ℕ) → Has f gs → Has f fs)
    → fs ≡ gs
Rises-eq lo [] [] r s h k = refl
Rises-eq lo [] (g ∷ gs) r s h k = absurd (k g (inl refl))
Rises-eq lo (f ∷ fs) [] r s h k = absurd (h f (inl refl))
Rises-eq lo (f ∷ fs) (g ∷ gs) r s h k =
    let below : g ≤ f = Has-ge g f (g ∷ gs) (omega arith, s.1) (h f (inl refl)) in
    let above : f ≤ g = Has-ge f g (f ∷ fs) (omega arith, r.1) (k g (inl refl)) in
    let e : f ≡ g = omega arith in
    cc (
      e,
      Rises-eq (suc f) fs gs r.1 (rw e s.1) (λ x m. Has-tail f g x fs gs e r.1 m (h x (inr m)))
          (λ x m. Has-tail g f x gs fs (sym e) s.1 m (k x (inr m))),
    )

module _ {D : Type 0} where
  freqs-Rises : (lo : ℕ) (ps : List (CpufreqPstate D)) → Ascends lo ps → Rises lo (freqs ps)
  freqs-Rises lo [] h = tt
  freqs-Rises lo (p ∷ ps) h = (h.0, freqs-Rises (suc p.freq) ps h.1)

module _ {D : Type 0} ⦃d : Double D⦄ where
  -- The table of `b` after a run over the entries of `a`.
  alloc_all_lem :
      (ps : List (CpufreqPstate D)) (b : CpufreqPstates D)
      → IsTable b
      → IsTable (alloc_all ps b)
        × (current_entry (alloc_all ps b) ≡ current_entry b)
        × ((f : ℕ)
            → Has f (freqs (alloc_all ps b).pstate) ↔ (Has f (freqs ps) ⊎ Has f (freqs b.pstate)))
  unfolding alloc_all
  alloc_all_lem [] b h = (h, refl, λ f. (inr, λ m. elim m [ inl x ↦ absurd x | inr y ↦ y ]))
  alloc_all_lem (p ∷ ps) b h =
      let (table, _, current, added) = alloc_pstate_lem b p.freq h in
      let (table', current', members) = alloc_all_lem ps (alloc_pstate b p.freq).0 table in
      let first : (f : ℕ)
          → Has f (freqs (alloc_pstate b p.freq).0.pstate)
            ↔ ((p.freq ≡ f) ⊎ Has f (freqs b.pstate)) =
        λ f. rw added (Has-insert f p.freq (freqs b.pstate)) in
      (table', current' ∙ current, λ f. ground (arith, members f, first f))

  -- On two tables, the body of `merge_pstates` gives two tables that list the same frequencies, and
  -- leaves the current state of each as it was.
  pub merge_cpu_lem :
      (a b : CpufreqPstates D)
      → IsTable a
      → IsTable b
      → let (a', b') = merge_cpu a b in
        IsTable a'
        × IsTable b'
        × (freqs a'.pstate ≡ freqs b'.pstate)
        × (current_entry a' ≡ current_entry a)
        × (current_entry b' ≡ current_entry b)
  unfolding merge_cpu
  merge_cpu_lem a b ha hb =
      let b' = alloc_all a.pstate b in
      let (tb, cb, mb) = alloc_all_lem a.pstate b hb in
      let (ta, ca, ma) = alloc_all_lem b'.pstate a ha in
      (
        ta,
        tb,
        Rises-eq 0 (freqs (alloc_all b'.pstate a).pstate) (freqs b'.pstate)
            (freqs-Rises 0 _ ta.ascends) (freqs-Rises 0 _ tb.ascends)
            (λ f m. ground (arith, ma f, mb f)) (λ f m. ground (arith, ma f, mb f)),
        ca,
        cb,
      )

  -- The traces of two runs agree on the frequencies of every CPU of the first.
  abbrev pub IsMerged : List (CpufreqPstates D) → List (CpufreqPstates D) → Type 0
  IsMerged [] bs = Unit
  IsMerged (a ∷ as') [] = ⊥
  IsMerged (a ∷ as') (b ∷ bs) =
      IsTable a × IsTable b × (freqs a.pstate ≡ freqs b.pstate) × IsMerged as' bs

  -- If every CPU of the trace and of the baseline has a table, and the baseline has at least as
  -- many CPUs, `merge_pstates` returns, and on every CPU of the trace both tables are well formed
  -- and list the same frequencies.
  pub merge_pstates_lem :
      (as' bs : List (CpufreqPstates D))
      → All IsTable as'
      → All IsTable bs
      → length as' ≤ length bs
      → (r : List (CpufreqPstates D) × List (CpufreqPstates D)) × (merge_pstates as' bs ≡ some r)
        × IsMerged r.0 r.1
  unfolding merge_pstates
  merge_pstates_lem [] bs ha hb l = (([], bs), refl, tt)
  merge_pstates_lem (a ∷ as') [] ha hb l = elim l [ ]
  merge_pstates_lem (a ∷ as') (b ∷ bs) ha hb l =
      let (r, e, m) = merge_pstates_lem as' bs ha.1 hb.1 (omega arith) in
      let (ta, tb, same, _, _) = merge_cpu_lem a b ha.0 hb.0 in
      let (a', b') = merge_cpu a b in ((a' ∷ r.0, b' ∷ r.1), rw e, (ta, tb, same, m))

  -- A baseline with fewer CPUs than the trace is read out of its bounds.
  pub merge_pstates_fault :
      (as' bs : List (CpufreqPstates D)) → length bs < length as' → merge_pstates as' bs ≡ none
  unfolding merge_pstates
  merge_pstates_fault [] bs l = elim l [ ]
  merge_pstates_fault (a ∷ as') [] l = refl
  merge_pstates_fault (a ∷ as') (b ∷ bs) l = rw (merge_pstates_fault as' bs (omega arith))
