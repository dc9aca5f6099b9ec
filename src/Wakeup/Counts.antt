-- ===== src/Wakeup/Counts.antt =====
-- What `store_irq` (idlestat.c) counts, by interrupt.
use idlestat.Base.{
  ℕ, ◌+◌, ◌≡◌, refl, Option, none, some, List, [], ◌∷◌, if◌then◌else◌, length, ◌≤◌, arith, ap, ◌∙◌,
  ◌≢◌,
}
use idlestat.Base.Int.{ℤ}
use idlestat.Cstates.{WakeupIrq, CpuidleCstates}
use idlestat.Wakeup.{namelen, find_irqinfo, new_irq, count_trigger, enter_irq, add_irq, store_irq}
use idlestat.Wakeup.Entries.{
  tally, same_irq, tally-trigger_at, enter_irq-IsEntered, IsDistinct, early_by, late_by,
  count_trigger_lem,
}

module _ {D : Type 0} where
  -- The counters of an interrupt, summed over its entries, after one more of `irqid`, `irqname`.
  abbrev pub IsCounted : CpuidleCstates D → CpuidleCstates D → ℤ → List ℕ → ℤ → List ℕ → Type 0
  IsCounted s t irqid irqname id name =
      let hit = same_irq irqid irqname id name in
      (tally (λ x. x.count) id name t.irqinfo
        ≡ tally (λ x. x.count) id name s.irqinfo + (if hit then 1 else 0))
      × (tally (λ x. x.early_triggers) id name t.irqinfo
          ≡ tally (λ x. x.early_triggers) id name s.irqinfo
            + (if hit then early_by s.actual_residency else 0))
      × (tally (λ x. x.late_triggers) id name t.irqinfo
          ≡ tally (λ x. x.late_triggers) id name s.irqinfo
            + (if hit then late_by s.actual_residency else 0))

  add_irq-wakeirq :
      (s : CpuidleCstates D) (irqid : ℤ) (irqname : List ℕ)
      → (j : ℕ) × ((add_irq s irqid irqname).wakeirq ≡ some j)
  unfolding add_irq
  add_irq-wakeirq s irqid irqname = (_, refl)

  store_irq_again :
      (s : CpuidleCstates D) (irqid : ℤ) (irqname : List ℕ) (j : ℕ)
      → s.wakeirq ≡ some j
      → store_irq s irqid irqname ≡ s
  unfolding store_irq
  store_irq_again s irqid irqname j e = ground arith

  store_irq_first :
      (s : CpuidleCstates D) (irqid : ℤ) (irqname : List ℕ)
      → s.wakeirq ≡ none
      → store_irq s irqid irqname ≡ add_irq s irqid irqname
  unfolding store_irq
  store_irq_first s irqid irqname e = ground arith

  entered_tally :
      (s : CpuidleCstates D) (irqid : ℤ) (irqname : List ℕ) (f : WakeupIrq → ℕ) (by : ℕ)
      → length irqname ≤ namelen
      → ((x : WakeupIrq) → f (count_trigger s.actual_residency x) ≡ f x + by)
      → f (new_irq irqid irqname) ≡ 0
      → (id : ℤ) (name : List ℕ)
      → tally f id name (add_irq s irqid irqname).irqinfo
        ≡ tally f id name s.irqinfo + (if same_irq irqid irqname id name then by else 0)
  unfolding add_irq
  entered_tally s irqid irqname f by l grows z id name =
      let o = find_irqinfo s.irqinfo irqid irqname in
      let (ys, i) = enter_irq s.irqinfo irqid irqname o in
      let y = enter_irq-IsEntered irqid irqname s.irqinfo o l refl in
      tally-trigger_at f s.actual_residency by grows irqid irqname id name ys i y.found_at
      ∙ ap (λ n. n + (if same_irq irqid irqname id name then by else 0)) (y.same_tally f z id name)

  add_irq-IsDistinct :
      (s : CpuidleCstates D) (irqid : ℤ) (irqname : List ℕ)
      → length irqname ≤ namelen
      → IsDistinct s.irqinfo
      → IsDistinct (add_irq s irqid irqname).irqinfo
  unfolding add_irq
  add_irq-IsDistinct s irqid irqname l h id name =
      let o = find_irqinfo s.irqinfo irqid irqname in
      let (ys, i) = enter_irq s.irqinfo irqid irqname o in
      let y = enter_irq-IsEntered irqid irqname s.irqinfo o l refl in
      ground (
        arith,
        y.distinct h id name,
        tally-trigger_at (λ _. 1) s.actual_residency 0 (λ x. omega arith) irqid irqname id name ys i
            y.found_at,
      )

  -- If no interrupt is noted since the C-state began, the name of the interrupt is at most 16 bytes
  -- long, and there is at most one entry for each interrupt, then `store_irq` counts the interrupt
  -- once, for its number and name alone, and as early or late by how the C-state was judged; there
  -- stays at most one entry for each interrupt, and an entry is noted in `wakeirq`.
  pub store_irq_lem :
      (s : CpuidleCstates D) (irqid : ℤ) (irqname : List ℕ)
      → length irqname ≤ namelen
      → IsDistinct s.irqinfo
      → s.wakeirq ≡ none
      → let t = store_irq s irqid irqname in
        ((id : ℤ) (name : List ℕ) → IsCounted s t irqid irqname id name)
        × IsDistinct t.irqinfo
        × (t.wakeirq ≢ none)
  store_irq_lem s irqid irqname l h e =
      let r = s.actual_residency in
      rw (store_irq_first s irqid irqname e) (
        λ id name. (
          entered_tally s irqid irqname (λ x. x.count) 1 l (λ x. (count_trigger_lem r x).0)
              (unfold new_irq in refl) id name,
          entered_tally s irqid irqname (λ x. x.early_triggers) (early_by r) l
              (λ x. (count_trigger_lem r x).1) (unfold new_irq in refl) id name,
          entered_tally s irqid irqname (λ x. x.late_triggers) (late_by r) l
              (λ x. (count_trigger_lem r x).2) (unfold new_irq in refl) id name,
        ),
        add_irq-IsDistinct s irqid irqname l h,
        λ e. let (j, is) = add_irq-wakeirq s irqid irqname in cc,
      )

  -- A run of interrupts in one wakeup.
  abbrev pub store_irqs : CpuidleCstates D → List (ℤ × List ℕ) → CpuidleCstates D
  store_irqs s [] = s
  store_irqs s ((irqid, irqname) ∷ l) = store_irqs (store_irq s irqid irqname) l

  store_irqs-woken :
      (s : CpuidleCstates D) (l : List (ℤ × List ℕ)) (j : ℕ)
      → s.wakeirq ≡ some j
      → store_irqs s l ≡ s
  store_irqs-woken s [] j e = refl
  store_irqs-woken s ((irqid, irqname) ∷ l) j e =
      rw (store_irq_again s irqid irqname j e) (store_irqs-woken s l j e)

  -- Of the interrupts that arrive before the next C-state begins only the first has any effect,
  -- whether or not one was noted before.
  pub store_irqs_first :
      (s : CpuidleCstates D) (irqid : ℤ) (irqname : List ℕ) (l : List (ℤ × List ℕ))
      → store_irqs s ((irqid, irqname) ∷ l) ≡ store_irq s irqid irqname
  store_irqs_first s irqid irqname l = go s.wakeirq refl
    where
      go :
          (o : Option ℕ)
          → s.wakeirq ≡ o
          → store_irqs (store_irq s irqid irqname) l ≡ store_irq s irqid irqname
      go (some j) e = rw (store_irq_again s irqid irqname j e) (store_irqs-woken s l j e)
      go none e = rw (store_irq_first s irqid irqname e) (
          let (j, is) = add_irq-wakeirq s irqid irqname in
          store_irqs-woken (add_irq s irqid irqname) l j is)
