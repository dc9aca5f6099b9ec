-- ===== src/Wakeup.antt =====
-- The wakeup statistics of a CPU: `find_irqinfo` and `store_irq` (idlestat.c). The lookup of the
-- CPU's own statistics in the array of all CPUs is in Datas.
use idlestat.Base.{
  ℕ, suc, ◌+◌, ◌≡◌, Bool, Option, none, some, List, [], ◌∷◌, ◌++◌, if◌then◌else◌, map?, get_elem?,
  set, take, ◌&&◌, length, eq_bytes,
}
use idlestat.Base.Int.{ℤ, eq_ℤ}
use idlestat.Cstates.{WakeupIrq, CpuidleCstates, Residency, as_expected, too_long, too_short}
pub mod Entries
pub mod Counts

abbrev pub namelen : ℕ
namelen = 16

unfoldable pub is_irq : ℤ → List ℕ → WakeupIrq → Bool
is_irq irqid irqname x = eq_ℤ x.id irqid && eq_bytes x.name irqname

-- The index of the entry, or null.
unfoldable pub find_irqinfo : List WakeupIrq → ℤ → List ℕ → Option ℕ
find_irqinfo [] irqid irqname = none
find_irqinfo (x ∷ xs) irqid irqname =
    if is_irq irqid irqname x then some 0 else map? (λ i. suc i) (find_irqinfo xs irqid irqname)

-- A new entry; `strncpy` and the final NUL keep 16 bytes of the name.
unfoldable pub new_irq : ℤ → List ℕ → WakeupIrq
new_irq irqid irqname = record {
  id = irqid;
  name = take namelen irqname;
  count = 0;
  early_triggers = 0;
  late_triggers = 0;
}

unfoldable pub count_trigger : Residency → WakeupIrq → WakeupIrq
count_trigger too_short x = record x { count = x.count + 1; early_triggers = x.early_triggers + 1 }
count_trigger too_long x = record x { count = x.count + 1; late_triggers = x.late_triggers + 1 }
count_trigger as_expected x = record x { count = x.count + 1 }

-- The trigger is counted in the entry at the index, which is the last one if it is new.
unfoldable pub trigger_at : Residency → List WakeupIrq → ℕ → List WakeupIrq
trigger_at r [] i = []
trigger_at r (x ∷ xs) i = elim i [
  | ℕ.zero ↦ count_trigger r x ∷ xs
  | ℕ.suc j ↦ x ∷ trigger_at r xs j
]

-- The list with the entry in it, and its index.
unfoldable pub enter_irq : List WakeupIrq → ℤ → List ℕ → Option ℕ → List WakeupIrq × ℕ
enter_irq xs irqid irqname (some i) = (xs, i)
enter_irq xs irqid irqname none = (xs ++ (new_irq irqid irqname ∷ []), length xs)

module _ {D : Type 0} where
  unfoldable pub add_irq : CpuidleCstates D → ℤ → List ℕ → CpuidleCstates D
  add_irq s irqid irqname =
      let (irqs, i) = enter_irq s.irqinfo irqid irqname (find_irqinfo s.irqinfo irqid irqname) in
      record s { irqinfo = trigger_at s.actual_residency irqs i; wakeirq = some i }

  -- Only the first interrupt after a C-state is counted.
  unfoldable pub store_irq : CpuidleCstates D → ℤ → List ℕ → CpuidleCstates D
  store_irq s irqid irqname = elim (s.wakeirq) [ some _ ↦ s | none ↦ add_irq s irqid irqname ]
