-- ===== src/Pstates/Alloc.antt =====
-- `alloc_pstate` (idlestat.c): the order and the numbers of the table, and the current state when
-- entries move.
use idlestat.Base.{ℕ, ◌+◌, ◌≡◌, refl, some, List, map?, get_elem?_total, arith, ap, ◌∙◌}
use idlestat.Base.Int.{ℤ, pos, negsuc}
use idlestat.Base.Double.{Double}
use idlestat.Pstates.{
  CpufreqPstate, CpufreqPstates, Slot, found, vacant, find_slot, alloc_at, alloc_pstate,
  empty_pstates,
}
use idlestat.Pstates.Table.{
  IsIndex, IsTable, freqs, freq_at, unnumbered, entry_of, current_entry, lt-of_entry_at,
  insert_freq, slot_index, moved, moved_ℤ, placed, slot_table, slot_table-placed, placed-Ascends,
  placed-IsNumbered, freqs-placed, freq_at-placed_index, entry_at-placed-moved,
}

module _ {D : Type 0} ⦃d : Double D⦄ where
  pstate-alloc_at :
      (s : CpufreqPstates D) (freq : ℕ) (slot : Slot)
      → (alloc_at s freq slot).0.pstate ≡ slot_table 0 freq s.pstate slot
  unfolding alloc_at
  pstate-alloc_at s freq (found i) = refl
  pstate-alloc_at s freq (vacant i) = let e : 0 + i ≡ i = omega arith in rw e

  current-alloc_at :
      (s : CpufreqPstates D) (freq : ℕ) (slot : Slot) (c : ℤ)
      → s.current ≡ c
      → ((alloc_at s freq slot).0.current ≡ moved_ℤ slot c)
        × ((alloc_at s freq slot).1 ≡ slot_index slot)
  unfolding alloc_at
  current-alloc_at s freq (found i) (pos c) e = (e, refl)
  current-alloc_at s freq (found i) (negsuc n) e = (e, refl)
  current-alloc_at s freq (vacant i) (pos c) e = ground arith
  current-alloc_at s freq (vacant i) (negsuc n) e = ground arith

  pub pstate-alloc_pstate :
      (s : CpufreqPstates D) (freq : ℕ) → (alloc_pstate s freq).0.pstate ≡ placed 0 freq s.pstate
  unfolding alloc_pstate
  pstate-alloc_pstate s freq =
      pstate-alloc_at s freq (find_slot freq s.pstate) ∙ slot_table-placed 0 freq s.pstate

  pub current-alloc_pstate :
      (s : CpufreqPstates D) (freq : ℕ)
      → (alloc_pstate s freq).0.current ≡ moved_ℤ (find_slot freq s.pstate) s.current
  unfolding alloc_pstate
  current-alloc_pstate s freq = (current-alloc_at s freq (find_slot freq s.pstate) s.current refl).0

  pub alloc_pstate-index :
      (s : CpufreqPstates D) (freq : ℕ)
      → (alloc_pstate s freq).1 ≡ slot_index (find_slot freq s.pstate)
  unfolding alloc_pstate
  alloc_pstate-index s freq = (current-alloc_at s freq (find_slot freq s.pstate) s.current refl).1

  entry_of-placed :
      (freq : ℕ) (ps : List (CpufreqPstate D)) (c : ℤ)
      → entry_of (placed 0 freq ps) (moved_ℤ (find_slot freq ps) c) ≡ entry_of ps c
  entry_of-placed freq ps (pos c) = entry_at-placed-moved 0 freq ps c
  entry_of-placed freq ps (negsuc n) = refl

  IsIndex-placed :
      (freq : ℕ) (ps : List (CpufreqPstate D)) (c : ℤ)
      → IsIndex c ps
      → IsIndex (moved_ℤ (find_slot freq ps) c) (placed 0 freq ps)
  IsIndex-placed freq ps (pos c) h =
      let (p, e) = get_elem?_total ps c h in
      lt-of_entry_at (placed 0 freq ps) (moved (find_slot freq ps) c)
        (entry_at-placed-moved 0 freq ps c ∙ ap (map? unnumbered) e)
  IsIndex-placed freq ps (negsuc n) h = h

  -- On a table, `alloc_pstate` gives a table; the index it returns is that of an entry of the
  -- frequency; the current state is the entry that it was, also where that entry has moved; and
  -- the frequencies of the table are the old ones and the new one, in order, each once.
  pub alloc_pstate_lem :
      (s : CpufreqPstates D) (freq : ℕ)
      → IsTable s
      → let (t, i) = alloc_pstate s freq in
        IsTable t
        × (freq_at t.pstate i ≡ some freq)
        × (current_entry t ≡ current_entry s)
        × (freqs t.pstate ≡ insert_freq freq (freqs s.pstate))
  alloc_pstate_lem s freq h =
      rw (pstate-alloc_pstate s freq, current-alloc_pstate s freq, alloc_pstate-index s freq)
        (
          record {
            ascends =
                rw (pstate-alloc_pstate s freq)
                  (placed-Ascends 0 freq 0 s.pstate (omega arith) h.ascends);
            numbered =
                rw (pstate-alloc_pstate s freq) (placed-IsNumbered 0 freq s.pstate h.numbered);
            index =
                rw (pstate-alloc_pstate s freq, current-alloc_pstate s freq)
                  (IsIndex-placed freq s.pstate s.current h.index);
          },
          freq_at-placed_index 0 freq s.pstate,
          entry_of-placed freq s.pstate s.current,
          freqs-placed 0 freq s.pstate,
        )

  -- The table that `build_pstate_info` gives to each CPU.
  pub empty-IsTable : IsTable (empty_pstates {D = D})
  unfolding empty_pstates
  empty-IsTable = record { ascends = tt; numbered = tt; index = refl }

  -- The search and the insertion touch nothing but the table and `current`.
  pub alloc_pstate-time_enter :
      (s : CpufreqPstates D) (freq : ℕ)
      → ((alloc_pstate s freq).0.time_enter ≡ s.time_enter)
        × ((alloc_pstate s freq).0.idle ≡ s.idle)
  unfolding alloc_pstate
  alloc_pstate-time_enter s freq = go (find_slot freq s.pstate)
    where
      go :
          (slot : Slot)
          → ((alloc_at s freq slot).0.time_enter ≡ s.time_enter)
            × ((alloc_at s freq slot).0.idle ≡ s.idle)
      go (found i) = (refl, refl)
      go (vacant i) = (refl, refl)
