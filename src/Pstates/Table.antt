-- ===== src/Pstates/Table.antt =====
-- What a table of P-states is, and the table after `alloc_pstate` (idlestat.c) by recursion on it.
use native.Mathlib.Numerals.{add-one}
use idlestat.Base.{
  ℕ, zero, suc, ◌+◌, ◌≡◌, refl, Option, none, some, List, [], ◌∷◌, ◌++◌, ltb, leb, ◌==◌,
  if◌then◌else◌, map?, length, get_elem?, take, drop, ◌<◌, ◌≤◌, arith, ap, ◌∙◌, Bool-cases, inl,
  inr,
}
use idlestat.Base.Int.{ℤ, pos, negsuc}
use idlestat.Base.Double.{Double}
use idlestat.Pstates.{
  CpufreqPstate, CpufreqPstates, Slot, found, vacant, find_slot, renumber, fresh_pstate, next_slot,
}

module _ {D : Type 0} where
  -- The frequencies increase strictly, and none is below `lo`.
  abbrev pub Ascends : ℕ → List (CpufreqPstate D) → Type 0
  Ascends lo [] = Unit
  Ascends lo (p ∷ ps) = (lo ≤ p.freq) × Ascends (suc p.freq) ps

  -- The entries are numbered from `i`.
  abbrev pub IsNumbered : ℕ → List (CpufreqPstate D) → Type 0
  IsNumbered i [] = Unit
  IsNumbered i (p ∷ ps) = (p.id ≡ i) × IsNumbered (suc i) ps

  -- `current` is -1 or an index of the table.
  abbrev pub IsIndex : ℤ → List (CpufreqPstate D) → Type 0
  IsIndex (pos c) ps = c < length ps
  IsIndex (negsuc n) ps = n ≡ 0

  pub record IsTable (s : CpufreqPstates D) : Type 0 where
    pub ascends : Ascends 0 s.pstate
    pub numbered : IsNumbered 0 s.pstate
    pub index : IsIndex s.current s.pstate

  abbrev pub freqs : List (CpufreqPstate D) → List ℕ
  freqs [] = []
  freqs (p ∷ ps) = p.freq ∷ freqs ps

  -- The frequency of the entry at an index, and that of the current state.
  abbrev pub freq_at : List (CpufreqPstate D) → ℕ → Option ℕ
  freq_at ps i = map? (λ p. p.freq) (get_elem? ps i)

  -- An entry but for its number, at an index and for the current state.
  abbrev pub unnumbered : CpufreqPstate D → CpufreqPstate D
  unnumbered p = record p { id = 0 }

  abbrev pub entry_at : List (CpufreqPstate D) → ℕ → Option (CpufreqPstate D)
  entry_at ps i = map? unnumbered (get_elem? ps i)

  abbrev pub entry_of : List (CpufreqPstate D) → ℤ → Option (CpufreqPstate D)
  entry_of ps (pos c) = entry_at ps c
  entry_of ps (negsuc _) = none

  abbrev pub current_entry : CpufreqPstates D → Option (CpufreqPstate D)
  current_entry s = entry_of s.pstate s.current

  pub lt-of_entry_at :
      (ps : List (CpufreqPstate D)) (i : ℕ) {p : CpufreqPstate D}
      → entry_at ps i ≡ some p
      → i < length ps
  lt-of_entry_at [] i h = ground arith
  lt-of_entry_at (x ∷ xs) zero h = omega arith
  lt-of_entry_at (x ∷ xs) (suc i) h = omega (arith, lt-of_entry_at xs i h)

-- The specification: insertion into an increasing list, a set of frequencies.
abbrev pub insert_freq : ℕ → List ℕ → List ℕ
insert_freq f [] = f ∷ []
insert_freq f (g ∷ gs) =
    if ltb f g then f ∷ g ∷ gs else if g == f then g ∷ gs else g ∷ insert_freq f gs

abbrev pub slot_index : Slot → ℕ
slot_index (found i) = i
slot_index (vacant i) = i

-- The index of an old entry after the call.
abbrev pub moved : Slot → ℕ → ℕ
moved (found i) c = c
moved (vacant i) c = if leb i c then c + 1 else c

pub slot_index-next : (s : Slot) → slot_index (next_slot s) ≡ suc (slot_index s)
slot_index-next (found i) = refl
slot_index-next (vacant i) = refl

pub moved-next : (s : Slot) (c : ℕ) → moved (next_slot s) (suc c) ≡ suc (moved s c)
moved-next (found i) c = refl
moved-next (vacant i) c = ground arith

pub moved-next_zero : (s : Slot) → moved (next_slot s) zero ≡ zero
moved-next_zero (found i) = refl
moved-next_zero (vacant i) = ground arith

abbrev pub moved_ℤ : Slot → ℤ → ℤ
moved_ℤ slot (pos c) = pos (moved slot c)
moved_ℤ slot (negsuc n) = negsuc n

module _ {D : Type 0} ⦃d : Double D⦄ where
  pub freqs-renumber : (i : ℕ) (ps : List (CpufreqPstate D)) → freqs (renumber i ps) ≡ freqs ps
  unfolding renumber
  freqs-renumber i [] = refl
  freqs-renumber i (p ∷ ps) = ap (◌∷◌ p.freq) (freqs-renumber (suc i) ps)

  pub length-renumber : (i : ℕ) (ps : List (CpufreqPstate D)) → length (renumber i ps) ≡ length ps
  unfolding renumber
  length-renumber i [] = refl
  length-renumber i (p ∷ ps) = ap suc (length-renumber (suc i) ps)

  pub renumber-Ascends :
      (i lo : ℕ) (ps : List (CpufreqPstate D)) → Ascends lo ps → Ascends lo (renumber i ps)
  unfolding renumber
  renumber-Ascends i lo [] h = tt
  renumber-Ascends i lo (p ∷ ps) h = (h.0, renumber-Ascends (suc i) (suc p.freq) ps h.1)

  pub renumber-IsNumbered : (i : ℕ) (ps : List (CpufreqPstate D)) → IsNumbered i (renumber i ps)
  unfolding renumber
  renumber-IsNumbered i [] = tt
  renumber-IsNumbered i (p ∷ ps) = (refl, renumber-IsNumbered (suc i) ps)

  pub entry_at-renumber :
      (i k : ℕ) (ps : List (CpufreqPstate D)) → entry_at (renumber i ps) k ≡ entry_at ps k
  unfolding renumber
  entry_at-renumber i k [] = refl
  entry_at-renumber i zero (p ∷ ps) = refl
  entry_at-renumber i (suc k) (p ∷ ps) = entry_at-renumber (suc i) k ps

  -- The table after the call, by recursion on it; `base` is the number of its first entry.
  abbrev pub placed : ℕ → ℕ → List (CpufreqPstate D) → List (CpufreqPstate D)
  placed base freq [] = fresh_pstate base freq ∷ []
  placed base freq (p ∷ ps) =
      if ltb freq p.freq
      then fresh_pstate base freq ∷ renumber (suc base) (p ∷ ps)
      else if p.freq == freq
      then p ∷ ps
      else p ∷ placed (suc base) freq ps

  abbrev pub slot_table : ℕ → ℕ → List (CpufreqPstate D) → Slot → List (CpufreqPstate D)
  slot_table base freq ps (found i) = ps
  slot_table base freq ps (vacant i) =
      take i ps ++ (fresh_pstate (base + i) freq ∷ renumber (suc (base + i)) (drop i ps))

  pub slot_table-next :
      (base freq : ℕ) (p : CpufreqPstate D) (ps : List (CpufreqPstate D)) (s : Slot)
      → slot_table base freq (p ∷ ps) (next_slot s) ≡ p ∷ slot_table (suc base) freq ps s
  slot_table-next base freq p ps (found i) = refl
  slot_table-next base freq p ps (vacant i) =
      let e : base + suc i ≡ suc base + i = omega arith in rw e

  pub slot_table-placed :
      (base freq : ℕ) (ps : List (CpufreqPstate D))
      → slot_table base freq ps (find_slot freq ps) ≡ placed base freq ps
  unfolding find_slot renumber
  slot_table-placed base freq [] = let e : base + 0 ≡ base = omega arith in rw e
  slot_table-placed base freq (p ∷ ps) =
      let e : base + 0 ≡ base = omega arith in
      elim (Bool-cases (ltb freq p.freq)) [
        | inl h ↦ rw (h, e)
        | inr h ↦ elim (Bool-cases (p.freq == freq)) [
          | inl k ↦ rw (h, k)
          | inr k ↦
              rw (h, k)
                (slot_table-next base freq p ps (find_slot freq ps)
                  ∙ ap (◌∷◌ p) (slot_table-placed (suc base) freq ps))
        ]
      ]

  pub placed-Ascends :
      (base freq lo : ℕ) (ps : List (CpufreqPstate D))
      → lo ≤ freq
      → Ascends lo ps
      → Ascends lo (placed base freq ps)
  unfolding fresh_pstate renumber
  placed-Ascends base freq lo [] l h = (l, tt)
  placed-Ascends base freq lo (p ∷ ps) l h = ground (
    arith,
    placed-Ascends (suc base) freq (suc p.freq) ps,
    renumber-Ascends (suc (suc base)) (suc p.freq) ps,
  )

  pub placed-IsNumbered :
      (base freq : ℕ) (ps : List (CpufreqPstate D))
      → IsNumbered base ps
      → IsNumbered base (placed base freq ps)
  unfolding fresh_pstate renumber
  placed-IsNumbered base freq [] h = (refl, tt)
  placed-IsNumbered base freq (p ∷ ps) h =
      ground (arith, placed-IsNumbered (suc base) freq ps, renumber-IsNumbered (suc (suc base)) ps)

  pub freqs-placed :
      (base freq : ℕ) (ps : List (CpufreqPstate D))
      → freqs (placed base freq ps) ≡ insert_freq freq (freqs ps)
  unfolding fresh_pstate renumber
  freqs-placed base freq [] = refl
  freqs-placed base freq (p ∷ ps) =
      ground (arith, freqs-placed (suc base) freq ps, freqs-renumber (suc (suc base)) ps)

  pub freq_at-placed_index :
      (base freq : ℕ) (ps : List (CpufreqPstate D))
      → freq_at (placed base freq ps) (slot_index (find_slot freq ps)) ≡ some freq
  unfolding find_slot fresh_pstate renumber
  freq_at-placed_index base freq [] = refl
  freq_at-placed_index base freq (p ∷ ps) =
      ground (arith, slot_index-next (find_slot freq ps), freq_at-placed_index (suc base) freq ps)

  pub entry_at-placed-moved :
      (base freq : ℕ) (ps : List (CpufreqPstate D)) (c : ℕ)
      → entry_at (placed base freq ps) (moved (find_slot freq ps) c) ≡ entry_at ps c
  unfolding find_slot fresh_pstate renumber
  entry_at-placed-moved base freq [] c = ground (arith, add-one c)
  entry_at-placed-moved base freq (p ∷ ps) zero =
      ground (arith, moved-next_zero (find_slot freq ps))
  entry_at-placed-moved base freq (p ∷ ps) (suc c) = ground (
    arith,
    add-one (suc c),
    entry_at-renumber (suc (suc base)) c ps,
    moved-next (find_slot freq ps) c,
    entry_at-placed-moved (suc base) freq ps c,
  )
