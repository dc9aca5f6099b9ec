-- ===== src/Pstates.antt =====
-- P-state statistics of a CPU, a core or a cluster: `struct cpufreq_pstate`, `struct
-- cpufreq_pstates` (idlestat.h) and the functions of idlestat.c that allocate, open and close
-- states. The array `pstate` with its length `max` is a list; an allocation succeeds.
use idlestat.Base.{
  ℕ, suc, ◌+◌, ◌≡◌, Bool, Option, none, some, List, [], ◌∷◌, ◌++◌, ltb, leb, ◌==◌, if◌then◌else◌,
  map?, length, get_elem?, set, take, drop, replicate, ◌<◌, ◌≤◌, map,
}
use idlestat.Base.Int.{ℤ, pos, negsuc, minus_one, leb_ℤ, eq_ℤ, add_ℤ}
use idlestat.Base.Double.{Double, usec_per_sec, min_of, max_of, avg_of}
pub mod Table
pub mod Alloc
pub mod Group
pub mod Total
pub mod Merge
pub mod Stats

pub record CpufreqPstate (D : Type 0) : Type 0 where
  pub id : ℕ
  pub freq : ℕ
  pub count : ℕ
  pub min_time : D
  pub max_time : D
  pub avg_time : D
  pub duration : D

pub record CpufreqPstates (D : Type 0) : Type 0 where
  pub pstate : List (CpufreqPstate D)
  pub current : ℤ
  pub idle : ℤ
  pub time_enter : D
  pub time_exit : D

-- Where the search loop of `alloc_pstate` stops: at an entry for the frequency, or at the index at
-- which one has to be inserted.
pub data Slot : Type 0 where
  found : ℕ → Slot
  vacant : ℕ → Slot

abbrev pub next_slot : Slot → Slot
next_slot (found i) = found (suc i)
next_slot (vacant i) = vacant (suc i)

module _ {D : Type 0} where
  unfoldable pub find_slot : ℕ → List (CpufreqPstate D) → Slot
  find_slot freq [] = vacant 0
  find_slot freq (p ∷ ps) =
      if ltb freq p.freq
      then vacant 0
      else if p.freq == freq
      then found 0
      else next_slot (find_slot freq ps)

  -- `pstate[i].id = i` from an index on.
  unfoldable pub renumber : ℕ → List (CpufreqPstate D) → List (CpufreqPstate D)
  renumber i [] = []
  renumber i (p ∷ ps) = record p { id = i } ∷ renumber (suc i) ps

module _ {D : Type 0} ⦃d : Double D⦄ where
  unfoldable pub fresh_pstate : ℕ → ℕ → CpufreqPstate D
  fresh_pstate i freq = record {
    id = i;
    freq = freq;
    count = 0;
    min_time = d.dbl_max;
    max_time = d.of_int (pos 0);
    avg_time = d.of_int (pos 0);
    duration = d.of_int (pos 0);
  }

  -- `realloc`, `memmove`, the renumbering and the initialisation of the new entry.
  unfoldable pub insert_pstate : ℕ → ℕ → List (CpufreqPstate D) → List (CpufreqPstate D)
  unfolding fresh_pstate
  insert_pstate next freq ps =
      take next ps ++ (fresh_pstate next freq ∷ renumber (suc next) (drop next ps))

  unfoldable pub alloc_at : CpufreqPstates D → ℕ → Slot → CpufreqPstates D × ℕ
  unfolding insert_pstate
  alloc_at ps freq (found i) = (ps, i)
  alloc_at ps freq (vacant next) = (
    record ps {
      pstate = insert_pstate next freq ps.pstate;
      current = if leb_ℤ (pos next) ps.current then add_ℤ ps.current (pos 1) else ps.current;
    },
    next,
  )

  unfoldable pub alloc_pstate : CpufreqPstates D → ℕ → CpufreqPstates D × ℕ
  unfolding alloc_at find_slot
  alloc_pstate ps freq = alloc_at ps freq (find_slot freq ps.pstate)

  unfoldable pub empty_pstates : CpufreqPstates D
  empty_pstates = record {
    pstate = [];
    current = minus_one;
    idle = minus_one;
    time_enter = d.nought;
    time_exit = d.nought;
  }

  unfoldable pub build_pstate_info : ℕ → List (CpufreqPstates D)
  unfolding empty_pstates
  build_pstate_info nrcpus = replicate nrcpus empty_pstates

  unfoldable pub open_current_pstate : CpufreqPstates D → D → CpufreqPstates D
  open_current_pstate ps time = record ps { time_enter = time }

  unfoldable pub open_next_pstate : CpufreqPstates D → ℤ → D → CpufreqPstates D
  unfolding open_current_pstate
  open_next_pstate ps s time = open_current_pstate (record ps { current = s }) time

  -- `elapsed`, in microseconds.
  abbrev pub elapsed_since : CpufreqPstates D → D → D
  elapsed_since ps time = d.mul (d.sub time ps.time_enter) (d.of_int usec_per_sec)

  -- A state that has been left after `elapsed`.
  unfoldable pub add_sample : CpufreqPstate D → D → CpufreqPstate D
  add_sample p elapsed = record p {
    min_time = min_of p.min_time elapsed;
    max_time = max_of p.max_time elapsed;
    avg_time = avg_of p.avg_time elapsed (p.count + 1);
    duration = d.add p.duration elapsed;
    count = p.count + 1;
  }

  -- `&(ps->pstate[c])` is a fault where `c` is no index.
  unfoldable pub current_pstate : CpufreqPstates D → Option (CpufreqPstate D)
  current_pstate ps = elim (ps.current) [ pos c ↦ get_elem? ps.pstate c | negsuc _ ↦ none ]

  abbrev pub put_current : CpufreqPstates D → CpufreqPstate D → CpufreqPstates D
  put_current ps p = elim (ps.current) [
    | pos c ↦ record ps { pstate = set ps.pstate c p }
    | negsuc _ ↦ ps
  ]

  -- The pointer is read only behind the test of `elapsed`.
  unfoldable pub close_current_pstate : CpufreqPstates D → D → Option (CpufreqPstates D)
  unfolding add_sample current_pstate
  close_current_pstate ps time =
      let elapsed = elapsed_since ps time in
      if d.le elapsed (d.of_int (pos 0))
      then some ps
      else map? (λ p. put_current ps (add_sample p elapsed)) (current_pstate ps)

  -- The tail of `record_group_freq`, after the allocation; `cur` is `current` before it.
  unfoldable pub switch_group : CpufreqPstates D → D → ℤ → ℤ → Option (CpufreqPstates D)
  switch_group ps time cur next =
      if eq_ℤ cur next
      then some ps
      else if eq_ℤ cur minus_one
      then some (if eq_ℤ next minus_one then ps else open_next_pstate ps next time)
      else map?
          (λ qs.
            let rs = record qs { current = next } in
            if eq_ℤ next minus_one then rs else open_current_pstate rs time)
          (close_current_pstate ps time)

  unfoldable pub record_group_freq : CpufreqPstates D → D → ℕ → Option (CpufreqPstates D)
  record_group_freq ps time freq =
      if ltb 0 freq
      then (let (qs, next) = alloc_pstate ps freq in switch_group qs time ps.current (pos next))
      else switch_group ps time ps.current minus_one

  -- One direction of `merge_pstates` on a CPU: an entry of `b` for every frequency of `a`.
  unfoldable pub alloc_all : List (CpufreqPstate D) → CpufreqPstates D → CpufreqPstates D
  unfolding alloc_pstate
  alloc_all [] b = b
  alloc_all (p ∷ ps) b = alloc_all ps (alloc_pstate b p.freq).0

  -- The body of the loop of `merge_pstates`.
  unfoldable pub merge_cpu :
      CpufreqPstates D → CpufreqPstates D → CpufreqPstates D × CpufreqPstates D
  unfolding alloc_all
  merge_cpu a b = let b' = alloc_all a.pstate b in (alloc_all b'.pstate a, b')

  -- The loop over the CPUs of the trace; a baseline with fewer CPUs is read out of its bounds.
  unfoldable pub merge_pstates :
      List (CpufreqPstates D)
      → List (CpufreqPstates D)
      → Option (List (CpufreqPstates D) × List (CpufreqPstates D))
  unfolding merge_cpu
  merge_pstates [] bs = some ([], bs)
  merge_pstates (a ∷ as') [] = none
  merge_pstates (a ∷ as') (b ∷ bs) =
      let (a', b') = merge_cpu a b in map? (λ r. (a' ∷ r.0, b' ∷ r.1)) (merge_pstates as' bs)
