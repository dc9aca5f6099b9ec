-- ===== src/Cstates.antt =====
-- C-state statistics of a CPU, a core or a cluster: `struct cpuidle_data`, `struct cpuidle_cstate`,
-- `struct cpuidle_cstates`, `struct wakeup_irq` (idlestat.h), and the functions of idlestat.c that
-- begin and end a state. An index outside an array is a fault, `none`; an allocation succeeds.
use idlestat.Base.{
  ℕ, zero, suc, ◌+◌, ◌≡◌, Bool, Option, none, some, List, [], ◌∷◌, ◌++◌, if◌then◌else◌, map?,
  get_elem?, set, take, replicate, ◌&&◌, ◌>>=◌,
}
use idlestat.Base.Int.{ℤ, pos, negsuc, minus_one, ltb_ℤ, leb_ℤ, eq_ℤ, add_ℤ}
use idlestat.Base.Double.{Double, usec_per_sec, min_of, max_of, avg_of}
pub mod Valid
pub mod Safety
pub mod Stays
pub mod Account

abbrev pub maxcstate : ℕ
maxcstate = 16

pub record CpuidleData (D : Type 0) : Type 0 where
  pub begin : D
  pub end : D
  pub duration : D

-- A name is its bytes; the pointer may be null. `stays` is the array `data`, of which the first
-- `nrdata` entries are recorded and one more may be allocated.
pub record CpuidleCstate (D : Type 0) : Type 0 where
  pub name : Option (List ℕ)
  pub stays : List (CpuidleData D)
  pub nrdata : ℕ
  pub early_wakings : ℕ
  pub late_wakings : ℕ
  pub avg_time : D
  pub max_time : D
  pub min_time : D
  pub duration : D
  pub target_residency : ℤ

pub record WakeupIrq : Type 0 where
  pub id : ℤ
  pub name : List ℕ
  pub count : ℕ
  pub early_triggers : ℕ
  pub late_triggers : ℕ

pub data Residency : Type 0 where
  as_expected too_long too_short : Residency

-- `wakeirq`, a pointer into `irqinfo` or null, is an index.
pub record CpuidleCstates (D : Type 0) : Type 0 where
  pub cstate : List (CpuidleCstate D)
  pub irqinfo : List WakeupIrq
  pub current_cstate : ℤ
  pub cstate_max : ℤ
  pub wakeirq : Option ℕ
  pub actual_residency : Residency

-- An element of an array at an `int` index.
abbrev pub elem_at {ℓ} : {A : Type ℓ} → List A → ℤ → Option A
elem_at xs (pos i) = get_elem? xs i
elem_at xs (negsuc _) = none

abbrev pub set_at {ℓ} : {A : Type ℓ} → List A → ℤ → A → List A
set_at xs (pos i) v = set xs i v
set_at xs (negsuc _) v = xs

module _ {D : Type 0} ⦃d : Double D⦄ where
  abbrev pub nothing_recorded : CpuidleData D
  nothing_recorded = record { begin = d.nought; end = d.nought; duration = d.nought }

  -- The new `data` array of `cstate_begin`.
  unfoldable pub open_stay : CpuidleCstate D → D → CpuidleCstate D
  open_stay c time = record c {
    stays = take c.nrdata c.stays ++ (record nothing_recorded { begin = time } ∷ []);
  }

  unfoldable pub cstate_begin : D → ℤ → CpuidleCstates D → Option (CpuidleCstates D)
  unfolding open_stay
  cstate_begin time state s =
      map?
        (λ c. record s {
          cstate = set_at s.cstate state (open_stay c time);
          cstate_max = if ltb_ℤ state s.cstate_max then s.cstate_max else state;
          current_cstate = state;
          wakeirq = none;
        })
        (elem_at s.cstate state)

  -- The counters of a state that was left after `duration` microseconds.
  unfoldable pub add_stay : CpuidleCstate D → D → CpuidleCstate D
  add_stay c duration = record c {
    min_time = min_of c.min_time duration;
    max_time = max_of c.max_time duration;
    avg_time = avg_of c.avg_time duration (c.nrdata + 1);
    duration = d.add c.duration duration;
    nrdata = c.nrdata + 1;
  }

  -- Whether the next deeper state would have been worth it; `tr` is its residency, read only where
  -- there is a deeper state.
  unfoldable pub is_late : D → ℤ → Bool
  is_late duration tr = ltb_ℤ (pos 0) tr && d.le (d.of_int tr) duration

  -- The judgement of a stay: the residency, and the state with its counters.
  unfoldable pub judge_late : CpuidleCstate D → D → ℤ → CpuidleCstate D × Residency
  unfolding is_late
  judge_late c duration tr =
      if is_late duration tr
      then (record c { late_wakings = c.late_wakings + 1 }, too_long)
      else (c, as_expected)

  unfoldable pub judge_next :
      CpuidleCstates D → CpuidleCstate D → D → ℤ → Option (CpuidleCstate D × Residency)
  judge_next s c us next_cstate =
      if leb_ℤ next_cstate s.cstate_max
      then map? (λ n. judge_late c us n.target_residency) (elem_at s.cstate next_cstate)
      else some (c, as_expected)

  unfoldable pub judge :
      CpuidleCstates D → CpuidleCstate D → D → Option (CpuidleCstate D × Residency)
  judge s c us =
      if d.lt us (d.of_int c.target_residency)
      then some (record c { early_wakings = c.early_wakings + 1 }, too_short)
      else judge_next s c us (add_ℤ s.current_cstate (pos 1))

  -- `data[nrdata]`, the stay that is open, once it is over.
  abbrev pub write_stay : CpuidleCstate D → CpuidleData D → CpuidleCstate D
  write_stay c x = record c { stays = set c.stays c.nrdata x }

  -- A stay of a length above 0, in microseconds.
  unfoldable pub finish_stay :
      CpuidleCstates D → CpuidleCstate D → CpuidleData D → D → Option (CpuidleCstates D)
  finish_stay s c x us =
      map?
        (λ r. record s {
          cstate = set_at s.cstate s.current_cstate (add_stay r.0 us);
          actual_residency = r.1;
          current_cstate = minus_one;
        })
        (judge s (write_stay c (record x { duration = us })) us)

  unfoldable pub end_stay :
      D → CpuidleCstates D → CpuidleCstate D → CpuidleData D → Option (CpuidleCstates D)
  end_stay time s c opened =
      let x = record opened { end = time; duration = d.sub time opened.begin } in
      if d.le x.duration (d.of_int (pos 0))
      then some (record s {
        cstate = set_at s.cstate s.current_cstate (write_stay c x);
        current_cstate = minus_one;
      })
      else finish_stay s c x (d.mul x.duration (d.of_int usec_per_sec))

  unfoldable pub cstate_end : D → CpuidleCstates D → Option (CpuidleCstates D)
  cstate_end time s = elem_at s.cstate s.current_cstate >>= λ c.
      get_elem? c.stays c.nrdata >>= λ opened. end_stay time s c opened

  unfoldable pub record_cstate_event : CpuidleCstates D → D → ℤ → Option (CpuidleCstates D)
  record_cstate_event s time state =
      if eq_ℤ state s.current_cstate
      then some s
      else ((if eq_ℤ s.current_cstate minus_one then some s else cstate_end time s) >>= λ t.
          if eq_ℤ state minus_one then some t else cstate_begin time state t)

-- The per-CPU structs before the first event; `name` and `target_residency` come from sysfs, as
-- `cpuidle_cstate_name` and `cpuidle_get_target_residency` read them.
module _ {D : Type 0} ⦃d : Double D⦄ where
  unfoldable pub fresh_cstate : Option (List ℕ) → ℤ → CpuidleCstate D
  fresh_cstate name residency = record {
    name = name;
    stays = [];
    nrdata = 0;
    early_wakings = 0;
    late_wakings = 0;
    avg_time = d.of_int (pos 0);
    max_time = d.of_int (pos 0);
    min_time = d.dbl_max;
    duration = d.of_int (pos 0);
    target_residency = residency;
  }

  abbrev pub idle_cstates : List (CpuidleCstate D) → CpuidleCstates D
  idle_cstates states = record {
    cstate = states;
    irqinfo = [];
    current_cstate = minus_one;
    cstate_max = minus_one;
    wakeirq = none;
    actual_residency = as_expected;
  }

  -- The states `i`, `i + 1`, … of a CPU.
  unfoldable pub fresh_states : (ℕ → Option (List ℕ)) → (ℕ → ℤ) → ℕ → ℕ → List (CpuidleCstate D)
  unfolding fresh_cstate
  fresh_states name residency i zero = []
  fresh_states name residency i (suc n) =
      fresh_cstate (name i) (residency i) ∷ fresh_states name residency (suc i) n

  -- The CPUs `cpu`, `cpu + 1`, ….
  unfoldable pub build_from :
      (ℕ → ℕ → Option (List ℕ)) → (ℕ → ℕ → ℤ) → ℕ → ℕ → List (CpuidleCstates D)
  unfolding fresh_states
  build_from name residency cpu zero = []
  build_from name residency cpu (suc n) =
      idle_cstates (fresh_states (name cpu) (residency cpu) 0 maxcstate)
      ∷ build_from name residency (suc cpu) n

  unfoldable pub build_cstate_info :
      (ℕ → ℕ → Option (List ℕ)) → (ℕ → ℕ → ℤ) → ℕ → List (CpuidleCstates D)
  unfolding build_from
  build_cstate_info name residency nrcpus = build_from name residency 0 nrcpus
