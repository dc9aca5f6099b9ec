-- ===== src/Cstates/Account.antt =====
-- The counters of a C-state (idlestat.c: `cstate_begin`, `cstate_end`, `record_cstate_event`)
-- against the stays that its array `data` records.
use idlestat.Base.{
  ℕ, zero, suc, ◌≡◌, refl, Option, none, some, List, if◌then◌else◌, map?, get_elem?, length, ◌<◌,
  arith, ap, inl, inr, All, Bool-cases, ◌>>=◌, Option-cases, lt-of_get_elem?,
}
use idlestat.Base.Int.{ℤ, pos, minus_one, eq_ℤ}
use idlestat.Base.Double.{Double, usec_per_sec}
use idlestat.Summary.{IsSummary-nil}
use idlestat.Cstates.{
  maxcstate, CpuidleData, CpuidleCstate, CpuidleCstates, Residency, elem_at, set_at, open_stay,
  cstate_begin, add_stay, judge, write_stay, finish_stay, end_stay, cstate_end, record_cstate_event,
  fresh_states, build_from, build_cstate_info,
}
use idlestat.Cstates.Valid.{IsState, IsStateNumber, IsValid}
use idlestat.Cstates.Safety.{record_cstate_event-IsValid}
use idlestat.Cstates.Stays.{
  IsAccount, open_stay-IsAccount, write_stay-IsAccount, judge-SameStays, add_stay-IsAccount,
  set_at-All, elem_at-All,
}

module _ {D : Type 0} ⦃d : Double D⦄ where
  abbrev Accounts : CpuidleCstates D → Type 0
  Accounts s = All IsAccount s.cstate

  -- A step that may fault keeps the accounts wherever it returns.
  abbrev Keeps : Option (CpuidleCstates D) → Type 0
  Keeps none = Unit
  Keeps (some t) = Accounts t

  finish_stay-Keeps :
      (s : CpuidleCstates D) (c : CpuidleCstate D) (x : CpuidleData D) (us : D)
      → Accounts s
      → IsAccount c
      → c.nrdata < length c.stays
      → Keeps (finish_stay s c x us)
  unfolding finish_stay
  finish_stay-Keeps s c x us h ok_c l =
      go (judge s (write_stay c (record x { duration = us })) us) refl
    where
      go :
          (o : Option (CpuidleCstate D × Residency))
          → judge s (write_stay c (record x { duration = us })) us ≡ o
          → Keeps (
              map?
                (λ r. record s {
                  cstate = set_at s.cstate s.current_cstate (add_stay r.0 us);
                  actual_residency = r.1;
                  current_cstate = minus_one;
                })
                o)
      go none e = tt
      go (some r) e = set_at-All IsAccount s.cstate s.current_cstate (add_stay r.0 us) h (
          add_stay-IsAccount c r.0 (record x { duration = us }) ok_c l
            (judge-SameStays s (write_stay c (record x { duration = us })) us r e))

  end_stay-Keeps :
      (time : D) (s : CpuidleCstates D) (c : CpuidleCstate D) (x : CpuidleData D)
      → Accounts s
      → IsAccount c
      → c.nrdata < length c.stays
      → Keeps (end_stay time s c x)
  unfolding end_stay
  end_stay-Keeps time s c x h ok_c l =
      let y = record x { end = time; duration = d.sub time x.begin } in
      elim (Bool-cases (d.le y.duration (d.of_int (pos 0)))) [
        | inl e ↦ rw e (
            set_at-All IsAccount s.cstate s.current_cstate (write_stay c y) h
              (write_stay-IsAccount c y ok_c))
        | inr e ↦ rw e (finish_stay-Keeps s c y (d.mul y.duration (d.of_int usec_per_sec)) h ok_c l)
      ]

  cstate_end-Keeps : (time : D) (s : CpuidleCstates D) → Accounts s → Keeps (cstate_end time s)
  unfolding cstate_end
  cstate_end-Keeps time s h = elim (Option-cases (elem_at s.cstate s.current_cstate)) [
    | inl e ↦ rw e tt
    | inr (c, e) ↦ rw e (elim (Option-cases (get_elem? c.stays c.nrdata)) [
      | inl n ↦ rw n tt
      | inr (x, m) ↦ rw m (
          end_stay-Keeps time s c x h (elem_at-All IsAccount s.cstate s.current_cstate c h e)
            (lt-of_get_elem? c.stays c.nrdata m))
    ])
  ]

  cstate_begin-Keeps :
      (time : D) (state : ℤ) (s : CpuidleCstates D) → Accounts s → Keeps (cstate_begin time state s)
  unfolding cstate_begin
  cstate_begin-Keeps time state s h = elim (Option-cases (elem_at s.cstate state)) [
    | inl e ↦ rw e tt
    | inr (c, e) ↦ rw e (
        set_at-All IsAccount s.cstate state (open_stay c time) h
          (open_stay-IsAccount c time (elem_at-All IsAccount s.cstate state c h e)))
  ]

  record_cstate_event-Keeps :
      (s : CpuidleCstates D) (time : D) (state : ℤ)
      → Accounts s
      → Keeps (record_cstate_event s time state)
  unfolding record_cstate_event
  record_cstate_event-Keeps s time state h = elim (Bool-cases (eq_ℤ state s.current_cstate)) [
    | inl e ↦ rw e h
    | inr e ↦
        rw e (after (if eq_ℤ s.current_cstate minus_one then some s else cstate_end time s) first)
  ]
    where
      first : Keeps (if eq_ℤ s.current_cstate minus_one then some s else cstate_end time s)
      first = elim (Bool-cases (eq_ℤ s.current_cstate minus_one)) [
        | inl k ↦ rw k h
        | inr k ↦ rw k (cstate_end-Keeps time s h)
      ]

      after :
          (o : Option (CpuidleCstates D))
          → Keeps o
          → Keeps (o >>= λ t. if eq_ℤ state minus_one then some t else cstate_begin time state t)
      after none k = tt
      after (some t) k = elim (Bool-cases (eq_ℤ state minus_one)) [
        | inl m ↦ rw m k
        | inr m ↦ rw m (cstate_begin-Keeps time state t k)
      ]

  -- For a valid CPU whose counters account for its recorded stays, `record_cstate_event` with a
  -- state from -1 to 15 returns, and afterwards too `nrdata`, `min_time`, `max_time`, `avg_time` and
  -- `duration` of every state are the count, minimum, maximum, running average and sum of the
  -- stays that the state records.
  pub record_cstate_event-IsAccount :
      (s : CpuidleCstates D) (time : D) (state : ℤ)
      → IsValid s
      → All IsAccount s.cstate
      → IsStateNumber state
      → (t : CpuidleCstates D) × (record_cstate_event s time state ≡ some t)
        × All IsAccount t.cstate
  record_cstate_event-IsAccount s time state v h l =
      let (t, e, _, _) = record_cstate_event-IsValid s time state v l in
      (t, e, rw e at (record_cstate_event-Keeps s time state h))

module _ (D : Type 0) ⦃d : Double D⦄ where
  fresh_states-IsAccount :
      (name : ℕ → Option (List ℕ)) (residency : ℕ → ℤ) (i n : ℕ)
      → All IsAccount (fresh_states {D = D} name residency i n)
  unfolding fresh_states
  fresh_states-IsAccount name residency i zero = tt
  fresh_states-IsAccount name residency i (suc n) = (
    record { room = omega arith; summary = IsSummary-nil },
    fresh_states-IsAccount name residency (suc i) n,
  )

  fresh_states-IsState :
      (name : ℕ → Option (List ℕ)) (residency : ℕ → ℤ) (i n : ℕ)
      → All IsState (fresh_states {D = D} name residency i n)
        × (length (fresh_states {D = D} name residency i n) ≡ n)
  unfolding fresh_states
  fresh_states-IsState name residency i zero = (tt, refl)
  fresh_states-IsState name residency i (suc n) =
      let (states, sized) = fresh_states-IsState name residency (suc i) n in
      ((omega arith, states), ap suc sized)

  -- Every CPU of `build_cstate_info` is valid and accounts for the stays that it records (none).
  pub build_cstate_info-IsValid :
      (name : ℕ → ℕ → Option (List ℕ)) (residency : ℕ → ℕ → ℤ) (nrcpus : ℕ)
      → All
          (λ s. IsValid s × All IsAccount s.cstate)
          (build_cstate_info {D = D} name residency nrcpus)
        × (length (build_cstate_info {D = D} name residency nrcpus) ≡ nrcpus)
  unfolding build_cstate_info
  build_cstate_info-IsValid name residency nrcpus = go 0 nrcpus
    where
      go :
          (cpu n : ℕ)
          → All (λ s. IsValid s × All IsAccount s.cstate) (build_from {D = D} name residency cpu n)
            × (length (build_from {D = D} name residency cpu n) ≡ n)
      go cpu zero = (tt, refl)
      go cpu (suc n) =
          let (states, sized) = fresh_states-IsState (name cpu) (residency cpu) 0 maxcstate in
          let (rest, count) = go (suc cpu) n in
          (
            (
              (
                record { states = states; sized = sized; deepest = refl; opened = refl },
                fresh_states-IsAccount (name cpu) (residency cpu) 0 maxcstate,
              ),
              rest,
            ),
            ap suc count,
          )
